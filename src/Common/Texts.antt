-- ===== src/Common/Texts.antt =====
-- Text as the list of its UTF-8 bytes (`Text`), with the parts of the standard library that the
-- program uses on it: equality, `Display` of unsigned numbers, prefixes.
use Prim.Native.Nat.{ℕ, zero, suc, ◌+◌, ◌/◌, ◌%◌}
use Prim.Native.Char.{code}
use Prim.Native.String.{String}
use mathlib.Core.Path.{◌≡◌}
use mathlib.Core.Logic.{◌↔◌}
use mathlib.Core.Bool.{Bool, true, false, ◌&&◌}
use mathlib.Core.List.{List, [], ◌∷◌, ◌++◌}
use native.Mathlib.Omega.{arith}
use clawpot.Common.Tests.{ltb, ◌==◌, if◌then◌else◌}

abbrev pub Text : Type 0
Text = List ℕ

-- The bytes of an ASCII literal.
abbrev pub codes : String → Text
codes String.[] = []
codes (String.◌∷◌ c s) = code c ∷ codes s

unfoldable pub text_eq : Text → Text → Bool
text_eq [] [] = true
text_eq [] (y ∷ ys) = false
text_eq (x ∷ xs) [] = false
text_eq (x ∷ xs) (y ∷ ys) = x == y && text_eq xs ys

pub text_eq_iff : (s t : Text) → (text_eq s t ≡ true) ↔ (s ≡ t)
unfolding text_eq
text_eq_iff [] [] = ground arith
text_eq_iff [] (y ∷ ys) = ground arith
text_eq_iff (x ∷ xs) [] = ground arith
text_eq_iff (x ∷ xs) (y ∷ ys) = ground (arith, text_eq_iff xs ys)

-- Decimal digits; fuel above the number is enough, since each round divides it by ten.
unfoldable pub dec_from : ℕ → ℕ → Text
dec_from zero n = []
dec_from (suc fuel) n =
    let more = dec_from fuel (n / 10) ++ (48 + n % 10) ∷ [] in
    if ltb n 10 then (48 + n) ∷ [] else more

unfoldable pub dec : ℕ → Text
unfolding dec_from
dec n = dec_from (suc n) n

unfoldable pub strip_prefix : Text → Text → Bool × Text
strip_prefix [] s = (true, s)
strip_prefix (p ∷ ps) [] = (false, [])
strip_prefix (p ∷ ps) (c ∷ s) = let r = strip_prefix ps s in if p == c then r else (false, c ∷ s)

unfoldable pub starts_with : Text → Text → Bool
unfolding strip_prefix
starts_with s p = (strip_prefix p s).0
