-- ===== src/Common/Utf8.antt =====
-- UTF-8, as `String::from_utf8` and `String::from_utf8_lossy` of the standard library read it.
use Prim.Native.Nat.{ℕ, zero, suc, ◌<◌}
use native.Mathlib.Omega.{arith}
use mathlib.Core.Path.{◌≡◌, refl, ap, ◌∙◌}
use mathlib.Core.Bool.{Bool, true, false, ◌&&◌}
use mathlib.Core.List.{[], ◌∷◌, ◌++◌}
use clawpot.Common.Tests.{ltb, leb, ◌==◌, if◌then◌else◌}
use clawpot.Common.Lists.{All, length, take, drop, take-append-drop}
use clawpot.Common.Texts.{Text}

abbrev within : ℕ → ℕ → ℕ → Bool
within lo hi c = leb lo c && leb c hi

-- The continuation bytes of a character, `need` of them, the first one within bounds: whether they
-- are all there, and how many are.
unfoldable pub continuation : (need lo hi : ℕ) → Text → Bool × ℕ
continuation zero lo hi s = (true, 0)
continuation (suc need) lo hi [] = (false, 0)
continuation (suc need) lo hi (c ∷ s) =
    let rest = continuation need 128 191 s in
    if within lo hi c then (rest.0, suc rest.1) else (false, 0)

-- Whether a character starts with the byte `b`, before the bytes `s`; and how many bytes of `s`
-- belong to it, or to the broken sequence that is replaced as one.
unfoldable pub first_char : ℕ → Text → Bool × ℕ
unfolding continuation
first_char b s =
    if ltb b 128
    then (true, 0)
    else if within 194 223 b
    then continuation 1 128 191 s
    else if b == 224
    then continuation 2 160 191 s
    else if b == 237
    then continuation 2 128 159 s
    else if within 225 239 b
    then continuation 2 128 191 s
    else if b == 240
    then continuation 3 144 191 s
    else if within 241 243 b
    then continuation 3 128 191 s
    else if b == 244
    then continuation 3 128 143 s
    else (false, 0)

-- Fuel of the length is enough: each round takes a byte.
unfoldable pub valid_from : ℕ → Text → Bool
unfolding first_char
valid_from fuel [] = true
valid_from zero (b ∷ s) = false
valid_from (suc fuel) (b ∷ s) = let (good, n) = first_char b s in good && valid_from fuel (drop n s)

unfoldable pub is_utf8 : Text → Bool
unfolding valid_from
is_utf8 s = valid_from (length s) s

-- U+FFFD
abbrev replacement : Text
replacement = 239 ∷ 191 ∷ 189 ∷ []

unfoldable pub lossy_from : ℕ → Text → Text
unfolding first_char
lossy_from fuel [] = []
lossy_from zero (b ∷ s) = []
lossy_from (suc fuel) (b ∷ s) =
    let (good, n) = first_char b s in
    let rest = lossy_from fuel (drop n s) in (if good then b ∷ take n s else replacement) ++ rest

unfoldable pub from_utf8_lossy : Text → Text
unfolding lossy_from
from_utf8_lossy s = lossy_from (length s) s

piece :
    (good v : Bool) (n b : ℕ) (s rest : Text)
    → (good && v) ≡ true
    → (v ≡ true → rest ≡ drop n s)
    → (if good then b ∷ take n s else replacement) ++ rest ≡ b ∷ s
piece true true n b s rest h k =
    ap (λ x. b ∷ x) (ap (λ r. take n s ++ r) (k refl) ∙ take-append-drop n s)
piece true false n b s rest h k = cc
piece false v n b s rest h k = cc

lossy-valid : (fuel : ℕ) (s : Text) → valid_from fuel s ≡ true → lossy_from fuel s ≡ s
unfolding valid_from lossy_from
lossy-valid fuel [] h = refl
lossy-valid zero (b ∷ s) h = cc
lossy-valid (suc fuel) (b ∷ s) h =
    let after = drop (first_char b s).1 s in
    piece (first_char b s).0 (valid_from fuel after) (first_char b s).1 b s (lossy_from fuel after)
      h (lossy-valid fuel after)

-- Text that is UTF-8 is read as it is.
pub from_utf8_lossy-valid : (s : Text) → is_utf8 s ≡ true → from_utf8_lossy s ≡ s
unfolding is_utf8 from_utf8_lossy
from_utf8_lossy-valid s h = lossy-valid (length s) s h

valid-ascii : (s : Text) → All (λ c. c < 128) s → valid_from (length s) s ≡ true
unfolding valid_from first_char
valid-ascii [] h = refl
valid-ascii (b ∷ s) h = ground (arith, valid-ascii s h.1)

pub is_utf8-ascii : (s : Text) → All (λ c. c < 128) s → is_utf8 s ≡ true
unfolding is_utf8
is_utf8-ascii s h = valid-ascii s h
