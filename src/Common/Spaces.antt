-- ===== src/Common/Spaces.antt =====
-- White space as `str::trim` and `str::split_whitespace` of the standard library know it: the
-- characters with the Unicode property White_Space, by their UTF-8 bytes.
use Prim.Native.Nat.{ℕ, zero, suc, ◌-◌, ◌<◌}
use mathlib.Core.Path.{◌≡◌, refl, sym, ap, ◌∙◌}
use mathlib.Core.Logic.{◌≢◌}
use mathlib.Core.Bool.{Bool, false, ◌&&◌, ◌||◌}
use mathlib.Core.List.{List, [], ◌∷◌, ◌++◌, reverse, reverse-reverse, append_assoc, append-nil}
use native.Mathlib.Omega.{arith}
use clawpot.Common.Tests.{leb, ◌==◌, if◌then◌else◌}
use clawpot.Common.Lists.{All, length, drop}
use clawpot.Common.Texts.{Text}

-- U+0009 to U+000D, U+0020
abbrev pub is_space : ℕ → Bool
is_space c = (leb 9 c && leb c 13) || c == 32

-- U+0085, U+00A0
abbrev pub is_space2 : ℕ → ℕ → Bool
is_space2 a b = a == 194 && (b == 133 || b == 160)

-- U+1680, U+2000 to U+200A, U+2028, U+2029, U+202F, U+205F, U+3000
abbrev pub is_space3 : ℕ → ℕ → ℕ → Bool
is_space3 a b c =
    (a == 225 && (b == 154 && c == 128))
    || ((a == 226
          && ((b == 128 && ((leb 128 c && leb c 138) || (c == 168 || (c == 169 || c == 175))))
              || (b == 129 && c == 159)))
        || (a == 227 && (b == 128 && c == 128)))

-- The bytes of the white-space character that the text starts with; 0 if it starts with none.
unfoldable pub white_start : Text → ℕ
white_start [] = 0
white_start (a ∷ []) = if is_space a then 1 else 0
white_start (a ∷ b ∷ []) = if is_space a then 1 else if is_space2 a b then 2 else 0
white_start (a ∷ b ∷ c ∷ s) =
    if is_space a then 1 else if is_space2 a b then 2 else if is_space3 a b c then 3 else 0

-- The same at the end of a text that is given from its end.
unfoldable pub white_end : Text → ℕ
white_end [] = 0
white_end (c ∷ []) = if is_space c then 1 else 0
white_end (c ∷ b ∷ []) = if is_space c then 1 else if is_space2 b c then 2 else 0
white_end (c ∷ b ∷ a ∷ s) =
    if is_space c then 1 else if is_space2 b c then 2 else if is_space3 a b c then 3 else 0

-- Fuel of the length is enough: each round takes a byte.
unfoldable pub strip_white : (Text → ℕ) → ℕ → Text → Text
strip_white width zero s = s
strip_white width (suc fuel) s =
    let rest = strip_white width fuel (drop (width s) s) in if width s == 0 then s else rest

unfoldable pub trim_start : Text → Text
unfolding strip_white white_start
trim_start s = strip_white white_start (length s) s

unfoldable pub trim_end : Text → Text
unfolding strip_white white_end
trim_end s = reverse (strip_white white_end (length s) (reverse s))

unfoldable pub trim : Text → Text
unfolding trim_start trim_end
trim s = trim_end (trim_start s)

abbrev pub word : Text → List Text
word [] = []
word (c ∷ s) = (c ∷ s) ∷ []

-- `cur` is the word read so far, and `skip` counts the bytes that are left of a white-space
-- character. On UTF-8, only the first byte of a character starts white space.
unfoldable pub words_from : (skip : ℕ) → (cur s : Text) → List Text
words_from skip cur [] = word cur
words_from (suc skip) cur (c ∷ s) = words_from skip cur s
words_from zero cur (c ∷ s) =
    let width = white_start (c ∷ s) in
    let inside = words_from 0 (cur ++ c ∷ []) s in
    let next = word cur ++ words_from (width - 1) [] s in if width == 0 then inside else next

unfoldable pub split_whitespace : Text → List Text
unfolding words_from white_start
split_whitespace s = words_from 0 [] s

-- A text with no white space at either end.
pub record Trimmed (s : Text) : Type 0 where
  pub at_start : white_start s ≡ 0
  pub at_end : white_end (reverse s) ≡ 0

strip_white_id :
    (width : Text → ℕ) (fuel : ℕ) (s : Text) → width s ≡ 0 → strip_white width fuel s ≡ s
unfolding strip_white
strip_white_id width zero s h = refl
strip_white_id width (suc fuel) s h = ground arith

trim_end_id : (s : Text) → Trimmed s → trim_end s ≡ s
unfolding trim_end
trim_end_id s t =
    ap reverse (strip_white_id white_end (length s) (reverse s) t.at_end) ∙ reverse-reverse s

pub trim_id : (s : Text) → Trimmed s → trim s ≡ s
unfolding trim trim_start
trim_id s t = ap trim_end (strip_white_id white_start (length s) s t.at_start) ∙ trim_end_id s t

white_start-space : (s : Text) → white_start (32 ∷ s) ≡ 1
unfolding white_start
white_start-space [] = refl
white_start-space (b ∷ []) = refl
white_start-space (b ∷ c ∷ s) = refl

-- A blank in front of it is taken off.
pub trim-space : (s : Text) → Trimmed s → trim (32 ∷ s) ≡ s
unfolding trim trim_start strip_white
trim-space s t =
    rw (white_start-space s)
      (ap trim_end (strip_white_id white_start (length s) s t.at_start) ∙ trim_end_id s t)

-- An ASCII character that is no white space.
pub white_start-ascii : (a : ℕ) (s : Text) → is_space a ≡ false → a < 128 → white_start (a ∷ s) ≡ 0
unfolding white_start
white_start-ascii a [] h k = ground arith
white_start-ascii a (b ∷ []) h k = ground arith
white_start-ascii a (b ∷ c ∷ s) h k = ground arith

-- What stands before an ASCII character is no part of the white space behind it.
pub white_end-ascii :
    (s : Text) (a : ℕ) (r : Text) → s ≢ [] → a < 128 → white_end s ≡ 0 → white_end (s ++ a ∷ r) ≡ 0
unfolding white_end
white_end-ascii [] a r ne k h = absurd (ne refl)
white_end-ascii (x ∷ []) a [] ne k h = ground arith
white_end-ascii (x ∷ []) a (y ∷ r) ne k h = ground arith
white_end-ascii (x ∷ y ∷ []) a r ne k h = ground arith
white_end-ascii (x ∷ y ∷ z ∷ s) a r ne k h = h

-- An ASCII character that is no white space.
abbrev pub IsInk : ℕ → Type 0
IsInk c = (is_space c ≡ false) × (c < 128)

words-inside :
    (c : ℕ) (cur r : Text) → IsInk c → words_from 0 cur (c ∷ r) ≡ words_from 0 (cur ++ c ∷ []) r
unfolding words_from
words-inside c cur r h = rw (white_start-ascii c r h.0 h.1) refl

words-Ink : (w cur r : Text) → All IsInk w → words_from 0 cur (w ++ r) ≡ words_from 0 (cur ++ w) r
words-Ink [] cur r h = ap (λ t. words_from 0 t r) (sym (append-nil cur))
words-Ink (c ∷ w) cur r h =
    words-inside c cur (w ++ r) h.0
    ∙ words-Ink w (cur ++ c ∷ []) r h.1
    ∙ ap (λ t. words_from 0 t r) (append_assoc cur (c ∷ []) w)

words-blank : (s r : Text) → s ≢ [] → words_from 0 s (32 ∷ r) ≡ s ∷ words_from 0 [] r
unfolding words_from
words-blank [] r h = absurd (h refl)
words-blank (c ∷ s) r h = rw (white_start-space r) refl

-- A word, and the blank behind it.
pub words-word :
    (w r : Text) → w ≢ [] → All IsInk w → words_from 0 [] (w ++ 32 ∷ r) ≡ w ∷ words_from 0 [] r
words-word w r h k = words-Ink w [] (32 ∷ r) k ∙ words-blank w r h

words-end : (s : Text) → s ≢ [] → words_from 0 s (13 ∷ 10 ∷ []) ≡ s ∷ []
unfolding words_from white_start
words-end [] h = absurd (h refl)
words-end (c ∷ s) h = refl

-- The last word, before the end of the line.
pub words-last : (w : Text) → w ≢ [] → All IsInk w → words_from 0 [] (w ++ 13 ∷ 10 ∷ []) ≡ w ∷ []
words-last w h k = words-Ink w [] (13 ∷ 10 ∷ []) k ∙ words-end w h
