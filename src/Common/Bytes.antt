-- ===== src/Common/Bytes.antt =====
-- Reads of a buffer by index. An index out of bounds panics, which ends the task that reads.
use Prim.Native.Nat.{ℕ, suc, ◌+◌, ◌-◌, ◌*◌, ◌<◌, ◌≤◌}
use mathlib.Core.Path.{◌≡◌, refl, ap, ◌∙◌}
use mathlib.Core.Bool.{Bool, true, false, ◌&&◌}
use mathlib.Core.Option.{Option, none, some}
use mathlib.Core.List.{List, [], ◌∷◌, ◌++◌}
use native.Mathlib.Omega.{arith}
use clawpot.Common.Tests.{leb, if◌then◌else◌}
use clawpot.Common.Lists.{length, get_elem?, take, drop, get_elem?_total, length-append}
use clawpot.Common.Texts.{Text}

pub data Run {ℓ} (A : Type ℓ) : Type ℓ where
  panic : Run A
  done : A → Run A

infixl 5 ◌>>=◌
abbrev pub ◌>>=◌ {ℓ κ} : {A : Type ℓ} {B : Type κ} → Run A → (A → Run B) → Run B
panic >>= f = panic
done a >>= f = f a

abbrev pub indexed : Option ℕ → Run ℕ
indexed none = panic
indexed (some b) = done b

-- `buf[i]`
unfoldable pub byte : Text → ℕ → Run ℕ
byte buf i = indexed (get_elem? buf i)

-- `u16::from_be_bytes([buf[i], buf[i + 1]])`
unfoldable pub be16 : Text → ℕ → Run ℕ
unfolding byte
be16 buf i = do hi ← byte buf i; lo ← byte buf (i + 1); done (hi * 256 + lo)

-- `&buf[a..b]`
unfoldable pub slice : Text → ℕ → ℕ → Run Text
slice buf a b = if leb a b && leb b (length buf) then done (take (b - a) (drop a buf)) else panic

abbrev pub Returns {ℓ} : {A : Type ℓ} → Run A → Type ℓ
Returns {A} r = (a : A) × (r ≡ done a)

pub byte-Returns : (buf : Text) (i : ℕ) → i < length buf → Returns (byte buf i)
unfolding byte
byte-Returns buf i h = let (b, e) = get_elem?_total buf i h in (b, ap indexed e)

pub be16-Returns : (buf : Text) (i : ℕ) → i + 1 < length buf → Returns (be16 buf i)
unfolding be16
be16-Returns buf i h =
    let (a, e) = byte-Returns buf i (omega (arith, h)) in
    let (b, k) = byte-Returns buf (i + 1) h in (a * 256 + b, rw (e, k) refl)

pub slice-Returns :
    (buf : Text) (a b : ℕ)
    → a ≤ b
    → b ≤ length buf
    → slice buf a b ≡ done (take (b - a) (drop a buf))
unfolding slice
slice-Returns buf a b h k = ground arith

-- A block returns if its first step does and the rest does.
pub bind-Returns {ℓ κ} :
    {A : Type ℓ} {B : Type κ} (r : Run A) (f : A → Run B)
    → Returns r
    → ((a : A) → r ≡ done a → Returns (f a))
    → Returns (r >>= f)
bind-Returns panic f (a, e) k = absurd (cc)
bind-Returns (done a) f h k = k a refl

pub get_elem?-append_add {ℓ} :
    {A : Type ℓ} (xs ys : List A) (i : ℕ) → get_elem? (xs ++ ys) (length xs + i) ≡ get_elem? ys i
get_elem?-append_add [] ys i = ap (get_elem? ys) (omega arith)
get_elem?-append_add (x ∷ xs) ys i =
    let next : suc (length xs) + i ≡ suc (length xs + i) = omega arith in
    ap (get_elem? (x ∷ (xs ++ ys))) next ∙ get_elem?-append_add xs ys i

pub byte-append_add : (xs ys : Text) (i : ℕ) → byte (xs ++ ys) (length xs + i) ≡ byte ys i
unfolding byte
byte-append_add xs ys i = ap indexed (get_elem?-append_add xs ys i)

pub be16-append_add : (xs ys : Text) (i : ℕ) → be16 (xs ++ ys) (length xs + i) ≡ be16 ys i
unfolding be16
be16-append_add xs ys i =
    let next : length xs + i + 1 ≡ length xs + (i + 1) = omega arith in
    rw next (rw (byte-append_add xs ys i) (rw (byte-append_add xs ys (i + 1)) refl))

pub drop-append_add {ℓ} :
    {A : Type ℓ} (xs ys : List A) (i : ℕ) → drop (length xs + i) (xs ++ ys) ≡ drop i ys
drop-append_add [] ys i = ap (λ n. drop n ys) (omega arith)
drop-append_add (x ∷ xs) ys i =
    let next : suc (length xs) + i ≡ suc (length xs + i) = omega arith in
    ap (λ n. drop n (x ∷ (xs ++ ys))) next ∙ drop-append_add xs ys i

pub take-append_length {ℓ} : {A : Type ℓ} (xs ys : List A) → take (length xs) (xs ++ ys) ≡ xs
take-append_length [] ys = refl
take-append_length (x ∷ xs) ys = ap (λ r. x ∷ r) (take-append_length xs ys)

-- The slice that holds just `ys`.
pub slice-append_add :
    (xs ys zs : Text) (a b : ℕ)
    → a ≡ length xs
    → b ≡ length xs + length ys
    → slice (xs ++ (ys ++ zs)) a b ≡ done ys
slice-append_add xs ys zs a b h k =
    let size : length (xs ++ (ys ++ zs)) ≡ length xs + (length ys + length zs) =
      length-append xs (ys ++ zs) ∙ ap (λ n. length xs + n) (length-append ys zs) in
    let from : drop a (xs ++ (ys ++ zs)) ≡ ys ++ zs =
      ap (λ n. drop n (xs ++ (ys ++ zs))) (h ∙ omega arith) ∙ drop-append_add xs (ys ++ zs) 0 in
    let wide : b - a ≡ length ys = omega (arith, h, k) in
    slice-Returns (xs ++ (ys ++ zs)) a b (omega (arith, h, k)) (omega (arith, k, size))
    ∙ ap done (rw (wide, from) (take-append_length ys zs))

-- A test whose outcomes both return.
pub if-Returns {ℓ} :
    {A : Type ℓ} (b : Bool) (r s : Run A)
    → (b ≡ true → Returns r)
    → (b ≡ false → Returns s)
    → Returns (if b then r else s)
if-Returns true r s h k = h refl
if-Returns false r s h k = k refl
