-- ===== src/Common/State.antt =====
-- Stateful, fallible code: the state goes in, and the outcome and the new state come out. A state
-- survives an error, as what a `&mut self` method has changed does.
use mathlib.Core.Path.{◌≡◌, refl}
use clawpot.Common.Results.{Result, ok, err}

abbrev pub M {ℓ} : Type 0 → Type 0 → Type ℓ → Type ℓ
M S E A = S → Result E A × S

-- The rest of a block, after an outcome.
abbrev pub continue {ℓ κ} :
    {S E : Type 0} {A : Type ℓ} {B : Type κ} → Result E A × S → (A → M S E B) → Result E B × S
continue (ok a, s) f = f a s
continue (err e, s) f = (err e, s)

infixl 5 ◌>>=◌ ◌>>◌
abbrev pub ◌>>=◌ {ℓ κ} :
    {S E : Type 0} {A : Type ℓ} {B : Type κ} → M S E A → (A → M S E B) → M S E B
◌>>=◌ m f s = continue (m s) f

abbrev pub ◌>>◌ {κ} : {S E : Type 0} {B : Type κ} → M S E (Unit {0}) → M S E B → M S E B
◌>>◌ m k s = continue (m s) (λ _. k)

abbrev pub pure {ℓ} : {S E : Type 0} {A : Type ℓ} → A → M S E A
pure a s = (ok a, s)

abbrev pub throw {ℓ} : {S E : Type 0} {A : Type ℓ} → E → M S E A
throw e s = (err e, s)

-- `let _ = m`, and `if let Err(e) = m { warn!(…) }`: an error is dropped.
abbrev pub dropped {ℓ} : {S E F : Type 0} {A : Type ℓ} → Result E A × S → Result F (Unit {0}) × S
dropped (ok a, s) = (ok tt, s)
dropped (err e, s) = (ok tt, s)

abbrev pub best_effort {ℓ} : {S E F : Type 0} {A : Type ℓ} → M S E A → M S F (Unit {0})
best_effort m s = dropped (m s)

-- What an outcome and every continuation keep, the block keeps.
pub continue_inv {ℓ κ ι} :
    {S E : Type 0} {A : Type ℓ} {B : Type κ} (P : S → Type ι) (out : Result E A × S)
    (f : A → M S E B)
    → P out.1
    → ((a : A) (s : S) → out ≡ (ok a, s) → P s → P (f a s).1)
    → P (continue out f).1
continue_inv P (ok a, s) f p k = k a s refl p
continue_inv P (err e, s) f p k = p

-- A block that succeeds ran its first step with success, and then the rest.
pub continue-ok {ℓ κ} :
    {S E : Type 0} {A : Type ℓ} {B : Type κ} (out : Result E A × S) (f : A → M S E B) {b : B}
    → (continue out f).0 ≡ ok b
    → (a : A) × (s : S) × (out ≡ (ok a, s)) × ((f a s).0 ≡ ok b) × ((continue out f).1 ≡ (f a s).1)
continue-ok (ok a, s) f h = (a, s, refl, h, refl)
continue-ok (err e, s) f h = cc

-- What the rest promises on success, the block promises on success.
pub continue_post {ℓ κ ι} :
    {S E : Type 0} {A : Type ℓ} {B : Type κ} (P : S → Type ι) (out : Result E A × S)
    (f : A → M S E B) {b : B}
    → ((a : A) (s : S) → out ≡ (ok a, s) → (f a s).0 ≡ ok b → P (f a s).1)
    → (continue out f).0 ≡ ok b
    → P (continue out f).1
continue_post P (ok a, s) f k h = k a s refl h
continue_post P (err e, s) f k h = cc

module _ {ι} {S E : Type 0} (P : S → Type ι) where
  -- The rule of `m >> k` for what holds when the whole succeeds.
  pub post_seq :
      (m k : M S E (Unit {0})) (s : S)
      → ((u : S) → m s ≡ (ok tt, u) → (k u).0 ≡ ok tt → P (k u).1)
      → ((m >> k) s).0 ≡ ok tt
      → P ((m >> k) s).1
  post_seq m k s h = continue_post P (m s) (λ _. k) (λ _ u e. h u e)

  -- The rule of `m >> k` for what holds whatever the outcome.
  pub keep_seq :
      (m k : M S E (Unit {0})) (s : S)
      → P (m s).1
      → ((u : S) → m s ≡ (ok tt, u) → P u → P (k u).1)
      → P ((m >> k) s).1
  keep_seq m k s p h = continue_inv P (m s) (λ _. k) p (λ _ u e. h u e)

-- A first step that succeeds hands its state to the rest.
pub seq-ok :
    {S E : Type 0} (m k : M S E (Unit {0})) (s : S) → (m s).0 ≡ ok tt → (m >> k) s ≡ k (m s).1
seq-ok {S} {E} m k s h = go (m s) h
  where
    go : (out : Result E (Unit {0}) × S) → out.0 ≡ ok tt → continue out (λ _. k) ≡ k out.1
    go (ok a, u) e = refl
    go (err x, u) e = cc
