-- ===== src/Common/Results.antt =====
-- The outcome of a Rust call: `Ok`, or `Err` with the component's error.

pub data Result {ℓ} (E : Type 0) (A : Type ℓ) : Type ℓ where
  ok : A → Result E A
  err : E → Result E A
