-- ===== src/Json.antt =====
-- The JSON values of the crate serde_json, a parameter of the code that reads and builds them.
use clawpot.Common.{ℕ, ◌≡◌, ◌↔◌, Bool, true, List, Option, none, some, Text}

pub record Json : Type 1 where
  pub Value : Type 0
  pub null : Value
  pub string : Text → Value
  pub number : ℕ → Value
  pub integer : Bool × ℕ → Value  -- whether it is negative, and its absolute value
  pub bool : Bool → Value
  pub array : List Value → Value
  pub object : List (Text × Value) → Value
  pub get : Value → Text → Option Value
  pub pointer : Value → Text → Option Value
  pub is_null : Value → Bool
  pub as_str : Value → Option Text
  pub as_u64 : Value → Option ℕ
  pub as_i64 : Value → Option (Bool × ℕ)  -- whether it is negative, and its absolute value
  pub as_bool : Value → Option Bool
  pub as_array : Value → Option (List Value)
  pub from_slice : Text → Option Value  -- `from_str` too
  pub to_string : Value → Option Text
  pub to_string_pretty : Value → Option Text
  pub is_null_iff : (v : Value) → (is_null v ≡ true) ↔ (v ≡ null)

-- `Option::and_then`
abbrev pub and_then {ℓ κ} : {A : Type ℓ} {B : Type κ} → Option A → (A → Option B) → Option B
and_then none f = none
and_then (some a) f = f a

abbrev pub unwrap_or {ℓ} : {A : Type ℓ} → Option A → A → A
unwrap_or none d = d
unwrap_or (some a) d = a

abbrev pub or_else {ℓ} : {A : Type ℓ} → Option A → Option A → Option A
or_else none d = d
or_else (some a) d = some a
