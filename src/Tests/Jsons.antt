-- ===== src/Tests/Jsons.antt =====
-- JSON values for the tests: trees, and a reader that knows the texts the tests use.
use clawpot.Common.{
  ℕ, ◌≡◌, ◌↔◌, refl, Bool, true, false, List, [], ◌∷◌, Option, none, some, Text, codes, text_eq,
  if◌then◌else◌,
}
use clawpot.Json.{Json}

mutual
  pub data Value : Type 0 where
    null : Value
    bool : Bool → Value
    number : ℕ → Value
    string : Text → Value
    array : Items → Value
    object : Fields → Value

  pub data Items : Type 0 where
    nil : Items
    cons : Value → Items → Items

  pub data Fields : Type 0 where
    end : Fields
    field : Text → Value → Fields → Fields

abbrev items : List Value → Items
items [] = nil
items (v ∷ vs) = cons v (items vs)

abbrev values : Items → List Value
values nil = []
values (cons v vs) = v ∷ values vs

abbrev fields : List (Text × Value) → Fields
fields [] = end
fields ((k, v) ∷ fs) = field k v (fields fs)

abbrev find : Text → Fields → Option Value
find key end = none
find key (field k v fs) = if text_eq k key then some v else find key fs

abbrev get : Value → Text → Option Value
get (object fs) key = find key fs
get _ key = none

abbrev is_null : Value → Bool
is_null null = true
is_null _ = false

pub is_null_iff : (v : Value) → (is_null v ≡ true) ↔ (v ≡ null)
is_null_iff null = ((λ h. refl), (λ h. refl))
is_null_iff (bool b) = ((λ h. cc), (λ h. cc))
is_null_iff (number n) = ((λ h. cc), (λ h. cc))
is_null_iff (string t) = ((λ h. cc), (λ h. cc))
is_null_iff (array xs) = ((λ h. cc), (λ h. cc))
is_null_iff (object fs) = ((λ h. cc), (λ h. cc))

abbrev as_str : Value → Option Text
as_str (string t) = some t
as_str _ = none

abbrev as_u64 : Value → Option ℕ
as_u64 (number n) = some n
as_u64 _ = none

abbrev as_i64 : Value → Option (Bool × ℕ)
as_i64 (number n) = some (false, n)
as_i64 _ = none

abbrev as_bool : Value → Option Bool
as_bool (bool b) = some b
as_bool _ = none

abbrev as_array : Value → Option (List Value)
as_array (array xs) = some (values xs)
as_array _ = none

-- A chunk of a chat with one word.
abbrev pub word_chunk : Text → Value
word_chunk word = object (
    field (codes "id") (string (codes "chat-1")) (
      field (codes "choices")
        (array (
          cons
            (object
              (field (codes "delta") (object (field (codes "content") (string word) end)) end))
            nil))
        end))

abbrev pub hello : Text
hello = codes "{\"content\":\"hello \"}"

abbrev pub world : Text
world = codes "{\"content\":\"world\"}"

-- The text of a JSON string stands for itself.
abbrev pub trees : Json
trees = record {
  Value = Value;
  null = null;
  string = string;
  number = number;
  integer = λ n. number n.1;
  bool = bool;
  array = λ vs. array (items vs);
  object = λ fs. object (fields fs);
  get = get;
  pointer = λ v path. none;
  is_null = is_null;
  as_str = as_str;
  as_u64 = as_u64;
  as_i64 = as_i64;
  as_bool = as_bool;
  as_array = as_array;
  from_slice = λ t.
      if text_eq t hello
      then some (word_chunk (codes "hello "))
      else if text_eq t world
      then some (word_chunk (codes "world"))
      else none;
  to_string = λ v. as_str v;
  to_string_pretty = λ v. as_str v;
  is_null_iff = is_null_iff;
}
