-- ===== src/Proxy/Llm/Reply.antt =====
-- What the functions of clawpot-server/src/proxy/llm.rs that read responses share: their variables,
-- their results, and their ways to read a field.
use clawpot.Common.{ℕ, [], Option, none, some, Text}
use clawpot.Json.{Json, and_then}

-- The variables of `reassemble_anthropic_messages` and `reassemble_openai_chat`; `reason` is
-- `stop_reason` there and `finish_reason` here.
pub record Reply (V : Type 0) : Type 0 where
  pub id : V
  pub model : Option Text
  pub content_text : Text
  pub reason : V
  pub input_tokens : Option ℕ
  pub output_tokens : Option ℕ

-- The body as JSON, the model, and the tokens of input and output.
abbrev pub Outcome : Type 0 → Type 0
Outcome V = V × Option Text × Option ℕ × Option ℕ

module _ (json : Json) where
  open json use {
    Value, null, string, number, array, object, get, pointer, is_null, as_str, as_u64, as_bool,
    as_array, from_slice,
  }

  abbrev pub initial : Reply Value
  initial = record {
    id = null;
    model = none;
    content_text = [];
    reason = null;
    input_tokens = none;
    output_tokens = none;
  }

  abbrev pub str_at : Value → Text → Option Text
  str_at v key = and_then (get v key) as_str

  abbrev pub tokens_at : Value → Text → Option ℕ
  tokens_at v path = and_then (pointer v path) as_u64

  -- An `Option` inside `json!`.
  abbrev pub model_json : Option Text → Value
  model_json none = null
  model_json (some model) = string model

  abbrev pub tokens_json : Option ℕ → Value
  tokens_json none = null
  tokens_json (some n) = number n

  abbrev pub nothing : Outcome Value
  nothing = (null, none, none, none)
