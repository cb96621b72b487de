-- ===== src/Proxy/Llm/Response.antt =====
-- The body of an LLM response and the summary of a request, in clawpot-server/src/proxy/llm.rs:
-- `reassemble_stream`, `process_response` and `extract_request_summary`.
pub mod Streamed
use clawpot.Common.{
  ℕ, ◌||◌, Bool, true, false, List, [], ◌∷◌, ◌++◌, length, Option, none, some, Text, codes, text_eq,
  starts_with, if◌then◌else◌,
}
use clawpot.Json.{Json, and_then, unwrap_or, or_else}
use clawpot.Proxy.Llm.Reply.{
  Reply, Outcome, initial, str_at, tokens_at, model_json, tokens_json, nothing,
}
use clawpot.Proxy.Llm.Sse.{SseEvent, parse_sse}
use clawpot.Proxy.Llm.Anthropic.{reassemble_anthropic_messages}
use clawpot.Proxy.Llm.OpenAi.{reassemble_openai_chat, reassemble_openai_responses}
use mathlib.Core.Option.{map as option_map}

-- `str::contains`
unfoldable pub contains : Text → Text → Bool
unfolding starts_with
contains [] p = starts_with [] p
contains (c ∷ s) p = starts_with (c ∷ s) p || contains s p

module _ (json : Json) where
  open json use {
    Value, null, string, number, array, object, get, pointer, is_null, as_str, as_u64, as_bool,
    as_array, from_slice,
  }

  unfoldable pub reassemble_stream : Text → List SseEvent → Outcome Value
  unfolding reassemble_anthropic_messages reassemble_openai_chat reassemble_openai_responses
  reassemble_stream endpoint events =
      if text_eq endpoint (codes "messages")
      then reassemble_anthropic_messages json events
      else if text_eq endpoint (codes "chat_completions")
      then reassemble_openai_chat json events
      else if text_eq endpoint (codes "responses")
      then reassemble_openai_responses json events
      else nothing json

  abbrev pub is_streaming : Option Text → Bool
  is_streaming none = false
  is_streaming (some ct) = contains ct (codes "text/event-stream")

  -- A body that is JSON as a whole, or null.
  unfoldable pub plain_response : Value → Outcome Value
  plain_response v = (
    v,
    str_at json v (codes "model"),
    and_then
        (or_else (pointer v (codes "/usage/input_tokens"))
          (pointer v (codes "/usage/prompt_tokens")))
        as_u64,
    and_then
        (or_else (pointer v (codes "/usage/output_tokens"))
          (pointer v (codes "/usage/completion_tokens")))
        as_u64,
  )

  unfoldable pub process_response : Text → Option Text → Text → Outcome Value
  unfolding contains parse_sse reassemble_stream plain_response
  process_response endpoint content_type body =
      if is_streaming content_type
      then reassemble_stream endpoint (parse_sse body)
      else plain_response (unwrap_or (from_slice body) null)

  abbrev pub input_count : Option Value → Option ℕ
  input_count none = none
  input_count (some v) = or_else (option_map length (as_array v)) (option_map (λ _. 1) (as_str v))

  -- The model, the number of messages, and whether the response is to be streamed.
  abbrev pub Summary : Type 0
  Summary = Option Text × Option ℕ × Option Bool

  unfoldable pub message_count : Text → Value → Option ℕ
  message_count endpoint v =
      if text_eq endpoint (codes "messages") || text_eq endpoint (codes "chat_completions")
      then option_map length (and_then (get v (codes "messages")) as_array)
      else if text_eq endpoint (codes "responses")
      then input_count (get v (codes "input"))
      else none

  abbrev pub summary : Text → Option Value → Summary
  summary endpoint none = (none, none, none)
  summary endpoint (some v) = (
    str_at json v (codes "model"),
    message_count endpoint v,
    and_then (get v (codes "stream")) as_bool,
  )

  unfoldable pub extract_request_summary : Text → Text → Summary
  unfolding message_count
  extract_request_summary endpoint body = summary endpoint (from_slice body)
