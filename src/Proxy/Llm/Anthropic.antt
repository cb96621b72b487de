-- ===== src/Proxy/Llm/Anthropic.antt =====
-- `reassemble_anthropic_messages` of clawpot-server/src/proxy/llm.rs.
pub mod Reassembled
use clawpot.Common.{
  ℕ, ◌||◌, Bool, true, false, List, [], ◌∷◌, ◌++◌, length, Option, none, some, Text, codes, text_eq,
  starts_with, if◌then◌else◌,
}
use clawpot.Json.{Json, and_then, unwrap_or, or_else}
use clawpot.Proxy.Llm.Reply.{
  Reply, Outcome, initial, str_at, tokens_at, model_json, tokens_json, nothing,
}
use clawpot.Proxy.Llm.Sse.{SseEvent, parse_sse}

module _ (json : Json) where
  open json use {
    Value, null, string, number, array, object, get, pointer, is_null, as_str, as_u64, as_bool,
    as_array, from_slice,
  }

  -- The arm `"message_start"`.
  unfoldable pub message_start : Option Value → Reply Value → Reply Value
  message_start none s = s
  message_start (some msg) s = record s {
    id = unwrap_or (get msg (codes "id")) null;
    model = str_at json msg (codes "model");
    input_tokens = tokens_at json msg (codes "/usage/input_tokens");
  }

  abbrev pub is_text_delta : Option Text → Bool
  is_text_delta none = false
  is_text_delta (some ty) = text_eq ty (codes "text_delta")

  -- What the arm `"content_block_delta"` appends.
  unfoldable pub text_delta : Option Value → Text
  text_delta none = []
  text_delta (some delta) =
      if is_text_delta (str_at json delta (codes "type"))
      then unwrap_or (str_at json delta (codes "text")) []
      else []

  -- The arm `"message_delta"`.
  unfoldable pub message_delta : Value → Reply Value → Reply Value
  message_delta v s = record s {
    reason =
        unwrap_or (and_then (get v (codes "delta")) (λ d. get d (codes "stop_reason"))) s.reason;
    output_tokens = tokens_at json v (codes "/usage/output_tokens");
  }

  unfoldable pub anthropic_event : Text → Value → Reply Value → Reply Value
  unfolding message_start text_delta message_delta
  anthropic_event name v s =
      if text_eq name (codes "message_start")
      then message_start (get v (codes "message")) s
      else if text_eq name (codes "content_block_delta")
      then record s { content_text = s.content_text ++ text_delta (get v (codes "delta")) }
      else if text_eq name (codes "message_delta")
      then message_delta v s
      else s

  abbrev pub parsed_event : Text → Option Value → Reply Value → Reply Value
  parsed_event name none s = s
  parsed_event name (some v) s = anthropic_event name v s

  -- The loop over the events.
  unfoldable pub anthropic_events : List SseEvent → Reply Value → Reply Value
  unfolding anthropic_event
  anthropic_events [] s = s
  anthropic_events (e ∷ es) s =
      anthropic_events es (parsed_event (unwrap_or e.event_type []) (from_slice e.content) s)

  unfoldable pub anthropic_reply : Reply Value → Outcome Value
  anthropic_reply s = (
    object (
        (codes "id", s.id)
        ∷ (codes "model", model_json json s.model)
        ∷ (codes "stop_reason", s.reason)
        ∷ (
          codes "content",
          array (
              object
                ((codes "type", string (codes "text")) ∷ (codes "text", string s.content_text) ∷ [])
              ∷ []),
        )
        ∷ (
          codes "usage",
          object (
              (codes "input_tokens", tokens_json json s.input_tokens)
              ∷ (codes "output_tokens", tokens_json json s.output_tokens)
              ∷ []),
        )
        ∷ []),
    s.model,
    s.input_tokens,
    s.output_tokens,
  )

  unfoldable pub reassemble_anthropic_messages : List SseEvent → Outcome Value
  unfolding anthropic_events anthropic_reply
  reassemble_anthropic_messages events = anthropic_reply (anthropic_events events (initial json))
