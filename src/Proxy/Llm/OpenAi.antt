-- ===== src/Proxy/Llm/OpenAi.antt =====
-- `reassemble_openai_chat` and `reassemble_openai_responses` of clawpot-server/src/proxy/llm.rs.
pub mod Chat
pub mod Responses
use clawpot.Common.{
  ℕ, ◌||◌, Bool, true, false, List, [], ◌∷◌, ◌++◌, length, Option, none, some, Text, codes, text_eq,
  starts_with, if◌then◌else◌,
}
use clawpot.Json.{Json, and_then, unwrap_or, or_else}
use clawpot.Proxy.Llm.Reply.{
  Reply, Outcome, initial, str_at, tokens_at, model_json, tokens_json, nothing,
}
use clawpot.Proxy.Llm.Sse.{SseEvent, parse_sse}

module _ (json : Json) where
  open json use {
    Value, null, string, number, array, object, get, pointer, is_null, as_str, as_u64, as_bool,
    as_array, from_slice,
  }

  -- What a choice appends to the content.
  unfoldable pub choice_text : Value → Text
  choice_text choice =
      unwrap_or (and_then (get choice (codes "delta")) (λ d. str_at json d (codes "content"))) []

  abbrev pub finish_reason : Option Value → Value → Value
  finish_reason none old = old
  finish_reason (some fr) old = if is_null fr then old else fr

  -- The loop over the choices of a chunk.
  unfoldable pub choices : List Value → Reply Value → Reply Value
  unfolding choice_text
  choices [] s = s
  choices (c ∷ cs) s = choices cs (record s {
    content_text = s.content_text ++ choice_text c;
    reason = finish_reason (get c (codes "finish_reason")) s.reason;
  })

  abbrev pub with_usage : Option Value → Reply Value → Reply Value
  with_usage none s = s
  with_usage (some usage) s = record s {
    input_tokens = and_then (get usage (codes "prompt_tokens")) as_u64;
    output_tokens = and_then (get usage (codes "completion_tokens")) as_u64;
  }

  -- The body of the loop over the events, on a chunk that was parsed.
  unfoldable pub chat_chunk : Value → Reply Value → Reply Value
  unfolding choices
  chat_chunk v s = with_usage (get v (codes "usage")) (
      choices (unwrap_or (and_then (get v (codes "choices")) as_array) []) (record s {
        model = or_else (str_at json v (codes "model")) s.model;
        id = if is_null s.id then unwrap_or (get v (codes "id")) s.id else s.id;
      }))

  abbrev pub parsed_chunk : Option Value → Reply Value → Reply Value
  parsed_chunk none s = s
  parsed_chunk (some v) s = chat_chunk v s

  unfoldable pub chat_events : List SseEvent → Reply Value → Reply Value
  unfolding chat_chunk
  chat_events [] s = s
  chat_events (e ∷ es) s = chat_events es (parsed_chunk (from_slice e.content) s)

  unfoldable pub chat_reply : Reply Value → Outcome Value
  chat_reply s = (
    object (
        (codes "id", s.id)
        ∷ (codes "model", model_json json s.model)
        ∷ (
          codes "choices",
          array (
              object (
                (
                  codes "message",
                  object (
                      (codes "role", string (codes "assistant"))
                      ∷ (codes "content", string s.content_text)
                      ∷ []),
                )
                ∷ (codes "finish_reason", s.reason)
                ∷ [])
              ∷ []),
        )
        ∷ (
          codes "usage",
          object (
              (codes "prompt_tokens", tokens_json json s.input_tokens)
              ∷ (codes "completion_tokens", tokens_json json s.output_tokens)
              ∷ []),
        )
        ∷ []),
    s.model,
    s.input_tokens,
    s.output_tokens,
  )

  unfoldable pub reassemble_openai_chat : List SseEvent → Outcome Value
  unfolding chat_events chat_reply
  reassemble_openai_chat events = chat_reply (chat_events events (initial json))

  unfoldable pub full_response : Value → Outcome Value
  full_response response = (
    response,
    str_at json response (codes "model"),
    tokens_at json response (codes "/usage/input_tokens"),
    tokens_at json response (codes "/usage/output_tokens"),
  )

  abbrev pub is_completed : Option Text → Bool
  is_completed none = false
  is_completed (some ty) = text_eq ty (codes "response.completed")

  -- A completed event: the rest of the events is read if it is not JSON.
  abbrev pub completed : Option Value → Outcome Value → Outcome Value
  completed none rest = rest
  completed (some v) rest = full_response (unwrap_or (get v (codes "response")) v)

  unfoldable pub reassemble_openai_responses : List SseEvent → Outcome Value
  unfolding full_response
  reassemble_openai_responses [] = nothing json
  reassemble_openai_responses (e ∷ es) =
      let rest = reassemble_openai_responses es in
      if is_completed e.event_type then completed (from_slice e.content) rest else rest
