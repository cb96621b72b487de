-- ===== src/Proxy/Llm/Response/Streamed.antt =====
-- What `process_response` of clawpot-server/src/proxy/llm.rs makes of a stream that a provider sent.
use clawpot.Common.{All, ◌≡◌, refl, ap, ◌∙◌, true, List, some, Text, codes, text_eq, if◌then◌else◌}
use clawpot.Common.Utf8.{is_utf8}
use clawpot.Json.{Json}
use clawpot.Proxy.Llm.Reply.{Outcome, initial, nothing}
use clawpot.Proxy.Llm.Sse.{SseEvent}
use clawpot.Proxy.Llm.Sse.RoundTrip.{Frame, IsFrame, encode, frames_events, parse_sse-encode}
use clawpot.Proxy.Llm.Anthropic.{anthropic_reply}
use clawpot.Proxy.Llm.Anthropic.Reassembled.{parsed, reply_of, reassemble_anthropic_messages_lem}
use clawpot.Proxy.Llm.OpenAi.{chat_reply}
use clawpot.Proxy.Llm.OpenAi.Chat.{chunks, chat_summary, reassemble_openai_chat_lem}
use clawpot.Proxy.Llm.OpenAi.Responses.{
  completions, first_response, reassemble_openai_responses_lem,
}
use clawpot.Proxy.Llm.Response.{contains, reassemble_stream, process_response}

module _ (json : Json) where
  open json use {Value}

  -- What the events say together, by the endpoint.
  abbrev pub reassembled : Text → List SseEvent → Outcome Value
  reassembled endpoint events =
      if text_eq endpoint (codes "messages")
      then anthropic_reply json (reply_of json (initial json) (parsed json events))
      else if text_eq endpoint (codes "chat_completions")
      then chat_reply json (chat_summary json (chunks json events))
      else if text_eq endpoint (codes "responses")
      then first_response json (completions json events)
      else nothing json

  reassemble_stream_lem :
      (endpoint : Text) (events : List SseEvent)
      → reassemble_stream json endpoint events ≡ reassembled endpoint events
  unfolding reassemble_stream
  reassemble_stream_lem endpoint events =
      rw
        (
          reassemble_anthropic_messages_lem json events,
          reassemble_openai_chat_lem json events,
          reassemble_openai_responses_lem json events,
        )
        refl

  -- Of a stream in UTF-8 of well-formed frames, `process_response` gives what its events say together:
  -- for messages the last start, stop reason and counts and the joined text deltas; for a chat the
  -- first id that is not null, the last model, finish reason and usage, and the joined texts of all
  -- choices; for responses the first completed response; for any other endpoint nothing.
  pub process_response-encode :
      (endpoint content_type : Text) (fs : List Frame)
      → contains content_type (codes "text/event-stream") ≡ true
      → All IsFrame fs
      → is_utf8 (encode fs) ≡ true
      → process_response json endpoint (some content_type) (encode fs)
        ≡ reassembled endpoint (frames_events fs)
  unfolding process_response
  process_response-encode endpoint content_type fs ct h utf8 = rw ct (
      ap (reassemble_stream json endpoint) (parse_sse-encode fs h utf8)
      ∙ reassemble_stream_lem endpoint (frames_events fs))
