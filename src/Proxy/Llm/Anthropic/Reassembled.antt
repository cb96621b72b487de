-- ===== src/Proxy/Llm/Anthropic/Reassembled.antt =====
-- What `reassemble_anthropic_messages` of clawpot-server/src/proxy/llm.rs makes of a stream.
use clawpot.Common.{
  ℕ, ◌≡◌, refl, sym, ap, ◌∙◌, true, false, Bool-cases, List, [], ◌∷◌, ◌++◌, map, Option, none, some,
  Text, codes, text_eq, text_eq_iff, inl, inr, arith, if◌then◌else◌,
}
use clawpot.Json.{Json, and_then, unwrap_or}
use clawpot.Proxy.Llm.Reply.{Reply, initial, str_at, tokens_at}
use clawpot.Proxy.Llm.Sse.{SseEvent}
use clawpot.Proxy.Llm.Streams.{last_or, concat, present}
use clawpot.Proxy.Llm.Anthropic.{
  message_start, text_delta, message_delta, anthropic_event, parsed_event, anthropic_events,
  anthropic_reply, reassemble_anthropic_messages,
}
use mathlib.Core.List.{append_assoc, append-nil}

module _ (json : Json) where
  open json use {Value, null, get, from_slice}

  abbrev named_value : Text → Option Value → List (Text × Value)
  named_value name none = []
  named_value name (some v) = (name, v) ∷ []

  -- The events that are JSON, with their names.
  unfoldable pub parsed : List SseEvent → List (Text × Value)
  parsed [] = []
  parsed (e ∷ es) = named_value (unwrap_or e.event_type []) (from_slice e.content) ++ parsed es

  unfoldable pub of_name : Text → List (Text × Value) → List Value
  of_name name [] = []
  of_name name ((n, v) ∷ ps) =
      let rest = of_name name ps in if text_eq n name then v ∷ rest else rest

  -- The messages that the stream starts, one in a stream that is in order.
  abbrev pub messages : List (Text × Value) → List Value
  messages ps = present (map (λ v. get v (codes "message")) (of_name (codes "message_start") ps))

  abbrev pub texts : List (Text × Value) → List Text
  texts ps =
      map (λ v. text_delta json (get v (codes "delta"))) (of_name (codes "content_block_delta") ps)

  abbrev stop_reason : Value → Option Value
  stop_reason v = and_then (get v (codes "delta")) (λ d. get d (codes "stop_reason"))

  abbrev pub stop_reasons : List (Text × Value) → List (Option Value)
  stop_reasons ps = map stop_reason (of_name (codes "message_delta") ps)

  abbrev pub output_counts : List (Text × Value) → List (Option ℕ)
  output_counts ps =
      map (λ v. tokens_at json v (codes "/usage/output_tokens"))
        (of_name (codes "message_delta") ps)

  -- The variables after messages started, texts, stop reasons and counts, the last of each valid.
  abbrev pub summed :
      Reply Value
      → (ms : List Value) → List Text
      → (rs : List Value) → List (Option ℕ)
      → Reply Value
  summed s ms ts rs counts = record {
    id = last_or s.id (map (λ m. unwrap_or (get m (codes "id")) null) ms);
    model = last_or s.model (map (λ m. str_at json m (codes "model")) ms);
    content_text = s.content_text ++ concat ts;
    reason = last_or s.reason rs;
    input_tokens =
        last_or s.input_tokens (map (λ m. tokens_at json m (codes "/usage/input_tokens")) ms);
    output_tokens = last_or s.output_tokens counts;
  }

  abbrev pub reply_of : Reply Value → List (Text × Value) → Reply Value
  reply_of s ps = summed s (messages ps) (texts ps) (present (stop_reasons ps)) (output_counts ps)

  data Named (name : Text) : Type 0 where
    is_start :
        text_eq name (codes "message_start") ≡ true
        → text_eq name (codes "content_block_delta") ≡ false
        → text_eq name (codes "message_delta") ≡ false
        → Named name
    is_delta :
        text_eq name (codes "message_start") ≡ false
        → text_eq name (codes "content_block_delta") ≡ true
        → text_eq name (codes "message_delta") ≡ false
        → Named name
    is_stop :
        text_eq name (codes "message_start") ≡ false
        → text_eq name (codes "content_block_delta") ≡ false
        → text_eq name (codes "message_delta") ≡ true
        → Named name
    is_other :
        text_eq name (codes "message_start") ≡ false
        → text_eq name (codes "content_block_delta") ≡ false
        → text_eq name (codes "message_delta") ≡ false
        → Named name

  Named-cases : (name : Text) → Named name
  Named-cases name = elim (Bool-cases (text_eq name (codes "message_start"))) [
    | inl a ↦
        is_start a
          (ground (
            arith,
            text_eq_iff name (codes "message_start"),
            text_eq_iff name (codes "content_block_delta"),
          ))
          (ground (
            arith,
            text_eq_iff name (codes "message_start"),
            text_eq_iff name (codes "message_delta"),
          ))
    | inr a ↦ elim (Bool-cases (text_eq name (codes "content_block_delta"))) [
      | inl b ↦ is_delta a b (
          ground (
            arith,
            text_eq_iff name (codes "content_block_delta"),
            text_eq_iff name (codes "message_delta"),
          ))
      | inr b ↦ elim (Bool-cases (text_eq name (codes "message_delta"))) [
        | inl c ↦ is_stop a b c
        | inr c ↦ is_other a b c
      ]
    ]
  ]

  message_start_lem :
      (s : Reply Value) (os : List (Option Value)) (ts : List Text) (rs : List Value)
      (us : List (Option ℕ)) (o : Option Value)
      → summed s (present (o ∷ os)) ts rs us ≡ summed (message_start json o s) (present os) ts rs us
  unfolding message_start
  message_start_lem s os ts rs us none = refl
  message_start_lem s os ts rs us (some msg) = refl

  text_lem :
      (s : Reply Value) (ms : List Value) (ts : List Text) (rs : List Value) (us : List (Option ℕ))
      (t : Text)
      → summed s ms (t ∷ ts) rs us
        ≡ summed (record s { content_text = s.content_text ++ t }) ms ts rs us
  text_lem s ms ts rs us t =
      ap (λ c. record (summed s ms ts rs us) { content_text = c })
        (sym (append_assoc s.content_text t (concat ts)))

  stop_lem :
      (s : Reply Value) (ms : List Value) (ts : List Text) (os : List (Option Value))
      (us : List (Option ℕ)) (o : Option Value) (u : Option ℕ)
      → summed s ms ts (present (o ∷ os)) (u ∷ us)
        ≡ summed
            (record s { reason = unwrap_or o s.reason; output_tokens = u })
            ms
            ts
            (present os)
            us
  stop_lem s ms ts os us none u = refl
  stop_lem s ms ts os us (some r) u = refl

  event_lem :
      (s : Reply Value) (name : Text) (v : Value) (ps : List (Text × Value))
      → Named name
      → reply_of s ((name, v) ∷ ps) ≡ reply_of (anthropic_event json name v s) ps
  unfolding of_name anthropic_event message_delta
  event_lem s name v ps (is_start a b c) =
      rw (a, b, c)
        (message_start_lem s
          (map (λ v. get v (codes "message")) (of_name (codes "message_start") ps)) (texts ps)
          (present (stop_reasons ps)) (output_counts ps) (get v (codes "message")))
  event_lem s name v ps (is_delta a b c) =
      rw (a, b, c)
        (text_lem s (messages ps) (texts ps) (present (stop_reasons ps)) (output_counts ps)
          (text_delta json (get v (codes "delta"))))
  event_lem s name v ps (is_stop a b c) =
      rw (a, b, c)
        (stop_lem s (messages ps) (texts ps) (stop_reasons ps) (output_counts ps) (stop_reason v)
          (tokens_at json v (codes "/usage/output_tokens")))
  event_lem s name v ps (is_other a b c) = rw (a, b, c) refl

  parsed_event_lem :
      (s : Reply Value) (name : Text) (o : Option Value) (ps : List (Text × Value))
      → reply_of s (named_value name o ++ ps) ≡ reply_of (parsed_event json name o s) ps
  parsed_event_lem s name none ps = refl
  parsed_event_lem s name (some v) ps = event_lem s name v ps (Named-cases name)

  anthropic_events_lem :
      (es : List SseEvent) (s : Reply Value) → anthropic_events json es s ≡ reply_of s (parsed es)
  unfolding anthropic_events parsed of_name
  anthropic_events_lem [] s =
      ap (λ c. record s { content_text = c }) (sym (append-nil s.content_text))
  anthropic_events_lem (e ∷ es) s =
      anthropic_events_lem es
        (parsed_event json (unwrap_or e.event_type []) (from_slice e.content) s)
      ∙ sym (parsed_event_lem s (unwrap_or e.event_type []) (from_slice e.content) (parsed es))

  pub reassemble_anthropic_messages_lem :
      (events : List SseEvent)
      → reassemble_anthropic_messages json events
        ≡ anthropic_reply json (reply_of (initial json) (parsed events))
  unfolding reassemble_anthropic_messages
  reassemble_anthropic_messages_lem events =
      ap (anthropic_reply json) (anthropic_events_lem events (initial json))
