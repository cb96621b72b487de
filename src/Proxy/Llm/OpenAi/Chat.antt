-- ===== src/Proxy/Llm/OpenAi/Chat.antt =====
-- What `reassemble_openai_chat` of clawpot-server/src/proxy/llm.rs makes of a stream.
use clawpot.Common.{
  ℕ, ◌≡◌, refl, sym, ap, ◌∙◌, true, Bool-cases, List, [], ◌∷◌, ◌++◌, map, Option, none, some, Text,
  codes, inl, inr, if◌then◌else◌,
}
use clawpot.Json.{Json, and_then, unwrap_or, or_else}
use clawpot.Proxy.Llm.Reply.{Reply, initial, str_at}
use clawpot.Proxy.Llm.Sse.{SseEvent}
use clawpot.Proxy.Llm.Streams.{last_or, concat, present, last_or-append}
use clawpot.Proxy.Llm.OpenAi.{
  choice_text, choices, finish_reason, with_usage, chat_chunk, parsed_chunk, chat_events,
  chat_reply, reassemble_openai_chat,
}
use mathlib.Core.List.{append_assoc, append-nil}

module _ {V : Type 0} where
  Reply-eq :
      (a b : Reply V)
      → a.id ≡ b.id
      → a.model ≡ b.model
      → a.content_text ≡ b.content_text
      → a.reason ≡ b.reason
      → a.input_tokens ≡ b.input_tokens
      → a.output_tokens ≡ b.output_tokens
      → a ≡ b
  Reply-eq a b p q r s t u = λ i. record {
    id = p i;
    model = q i;
    content_text = r i;
    reason = s i;
    input_tokens = t i;
    output_tokens = u i;
  }

module _ (json : Json) where
  open json use {Value, null, get, is_null, as_u64, as_array, from_slice}

  abbrev chunk : Option Value → List Value
  chunk none = []
  chunk (some v) = v ∷ []

  -- The chunks that are JSON.
  unfoldable pub chunks : List SseEvent → List Value
  chunks [] = []
  chunks (e ∷ es) = chunk (from_slice e.content) ++ chunks es

  abbrev pub first_nonnull : List Value → Value
  first_nonnull [] = null
  first_nonnull (v ∷ vs) = if is_null v then first_nonnull vs else v

  abbrev pub choices_in : Value → List Value
  choices_in v = unwrap_or (and_then (get v (codes "choices")) as_array) []

  unfoldable pub choices_of : List Value → List Value
  choices_of [] = []
  choices_of (v ∷ vs) = choices_in v ++ choices_of vs

  abbrev reason_in : Option Value → List Value
  reason_in none = []
  reason_in (some fr) = if is_null fr then [] else fr ∷ []

  -- The finish reasons that are not null.
  unfoldable pub reasons : List Value → List Value
  reasons [] = []
  reasons (c ∷ cs) = reason_in (get c (codes "finish_reason")) ++ reasons cs

  abbrev pub usages : List Value → List Value
  usages vs = present (map (λ v. get v (codes "usage")) vs)

  abbrev pub prompt_tokens : Value → Option ℕ
  prompt_tokens u = and_then (get u (codes "prompt_tokens")) as_u64

  abbrev pub completion_tokens : Value → Option ℕ
  completion_tokens u = and_then (get u (codes "completion_tokens")) as_u64

  abbrev chosen : Value → List Value → Value
  chosen id vs = if is_null id then first_nonnull vs else id

  abbrev with_choices : Reply Value → List Value → Reply Value
  with_choices s cs = record s {
    content_text = s.content_text ++ concat (map (choice_text json) cs);
    reason = last_or s.reason (reasons cs);
  }

  abbrev chat_of : Reply Value → List Value → Reply Value
  chat_of s vs = record {
    id = chosen s.id (present (map (λ v. get v (codes "id")) vs));
    model = last_or s.model (map some (present (map (λ v. str_at json v (codes "model")) vs)));
    content_text = s.content_text ++ concat (map (choice_text json) (choices_of vs));
    reason = last_or s.reason (reasons (choices_of vs));
    input_tokens = last_or s.input_tokens (map prompt_tokens (usages vs));
    output_tokens = last_or s.output_tokens (map completion_tokens (usages vs));
  }

  reasons-append : (cs ds : List Value) → reasons (cs ++ ds) ≡ reasons cs ++ reasons ds
  unfolding reasons
  reasons-append [] ds = refl
  reasons-append (c ∷ cs) ds =
      ap (λ r. reason_in (get c (codes "finish_reason")) ++ r) (reasons-append cs ds)
      ∙ sym (append_assoc (reason_in (get c (codes "finish_reason"))) (reasons cs) (reasons ds))

  last_or-reason :
      (o : Option Value) (old : Value) (vs : List Value)
      → last_or old (reason_in o ++ vs) ≡ last_or (finish_reason json o old) vs
  last_or-reason none old vs = refl
  last_or-reason (some fr) old vs = elim (Bool-cases (is_null fr)) [
    | inl h ↦ rw h refl
    | inr h ↦ rw h refl
  ]

  choices_lem : (cs : List Value) (s : Reply Value) → choices json cs s ≡ with_choices s cs
  unfolding choices reasons
  choices_lem [] s = ap (λ t. record s { content_text = t }) (sym (append-nil s.content_text))
  choices_lem (c ∷ cs) s =
      let o = get c (codes "finish_reason") in
      let t = choice_text json c in
      choices_lem cs
        (record s { content_text = s.content_text ++ t; reason = finish_reason json o s.reason })
      ∙ Reply-eq _ _ refl refl (append_assoc s.content_text t (concat (map (choice_text json) cs)))
          (sym (last_or-reason o s.reason (reasons cs))) refl refl

  chosen-first :
      (id : Value) (o : Option Value) (os : List (Option Value))
      → chosen id (present (o ∷ os))
        ≡ chosen (if is_null id then unwrap_or o id else id) (present os)
  chosen-first id o os = elim (Bool-cases (is_null id)) [
    | inl h ↦ rw h (opened o h)
    | inr h ↦ rw (h, h) refl
  ]
    where
      opened :
          (o : Option Value)
          → is_null id ≡ true
          → first_nonnull (present (o ∷ os)) ≡ chosen (unwrap_or o id) (present os)
      opened none h = rw h refl
      opened (some v) h = refl

  models-first :
      (m o : Option Text) (os : List (Option Text))
      → last_or m (map some (present (o ∷ os))) ≡ last_or (or_else o m) (map some (present os))
  models-first m none os = refl
  models-first m (some t) os = refl

  contents-first :
      (t : Text) (cs ds : List Value)
      → t ++ concat (map (choice_text json) (cs ++ ds))
        ≡ (t ++ concat (map (choice_text json) cs)) ++ concat (map (choice_text json) ds)
  contents-first t [] ds = ap (λ r. r ++ concat (map (choice_text json) ds)) (sym (append-nil t))
  contents-first t (c ∷ cs) ds =
      sym (append_assoc t (choice_text json c) (concat (map (choice_text json) (cs ++ ds))))
      ∙ contents-first (t ++ choice_text json c) cs ds
      ∙ ap (λ r. r ++ concat (map (choice_text json) ds))
          (append_assoc t (choice_text json c) (concat (map (choice_text json) cs)))

  -- The usage of a chunk stands for both counts.
  usage_lem :
      (o : Option Value) (s : Reply Value) (os : List (Option Value))
      → with_usage json o s ≡ record s {
        input_tokens = last_or s.input_tokens (map prompt_tokens (present (o ∷ [])));
        output_tokens = last_or s.output_tokens (map completion_tokens (present (o ∷ [])));
      }
  usage_lem none s os = refl
  usage_lem (some u) s os = refl

  usages-first :
      (f : Value → Option ℕ) (n : Option ℕ) (o : Option Value) (os : List (Option Value))
      → last_or n (map f (present (o ∷ os)))
        ≡ last_or (last_or n (map f (present (o ∷ [])))) (map f (present os))
  usages-first f n none os = refl
  usages-first f n (some u) os = refl

  chunk_lem :
      (s : Reply Value) (v : Value) (vs : List Value)
      → chat_of s (v ∷ vs) ≡ chat_of (chat_chunk json v s) vs
  unfolding chat_chunk choices_of
  chunk_lem s v vs =
      let usage = get v (codes "usage") in
      let others = map (λ v. get v (codes "usage")) vs in
      let begun = record s {
        model = or_else (str_at json v (codes "model")) s.model;
        id = if is_null s.id then unwrap_or (get v (codes "id")) s.id else s.id;
      } in
      Reply-eq _ (chat_of _ vs)
        (chosen-first s.id (get v (codes "id")) (map (λ v. get v (codes "id")) vs))
        (models-first s.model (str_at json v (codes "model"))
          (map (λ v. str_at json v (codes "model")) vs))
        (contents-first s.content_text (choices_in v) (choices_of vs))
        (ap (last_or s.reason) (reasons-append (choices_in v) (choices_of vs))
          ∙ last_or-append s.reason (reasons (choices_in v)) (reasons (choices_of vs)))
        (usages-first prompt_tokens s.input_tokens usage others)
        (usages-first completion_tokens s.output_tokens usage others)
      ∙ ap (λ r. chat_of r vs)
          (sym (
            ap (with_usage json usage) (choices_lem (choices_in v) begun)
            ∙ usage_lem usage (with_choices begun (choices_in v)) []))

  parsed_chunk_lem :
      (s : Reply Value) (o : Option Value) (vs : List Value)
      → chat_of s (chunk o ++ vs) ≡ chat_of (parsed_chunk json o s) vs
  parsed_chunk_lem s none vs = refl
  parsed_chunk_lem s (some v) vs = chunk_lem s v vs

  chosen-nil : (id : Value) → chosen id [] ≡ id
  chosen-nil id = elim (Bool-cases (is_null id)) [
    | inl h ↦ rw h (sym ((json.is_null_iff id).0 h))
    | inr h ↦ rw h refl
  ]

  chat_events_lem :
      (es : List SseEvent) (s : Reply Value) → chat_events json es s ≡ chat_of s (chunks es)
  unfolding chat_events chunks choices_of reasons
  chat_events_lem [] s =
      Reply-eq _ _ (sym (chosen-nil s.id)) refl (sym (append-nil s.content_text)) refl refl refl
  chat_events_lem (e ∷ es) s =
      chat_events_lem es (parsed_chunk json (from_slice e.content) s)
      ∙ sym (parsed_chunk_lem s (from_slice e.content) (chunks es))

  -- What the chunks of a chat say together.
  abbrev pub chat_summary : List Value → Reply Value
  chat_summary vs = record {
    id = first_nonnull (present (map (λ v. get v (codes "id")) vs));
    model = last_or none (map some (present (map (λ v. str_at json v (codes "model")) vs)));
    content_text = concat (map (choice_text json) (choices_of vs));
    reason = last_or null (reasons (choices_of vs));
    input_tokens = last_or none (map prompt_tokens (usages vs));
    output_tokens = last_or none (map completion_tokens (usages vs));
  }

  pub reassemble_openai_chat_lem :
      (events : List SseEvent)
      → reassemble_openai_chat json events ≡ chat_reply json (chat_summary (chunks events))
  unfolding reassemble_openai_chat
  reassemble_openai_chat_lem events =
      ap (chat_reply json)
        (chat_events_lem events (initial json) ∙ rw ((json.is_null_iff null).1 refl) refl)
