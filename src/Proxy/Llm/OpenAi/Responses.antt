-- ===== src/Proxy/Llm/OpenAi/Responses.antt =====
-- What `reassemble_openai_responses` of clawpot-server/src/proxy/llm.rs makes of a stream.
use clawpot.Common.{
  ◌≡◌, refl, Bool, true, false, List, [], ◌∷◌, ◌++◌, Option, none, some, codes, if◌then◌else◌,
}
use clawpot.Json.{Json, unwrap_or}
use clawpot.Proxy.Llm.Reply.{Outcome, nothing}
use clawpot.Proxy.Llm.Sse.{SseEvent}
use clawpot.Proxy.Llm.OpenAi.{is_completed, completed, full_response, reassemble_openai_responses}

module _ (json : Json) where
  open json use {Value, get, from_slice}

  abbrev chunk : Option Value → List Value
  chunk none = []
  chunk (some v) = v ∷ []

  abbrev completed_chunk : Bool → Option Value → List Value
  completed_chunk true o = chunk o
  completed_chunk false o = []

  -- The JSON of the completed events.
  unfoldable pub completions : List SseEvent → List Value
  completions [] = []
  completions (e ∷ es) =
      completed_chunk (is_completed json e.event_type) (from_slice e.content) ++ completions es

  abbrev pub first_response : List Value → Outcome Value
  first_response [] = nothing json
  first_response (v ∷ vs) = full_response json (unwrap_or (get v (codes "response")) v)

  pub reassemble_openai_responses_lem :
      (events : List SseEvent)
      → reassemble_openai_responses json events ≡ first_response (completions events)
  unfolding reassemble_openai_responses completions
  reassemble_openai_responses_lem [] = refl
  reassemble_openai_responses_lem (e ∷ es) =
      one (is_completed json e.event_type) (from_slice e.content)
        (reassemble_openai_responses json es) (completions es) (reassemble_openai_responses_lem es)
    where
      one :
          (b : Bool) (o : Option Value) (rest : Outcome Value) (vs : List Value)
          → rest ≡ first_response vs
          → (if b then completed json o rest else rest) ≡ first_response (completed_chunk b o ++ vs)
      one true none rest vs h = h
      one true (some v) rest vs h = refl
      one false o rest vs h = h
