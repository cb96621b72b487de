-- ===== src/Proxy/Http/Events.antt =====
-- The data of the events that `handle_request_inner` of clawpot-server/src/proxy/http_proxy.rs emits,
-- without the durations.
use clawpot.Common.{ℕ, List, [], ◌∷◌, Option, none, some, Text, codes}
use clawpot.Json.{Json, unwrap_or}
use clawpot.Proxy.Llm.{Header, LlmDetection}
use clawpot.Proxy.Llm.Reply.{Outcome}
use clawpot.Proxy.Llm.Response.{Summary, extract_request_summary, process_response}
use clawpot.Proxy.Http.{
  Event, http_request, http_authorized, http_denied, http_response, llm_request, llm_response,
}

unfoldable pub event_type : Event → Text
event_type (http_request vm_id method url headers body_size body_path) =
    codes "network.http.request"
event_type (http_authorized vm_id allowed reason) = codes "network.http.authorized"
event_type (http_denied vm_id) = codes "network.http.response"
event_type (http_response vm_id status body_size body_path headers) = codes "network.http.response"
event_type (llm_request vm_id det url body) = codes "llm.request"
event_type (llm_response vm_id det status content_type body) = codes "llm.response"

module _ (json : Json) where
  open json use {Value, null, string, number, bool, object, from_slice, to_string}

  -- An `Option` in `json!`.
  abbrev pub optional {ℓ} : {A : Type ℓ} → (A → Value) → Option A → Value
  optional f none = null
  optional f (some a) = f a

  abbrev strings : List Header → List (Text × Value)
  strings [] = []
  strings ((k, v) ∷ hs) = (k, string v) ∷ strings hs

  -- The map as JSON text.
  abbrev pub headers_json : List Header → Value
  headers_json hs = string (unwrap_or (to_string (object (strings hs))) [])

  unfoldable pub request_data : LlmDetection → Text → Text → Summary json → Value
  request_data det url body (model, message_count, streaming) = object (
      (codes "provider", string det.provider)
      ∷ (codes "endpoint", string det.endpoint_name)
      ∷ (codes "model", optional string model)
      ∷ (codes "message_count", optional number message_count)
      ∷ (codes "streaming", optional bool streaming)
      ∷ (codes "url", string url)
      ∷ (codes "body", unwrap_or (from_slice body) null)
      ∷ [])

  unfoldable pub response_data : LlmDetection → ℕ → Outcome Value → Value
  response_data det status (body_json, model, input_tokens, output_tokens) = object (
      (codes "provider", string det.provider)
      ∷ (codes "endpoint", string det.endpoint_name)
      ∷ (codes "model", optional string model)
      ∷ (codes "input_tokens", optional number input_tokens)
      ∷ (codes "output_tokens", optional number output_tokens)
      ∷ (codes "status_code", number status)
      ∷ (codes "body", body_json)
      ∷ [])

  unfoldable pub event_data : Event → Value
  unfolding request_data response_data extract_request_summary process_response
  event_data (http_request vm_id method url headers body_size body_path) = object (
      (codes "method", string method)
      ∷ (codes "url", string url)
      ∷ (codes "headers", headers_json headers)
      ∷ (codes "req_body_size", number body_size)
      ∷ (codes "req_body_path", optional string body_path)
      ∷ [])
  event_data (http_authorized vm_id allowed reason) =
      object ((codes "allowed", bool allowed) ∷ (codes "reason", string reason) ∷ [])
  event_data (http_denied vm_id) =
      object ((codes "status_code", number 403) ∷ (codes "resp_body_size", number 0) ∷ [])
  event_data (http_response vm_id status body_size body_path headers) = object (
      (codes "status_code", number status)
      ∷ (codes "resp_body_size", number body_size)
      ∷ (codes "resp_body_path", optional string body_path)
      ∷ (codes "resp_headers", headers_json headers)
      ∷ [])
  event_data (llm_request vm_id det url body) =
      request_data det url body (extract_request_summary json det.endpoint_name body)
  event_data (llm_response vm_id det status content_type body) =
      response_data det status (process_response json det.endpoint_name content_type body)
