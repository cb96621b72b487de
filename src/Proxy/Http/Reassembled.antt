-- ===== src/Proxy/Http/Reassembled.antt =====
-- What the event log of clawpot-server/src/proxy/http_proxy.rs keeps of a streamed answer of an LLM.
use clawpot.Common.{
  All, ◌≡◌, refl, ap, true, List, ◌∷◌, ◌++◌, length, [], Option, some, Text, codes,
}
use clawpot.Common.Utf8.{is_utf8}
use clawpot.Json.{Json}
use clawpot.Network.Addr.{IpAddr}
use clawpot.Vm.Registry.{VmId, find_by_ip}
use clawpot.Proxy.Llm.{LlmDetection}
use clawpot.Proxy.Llm.Sse.RoundTrip.{Frame, IsFrame, encode, frames_events}
use clawpot.Proxy.Llm.Response.{contains}
use clawpot.Proxy.Llm.Response.Streamed.{reassembled, process_response-encode}
use clawpot.Proxy.Http.{
  Request, Response, answered, World, Log, Event, llm_response, detected, upstream_req, decide,
  verdict_on, http_response, collect, after_lookup, handle_request,
}
use clawpot.Proxy.Http.Events.{event_type, event_data, response_data}
use clawpot.Proxy.Http.Trail.{content_type, answer_events, finish-events}

module _ (w : World) (req : Request) (peer : IpAddr) (log : Log) where
  -- The events behind those of a request that is let out and answered.
  answered-events :
      (id : VmId) (reason : Text) (resp : Response)
      → find_by_ip w.registry peer ≡ some id
      → verdict_on w req (w.uuid_display id) ≡ (true, reason)
      → w.request (upstream_req w req) ≡ answered resp
      → (path : Option Text) × (es : List Event) × ((handle_request w req peer log).1.events
          ≡ answer_events w req (w.uuid_display id) resp path ++ es)
  unfolding handle_request after_lookup decide
  answered-events id reason resp known v r =
      rw (known, v, r)
        (let (path, e) = finish-events w req (w.uuid_display id) resp _ in (path, _, e))

module _ (json : Json) where
  event_data-Streamed :
      (vm_id : Text) (det : LlmDetection) (resp : Response) (ct : Text) (fs : List Frame)
      → content_type resp ≡ some ct
      → contains ct (codes "text/event-stream") ≡ true
      → All IsFrame fs
      → is_utf8 (encode fs) ≡ true
      → resp.body ≡ encode fs
      → event_data json (llm_response vm_id det resp.status (content_type resp) resp.body)
        ≡ response_data json det resp.status (reassembled json det.endpoint_name (frames_events fs))
  unfolding event_data
  event_data-Streamed vm_id det resp ct fs h stream frames utf8 body =
      rw (h, body)
        (ap (response_data json det resp.status)
          (process_response-encode json det.endpoint_name ct fs stream frames utf8))

  -- If a VM's request to an LLM is let out and the provider answers with an event stream of well-formed
  -- frames, the last event but the response is the answer of the LLM, with the provider, the endpoint,
  -- the status and what the events of the stream say together.
  pub handle_request-Streamed :
      (w : World) (req : Request) (peer : IpAddr) (log : Log) (id : VmId) (reason : Text)
      (det : LlmDetection) (resp : Response) (ct : Text) (fs : List Frame)
      → find_by_ip w.registry peer ≡ some id
      → verdict_on w req (w.uuid_display id) ≡ (true, reason)
      → detected w req ≡ some det
      → w.request (upstream_req w req) ≡ answered resp
      → content_type resp ≡ some ct
      → contains ct (codes "text/event-stream") ≡ true
      → All IsFrame fs
      → is_utf8 (encode fs) ≡ true
      → resp.body ≡ encode fs
      → (response answer : Event) × (es : List Event) × ((handle_request w req peer log).1.events
          ≡ response ∷ answer ∷ es)
        × (event_type answer ≡ codes "llm.response")
        × (event_data json answer
            ≡ response_data json det resp.status
                (reassembled json det.endpoint_name (frames_events fs)))
  unfolding event_type
  handle_request-Streamed w req peer log id reason det resp ct fs known v d r h stream frames utf8
        body =
      let (path, es, e) = answered-events w req peer log id reason resp known v r in
      (
        http_response (w.uuid_display id) resp.status (length resp.body) path
            (collect resp.headers []),
        llm_response (w.uuid_display id) det resp.status (content_type resp) resp.body,
        es,
        (rw d at e),
        refl,
        event_data-Streamed (w.uuid_display id) det resp ct fs h stream frames utf8 body,
      )
