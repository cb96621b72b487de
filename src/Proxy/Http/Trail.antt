-- ===== src/Proxy/Http/Trail.antt =====
-- The events that `handle_request` leaves.
use clawpot.Common.{
  ◌≡◌, ◌≢◌, refl, ap, ◌∙◌, true, false, List, [], ◌∷◌, ◌++◌, length, Option, none, some, Text,
  codes, arith,
}
use clawpot.Network.Addr.{IpAddr}
use clawpot.Vm.Registry.{VmId, find_by_ip}
use clawpot.Proxy.Auth.{Verdict}
use clawpot.Proxy.Llm.{LlmDetection}
use clawpot.Proxy.Http.{
  Request, Response, Sent, not_built, failed, answered, World, Log, Event, http_request,
  http_authorized, http_denied, http_response, llm_request, llm_response, url, detected,
  upstream_req, finish, decide, verdict_on, after_lookup, handle_request, collect, get_header,
  store, log_llm_request, log_llm_response,
}

-- The events of a request to an LLM, and of its answer.
abbrev pub llm_request_events : (vm_id u body : Text) → Option LlmDetection → List Event
llm_request_events vm_id u body none = []
llm_request_events vm_id u body (some det) = llm_request vm_id det u body ∷ []

abbrev pub content_type : Response → Option Text
content_type resp = get_header (codes "content-type") (collect resp.headers [])

abbrev pub llm_response_events : Text → Response → Option LlmDetection → List Event
llm_response_events vm_id resp none = []
llm_response_events vm_id resp (some det) =
    llm_response vm_id det resp.status (content_type resp) resp.body ∷ []

store-events :
    (w : World) (suffix body : Text) (log : Log) → (store w 0 suffix body log).1.events ≡ log.events
unfolding store
store-events w suffix body log = ground arith

log_llm_request-events :
    (vm_id u body : Text) (d : Option LlmDetection) (log : Log)
    → (log_llm_request vm_id u body d log).events ≡ llm_request_events vm_id u body d ++ log.events
log_llm_request-events vm_id u body none log = refl
log_llm_request-events vm_id u body (some det) log = refl

log_llm_response-events :
    (vm_id : Text) (resp : Response) (d : Option LlmDetection) (log : Log)
    → (log_llm_response vm_id resp d log).events ≡ llm_response_events vm_id resp d ++ log.events
unfolding log_llm_response
log_llm_response-events vm_id resp none log = refl
log_llm_response-events vm_id resp (some det) log = refl

module _ (w : World) (req : Request) where
  abbrev opened : Text → Verdict → Option Text → List Event → List Event
  opened vm_id v path es =
      http_authorized vm_id v.0 v.1
      ∷ http_request vm_id req.method (url w req) (collect req.headers []) (length req.body) path
      ∷ es

  -- The events of a request up to the verdict.
  abbrev pub asked : Text → Verdict → Log → List Event
  asked vm_id v log = opened vm_id v (store w 0 (codes "req") req.body log).0 log.events

  abbrev pub sent_out : Text → List Event
  sent_out vm_id = llm_request_events vm_id (url w req) req.body (detected w req)

  abbrev logged : Text → Response → Log → Log
  logged vm_id resp log =
      log_llm_response vm_id resp (detected w req)
        (record log { sent = upstream_req w req ∷ log.sent })

  -- The events of an answer.
  abbrev pub answer_events : Text → Response → Option Text → List Event
  answer_events vm_id resp path =
      http_response vm_id resp.status (length resp.body) path (collect resp.headers [])
      ∷ llm_response_events vm_id resp (detected w req)

  abbrev responded : Text → Response → Option Text → List Event → List Event
  responded vm_id resp path es =
      http_response vm_id resp.status (length resp.body) path (collect resp.headers []) ∷ es

  pub finish-events :
      (vm_id : Text) (resp : Response) (log : Log)
      → (path : Option Text) × ((finish w req vm_id (answered resp) log).1.events
          ≡ answer_events vm_id resp path ++ log.events)
  unfolding finish
  finish-events vm_id resp log = (
    (store w 0 (codes "resp") resp.body (logged vm_id resp log)).0,
    ap (responded vm_id resp (store w 0 (codes "resp") resp.body (logged vm_id resp log)).0) (
        store-events w (codes "resp") resp.body (logged vm_id resp log)
        ∙ log_llm_response-events vm_id resp (detected w req) _),
  )

  -- The events of one request, newest first, by how it ends.
  pub data Trail (peer : IpAddr) (log : Log) (out : Response × Log) : Type 0 where
    unknown : find_by_ip w.registry peer ≡ none → out.1.events ≡ log.events → Trail peer log out
    denied :
        (id : VmId) (reason : Text)
        → find_by_ip w.registry peer ≡ some id
        → verdict_on w req (w.uuid_display id) ≡ (false, reason)
        → out.0.status ≡ 403
        → out.1.events
          ≡ http_denied (w.uuid_display id) ∷ asked (w.uuid_display id) (false, reason) log
        → Trail peer log out
    unanswered :
        (id : VmId) (reason : Text)
        → find_by_ip w.registry peer ≡ some id
        → verdict_on w req (w.uuid_display id) ≡ (true, reason)
        → ((resp : Response) → w.request (upstream_req w req) ≢ answered resp)
        → out.0.status ≡ 502
        → out.1.events
          ≡ sent_out (w.uuid_display id) ++ asked (w.uuid_display id) (true, reason) log
        → Trail peer log out
    answered_by :
        (id : VmId) (reason : Text) (resp : Response) (path : Option Text)
        → find_by_ip w.registry peer ≡ some id
        → verdict_on w req (w.uuid_display id) ≡ (true, reason)
        → w.request (upstream_req w req) ≡ answered resp
        → (out.0.status ≡ resp.status) × (out.0.body ≡ resp.body)
        → out.1.events
          ≡ answer_events (w.uuid_display id) resp path
            ++ (sent_out (w.uuid_display id) ++ asked (w.uuid_display id) (true, reason) log)
        → Trail peer log out

  -- What was logged before the verdict.
  abbrev before : Text → Verdict → Log → Log
  before vm_id v log =
      let (path, log') = store w 0 (codes "req") req.body log in
      record log' { events = opened vm_id v path log'.events }

  before-events :
      (vm_id : Text) (v : Verdict) (log : Log) → (before vm_id v log).events ≡ asked vm_id v log
  before-events vm_id v log =
      ap (opened vm_id v (store w 0 (codes "req") req.body log).0)
        (store-events w (codes "req") req.body log)

  module _ (peer : IpAddr) (log : Log) (id : VmId)
      (known : find_by_ip w.registry peer ≡ some id) where
    abbrev vm : Text
    vm = w.uuid_display id

    sent-Trail :
        (reason : Text) (r : Sent) (l : Log)
        → verdict_on w req vm ≡ (true, reason)
        → w.request (upstream_req w req) ≡ r
        → l.events ≡ sent_out vm ++ asked vm (true, reason) log
        → Trail peer log (finish w req vm r l)
    unfolding finish
    sent-Trail reason (not_built e) l v r h = unanswered id reason known v (λ resp k. cc) refl h
    sent-Trail reason (failed e) l v r h = unanswered id reason known v (λ resp k. cc) refl h
    sent-Trail reason (answered resp) l v r h =
        let (path, e) = finish-events vm resp l in
        answered_by id reason resp path known v r (refl, refl)
          (e ∙ ap (λ es. answer_events vm resp path ++ es) h)

    decided-Trail :
        (v : Verdict)
        → verdict_on w req vm ≡ v
        → Trail peer log (decide w req vm v (before vm v log))
    unfolding decide
    decided-Trail (false, reason) h =
        denied id reason known h refl
          (ap (λ es. http_denied vm ∷ es) (before-events vm (false, reason) log))
    decided-Trail (true, reason) h = sent-Trail reason (w.request (upstream_req w req)) _ h refl (
        log_llm_request-events vm (url w req) req.body (detected w req) _
        ∙ ap (λ es. sent_out vm ++ es) (before-events vm (true, reason) log))

  after_lookup-Trail :
      (peer : IpAddr) (log : Log) (o : Option VmId)
      → find_by_ip w.registry peer ≡ o
      → Trail peer log (after_lookup w req o log)
  unfolding after_lookup
  after_lookup-Trail peer log none h = unknown h refl
  after_lookup-Trail peer log (some id) h = decided-Trail peer log id h _ refl

-- Every request of a VM leaves its events in order. One that is denied: the request, the verdict, and
-- a response of 403. One that is let out: the request, the verdict, the request to an LLM if it is
-- one, and, if the upstream server answers, the answer of the LLM and the response, with the status
-- and the body that the VM gets; the VM gets 502 and nothing more is recorded if it does not answer.
-- A request from an address of no VM leaves no event.
pub handle_request-Trail :
    (w : World) (req : Request) (peer : IpAddr) (log : Log)
    → Trail w req peer log (handle_request w req peer log)
unfolding handle_request
handle_request-Trail w req peer log =
    after_lookup-Trail w req peer log (find_by_ip w.registry peer) refl
