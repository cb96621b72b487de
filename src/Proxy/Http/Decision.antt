-- ===== src/Proxy/Http/Decision.antt =====
-- What `handle_request` lets out to an upstream server.
use clawpot.Common.{
  ◌≡◌, ◌⊎◌, inl, inr, refl, ap, ◌∙◌, true, false, List, [], ◌∷◌, ◌++◌, take, ltb, length, Option,
  none, some, Text, codes, dec, Result, ok, err, arith,
}
use clawpot.Network.Addr.{IpAddr}
use clawpot.Vm.Registry.{VmId, find_by_ip}
use clawpot.Proxy.Auth.{
  AuthClient, connected, disabled, Service, Verdict, http, max_body, authorize_http,
}
use clawpot.Proxy.Auth
use clawpot.Proxy.Llm.{Header, LlmDetection}
use clawpot.Proxy.Http.{
  Request, Response, Sent, not_built, failed, answered, World, Log, plain, url, detected,
  upstream_req, finish, decide, verdict_on, after_lookup, handle_request, collect, store,
  log_llm_request, log_llm_response,
}

-- Which requests the server may send: all, if authorization is disabled, or those that the service
-- allowed, asked about this VM, method, URL, headers and the first MiB of the body.
pub data Allowed : AuthClient → (vm_id method u : Text) → List Header → (body : Text) → Type 0 where
  anyone :
      (vm_id method u : Text) (hs : List Header) (body : Text)
      → Allowed disabled vm_id method u hs body
  granted :
      (service : Service) (vm_id method u : Text) (hs : List Header) (body reason : Text)
      → service
          (http (codes "0") vm_id method u hs (take max_body body) (ltb max_body (length body)))
        ≡ ok (true, reason)
      → Allowed (connected service) vm_id method u hs body

verdict-Allowed :
    (auth : AuthClient) (vm_id method u : Text) (hs : List Header) (body : Text)
    → (authorize_http auth 0 vm_id method u hs body).0 ≡ true
    → Allowed auth vm_id method u hs body
unfolding authorize_http dec
verdict-Allowed disabled vm_id method u hs body h = anyone vm_id method u hs body
verdict-Allowed (connected service) vm_id method u hs body h =
    go
      (service
        (http (codes "0") vm_id method u hs (take max_body body) (ltb max_body (length body))))
      refl h
  where
    go :
        (r : Result Text Verdict)
        → service
            (http (codes "0") vm_id method u hs (take max_body body) (ltb max_body (length body)))
          ≡ r
        → (Auth.verdict r).0 ≡ true
        → Allowed (connected service) vm_id method u hs body
    go (ok (true, reason)) e k = granted service vm_id method u hs body reason e
    go (ok (false, reason)) e k = cc
    go (err message) e k = cc

-- How one request ends.
pub data Handles (w : World) (req : Request) (peer : IpAddr) (log : Log) (out : Response × Log)
    : Type 0 where
  blocked :
      find_by_ip w.registry peer ≡ none
      → out ≡ (plain 403 (codes "Unknown VM"), log)
      → Handles w req peer log out
  denied :
      (id : VmId) (reason : Text)
      → find_by_ip w.registry peer ≡ some id
      → out.0 ≡ plain 403 (codes "Denied: " ++ reason)
      → out.1.sent ≡ log.sent
      → Handles w req peer log out
  let_out :
      (id : VmId)
      → find_by_ip w.registry peer ≡ some id
      → Allowed w.auth (w.uuid_display id) req.method (url w req) (collect req.headers []) req.body
      → (out.1.sent ≡ log.sent) ⊎ (out.1.sent ≡ upstream_req w req ∷ log.sent)
      → Handles w req peer log out

store-sent :
    (w : World) (suffix body : Text) (log : Log) → (store w 0 suffix body log).1.sent ≡ log.sent
unfolding store
store-sent w suffix body log = ground arith

log_llm_request-sent :
    (vm_id u body : Text) (d : Option LlmDetection) (log : Log)
    → (log_llm_request vm_id u body d log).sent ≡ log.sent
log_llm_request-sent vm_id u body none log = refl
log_llm_request-sent vm_id u body (some det) log = refl

log_llm_response-sent :
    (vm_id : Text) (resp : Response) (d : Option LlmDetection) (log : Log)
    → (log_llm_response vm_id resp d log).sent ≡ log.sent
unfolding log_llm_response
log_llm_response-sent vm_id resp none log = refl
log_llm_response-sent vm_id resp (some det) log = refl

module _ (w : World) (req : Request) where
  finish-sent :
      (vm_id : Text) (r : Sent) (log : Log)
      → ((finish w req vm_id r log).1.sent ≡ log.sent)
        ⊎ ((finish w req vm_id r log).1.sent ≡ upstream_req w req ∷ log.sent)
  unfolding finish
  finish-sent vm_id (not_built e) log = inl refl
  finish-sent vm_id (failed e) log = inr refl
  finish-sent vm_id (answered resp) log = inr (
      store-sent w (codes "resp") resp.body _ ∙ log_llm_response-sent vm_id resp (detected w req) _)

  decided :
      (peer : IpAddr) (log log' : Log) (id : VmId) (v : Verdict)
      → find_by_ip w.registry peer ≡ some id
      → log'.sent ≡ log.sent
      → (v.0 ≡ true
          → Allowed w.auth
              (w.uuid_display id)
              req.method
              (url w req)
              (collect req.headers [])
              req.body)
      → Handles w req peer log (decide w req (w.uuid_display id) v log')
  unfolding decide
  decided peer log log' id (false, reason) known same may = denied id reason known refl same
  decided peer log log' id (true, reason) known same may =
      let before = log_llm_request (w.uuid_display id) (url w req) req.body (detected w req) log' in
      let kept : before.sent ≡ log.sent =
        log_llm_request-sent (w.uuid_display id) (url w req) req.body (detected w req) log'
        ∙ same in
      let_out id known (may refl)
        (elim (finish-sent (w.uuid_display id) (w.request (upstream_req w req)) before) [
          | inl e ↦ inl (e ∙ kept)
          | inr e ↦ inr (e ∙ ap (λ l. upstream_req w req ∷ l) kept)
        ])

  after_lookup-Handles :
      (peer : IpAddr) (log : Log) (o : Option VmId)
      → find_by_ip w.registry peer ≡ o
      → Handles w req peer log (after_lookup w req o log)
  unfolding after_lookup
  after_lookup-Handles peer log none h = blocked h refl
  after_lookup-Handles peer log (some id) h =
      decided peer log _ id (verdict_on w req (w.uuid_display id)) h
        (store-sent w (codes "req") req.body log)
        (verdict-Allowed w.auth (w.uuid_display id) req.method (url w req) (collect req.headers [])
          req.body)

-- A request from an address of no VM is refused with 403 and leaves no trace. A VM's request is
-- refused with 403 and the reason and nothing is sent; or authorization is disabled or the service
-- allowed it, asked about this VM, method, URL, headers and the first MiB of the body, and then one
-- request at most goes upstream, the one built from it.
pub handle_request-Handles :
    (w : World) (req : Request) (peer : IpAddr) (log : Log)
    → Handles w req peer log (handle_request w req peer log)
unfolding handle_request
handle_request-Handles w req peer log =
    after_lookup-Handles w req peer log (find_by_ip w.registry peer) refl
