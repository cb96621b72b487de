-- ===== src/Proxy/Dns/Decision.antt =====
-- What `process_dns_query` lets out to the upstream server, and what it answers.
use clawpot.Common.{
  ◌≡◌, ◌⊎◌, inl, inr, refl, Bool, true, false, ◌∷◌, take, Option, none, some, Text, codes, dec,
  Result, ok, err, Option-cases, Bool-cases,
}
use clawpot.Common.Bytes.{done}
use clawpot.Network.Addr.{IpAddr}
use clawpot.Vm.Registry.{VmId, find_by_ip}
use clawpot.Proxy.Auth
use clawpot.Proxy.Auth.{AuthClient, connected, disabled, Verdict, Service, dns, authorize_dns}
use clawpot.Proxy.Dns.{Question, parse_dns_question, build_refused_response}
use clawpot.Proxy.Dns.Total.{parse_dns_question-Returns}
use clawpot.Proxy.Dns.Query.{
  World, Event, request, authorized, response, Log, Answer, unwrap_question, forward, decide, reply,
  after_parse, after_lookup, process_dns_query, Allowed, anyone, granted,
}

-- The events that precede the answer of a VM's query.
abbrev pub asked : World → Text → Question → Event
asked w vm_id q = request vm_id q.0 q.1

abbrev pub judged : World → Text → Bool → Question → Event
judged w vm_id allowed q = authorized vm_id allowed (authorize_dns w.auth 0 vm_id q.0 q.1).1

-- How one query ends. The peer is no VM: it is refused without a trace. Or it is, and its question
-- is judged; then it is refused, or goes upstream once at most.
pub data Processes (w : World) (packet : Text) (peer : IpAddr) (log : Log) (out : Answer)
    : Type 0 where
  blocked :
      find_by_ip w.registry peer ≡ none
      → out ≡ (ok (build_refused_response packet), log)
      → Processes w packet peer log out
  refused :
      (id : VmId) (parsed : Option Question)
      → find_by_ip w.registry peer ≡ some id
      → parse_dns_question packet ≡ done parsed
      → out.0 ≡ ok (build_refused_response packet)
      → out.1.sent ≡ log.sent
      → out.1.events
        ≡ response (w.uuid_display id) (some 5) false
          ∷ (judged w (w.uuid_display id) false (unwrap_question parsed)
              ∷ (asked w (w.uuid_display id) (unwrap_question parsed) ∷ log.events))
      → Processes w packet peer log out
  let_out :
      (id : VmId) (parsed : Option Question)
      → find_by_ip w.registry peer ≡ some id
      → parse_dns_question packet ≡ done parsed
      → Allowed w.auth (w.uuid_display id) (unwrap_question parsed)
      → (out.1.sent ≡ log.sent) ⊎ (out.1.sent ≡ packet ∷ log.sent)
      → ((resp : Text)
          → out.0 ≡ ok resp
          → (out.1.sent ≡ packet ∷ log.sent)
            × ((datagram : Text) × (w.receive packet ≡ some datagram)
                × (resp ≡ take 4096 datagram)))
      → Processes w packet peer log out

verdict-Allowed :
    (auth : AuthClient) (vm_id : Text) (q : Question)
    → (authorize_dns auth 0 vm_id q.0 q.1).0 ≡ true
    → Allowed auth vm_id q
unfolding authorize_dns dec
verdict-Allowed disabled vm_id q h = anyone vm_id q
verdict-Allowed (connected service) vm_id q h = go (service (dns (codes "0") vm_id q.0 q.1)) refl h
  where
    go :
        (r : Result Text Verdict)
        → service (dns (codes "0") vm_id q.0 q.1) ≡ r
        → (Auth.verdict r).0 ≡ true
        → Allowed (connected service) vm_id q
    go (ok (true, reason)) e k = granted service vm_id q reason e
    go (ok (false, reason)) e k = cc
    go (err message) e k = cc

reply-answer :
    (vm_id : Text) (o : Option Text) (log : Log) (resp : Text)
    → (reply vm_id o log).0 ≡ ok resp
    → ((reply vm_id o log).1.sent ≡ log.sent)
      × ((datagram : Text) × (o ≡ some datagram) × (resp ≡ take 4096 datagram))
unfolding reply
reply-answer vm_id none log resp h = cc
reply-answer vm_id (some datagram) log resp h = (refl, (datagram, refl, cc))

module _ (w : World) (packet : Text) where
  forward-sent :
      (vm_id : Text) (b : Bool) (log : Log)
      → ((forward w packet vm_id b log).1.sent ≡ log.sent)
        ⊎ ((forward w packet vm_id b log).1.sent ≡ packet ∷ log.sent)
  unfolding forward reply
  forward-sent vm_id false log = inl refl
  forward-sent vm_id true log = elim (Option-cases (w.receive packet)) [
    | inl silent ↦ inr (rw (silent, reply))
    | inr (datagram, e) ↦ inr (rw (e, reply))
  ]

  forward-answer :
      (vm_id : Text) (b : Bool) (log : Log) (resp : Text)
      → (forward w packet vm_id b log).0 ≡ ok resp
      → ((forward w packet vm_id b log).1.sent ≡ packet ∷ log.sent)
        × ((datagram : Text) × (w.receive packet ≡ some datagram) × (resp ≡ take 4096 datagram))
  unfolding forward
  forward-answer vm_id false log resp h = cc
  forward-answer vm_id true log resp h = reply-answer vm_id (w.receive packet) _ resp h

  after_parse-Processes :
      (peer : IpAddr) (log : Log) (id : VmId) (parsed : Option Question)
      → find_by_ip w.registry peer ≡ some id
      → parse_dns_question packet ≡ done parsed
      → Processes w packet peer log (after_parse w packet (w.uuid_display id) parsed log)
  unfolding after_parse
  after_parse-Processes peer log id parsed known p =
      let vm_id = w.uuid_display id in
      let q = unwrap_question parsed in
      elim (Bool-cases (authorize_dns w.auth 0 vm_id q.0 q.1).0) [
        | inl allows ↦
            let_out id parsed known p (verdict-Allowed w.auth vm_id q allows)
              (rw (allows, decide) (forward-sent vm_id (w.send_to packet) _))
              (rw (allows, decide) (forward-answer vm_id (w.send_to packet) _))
        | inr denies ↦
            refused id parsed known p (rw (denies, decide)) (rw (denies, decide))
              (rw (denies, decide))
      ]

  after_lookup-Processes :
      (peer : IpAddr) (log : Log) (o : Option VmId)
      → find_by_ip w.registry peer ≡ o
      → (out : Answer) × (after_lookup w packet o log ≡ done out) × Processes w packet peer log out
  unfolding after_lookup
  after_lookup-Processes peer log none h = (_, refl, blocked h refl)
  after_lookup-Processes peer log (some id) h =
      let (parsed, e) = parse_dns_question-Returns packet in
      (
        after_parse w packet (w.uuid_display id) parsed log,
        rw e,
        after_parse-Processes peer log id parsed h e,
      )

-- Every query is answered or fails, whatever its bytes. From an address of no VM it is refused,
-- nothing is logged and nothing is sent. A VM's query is refused and not sent on; or authorization is
-- disabled or the service allowed that very question of that VM, and then it is sent upstream once
-- at most.
pub process_dns_query-Processes :
    (w : World) (packet : Text) (peer : IpAddr) (log : Log)
    → (out : Answer) × (process_dns_query w packet peer log ≡ done out)
      × Processes w packet peer log out
unfolding process_dns_query
process_dns_query-Processes w packet peer log =
    after_lookup-Processes w packet peer log (find_by_ip w.registry peer) refl
