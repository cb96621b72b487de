-- ===== src/Proxy/Dns/Query.antt =====
-- `process_dns_query` of clawpot-server/src/proxy/dns_proxy.rs: the way of one query.
use clawpot.Common.{
  ℕ, ◌%◌, ◌==◌, ◌≡◌, Bool, true, false, List, ◌∷◌, take, get_elem?, Option, none, some, Text, codes,
  Result, ok, err,
}
use clawpot.Common.Bytes.{Run, done, ◌>>=◌}
use clawpot.Network.Addr.{IpAddr}
use clawpot.Vm.Registry.{VmId, VmRegistry, find_by_ip}
use clawpot.Proxy.Auth
use clawpot.Proxy.Auth.{AuthClient, connected, disabled, Verdict, dns, authorize_dns}
use clawpot.Proxy.Dns.{Question, parse_dns_question, build_refused_response}

-- What the query meets: the registry, the client of the authorization service, and the socket to
-- the upstream server. `receive` is `none` after 5 seconds without an answer, or on a failure.
pub record World : Type 0 where
  pub registry : VmRegistry
  pub auth : AuthClient
  pub uuid_display : VmId → Text
  pub send_to : Text → Bool
  pub receive : Text → Option Text

-- The events, without correlation ids and durations.
pub data Event : Type 0 where
  request : (vm_id query_name query_type : Text) → Event
  authorized : (vm_id : Text) (allowed : Bool) (reason : Text) → Event
  response : (vm_id : Text) (rcode : Option ℕ) (success : Bool) → Event

-- Events emitted and packets sent upstream, newest first.
pub record Log : Type 0 where
  pub events : List Event
  pub sent : List Text

pub data Error : Type 0 where
  send_failed no_answer : Error

abbrev pub Answer : Type 0
Answer = Result Error Text × Log

abbrev pub emit : Event → Log → Log
emit e log = record log { events = e ∷ log.events }

abbrev pub unwrap_question : Option Question → Question
unwrap_question none = (codes "unknown", codes "unknown")
unwrap_question (some q) = q

-- `resp_buf[3] & 0x0F`, where four bytes came.
abbrev pub rcode_of : Option ℕ → Option ℕ
rcode_of none = none
rcode_of (some b) = some (b % 16)

-- `rcode == Some(0)`
abbrev pub is_success : Option ℕ → Bool
is_success none = false
is_success (some c) = c == 0

-- The buffer holds 4096 bytes.
unfoldable pub reply : Text → Option Text → Log → Answer
reply vm_id none log = (err no_answer, log)
reply vm_id (some datagram) log =
    let resp = take 4096 datagram in
    let rcode = rcode_of (get_elem? resp 3) in
    (ok resp, emit (response vm_id rcode (is_success rcode)) log)

module _ (w : World) (packet : Text) where
  unfoldable pub forward : Text → Bool → Log → Answer
  unfolding reply
  forward vm_id false log = (err send_failed, log)
  forward vm_id true log = reply vm_id (w.receive packet) (record log { sent = packet ∷ log.sent })

  unfoldable pub decide : Text → Bool → Log → Answer
  unfolding forward
  decide vm_id true log = forward vm_id (w.send_to packet) log
  decide vm_id false log =
      (ok (build_refused_response packet), emit (response vm_id (some 5) false) log)

  -- The verdict on the question of the query.
  abbrev pub verdict_on : Text → Question → Verdict
  verdict_on vm_id q = authorize_dns w.auth 0 vm_id q.0 q.1

  unfoldable pub after_parse : Text → Option Question → Log → Answer
  unfolding decide authorize_dns
  after_parse vm_id parsed log =
      let q = unwrap_question parsed in
      let (allowed, reason) = verdict_on vm_id q in
      decide vm_id allowed
        (emit (authorized vm_id allowed reason) (emit (request vm_id q.0 q.1) log))

  unfoldable pub after_lookup : Option VmId → Log → Run Answer
  unfolding after_parse parse_dns_question
  after_lookup none log = done (ok (build_refused_response packet), log)
  after_lookup (some id) log = do
    parsed ← parse_dns_question packet
    done (after_parse (w.uuid_display id) parsed log)

unfoldable pub process_dns_query : World → Text → IpAddr → Log → Run Answer
unfolding after_lookup find_by_ip
process_dns_query w packet peer log = after_lookup w packet (find_by_ip w.registry peer) log

-- Who may have a question answered: all, if authorization is disabled, or whom the service allows.
pub data Allowed : AuthClient → (vm_id : Text) → Question → Type 0 where
  anyone : (vm_id : Text) (q : Question) → Allowed disabled vm_id q
  granted :
      (service : Auth.Service) (vm_id : Text) (q : Question) (reason : Text)
      → service (dns (codes "0") vm_id q.0 q.1) ≡ ok (true, reason)
      → Allowed (connected service) vm_id q
