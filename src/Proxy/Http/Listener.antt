-- ===== src/Proxy/Http/Listener.antt =====
-- `run_listener` of clawpot-server/src/proxy/http_proxy.rs: the loop that takes connections, which is run
-- for port 10080 and, with the PROXY protocol, for port 10081. What it waits
-- for next is a list, oldest first. Each task runs over the server as it is then, with a log of its own.
use clawpot.Common.{
  All, ◌≡◌, inl, inr, refl, sym, ap, subst, Bool, true, false, List, [], ◌∷◌, ◌++◌, Option, none,
  some, Text, Result, ok, err,
}
use clawpot.Network.Addr.{IpAddr}
use clawpot.Vm.Registry.{VmId, find_by_ip}
use clawpot.Proxy.ProxyProtocol.{Error, read_proxy_header}
use clawpot.Proxy.Http.{
  Request, Response, Upstream, World, Log, url, collect, upstream_req, handle_request,
}
use clawpot.Proxy.Http.Decision.{Allowed, Handles, blocked, denied, let_out, handle_request-Handles}
use clawpot.Proxy.Http.Connection.{serve_connection, served, after_header}

pub record Task : Type 0 where
  pub world : World
  pub peer : IpAddr
  pub stream : Text

pub data Wake : Type 0 where
  connection : Task → Wake
  accept_failed cancelled : Wake

pub data Ended : Type 0 where
  waiting stopped failed : Ended

abbrev with_task : Task → Ended × List Task → Ended × List Task
with_task t (end, ts) = (end, t ∷ ts)

-- The loop, with the tasks that it spawns.
unfoldable pub run_listener : List Wake → Ended × List Task
run_listener [] = (waiting, [])
run_listener (connection t ∷ ws) = with_task t (run_listener ws)
run_listener (accept_failed ∷ ws) = (failed, [])
run_listener (cancelled ∷ ws) = (stopped, [])

with_task-waiting :
    (t : Task) (out : Ended × List Task) → (with_task t out).0 ≡ waiting → out.0 ≡ waiting
with_task-waiting t (end, ts) h = h

run_listener-cancelled :
    (ws more : List Wake)
    → (run_listener ws).0 ≡ waiting
    → run_listener (ws ++ cancelled ∷ more) ≡ (stopped, (run_listener ws).1)
unfolding run_listener
run_listener-cancelled [] more h = refl
run_listener-cancelled (connection t ∷ ws) more h =
    ap (with_task t) (run_listener-cancelled ws more (with_task-waiting t (run_listener ws) h))
run_listener-cancelled (accept_failed ∷ ws) more h = cc
run_listener-cancelled (cancelled ∷ ws) more h = cc

abbrev pub no_log : Log
no_log = record { events = []; sent = []; files = [] }

-- A request may go upstream: it is built from one of a VM, and authorization is disabled or the
-- service allows that one.
abbrev pub Permitted : World → IpAddr → Upstream → Type 0
Permitted w client u =
    (id : VmId) × (req : Request) × (find_by_ip w.registry client ≡ some id)
    × Allowed w.auth (w.uuid_display id) req.method (url w req) (collect req.headers []) req.body
    × (u ≡ upstream_req w req)

module _ (parse_ipv6 : Text → Option Text) (read_request : Text → Option Request) where
  unfoldable pub handle : (proxy_protocol : Bool) → Task → Option Response × Log
  unfolding serve_connection
  handle proxy_protocol t =
      serve_connection t.world parse_ipv6 read_request proxy_protocol t.peer t.stream no_log

  -- Whom a connection is served for: the peer, or the client that the PROXY header names.
  pub data ClientOf (t : Task) (client : IpAddr) : Bool → Type 0 where
    direct : client ≡ t.peer → ClientOf t client false
    proxied :
        (rest : Text)
        → read_proxy_header parse_ipv6 t.stream ≡ (ok client, rest)
        → ClientOf t client true

  -- A task sends nothing, or requests of its client that are permitted.
  pub data Guards (proxy_protocol : Bool) (t : Task) (log : Log) : Type 0 where
    silent : log.sent ≡ [] → Guards proxy_protocol t log
    guarded :
        (client : IpAddr)
        → ClientOf t client proxy_protocol
        → All (Permitted t.world client) log.sent
        → Guards proxy_protocol t log

  Handles-Permitted :
      (w : World) (req : Request) (client : IpAddr) (out : Response × Log)
      → Handles w req client no_log out
      → All (Permitted w client) out.1.sent
  Handles-Permitted w req client out (blocked unknown e) =
      subst (λ o. All (Permitted w client) o.1.sent) (sym e) tt
  Handles-Permitted w req client out (denied id reason known answer same) =
      subst (λ l. All (Permitted w client) l) (sym same) tt
  Handles-Permitted w req client out (let_out id known allowed sent) = elim sent [
    | inl same ↦ subst (λ l. All (Permitted w client) l) (sym same) tt
    | inr one ↦
        subst (λ l. All (Permitted w client) l) (sym one) ((id, req, known, allowed, refl), tt)
  ]

  served-Permitted :
      (w : World) (client : IpAddr) (o : Option Request)
      → All (Permitted w client) (served w parse_ipv6 read_request client o no_log).1.sent
  served-Permitted w client none = tt
  served-Permitted w client (some req) =
      Handles-Permitted w req client (handle_request w req client no_log)
        (handle_request-Handles w req client no_log)

  after_header-Guards :
      (t : Task) (h : Result Error IpAddr × Text)
      → read_proxy_header parse_ipv6 t.stream ≡ h
      → Guards true t (after_header t.world parse_ipv6 read_request h no_log).1
  after_header-Guards t (ok client, rest) e =
      guarded client (proxied rest e) (served-Permitted t.world client (read_request rest))
  after_header-Guards t (err x, rest) e = silent refl

  handle-Guards :
      (proxy_protocol : Bool) (t : Task) → Guards proxy_protocol t (handle proxy_protocol t).1
  unfolding handle serve_connection
  handle-Guards false t =
      guarded t.peer (direct refl) (served-Permitted t.world t.peer (read_request t.stream))
  handle-Guards true t = after_header-Guards t (read_proxy_header parse_ipv6 t.stream) refl

  abbrev pub GuardsAll : Bool → List Task → Type 0
  GuardsAll proxy_protocol ts = All (λ t. Guards proxy_protocol t (handle proxy_protocol t).1) ts

  handle-GuardsAll : (proxy_protocol : Bool) (ts : List Task) → GuardsAll proxy_protocol ts
  handle-GuardsAll proxy_protocol [] = tt
  handle-GuardsAll proxy_protocol (t ∷ ts) =
      (handle-Guards proxy_protocol t, handle-GuardsAll proxy_protocol ts)

  -- However connections come before the shutdown: each listener stops there with the tasks that it
  -- spawned before, whatever comes later; and each of them sends upstream nothing, or only requests
  -- built from one of a VM, that authorization allowed or that needed none. The VM is the one at the
  -- peer's address or, behind the TLS proxy, at the address that the PROXY header names.
  pub run_listener-Guards :
      (proxy_protocol : Bool) (ws more : List Wake)
      → (run_listener ws).0 ≡ waiting
      → (run_listener (ws ++ cancelled ∷ more) ≡ (stopped, (run_listener ws).1))
        × GuardsAll proxy_protocol (run_listener ws).1
  run_listener-Guards proxy_protocol ws more h =
      (run_listener-cancelled ws more h, handle-GuardsAll proxy_protocol (run_listener ws).1)
