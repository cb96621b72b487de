-- ===== src/Proxy/Dns/Listener/Guarded.antt =====
-- What the DNS proxy of clawpot-server/src/proxy/dns_proxy.rs sends upstream while it runs.
use clawpot.Common.{
  ℕ, zero, suc, All, ◌≡◌, inl, inr, refl, sym, subst, ap, ltb, ◌==◌, not, Bool, true, false, List,
  [], ◌∷◌, ◌++◌, take, drop, length, Option, none, some, Text, ok, err, if◌then◌else◌,
}
use clawpot.Common.Bytes.{Run, panic, done}
use clawpot.Network.Addr.{IpAddr}
use clawpot.Vm.Registry.{VmId, find_by_ip}
use clawpot.Proxy.Dns.{Question, parse_dns_question, write_dns_message, read_dns_length}
use clawpot.Proxy.Dns.Query.{World, Log, Answer, unwrap_question, process_dns_query, Allowed}
use clawpot.Proxy.Dns.Decision.{Processes, blocked, refused, let_out, process_dns_query-Processes}
use clawpot.Proxy.Dns.Tcp.{
  Served, Next, after_query, after_length, serve, handle_tcp_dns_connection,
  handle_tcp_dns_connection-Returns,
}
use clawpot.Proxy.Dns.Listener.{
  Task, udp, tcp, Wake, received, connection, receive_failed, accept_failed, cancelled, Ended,
  waiting, stopped, spawned, and_task, run_inner, Handled, no_log, replies_of, written_by, handle,
}

-- A packet may go upstream: it comes from a VM's address, and authorization is disabled or the service
-- allows its question of that VM.
abbrev pub Permitted : World → IpAddr → Text → Type 0
Permitted w peer packet =
    (id : VmId) × (parsed : Option Question) × (find_by_ip w.registry peer ≡ some id)
    × (parse_dns_question packet ≡ done parsed)
    × Allowed w.auth (w.uuid_display id) (unwrap_question parsed)

-- What holds of an outcome, if there is one.
abbrev After {ℓ} : {A : Type 0} → (A → Type ℓ) → Run A → Type ℓ
After Q panic = Unit
After Q (done a) = Q a

if-After {ℓ} :
    {A : Type 0} (Q : A → Type ℓ) (b : Bool) (r s : Run A)
    → After Q r
    → After Q s
    → After Q (if b then r else s)
if-After Q true r s h k = h
if-After Q false r s h k = k

module _ (w : World) (peer : IpAddr) where
  abbrev Clean : Log → Type 0
  Clean log = All (Permitted w peer) log.sent

  Processes-Clean :
      (packet : Text) (log : Log) (out : Answer)
      → Clean log
      → Processes w packet peer log out
      → Clean out.1
  Processes-Clean packet log out h (blocked unknown e) = subst (λ o. Clean o.1) (sym e) h
  Processes-Clean packet log out h (refused id parsed known p answer same events) =
      subst (λ l. All (Permitted w peer) l) (sym same) h
  Processes-Clean packet log out h (let_out id parsed known p allowed sent answer) = elim sent [
    | inl same ↦ subst (λ l. All (Permitted w peer) l) (sym same) h
    | inr more ↦
        subst (λ l. All (Permitted w peer) l) (sym more) ((id, parsed, known, p, allowed), h)
  ]

  process_dns_query-Clean :
      (packet : Text) (log : Log)
      → Clean log
      → (out : Answer) × (process_dns_query w packet peer log ≡ done out) × Clean out.1
  process_dns_query-Clean packet log h =
      let (out, e, how) = process_dns_query-Processes w packet peer log in
      (out, e, Processes-Clean packet log out h how)

  abbrev CleanServed : Served → Type 0
  CleanServed out = Clean out.1

  abbrev CleanNext : Next → Type 0
  CleanNext next =
      (rest : Text) (log : Log) (written : Text)
      → Clean log
      → After CleanServed (next rest log written)

  after_query-Clean :
      (next : Next) (stream : Text) (answer : Answer) (written : Text)
      → CleanNext next
      → Clean answer.1
      → After CleanServed (after_query next stream answer written)
  unfolding after_query
  after_query-Clean next stream (err e, log) written go h = h
  after_query-Clean next stream (ok response, log) written go h =
      go stream log (written ++ write_dns_message response) h

  after_length-Clean :
      (binds : Text → Text → Bool) (next : Next) (o : Option (ℕ × Text)) (log : Log)
      (written : Text)
      → CleanNext next
      → Clean log
      → After CleanServed (after_length w peer binds next o log written)
  unfolding after_length
  after_length-Clean binds next none log written go h = h
  after_length-Clean binds next (some (msg_len, stream)) log written go h =
      let (out, e, clean) = process_dns_query-Clean (take msg_len stream) log h in
      if-After CleanServed (msg_len == 0) _ _ (go stream log written h) (
        if-After CleanServed (ltb (length stream) msg_len) _ _ h (
          if-After CleanServed (not (binds written (take msg_len stream))) _ _ h
            (rw e (after_query-Clean next (drop msg_len stream) out written go clean))))

  serve-Clean : (binds : Text → Text → Bool) (rounds : ℕ) → CleanNext (serve w peer binds rounds)
  unfolding serve
  serve-Clean binds zero stream log written h = tt
  serve-Clean binds (suc rounds) stream log written h =
      after_length-Clean binds (serve w peer binds rounds) (read_dns_length stream) log written
        (serve-Clean binds rounds) h

  tcp-Clean :
      (binds : Text → Text → Bool) (stream : Text) (log : Log)
      → Clean log
      → After CleanServed (handle_tcp_dns_connection w peer binds stream log)
  unfolding handle_tcp_dns_connection
  tcp-Clean binds stream log h = serve-Clean binds (suc (length stream)) stream log [] h

-- A task ends, and all that it sent upstream was permitted.
abbrev pub Guards : Task → Type 0
Guards (udp w peer query) =
    (out : Handled) × (handle (udp w peer query) ≡ done out) × All (Permitted w peer) out.log.sent
Guards (tcp w peer binds stream) =
    (out : Handled) × (handle (tcp w peer binds stream) ≡ done out)
    × All (Permitted w peer) out.log.sent

handle-Guards : (t : Task) → Guards t
unfolding handle
handle-Guards (udp w peer query) =
    let (out, e, clean) = process_dns_query-Clean w peer query no_log tt in
    (replies_of out, rw e refl, clean)
handle-Guards (tcp w peer binds stream) =
    let (out, e) = handle_tcp_dns_connection-Returns w peer binds stream no_log in
    (
      written_by out,
      rw e refl,
      subst (λ r. After (CleanServed w peer) r) e (tcp-Clean w peer binds stream no_log tt),
    )

every_task : {P : Task → Type 0} → ((t : Task) → P t) → (ts : List Task) → All P ts
every_task every [] = tt
every_task every (t ∷ ts) = (every t, every_task every ts)

spawned-waiting :
    (f : List Task → List Task) (out : Ended × List Task)
    → (spawned f out).0 ≡ waiting
    → out.0 ≡ waiting
spawned-waiting f (end, ts) h = h

run_inner-cancelled :
    (ws more : List Wake)
    → (run_inner ws).0 ≡ waiting
    → run_inner (ws ++ cancelled ∷ more) ≡ (stopped, (run_inner ws).1)
unfolding run_inner
run_inner-cancelled [] more h = refl
run_inner-cancelled (received w peer datagram bound ∷ ws) more h =
    let f = and_task bound (udp w peer (take 4096 datagram)) in
    ap (spawned f) (run_inner-cancelled ws more (spawned-waiting f (run_inner ws) h))
run_inner-cancelled (connection w peer binds stream ∷ ws) more h =
    let f : List Task → List Task = λ ts. tcp w peer binds stream ∷ ts in
    ap (spawned f) (run_inner-cancelled ws more (spawned-waiting f (run_inner ws) h))
run_inner-cancelled (receive_failed ∷ ws) more h = cc
run_inner-cancelled (accept_failed ∷ ws) more h = cc
run_inner-cancelled (cancelled ∷ ws) more h = cc

-- However packets and connections come before the shutdown: the loop stops there with the tasks that
-- it spawned before, whatever comes later; each of them ends without a panic; and every packet that one
-- sends upstream came from a VM's address, and authorization is disabled or the service allowed the
-- question of that very packet, of that VM.
pub run_inner-Guards :
    (ws more : List Wake)
    → (run_inner ws).0 ≡ waiting
    → (run_inner (ws ++ cancelled ∷ more) ≡ (stopped, (run_inner ws).1))
      × All Guards (run_inner ws).1
run_inner-Guards ws more h =
    (run_inner-cancelled ws more h, every_task handle-Guards (run_inner ws).1)
