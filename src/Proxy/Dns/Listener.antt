-- ===== src/Proxy/Dns/Listener.antt =====
-- `run_inner` of clawpot-server/src/proxy/dns_proxy.rs behind the two binds: the loop that takes
-- packets and connections. What it waits for next is a list, oldest first. Each task that it spawns
-- runs over the registry and the services as they are then, and has a log of its own, so that the
-- order in which tasks run does not matter.
pub mod Guarded
use clawpot.Common.{
  Bool, true, false, List, [], ◌∷◌, take, Option, none, some, Text, Result, ok, err,
}
use clawpot.Common.Bytes.{Run, done, ◌>>=◌}
use clawpot.Network.Addr.{IpAddr}
use clawpot.Proxy.Dns.Query
use clawpot.Proxy.Dns.Query.{World, Log, Answer, process_dns_query}
use clawpot.Proxy.Dns.Tcp.{Served, handle_tcp_dns_connection}

-- A task: the answer of one packet, or a connection with what the client will send.
pub data Task : Type 0 where
  udp : World → IpAddr → (query : Text) → Task
  tcp : World → IpAddr → (binds : Text → Text → Bool) → (stream : Text) → Task

-- What ends a wait. `bound` is whether a socket to the upstream server could be bound.
pub data Wake : Type 0 where
  received : World → IpAddr → (datagram : Text) → (bound : Bool) → Wake
  connection : World → IpAddr → (binds : Text → Text → Bool) → (stream : Text) → Wake
  receive_failed accept_failed cancelled : Wake

-- Whether the loop still waits, was told to stop, or ended with an error.
pub data Ended : Type 0 where
  waiting stopped failed : Ended

abbrev pub and_task : Bool → Task → List Task → List Task
and_task true t ts = t ∷ ts
and_task false t ts = ts

abbrev pub spawned : (List Task → List Task) → Ended × List Task → Ended × List Task
spawned f (end, ts) = (end, f ts)

-- The loop, with the tasks that it spawns. The buffer holds 4096 bytes.
unfoldable pub run_inner : List Wake → Ended × List Task
run_inner [] = (waiting, [])
run_inner (received w peer datagram bound ∷ ws) =
    spawned (and_task bound (udp w peer (take 4096 datagram))) (run_inner ws)
run_inner (connection w peer binds stream ∷ ws) =
    spawned (λ ts. tcp w peer binds stream ∷ ts) (run_inner ws)
run_inner (receive_failed ∷ ws) = (failed, [])
run_inner (accept_failed ∷ ws) = (failed, [])
run_inner (cancelled ∷ ws) = (stopped, [])

abbrev pub no_log : Log
no_log = record { events = []; sent = [] }

-- What a task leaves: its log, and what it sends back to its peer.
pub record Handled : Type 0 where
  pub log : Log
  pub replies : List Text

-- A query that fails is only logged.
abbrev pub replies : Result Query.Error Text → List Text
replies (ok response) = response ∷ []
replies (err e) = []

abbrev pub replies_of : Answer → Handled
replies_of (r, log) = record { log = log; replies = replies r }

abbrev pub written_by : Served → Handled
written_by (r, log, written) = record { log = log; replies = written ∷ [] }

unfoldable pub handle : Task → Run Handled
unfolding process_dns_query handle_tcp_dns_connection
handle (udp w peer query) = do
  answer ← process_dns_query w query peer no_log
  done (replies_of answer)
handle (tcp w peer binds stream) = do
  out ← handle_tcp_dns_connection w peer binds stream no_log
  done (written_by out)
