-- ===== src/Proxy/Dns/Tcp.antt =====
-- `handle_tcp_dns_connection` of clawpot-server/src/proxy/dns_proxy.rs. The stream is what the client
-- sends until it closes its end; `written` is what was sent back. A write succeeds. Whether a socket to
-- the upstream server can be bound for a message is a parameter, which may change from message to message.
use clawpot.Common.{
  ℕ, zero, suc, not, Bool, true, ◌+◌, ◌*◌, ◌^◌, ◌≤◌, ◌<◌, ltb, ◌==◌, ◌≡◌, refl, sym, ap, ◌∙◌, false,
  List, [], ◌∷◌, ◌++◌, length, length-drop, length-append, take, drop, Option, none, some, Text,
  Result, ok, err, if◌then◌else◌, arith,
}
use mathlib.Core.List.{append_assoc, append-nil}
use clawpot.Common.Bytes.{
  Run, panic, done, ◌>>=◌, Returns, bind-Returns, if-Returns, take-append_length, drop-append_add,
}
use clawpot.Network.Addr.{IpAddr}
use clawpot.Proxy.Dns.{read_dns_length, write_dns_message}
use clawpot.Proxy.Dns.Frames.{read_dns_length-write_dns_message}
use clawpot.Proxy.Dns.Query.{World, Log, Answer, process_dns_query}
use clawpot.Proxy.Dns.Query
use clawpot.Proxy.Dns.Decision.{process_dns_query-Processes}

pub data Error : Type 0 where
  message_cut_off bind_failed : Error
  query_failed : Query.Error → Error

-- The outcome of a connection, the log, and what was written.
abbrev pub Served : Type 0
Served = Result Error (Unit {0}) × Log × Text

-- The next round of the loop: what the stream still holds, the log and what was written.
abbrev pub Next : Type 0
Next = Text → Log → Text → Run Served

-- `process_dns_query(…).await?` and the write of the response.
unfoldable pub after_query : Next → Text → Answer → Text → Run Served
unfolding write_dns_message
after_query next stream (err e, log) written = done (err (query_failed e), log, written)
after_query next stream (ok response, log) written =
    next stream log (written ++ write_dns_message response)

after_query-Returns :
    (next : Next) (n : ℕ) (stream : Text) (answer : Answer) (written : Text)
    → ((rest : Text) (l : Log) (out : Text) → length rest ≤ n → Returns (next rest l out))
    → length stream ≤ n
    → Returns (after_query next stream answer written)
unfolding after_query
after_query-Returns next n stream (err e, log) written go h = (_, refl)
after_query-Returns next n stream (ok response, log) written go h =
    go stream log (written ++ write_dns_message response) h

-- Messages as they go over the stream.
unfoldable pub frames : List Text → Text
frames [] = []
frames (m ∷ ms) = write_dns_message m ++ frames ms

frames-length : (ms : List Text) → length ms < suc (length (frames ms))
unfolding frames write_dns_message
frames-length [] = omega arith
frames-length (m ∷ ms) = omega (arith, frames-length ms, length-append m (frames ms))

-- Messages that can be framed, and are not skipped as empty.
abbrev pub Fit : List Text → Type 0
Fit [] = Unit {0}
Fit (m ∷ ms) = (0 < length m) × (length m < 2 ^ 16) × Fit ms

module _ (w : World) (peer : IpAddr) (binds : (written message : Text) → Bool) where
  -- After the read of the length: the end of the stream ends the loop.
  unfoldable pub after_length : Next → Option (ℕ × Text) → Log → Text → Run Served
  unfolding after_query
  after_length next none log written = done (ok tt, log, written)
  after_length next (some (msg_len, stream)) log written =
      if msg_len == 0
      then next stream log written
      else if ltb (length stream) msg_len
      then done (err message_cut_off, log, written)
      else if not (binds written (take msg_len stream))
      then done (err bind_failed, log, written)
      else (do
        answer ← process_dns_query w (take msg_len stream) peer log
        after_query next (drop msg_len stream) answer written)

  -- The rounds of the loop that are left.
  unfoldable pub serve : ℕ → Next
  unfolding after_length read_dns_length
  serve zero stream log written = panic
  serve (suc rounds) stream log written =
      after_length (serve rounds) (read_dns_length stream) log written

  -- Each round takes two bytes or more.
  unfoldable pub handle_tcp_dns_connection : Text → Log → Run Served
  unfolding serve
  handle_tcp_dns_connection stream log = serve (suc (length stream)) stream log []

  after_length-Returns :
      (next : Next) (n msg_len : ℕ) (stream : Text) (log : Log) (written : Text)
      → ((rest : Text) (l : Log) (out : Text) → length rest ≤ n → Returns (next rest l out))
      → length stream ≤ n
      → Returns (after_length next (some (msg_len, stream)) log written)
  unfolding after_length
  after_length-Returns next n msg_len stream log written go h =
      if-Returns (msg_len == 0) _ _ (λ _. go stream log written h)
        λ _.
          if-Returns (ltb (length stream) msg_len) _ _ (λ _. (_, refl))
            λ _.
              if-Returns (not (binds written (take msg_len stream))) _ _ (λ _. (_, refl))
                λ _.
                  let (out, e, how) =
                    process_dns_query-Processes w (take msg_len stream) peer log in
                  bind-Returns (process_dns_query w (take msg_len stream) peer log) _ (out, e)
                    λ answer _.
                      after_query-Returns next n (drop msg_len stream) answer written go
                        (omega (arith, h, length-drop msg_len stream))

  serve-Returns :
      (rounds : ℕ) (stream : Text) (log : Log) (written : Text)
      → length stream < rounds
      → Returns (serve rounds stream log written)
  unfolding serve after_length read_dns_length
  serve-Returns zero stream log written h = absurd (omega (arith, h))
  serve-Returns (suc rounds) [] log written h = (_, refl)
  serve-Returns (suc rounds) (a ∷ []) log written h = (_, refl)
  serve-Returns (suc rounds) (hi ∷ lo ∷ stream) log written h =
      after_length-Returns (serve rounds) (length stream) (hi * 256 + lo) stream log written
        (λ rest l out k. serve-Returns rounds rest l out (omega (arith, h, k))) (omega arith)

  -- `handle_tcp_dns_connection` ends on every stream, whatever the client sends.
  pub handle_tcp_dns_connection-Returns :
      (stream : Text) (log : Log) → Returns (handle_tcp_dns_connection stream log)
  unfolding handle_tcp_dns_connection
  handle_tcp_dns_connection-Returns stream log =
      serve-Returns (suc (length stream)) stream log [] (omega arith)

  -- The queries `ms`, one after the other, are answered with `rs`, the responses so far being `written`,
  -- up to the first that gets no socket or no answer; that one ends the connection with its error.
  pub data Answers
      : (ms : List Text)
        → Log
        → (written : Text) → (rs : List Text) → Log
        → Result Error (Unit {0})
        → Type 0 where
    end : (log : Log) (written : Text) → Answers [] log written [] log (ok tt)
    next_query :
        (m r : Text) (ms rs : List Text) (log log' last : Log) (written : Text)
        (outcome : Result Error (Unit {0}))
        → binds written m ≡ true
        → process_dns_query w m peer log ≡ done (ok r, log')
        → Answers ms log' (written ++ write_dns_message r) rs last outcome
        → Answers (m ∷ ms) log written (r ∷ rs) last outcome
    no_socket :
        (m : Text) (ms : List Text) (log : Log) (written : Text)
        → binds written m ≡ false
        → Answers (m ∷ ms) log written [] log (err bind_failed)
    no_answer :
        (m : Text) (ms : List Text) (log log' : Log) (written : Text) (e : Query.Error)
        → binds written m ≡ true
        → process_dns_query w m peer log ≡ done (err e, log')
        → Answers (m ∷ ms) log written [] log' (err (query_failed e))

  -- The round of a message that is there in full, up to the socket.
  whole_round :
      (next : Next) (m rest : Text) (log : Log) (written : Text)
      → 0 < length m
      → after_length next (some (length m, m ++ rest)) log written ≡ (
          if not (binds written m)
          then done (err bind_failed, log, written)
          else (do answer ← process_dns_query w m peer log; after_query next rest answer written))
  unfolding after_length
  whole_round next m rest log written some_byte =
      let more : (length m == 0) ≡ false = ground (arith, some_byte) in
      let fits : ltb (length (m ++ rest)) (length m) ≡ false =
        ground (arith, length-append m rest) in
      let behind : drop (length m) (m ++ rest) ≡ rest =
        ap (λ n. drop n (m ++ rest)) (omega arith) ∙ drop-append_add m rest 0 in
      rw (more, fits, take-append_length m rest, behind) refl

  -- The round of a message with a socket, given the answer.
  bound_round :
      (next : Next) (m rest : Text) (log : Log) (written : Text) (answer : Answer)
      → 0 < length m
      → binds written m ≡ true
      → process_dns_query w m peer log ≡ done answer
      → after_length next (some (length m, m ++ rest)) log written
        ≡ after_query next rest answer written
  bound_round next m rest log written answer some_byte bound e =
      whole_round next m rest log written some_byte ∙ rw (bound, e) refl

  unbound_round :
      (next : Next) (m rest : Text) (log : Log) (written : Text)
      → 0 < length m
      → binds written m ≡ false
      → after_length next (some (length m, m ++ rest)) log written
        ≡ done (err bind_failed, log, written)
  unbound_round next m rest log written some_byte unbound =
      whole_round next m rest log written some_byte ∙ rw unbound refl

  -- A round that ends the connection has written nothing more.
  nothing_more :
      (o : Result Error (Unit {0})) (log : Log) (written : Text)
      → ◌≡◌ {A = Run Served} (done (o, log, written)) (done (o, log, written ++ frames []))
  unfolding frames
  nothing_more o log written = ap (λ t. done (o, log, t)) (sym (append-nil written))

  serve-frames :
      (rounds : ℕ) (ms rs : List Text) (log last : Log) (written : Text)
      (outcome : Result Error (Unit {0}))
      → length ms < rounds
      → Fit ms
      → Answers ms log written rs last outcome
      → serve rounds (frames ms) log written ≡ done (outcome, last, written ++ frames rs)
  unfolding serve frames
  serve-frames zero ms rs log last written outcome h fit a = absurd (omega (arith, h))
  serve-frames (suc rounds) [] rs log last written outcome h fit (end l k) =
      unfold after_length in unfold read_dns_length in nothing_more (ok tt) l written
  serve-frames (suc rounds) (m ∷ ms) rs log last written outcome h (some_byte, short, fit)
        (next_query m' r ms' rs' l log' last' k o bound e a) =
      let X = frames ms in
      let next : serve rounds X log' (written ++ write_dns_message r)
          ≡ done (outcome, last, written ++ (write_dns_message r ++ frames rs')) =
        serve-frames rounds ms rs' log' last (written ++ write_dns_message r) outcome
          (omega (arith, h)) fit a
        ∙ ap (λ t. done (outcome, last, t))
            (append_assoc written (write_dns_message r) (frames rs')) in
      ap (λ o. after_length (serve rounds) o log written)
        (read_dns_length-write_dns_message m X short)
      ∙ bound_round (serve rounds) m X log written (ok r, log') some_byte bound e
      ∙ unfold after_query in next
  serve-frames (suc rounds) (m ∷ ms) rs log last written outcome h (some_byte, short, fit)
        (no_socket m' ms' l k unbound) =
      ap (λ o. after_length (serve rounds) o log written)
        (read_dns_length-write_dns_message m (frames ms) short)
      ∙ unbound_round (serve rounds) m (frames ms) log written some_byte unbound
      ∙ nothing_more (err bind_failed) log written
  serve-frames (suc rounds) (m ∷ ms) rs log last written outcome h (some_byte, short, fit)
        (no_answer m' ms' l log' k x bound e) =
      ap (λ o. after_length (serve rounds) o log written)
        (read_dns_length-write_dns_message m (frames ms) short)
      ∙ bound_round (serve rounds) m (frames ms) log written (err x, log') some_byte bound e
      ∙ unfold after_query in nothing_more (err (query_failed x)) log' written

  -- A client that sends queries of 1 to 65535 bytes, each with its length, and that ends the stream,
  -- is sent the answers in the same order, each with its length, up to the first query for which no
  -- socket to the upstream server can be bound or that has no answer; the connection ends with that
  -- error, and well if there is none.
  pub handle_tcp_dns_connection-frames :
      (ms rs : List Text) (log last : Log) (outcome : Result Error (Unit {0}))
      → Fit ms
      → Answers ms log [] rs last outcome
      → handle_tcp_dns_connection (frames ms) log ≡ done (outcome, last, frames rs)
  unfolding handle_tcp_dns_connection
  handle_tcp_dns_connection-frames ms rs log last outcome fit a =
      serve-frames (suc (length (frames ms))) ms rs log last [] outcome (frames-length ms) fit a
