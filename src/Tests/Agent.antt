-- ===== src/Tests/Agent.antt =====
-- Tests of clawpot-agent/src and of clawpot-server/src/agent/client.rs.
use clawpot.Common.{
  ℕ, ◌*◌, ◌≤◌, true, false, not, inr, List, [], ◌∷◌, none, some, codes, ◌≡◌, refl, arith,
}
use clawpot.Agent.Exec.{run_command, Signed, exited}
use clawpot.Agent.Stream.{
  Stream, Process, Output, forward_end, stdout_data, stderr_data, exit_code, started, stdout_chunk,
  stdout_end, stderr_chunk, stderr_end, finish, Reachable, here, next,
}
use clawpot.Agent.Stream.Delivered.{Delivered, Reachable-Delivered}
use clawpot.Agent.Stream.Finishes.{EndsAlways, run_stream-ends}
use clawpot.Agent.Client.{Waits, gave_up, hangs, wait_ready, wait_ready-Waits}

-- A signal gives no exit code.
killed :
    (run_command
      (λ c t. exited none [] [])
      (record { command = codes "sh"; args = []; working_dir = []; env = [] })).exit_code
    ≡ (true, 1)
unfolding run_command
killed = refl

abbrev success : Signed
success = (false, 0)

abbrev begun : Stream
begun = started (codes "out" ∷ []) (codes "err" ∷ []) []

abbrev both : List Output
both = stderr_data (codes "err") ∷ stdout_data (codes "out") ∷ []

abbrev read_out : Stream
read_out = record begun { stdout = some []; sent = stdout_data (codes "out") ∷ [] }

abbrev ended : Stream
ended = record begun {
  stdout = none;
  stderr = none;
  exited = true;
  forwarding = false;
  holds_stdin = false;
  sent = exit_code success ∷ both;
}

-- It writes to stderr and exits only once its stdin is closed.
abbrev patient : Process
patient = record {
  stdout_ready = λ written open_stdin left. true;
  stderr_ready = λ written open_stdin left. not open_stdin;
  exits = λ written open_stdin. not open_stdin;
}

a_run : Reachable success patient begun ended
a_run =
    next
      (next
        (next
          (next
            (next (next here (stdout_chunk (codes "out") [] refl refl refl))
              (forward_end refl refl))
            (stderr_chunk (codes "err") [] refl refl refl))
          (stdout_end refl refl))
        (stderr_end refl refl))
      (finish refl refl refl refl)

Reachable-Delivered_example :
    Delivered success patient (codes "out" ∷ []) (codes "err" ∷ []) (exit_code success ∷ both)
Reachable-Delivered_example =
    Reachable-Delivered success patient (codes "out" ∷ []) (codes "err" ∷ []) [] ended a_run refl
      refl

-- The client has hung up, and the forwarder has stopped.
abbrev left_alone : Stream
left_alone = record read_out { taking = false; forwarding = false; holds_stdin = false }

run_stream-ends_example : EndsAlways success patient left_alone
run_stream-ends_example =
    run_stream-ends success patient left_alone
      (inr (refl, λ written. (λ left. refl, λ left. refl, refl)))

-- An agent that does not come up, and sleeps of just 500 ms.
slow : wait_ready (λ k. some false) (λ k. k * 500) 1200 ≡ gave_up 3
unfolding wait_ready
slow = refl

-- An attempt that hangs makes the wait hang, whatever the timeout.
hung : wait_ready (λ k. none) (λ k. k * 500) 1200 ≡ hangs 0
unfolding wait_ready
hung = refl

just_slept : (k : ℕ) → k * 500 ≤ k * 500
just_slept k = omega arith

wait_ready-Waits_example :
    Waits (λ k. some false) (λ k. k * 500) 1200 0 (wait_ready (λ k. some false) (λ k. k * 500) 1200)
wait_ready-Waits_example = wait_ready-Waits (λ k. some false) (λ k. k * 500) 1200 just_slept
