-- ===== src/Agent/Stream.antt =====
-- `run_stream` of clawpot-agent/src/stream.rs: one command whose output is sent while it runs. Its
-- three tasks (the forwarder of stdin, the readers of stdout and stderr) and its own wait run at once:
-- a run is any sequence of the steps below. Lists of messages have the newest first.
pub mod Delivered
pub mod Finishes
use clawpot.Common.{
  ℕ, Bool, true, false, List, [], ◌∷◌, ◌++◌, Option, none, some, Text, codes, ◌≡◌, if◌then◌else◌,
}
use clawpot.Agent.Exec.{ExecRequest, Signed, Command, command_of}

-- `ExecStreamInput`; `other` is a message that has no input, or asks not to close.
pub data Input : Type 0 where
  start : ExecRequest → Input
  stdin_data : Text → Input
  close_stdin : Bool → Input
  nothing : Input

pub data Status : Type 0 where
  invalid_argument internal received : Text → Status

-- `ExecStreamOutput`, or the status that ends the stream.
pub data Output : Type 0 where
  stdout_data stderr_data : Text → Output
  exit_code : Signed → Output
  error : Status → Output

-- The first message of the client: there is one, the stream has ended, or it failed.
pub data First : Type 0 where
  message : Input → First
  ended : First
  broken : Text → First

pub record Stream : Type 0 where
  -- the chunks that a reader is still to read before it meets the end or an error; none once its
  -- task has ended
  pub stdout : Option (List Text)
  pub stderr : Option (List Text)
  -- what was sent, and whether the client still takes messages
  pub sent : List Output
  pub taking : Bool
  -- the forwarder: the client's messages to come, whether its task runs, what it wrote into the
  -- process, and whether it still holds the process's stdin
  pub input : List Input
  pub forwarding : Bool
  pub written : List Text
  pub holds_stdin : Bool
  pub exited : Bool

-- What the process that was spawned is going to write, and its exit code; or that there is none.
pub data Spawned : Type 0 where
  child : (out errs : List Text) → Signed → Spawned
  no_child : Text → Spawned

abbrev pub started : (out errs : List Text) → List Input → Stream
started out errs input = record {
  stdout = some out;
  stderr = some errs;
  sent = [];
  taking = true;
  input = input;
  forwarding = true;
  written = [];
  holds_stdin = true;
  exited = false;
}

-- Up to the tasks: the messages sent in place of a run, or the run's first state and exit code.
pub data Opening : Type 0 where
  over : List Output → Opening
  running : Stream → Signed → Opening

abbrev pub spawn : Spawned → List Input → Opening
spawn (child out errs code) input = running (started out errs input) code
spawn (no_child e) input = over (error (internal (codes "Failed to spawn process: " ++ e)) ∷ [])

abbrev refused : Opening
refused = over (error (invalid_argument (codes "First message must be a start command")) ∷ [])

unfoldable pub run_stream : (spawned : Command → Spawned) → First → List Input → Opening
run_stream spawned (message (start req)) input = spawn (spawned (command_of true req)) input
run_stream spawned (message (stdin_data d)) input = refused
run_stream spawned (message (close_stdin b)) input = refused
run_stream spawned (message nothing) input = refused
run_stream spawned ended input = over []
run_stream spawned (broken e) input = over (error (received e) ∷ [])

-- The forwarder's task ends and drops the process's stdin.
abbrev pub stop_forwarding : Stream → Stream
stop_forwarding s = record s { forwarding = false; holds_stdin = false }

-- The body of the forwarder's loop. `accepts` is whether the write into the process succeeds.
unfoldable pub forward : (accepts : Bool) → Input → Stream → Stream
forward accepts (stdin_data d) s =
    if accepts then record s { written = d ∷ s.written } else stop_forwarding s
forward accepts (close_stdin b) s = stop_forwarding s
forward accepts (start req) s = stop_forwarding s
forward accepts nothing s = stop_forwarding s

-- The exit code goes to a client that still takes messages.
abbrev pub sent_if : Bool → Output → List Output → List Output
sent_if true m ms = m ∷ ms
sent_if false m ms = ms

-- When the process writes and when it exits, by what it has got on its stdin and whether that is still
-- open: whether it has written the first of the chunks that are left, or closed the pipe if none is
-- left; and whether it has exited. A reader waits for the one, and the wait for the other.
pub record Process : Type 0 where
  pub stdout_ready : (written : List Text) → (open_stdin : Bool) → (left : List Text) → Bool
  pub stderr_ready : (written : List Text) → (open_stdin : Bool) → (left : List Text) → Bool
  pub exits : (written : List Text) → (open_stdin : Bool) → Bool

-- A forwarder waits for the client's next message, which may never come: its step need not be taken.
-- While `taking` holds, a send waits for the client to read; then the client hangs up, or never does.
module _ (code : Signed) (process : Process) where
  pub data Step (s : Stream) : Stream → Type 0 where
    stdout_chunk :
        (c : Text) (cs : List Text)
        → s.stdout ≡ some (c ∷ cs)
        → process.stdout_ready s.written s.holds_stdin (c ∷ cs) ≡ true
        → s.taking ≡ true
        → Step s (record s { stdout = some cs; sent = stdout_data c ∷ s.sent })
    stdout_refused :
        (c : Text) (cs : List Text)
        → s.stdout ≡ some (c ∷ cs)
        → process.stdout_ready s.written s.holds_stdin (c ∷ cs) ≡ true
        → s.taking ≡ false
        → Step s (record s { stdout = none })
    stdout_end :
        s.stdout ≡ some []
        → process.stdout_ready s.written s.holds_stdin [] ≡ true
        → Step s (record s { stdout = none })
    stderr_chunk :
        (c : Text) (cs : List Text)
        → s.stderr ≡ some (c ∷ cs)
        → process.stderr_ready s.written s.holds_stdin (c ∷ cs) ≡ true
        → s.taking ≡ true
        → Step s (record s { stderr = some cs; sent = stderr_data c ∷ s.sent })
    stderr_refused :
        (c : Text) (cs : List Text)
        → s.stderr ≡ some (c ∷ cs)
        → process.stderr_ready s.written s.holds_stdin (c ∷ cs) ≡ true
        → s.taking ≡ false
        → Step s (record s { stderr = none })
    stderr_end :
        s.stderr ≡ some []
        → process.stderr_ready s.written s.holds_stdin [] ≡ true
        → Step s (record s { stderr = none })
    forward_one :
        (accepts : Bool) (i : Input) (is : List Input)
        → s.forwarding ≡ true
        → s.input ≡ i ∷ is
        → Step s (forward accepts i (record s { input = is }))
    forward_end : s.forwarding ≡ true → s.input ≡ [] → Step s (stop_forwarding s)
    hang_up : s.taking ≡ true → Step s (record s { taking = false })
    -- behind both readers: the wait, the abort of the forwarder, and the last message
    finish :
        s.stdout ≡ none
        → s.stderr ≡ none
        → s.exited ≡ false
        → process.exits s.written s.holds_stdin ≡ true
        → Step s (record s {
          exited = true;
          forwarding = false;
          holds_stdin = false;
          sent = sent_if s.taking (exit_code code) s.sent;
        })

  pub data Reachable (s : Stream) : Stream → Type 0 where
    here : Reachable s s
    next : {t u : Stream} → Reachable s t → Step t u → Reachable s u
