-- ===== src/Agent/Exec.antt =====
-- `run_command` of clawpot-agent/src/exec.rs, and the handlers `exec` and `health` of
-- clawpot-agent/src/service.rs. What running a command gives is a parameter.
use clawpot.Common.{ℕ, Bool, true, false, List, [], ◌∷◌, ◌++◌, Option, none, some, Text, codes, dec}

pub record ExecRequest : Type 0 where
  pub command : Text
  pub args : List Text
  pub working_dir : Text
  pub env : List (Text × Text)

-- An `i32`: whether it is negative, and its absolute value.
abbrev pub Signed : Type 0
Signed = Bool × ℕ

pub record ExecResponse : Type 0 where
  pub exit_code : Signed
  pub stdout : Text
  pub stderr : Text

-- The process builder.
pub record Command : Type 0 where
  pub program : Text
  pub args : List Text
  pub current_dir : Option Text
  pub env : List (Text × Text)
  pub piped : Bool

abbrev pub dir_of : Text → Option Text
dir_of [] = none
dir_of (c ∷ s) = some (c ∷ s)

abbrev pub command_of : Bool → ExecRequest → Command
command_of piped req = record {
  program = req.command;
  args = req.args;
  current_dir = dir_of req.working_dir;
  env = req.env;
  piped = piped;
}

-- The outcome of `cmd.output()` under the timeout. A process that a signal ended has no code.
pub data Output : Type 0 where
  exited : (code : Option Signed) → (stdout stderr : Text) → Output
  not_run : Text → Output
  timed_out : Output

abbrev pub code_or : Option Signed → Signed
code_or none = (true, 1)
code_or (some c) = c

-- `EXEC_TIMEOUT`, in seconds
abbrev pub exec_timeout : ℕ
exec_timeout = 300

abbrev pub failed_with : Text → ExecResponse
failed_with message = record { exit_code = (true, 1); stdout = []; stderr = message }

unfoldable pub respond : Output → ExecResponse
respond (exited code stdout stderr) = record {
  exit_code = code_or code;
  stdout = stdout;
  stderr = stderr;
}
respond (not_run e) = failed_with (codes "Failed to execute command: " ++ (e ++ codes "\n"))
respond timed_out =
    failed_with (codes "Command timed out after " ++ (dec exec_timeout ++ codes " seconds\n"))

unfoldable pub run_command : (output : Command → ℕ → Output) → ExecRequest → ExecResponse
unfolding respond
run_command output req = respond (output (command_of false req) exec_timeout)
