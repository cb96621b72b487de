-- ===== src/Vm/Lifecycle.antt =====
-- clawpot-common/src/vm/lifecycle.rs.
pub mod Legal
use clawpot.Common.{Bool, true, false, ◌||◌, if◌then◌else◌, Result, ok, err, List, [], ◌∷◌, String}

pub data VmState : Type 0 where
  not_started starting running stopping stopped error : VmState

-- `Display`
unfoldable pub display : VmState → String
display not_started = "Not Started"
display starting = "Starting"
display running = "Running"
display stopping = "Stopping"
display stopped = "Stopped"
display error = "Error"

pub record VmLifecycle : Type 0 where
  pub state : VmState

-- The error names the two states of the refused transition.
pub data Error : Type 0 where
  invalid_transition : VmState → VmState → Error

unfoldable pub new : VmLifecycle
new = record { state = not_started }

-- The derived equality.
abbrev pub state_eq : VmState → VmState → Bool
state_eq not_started not_started = true
state_eq starting starting = true
state_eq running running = true
state_eq stopping stopping = true
state_eq stopped stopped = true
state_eq error error = true
state_eq _ _ = false

-- The patterns of `matches!`.
abbrev pub matches : VmState → VmState → Bool
matches _ error = true
matches not_started starting = true
matches stopped starting = true
matches starting running = true
matches starting stopping = true
matches starting stopped = true
matches running stopping = true
matches stopping stopped = true
matches _ _ = false

unfoldable pub transition_to : VmLifecycle → VmState → Result Error (Unit {0}) × VmLifecycle
transition_to l new_state =
    if matches l.state new_state || state_eq l.state new_state
    then (ok tt, record l { state = new_state })
    else (err (invalid_transition l.state new_state), l)

-- A history of requested transitions; a refused one leaves the state.
unfoldable pub run : VmLifecycle → List VmState → VmLifecycle
run l [] = l
run l (s ∷ ss) = run (transition_to l s).1 ss
