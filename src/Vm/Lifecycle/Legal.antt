-- ===== src/Vm/Lifecycle/Legal.antt =====
-- The legal transitions as a relation, and what histories of requests can reach.
use clawpot.Common.{
  ◌≡◌, ◌≢◌, ◌⊎◌, ◌||◌, ◌↔◌, inl, inr, refl, true, false, List, [], ◌∷◌, arith, ok, err,
}
use mathlib.Core.List.{Memᴰ}
use clawpot.Vm.Lifecycle.{
  VmState, not_started, starting, running, stopping, stopped, error, VmLifecycle,
  invalid_transition, transition_to, run, new, matches, state_eq,
}

-- The state machine: a VM starts from rest, runs only after it started, stops only by way of
-- `stopping` unless it was still starting, and may fail or stay at any time.
pub data Legal : VmState → VmState → Type 0 where
  fail : (s : VmState) → Legal s error
  stay : (s : VmState) → Legal s s
  start : Legal not_started starting
  restart : Legal stopped starting
  started : Legal starting running
  abort : Legal starting stopping
  abort_at_once : Legal starting stopped
  stop : Legal running stopping
  halt : Legal stopping stopped

pub data Outcome (l : VmLifecycle) (s : VmState) : Type 0 where
  accepted : Legal l.state s → transition_to l s ≡ (ok tt, record l { state = s }) → Outcome l s
  refused :
      ¬ Legal l.state s → transition_to l s ≡ (err (invalid_transition l.state s), l) → Outcome l s

abbrev Decides : VmState → VmState → Type 0
Decides a b =
    (Legal a b × ((matches a b || state_eq a b) ≡ true))
    ⊎ (¬ Legal a b × ((matches a b || state_eq a b) ≡ false))

decides : (a b : VmState) → Decides a b
decides a error = inl (fail a, refl)
decides not_started not_started = inl (stay _, refl)
decides not_started starting = inl (start, refl)
decides starting starting = inl (stay _, refl)
decides starting running = inl (started, refl)
decides starting stopping = inl (abort, refl)
decides starting stopped = inl (abort_at_once, refl)
decides running running = inl (stay _, refl)
decides running stopping = inl (stop, refl)
decides stopping stopping = inl (stay _, refl)
decides stopping stopped = inl (halt, refl)
decides stopped stopped = inl (stay _, refl)
decides stopped starting = inl (restart, refl)
decides _ _ = inr (λ h. elim h [ ], refl)

-- A request is accepted exactly when the transition is legal; it then sets the state, and
-- otherwise the error names both states and the state stays.
pub transition_to-Outcome : (l : VmLifecycle) (s : VmState) → Outcome l s
unfolding transition_to
transition_to-Outcome l s = elim (decides l.state s) [
  | inl (legal, e) ↦ accepted legal (rw e)
  | inr (illegal, e) ↦ refused illegal (rw e)
]

run_running :
    (l : VmLifecycle) (ss : List VmState)
    → l.state ≢ running
    → l.state ≢ starting
    → (run l ss).state ≡ running
    → Memᴰ starting ss
unfolding run transition_to
run_running l [] r s e = absurd (r e)
run_running l (starting ∷ ss) r s e = Memᴰ.head refl
run_running l (x ∷ ss) r s e =
    Memᴰ.tail (run_running (transition_to l x).1 ss (ground arith) (ground arith) e)

-- Whatever is requested of a new VM, it is running only if a start was requested before.
pub running_needs_start : (ss : List VmState) → (run new ss).state ≡ running → Memᴰ starting ss
unfolding new
running_needs_start ss e = run_running new ss (λ h. cc) (λ h. cc) e

run_error : (l : VmLifecycle) (ss : List VmState) → l.state ≡ error → (run l ss).state ≡ error
unfolding run transition_to
run_error l [] e = e
run_error l (s ∷ ss) e = run_error (transition_to l s).1 ss (ground arith)

-- From the error state no sequence of requests leaves it, and after any sequence every request but the
-- one for the error state is refused.
pub error_absorbs :
    (l : VmLifecycle) (ss : List VmState) (s : VmState)
    → l.state ≡ error
    → ((run l ss).state ≡ error) × (((transition_to (run l ss) s).0 ≡ ok tt) ↔ (s ≡ error))
unfolding transition_to
error_absorbs l ss s e = let still = run_error l ss e in (still, ground (arith, still))
