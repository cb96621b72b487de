-- ===== src/Vm/Manager/Stop.antt =====
-- How a manager stands after `stop` of clawpot-common/src/vm/manager.rs, and the calls that it makes.
use clawpot.Common.{
  ℕ, ◌≡◌, ◌↔◌, refl, sym, ap, ◌∙◌, subst, Bool, true, false, List, ◌∷◌, map, Option, none, some,
  Result, ok, arith, Text, if◌then◌else◌,
}
use clawpot.Vm.Lifecycle.{
  VmLifecycle, VmState, not_started, starting, running, stopping, stopped, error,
}
use clawpot.Common.State.{M, ◌>>◌, best_effort, seq-ok}
use clawpot.Vm.Lifecycle
use clawpot.Host.{
  Request, send_ctrl_alt_del, Env, Trace, Call, api, sleep, kill, wait, remove_file, exists,
}
use clawpot.Vm.Manager.{
  VmManager, State, Error, transition_to, put, kill_and_wait, kill_only, remove_socket,
  remove_old_socket, slept, take_child, stop,
}

-- `stop` ends well exactly from these states.
abbrev pub can_stop : VmState → Bool
can_stop not_started = false
can_stop error = false
can_stop _ = true

stopping_ok : (x : State) → (best_effort {F = Error} (transition_to stopping) x).0 ≡ ok tt
unfolding transition_to
stopping_ok x = ground arith

stopping-manager :
    (x : State)
    → (best_effort {F = Error} (transition_to stopping) x).1.manager
      ≡ record x.manager { lifecycle = (Lifecycle.transition_to x.manager.lifecycle stopping).1 }
unfolding transition_to
stopping-manager x = ground arith

stopping-trace :
    (x : State) → (best_effort {F = Error} (transition_to stopping) x).1.trace ≡ x.trace
unfolding transition_to
stopping-trace x = ground arith

-- The calls of a trace, newest first, whatever they gave.
abbrev pub calls : Trace → List Call
calls t = map (λ e. e.call) t

-- The child is killed, and whether that succeeds or not, it is waited for.
abbrev pub reaped : Option ℕ → List Call → List Call
reaped none cs = cs
reaped (some pid) cs = wait pid ∷ kill pid ∷ cs

abbrev pub cleared : Bool → Text → List Call → List Call
cleared true path cs = remove_file path ∷ cs
cleared false path cs = cs

module _ (env : Env) where
  -- A step of `stop` that only logs its failures: it succeeds and leaves the manager.
  abbrev Quiet : M State Error (Unit {0}) → Type 0
  Quiet m = (s : State) → ((m s).0 ≡ ok tt) × ((m s).1.manager ≡ s.manager)

  put-Quiet : (r : Request) → Quiet (best_effort {F = Error} (put env r))
  put-Quiet r s = ground arith

  kill_and_wait-Quiet : (p : Option ℕ) → Quiet (kill_and_wait env p)
  unfolding kill_and_wait
  kill_and_wait-Quiet p s = ground arith

  remove_socket-Quiet : Quiet (remove_socket env)
  unfolding remove_socket
  remove_socket-Quiet s = ground arith

  kill_only-Quiet : (p : Option ℕ) → Quiet (kill_only env p)
  unfolding kill_only
  kill_only-Quiet p s = ground arith

  put-calls :
      (q : Request) (s : State)
      → calls (best_effort {F = Error} (put env q) s).1.trace
        ≡ api s.manager.socket_path q ∷ calls s.trace
  put-calls q s = ground arith

  kill_and_wait-calls :
      (p : Option ℕ) (s : State) → calls (kill_and_wait env p s).1.trace ≡ reaped p (calls s.trace)
  unfolding kill_and_wait
  kill_and_wait-calls none s = refl
  kill_and_wait-calls (some pid) s = ground arith

  remove_socket-calls :
      (s : State)
      → calls (remove_socket env s).1.trace
        ≡ cleared (exists env s.trace s.manager.socket_path) s.manager.socket_path (calls s.trace)
  unfolding remove_socket remove_old_socket
  remove_socket-calls s = ground arith

  abbrev reap : M State Error (Unit {0})
  reap s = kill_and_wait env s.manager.firecracker_process (take_child s)

  abbrev finish : M State Error (Unit {0})
  finish = do remove_socket env; transition_to stopped

  abbrev orphan : VmManager → VmManager
  orphan m = record m { firecracker_process = none }

  -- The manager when `stop` comes to its last transition.
  abbrev halted : VmManager → VmManager
  halted m = record m {
    firecracker_process = none;
    lifecycle = (Lifecycle.transition_to m.lifecycle stopping).1;
  }

  -- The calls from the state `s` to the state `u`.
  pub record Made (s u : State) : Type 0 where
    pub before_removal : Trace
    pub child :
        calls before_removal
        ≡ reaped s.manager.firecracker_process
            (sleep 2000 ∷ api s.manager.socket_path send_ctrl_alt_del ∷ calls s.trace)
    pub socket :
        calls u.trace
        ≡ cleared
            (exists env before_removal s.manager.socket_path)
            s.manager.socket_path
            (calls before_removal)

  stop-Made :
      (s a b d : State)
      → a.manager.socket_path ≡ s.manager.socket_path
      → a.trace ≡ s.trace
      → b ≡ (best_effort {F = Error} (put env send_ctrl_alt_del) a).1
      → b.manager.firecracker_process ≡ s.manager.firecracker_process
      → d ≡ (reap (slept 2000 b)).1
      → d.manager.socket_path ≡ s.manager.socket_path
      → Made s (remove_socket env d).1
  stop-Made s a b d path before pressed same killed path' = record {
    before_removal = d.trace;
    child =
        ap (λ x. calls x.trace) killed
        ∙ kill_and_wait-calls b.manager.firecracker_process (take_child (slept 2000 b))
        ∙ ap (λ p. reaped p (sleep 2000 ∷ calls b.trace)) same
        ∙ ap (λ cs. reaped s.manager.firecracker_process (sleep 2000 ∷ cs))
            (ap (λ x. calls x.trace) pressed
              ∙ put-calls send_ctrl_alt_del a
              ∙ ap (λ q. api q send_ctrl_alt_del ∷ calls a.trace) path
              ∙ ap (λ t. api s.manager.socket_path send_ctrl_alt_del ∷ calls t) before);
    socket =
        remove_socket-calls d ∙ ap (λ q. cleared (exists env d.trace q) q (calls d.trace)) path';
  }

  stop-halted :
      (s : State)
      → (u : State) × (u.manager ≡ halted s.manager)
        × (stop env s ≡ transition_to stopped u)
        × Made s u
  unfolding stop
  stop-halted s =
      let a = (best_effort {F = Error} (transition_to stopping) s).1 in
      let b = (best_effort {F = Error} (put env send_ctrl_alt_del) a).1 in
      let c = slept 2000 b in
      let d = (reap c).1 in
      let e = (remove_socket env d).1 in
      let aside : b.manager ≡ record s.manager {
        lifecycle = (Lifecycle.transition_to s.manager.lifecycle stopping).1;
      } =
        (put-Quiet send_ctrl_alt_del a).1 ∙ stopping-manager s in
      let after_reap : d.manager ≡ halted s.manager =
        (kill_and_wait-Quiet c.manager.firecracker_process (take_child c)).1 ∙ ap orphan aside in
      (
        e,
        (remove_socket-Quiet d).1 ∙ after_reap,
        seq-ok (best_effort {F = Error} (transition_to stopping)) _ s (stopping_ok s)
            ∙ (seq-ok (best_effort {F = Error} (put env send_ctrl_alt_del)) _ a
                  (put-Quiet send_ctrl_alt_del a).0
                ∙ (seq-ok reap finish c
                      (kill_and_wait-Quiet c.manager.firecracker_process (take_child c)).0
                    ∙ seq-ok (remove_socket env) (transition_to stopped) d
                        (remove_socket-Quiet d).0)),
        stop-Made s a b d (ap (λ m. m.socket_path) (stopping-manager s)) (stopping-trace s) refl
            (ap (λ m. m.firecracker_process) aside) refl (ap (λ m. m.socket_path) after_reap),
      )

  -- How a manager stands after `stop` from the state `s`, given its outcome.
  pub record Stopped (s : State) (out : Result Error (Unit {0}) × State) : Type 0 where
    pub no_child : out.1.manager.firecracker_process ≡ none
    pub same_path : out.1.manager.socket_path ≡ s.manager.socket_path
    pub outcome : (out.0 ≡ ok tt) ↔ (can_stop s.manager.lifecycle.state ≡ true)
    pub state :
        out.1.manager.lifecycle.state
        ≡ (if can_stop s.manager.lifecycle.state then stopped else s.manager.lifecycle.state)
    pub made : Made s out.1

  same_trace : (u : State) → u.trace ≡ (transition_to stopped u).1.trace
  unfolding transition_to
  same_trace u = ground arith

  last_step :
      (s u : State) → u.manager ≡ halted s.manager → Made s u → Stopped s (transition_to stopped u)
  unfolding transition_to
  last_step s u h made = record {
    no_child = ground arith;
    same_path = ground arith;
    outcome = ground arith;
    state = ground arith;
    made = record {
      before_removal = made.before_removal;
      child = made.child;
      socket = ap calls (sym (same_trace u)) ∙ made.socket;
    };
  }

  -- `stop` asks Firecracker for Ctrl+Alt+Del, sleeps two seconds, kills the child process and waits for
  -- it, if the manager has one, and removes the socket file, if there is one then; it makes these calls,
  -- in this order and no others, whatever the host answers, and the manager keeps no child. It succeeds
  -- and leaves the VM stopped exactly if the VM had been started and is not in the error state;
  -- otherwise the state stays.
  pub stop-Stopped : (s : State) → Stopped s (stop env s)
  stop-Stopped s =
      let (u, halt, e, made) = stop-halted s in subst (Stopped s) (sym e) (last_step s u halt made)
