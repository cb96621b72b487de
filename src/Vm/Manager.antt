-- ===== src/Vm/Manager.antt =====
-- clawpot-common/src/vm/manager.rs. The methods take the manager and the calls made so far
-- (`State`). The Firecracker client is its socket path: each of its methods is one `api` call.
pub mod Start
pub mod Stop
use clawpot.Common.{
  ℕ, zero, suc, ◌∷◌, Bool, true, false, Option, none, some, Text, codes, Result, ok, err,
  if◌then◌else◌,
}
use clawpot.Common.State.{M, ◌>>=◌, ◌>>◌, pure, throw, best_effort}
use clawpot.Vm.Lifecycle.{VmLifecycle, VmState, starting, running, stopping, stopped}
use clawpot.Vm.Lifecycle
use clawpot.Vm.Config.{VmConfig}
use clawpot.Vm.Config
use clawpot.Host.{
  Request, boot_source, drive, machine_config, network_interface, entropy, vsock, instance_start,
  send_ctrl_alt_del, Call, remove_file, spawn, kill, wait, sleep, api, entry, Trace, Env, do_call,
  answer, exists,
}
use clawpot.Host

pub record VmManager : Type 0 where
  pub socket_path : Text
  pub firecracker_process : Option ℕ
  pub lifecycle : VmLifecycle

pub record State : Type 0 where
  pub manager : VmManager
  pub trace : Trace

pub data Error : Type 0 where
  invalid_config : Config.Error → Error
  invalid_transition : Lifecycle.Error → Error
  host : Host.Error → Error
  socket_not_ready : Error

unfoldable pub new : Text → VmManager
unfolding Lifecycle.new
new socket_path = record {
  socket_path = socket_path;
  firecracker_process = none;
  lifecycle = Lifecycle.new;
}

-- A call to the host, with its error in context.
abbrev pub lifted {ℓ} : {A : Type ℓ} → State → Result Host.Error A × Trace → Result Error A × State
lifted s (ok a, t) = (ok a, record s { trace = t })
lifted s (err e, t) = (err (host e), record s { trace = t })

abbrev pub lift {ℓ} : {A : Type ℓ} → M Trace Host.Error A → M State Error A
lift m s = lifted s (m s.trace)

abbrev pub moved :
    State → Result Lifecycle.Error (Unit {0}) × VmLifecycle → Result Error (Unit {0}) × State
moved s (ok a, l) = (ok a, record s { manager = record s.manager { lifecycle = l } })
moved s (err e, l) =
    (err (invalid_transition e), record s { manager = record s.manager { lifecycle = l } })

unfoldable pub transition_to : VmState → M State Error (Unit {0})
unfolding Lifecycle.transition_to
transition_to new_state s = moved s (Lifecycle.transition_to s.manager.lifecycle new_state)

abbrev pub checked : Result Config.Error (Unit {0}) → M State Error (Unit {0})
checked (ok a) s = (ok a, s)
checked (err e) s = (err (invalid_config e), s)

abbrev pub keep_child : ℕ → M State Error (Unit {0})
keep_child pid s =
    (ok tt, record s { manager = record s.manager { firecracker_process = some pid } })

-- `tokio::time::sleep` in milliseconds.
abbrev pub slept : ℕ → State → State
slept ms s = record s { trace = entry (sleep ms) true ∷ s.trace }

abbrev pub take_child : State → State
take_child s = record s { manager = record s.manager { firecracker_process = none } }

module _ (env : Env) where
  unfoldable pub remove_old_socket : M State Error (Unit {0})
  remove_old_socket s =
      if exists env s.trace s.manager.socket_path
      then lift (do_call env (remove_file s.manager.socket_path)) s
      else (ok tt, s)

  unfoldable pub start_firecracker_process : M State Error (Unit {0})
  start_firecracker_process = do
    pid ← (λ s. lift (λ t. answer (spawn s.manager.socket_path) (env.spawned t) t) s)
    keep_child pid

  -- The attempts that are left.
  unfoldable pub wait_attempts : ℕ → M State Error (Unit {0})
  wait_attempts zero s = (err socket_not_ready, s)
  wait_attempts (suc left) s =
      let again = wait_attempts left (slept 100 s) in
      if exists env s.trace s.manager.socket_path then (ok tt, slept 50 s) else again

  unfoldable pub wait_for_socket : M State Error (Unit {0})
  unfolding wait_attempts
  wait_for_socket = wait_attempts 50

  abbrev pub put : Request → M State Error (Unit {0})
  put r s = lift (do_call env (api s.manager.socket_path r)) s

  unfoldable pub put_network : Option Text → Option Text → M State Error (Unit {0})
  put_network (some tap_device) (some ip) = put (network_interface (codes "eth0") tap_device none)
  put_network (some tap_device) none = pure tt
  put_network none ip = pure tt

  unfoldable pub put_vsock : Option ℕ → Option Text → M State Error (Unit {0})
  put_vsock (some guest_cid) (some uds_path) = put (vsock guest_cid uds_path)
  put_vsock (some guest_cid) none = pure tt
  put_vsock none uds_path = pure tt

  -- A path that is a `Text` is UTF-8, so its `to_str` does not fail.
  unfoldable pub configure_vm : VmConfig → M State Error (Unit {0})
  unfolding put_network put_vsock
  configure_vm config = do
    put (boot_source config.kernel_path config.boot_args)
    put (drive (codes "rootfs") config.rootfs_path true false)
    put (machine_config config.vcpu_count config.mem_size_mib)
    put_network config.tap_device config.ip_address
    put entropy
    put_vsock config.guest_cid config.vsock_uds_path

  unfoldable pub start : VmConfig → M State Error (Unit {0})
  unfolding transition_to remove_old_socket start_firecracker_process wait_for_socket configure_vm
  start config = do
    (λ s. checked (Config.validate (exists env s.trace) config) s)
    transition_to starting
    remove_old_socket
    start_firecracker_process
    wait_for_socket
    configure_vm config
    put instance_start
    transition_to running

  -- `firecracker_process.take()` and what is done with the child; failures are only logged.
  unfoldable pub kill_and_wait : Option ℕ → M State Error (Unit {0})
  kill_and_wait none = pure tt
  kill_and_wait (some pid) = do
    best_effort {F = Error} (lift (do_call env (kill pid)))
    best_effort {F = Error} (lift (do_call env (wait pid)))

  unfoldable pub remove_socket : M State Error (Unit {0})
  unfolding remove_old_socket
  remove_socket = best_effort {F = Error} remove_old_socket

  unfoldable pub stop : M State Error (Unit {0})
  unfolding transition_to kill_and_wait remove_socket
  stop = do
    best_effort {F = Error} (transition_to stopping)
    best_effort {F = Error} (put send_ctrl_alt_del)
    (λ s. (ok tt, slept 2000 s))
    (λ s. kill_and_wait s.manager.firecracker_process (take_child s))
    remove_socket
    transition_to stopped

  unfoldable pub kill_only : Option ℕ → M State Error (Unit {0})
  kill_only none = pure tt
  kill_only (some pid) = best_effort {F = Error} (lift (do_call env (kill pid)))

  -- `Drop`
  unfoldable pub drop : M State Error (Unit {0})
  unfolding kill_only remove_socket
  drop = do (λ s. kill_only s.manager.firecracker_process (take_child s)); remove_socket
