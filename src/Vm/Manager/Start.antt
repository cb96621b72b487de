-- ===== src/Vm/Manager/Start.antt =====
-- The requests that `start` of clawpot-common/src/vm/manager.rs makes, and the manager after it.
use clawpot.Common.{
  ℕ, zero, suc, ◌≡◌, inl, inr, refl, sym, ap, ◌∙◌, true, false, List, [], ◌∷◌, ◌++◌, Option, none,
  some, Text, codes, Result, ok, err, arith, Option-cases,
}
use mathlib.Core.List.{append_assoc}
use clawpot.Common.State.{M, ◌>>◌, continue, post_seq}
use clawpot.Vm.Lifecycle.{VmState, starting, running}
use clawpot.Vm.Config.{VmConfig}
use clawpot.Vm.Config
use clawpot.Host.{
  Request, boot_source, drive, machine_config, network_interface, entropy, vsock, instance_start,
  Call, api, Trace, Env, exists,
}
use clawpot.Vm.Manager.{
  put_network, put_vsock, State, Error, transition_to, remove_old_socket, start_firecracker_process,
  wait_attempts, wait_for_socket, put, configure_vm, start, slept, checked,
}

abbrev request_of : Call → List Request → List Request
request_of (api path r) rs = r ∷ rs
request_of _ rs = rs

-- The requests made of Firecracker, newest first.
unfoldable pub requests : Trace → List Request
requests [] = []
requests (e ∷ t) = request_of e.call (requests t)

abbrev pub network_part : Option Text → Option Text → List Request
network_part (some tap) (some ip) = network_interface (codes "eth0") tap none ∷ []
network_part _ _ = []

abbrev pub vsock_part : Option ℕ → Option Text → List Request
vsock_part (some cid) (some path) = vsock cid path ∷ []
vsock_part _ _ = []

-- The configuration of a VM, newest first.
abbrev pub configured : VmConfig → List Request
configured c =
    vsock_part c.guest_cid c.vsock_uds_path
    ++ (entropy
        ∷ (network_part c.tap_device c.ip_address
            ++ (machine_config c.vcpu_count c.mem_size_mib
                ∷ drive (codes "rootfs") c.rootfs_path true false
                ∷ boot_source c.kernel_path c.boot_args
                ∷ [])))

checked-frame :
    (r : Result Config.Error (Unit {0})) (s : State)
    → ((checked r s).1.manager.socket_path ≡ s.manager.socket_path)
      × ((checked r s).1.trace ≡ s.trace)
checked-frame (ok a) s = (refl, refl)
checked-frame (err e) s = (refl, refl)

transition_to-frame :
    (x : VmState) (s : State)
    → ((transition_to x s).1.manager.socket_path ≡ s.manager.socket_path)
      × ((transition_to x s).1.trace ≡ s.trace)
unfolding transition_to
transition_to-frame x s = ground arith

-- What a step that succeeds adds to the requests made.
record Asks (m : M State Error (Unit {0})) (f : List Request → List Request) : Type 0 where
  asked : (s : State) → (m s).0 ≡ ok tt → requests (m s).1.trace ≡ f (requests s.trace)

Asks-seq :
    {m k : M State Error (Unit {0})} {f g : List Request → List Request}
    → Asks m f
    → Asks k g
    → Asks (m >> k) (λ rs. g (f rs))
Asks-seq {m} {k} {f} {g} a b = record {
  asked = λ s.
      post_seq (λ u. requests u.trace ≡ g (f (requests s.trace))) m k s
        (λ u e q.
          b.asked u q ∙ ap g (sym (ap (λ o. requests o.1.trace) e) ∙ a.asked s (ap (λ o. o.0) e)));
}

configured-append :
    (c : VmConfig) (rs : List Request)
    → vsock_part c.guest_cid c.vsock_uds_path
        ++ (entropy
            ∷ (network_part c.tap_device c.ip_address
                ++ (machine_config c.vcpu_count c.mem_size_mib
                    ∷ drive (codes "rootfs") c.rootfs_path true false
                    ∷ boot_source c.kernel_path c.boot_args
                    ∷ rs)))
      ≡ configured c ++ rs
configured-append c rs =
    ap (λ x. vsock_part c.guest_cid c.vsock_uds_path ++ (entropy ∷ x))
      (sym (append_assoc (network_part c.tap_device c.ip_address) _ rs))
    ∙ sym (append_assoc (vsock_part c.guest_cid c.vsock_uds_path) _ rs)

module _ (env : Env) where
  put-Asks : (r : Request) → Asks (put env r) (λ rs. r ∷ rs)
  unfolding requests
  put-Asks r = record { asked = λ s h. ground arith }

  put_network-Asks :
      (tap ip : Option Text) → Asks (put_network env tap ip) (λ rs. network_part tap ip ++ rs)
  unfolding put_network
  put_network-Asks (some tap) (some ip) = put-Asks (network_interface (codes "eth0") tap none)
  put_network-Asks (some tap) none = record { asked = λ s h. refl }
  put_network-Asks none ip = record { asked = λ s h. refl }

  put_vsock-Asks :
      (cid : Option ℕ) (path : Option Text)
      → Asks (put_vsock env cid path) (λ rs. vsock_part cid path ++ rs)
  unfolding put_vsock
  put_vsock-Asks (some cid) (some path) = put-Asks (vsock cid path)
  put_vsock-Asks (some cid) none = record { asked = λ s h. refl }
  put_vsock-Asks none path = record { asked = λ s h. refl }

  configure_vm-requests :
      (c : VmConfig) (s : State)
      → (configure_vm env c s).0 ≡ ok tt
      → requests (configure_vm env c s).1.trace ≡ configured c ++ requests s.trace
  unfolding configure_vm
  configure_vm-requests c s h =
      (Asks-seq (put-Asks (boot_source c.kernel_path c.boot_args)) (
          Asks-seq (put-Asks (drive (codes "rootfs") c.rootfs_path true false)) (
            Asks-seq (put-Asks (machine_config c.vcpu_count c.mem_size_mib)) (
              Asks-seq (put_network-Asks c.tap_device c.ip_address) (
                Asks-seq (put-Asks entropy) (put_vsock-Asks c.guest_cid c.vsock_uds_path)))))).asked
        s h
      ∙ configured-append c (requests s.trace)

  configure_vm-manager : (c : VmConfig) (s : State) → (configure_vm env c s).1.manager ≡ s.manager
  unfolding configure_vm
  configure_vm-manager c s = ground arith

  wait_attempts-frame :
      (n : ℕ) (s : State)
      → ((wait_attempts env n s).1.manager ≡ s.manager)
        × (requests (wait_attempts env n s).1.trace ≡ requests s.trace)
  unfolding wait_attempts requests
  wait_attempts-frame zero s = (refl, refl)
  wait_attempts-frame (suc n) s = ground (arith, wait_attempts-frame n (slept 100 s))

  wait_for_socket-frame :
      (s : State)
      → ((wait_for_socket env s).1.manager ≡ s.manager)
        × (requests (wait_for_socket env s).1.trace ≡ requests s.trace)
  unfolding wait_for_socket
  wait_for_socket-frame s = wait_attempts-frame 50 s

  spawned-frame :
      (s u : State)
      → start_firecracker_process env s ≡ (ok tt, u)
      → (pid : ℕ) × (u.manager.firecracker_process ≡ some pid)
        × (requests u.trace ≡ requests s.trace)
        × (u.manager.socket_path ≡ s.manager.socket_path)
  unfolding start_firecracker_process requests
  spawned-frame s u e = elim (Option-cases (env.spawned s.trace)) [
    | inl missing ↦ absurd (ground arith)
    | inr (pid, child) ↦ (pid, ground arith, ground arith, ground arith)
  ]

  remove_old_socket-frame :
      (s : State)
      → ((remove_old_socket env s).1.manager ≡ s.manager)
        × (requests (remove_old_socket env s).1.trace ≡ requests s.trace)
  unfolding remove_old_socket requests
  remove_old_socket-frame s = ground arith

  abbrev boot : VmConfig → M State Error (Unit {0})
  boot c = do configure_vm env c; put env instance_start; transition_to running

  abbrev launch : VmConfig → M State Error (Unit {0})
  launch c = do remove_old_socket env; start_firecracker_process env; wait_for_socket env; boot c

  abbrev begin : VmConfig → M State Error (Unit {0})
  begin c = do transition_to starting; launch c

  -- The state of a manager that `start` has brought up from `s`.
  pub record Started (c : VmConfig) (s u : State) : Type 0 where
    pub asked : requests u.trace ≡ instance_start ∷ (configured c ++ requests s.trace)
    pub is_running : u.manager.lifecycle.state ≡ running
    pub has_child : (pid : ℕ) × (u.manager.firecracker_process ≡ some pid)
    pub same_path : u.manager.socket_path ≡ s.manager.socket_path

  run-Started :
      (c : VmConfig) (s0 s : State) (pid : ℕ)
      → requests s.trace ≡ configured c ++ requests s0.trace
      → s.manager.firecracker_process ≡ some pid
      → s.manager.socket_path ≡ s0.manager.socket_path
      → (continue (put env instance_start s) (λ _. transition_to running)).0 ≡ ok tt
      → Started c s0 (continue (put env instance_start s) (λ _. transition_to running)).1
  unfolding transition_to requests
  run-Started c s0 s pid r p q h = record {
    asked = ground arith;
    is_running = ground arith;
    has_child = (pid, ground arith);
    same_path = ground arith;
  }

  boot-Started :
      (c : VmConfig) (s0 s : State) (pid : ℕ)
      → requests s.trace ≡ requests s0.trace
      → s.manager.firecracker_process ≡ some pid
      → s.manager.socket_path ≡ s0.manager.socket_path
      → (boot c s).0 ≡ ok tt
      → Started c s0 (boot c s).1
  boot-Started c s0 s pid r p q h =
      let Up = λ (u : State). Started c s0 u in
      post_seq Up (configure_vm env c)
        (λ u. continue (put env instance_start u) (λ _. transition_to running)) s
        (λ u e k.
          run-Started c s0 u pid
            (sym (ap (λ o. requests o.1.trace) e)
              ∙ configure_vm-requests c s (ap (λ o. o.0) e)
              ∙ ap (λ rs. configured c ++ rs) r)
            (ap (λ m. m.firecracker_process) (frame u e) ∙ p)
            (ap (λ m. m.socket_path) (frame u e) ∙ q) k)
        h
    where
      frame : (u : State) → configure_vm env c s ≡ (ok tt, u) → u.manager ≡ s.manager
      frame u e = sym (ap (λ o. o.1.manager) e) ∙ configure_vm-manager c s

  spawn-Started :
      (c : VmConfig) (s0 s : State)
      → requests s.trace ≡ requests s0.trace
      → s.manager.socket_path ≡ s0.manager.socket_path
      → (continue
          (start_firecracker_process env s)
          (λ _ v. continue (wait_for_socket env v) (λ _. boot c))).0
        ≡ ok tt
      → Started c s0
          (continue
            (start_firecracker_process env s)
            (λ _ v. continue (wait_for_socket env v) (λ _. boot c))).1
  spawn-Started c s0 s r q =
      let Up = λ (u : State). Started c s0 u in
      post_seq Up (start_firecracker_process env)
        (λ v. continue (wait_for_socket env v) (λ _. boot c)) s
        λ u e.
          let (pid, p, k, n) = spawned-frame s u e in
          post_seq Up (wait_for_socket env) (boot c) u λ v e'.
            let (m, l) = wait_for_socket-frame u in
            let same : v.manager ≡ u.manager = sym (ap (λ o. o.1.manager) e') ∙ m in
            boot-Started c s0 v pid (sym (ap (λ o. requests o.1.trace) e') ∙ l ∙ (k ∙ r))
              (ap (λ o. o.firecracker_process) same ∙ p) (ap (λ o. o.socket_path) same ∙ (n ∙ q))

  launch-Started :
      (c : VmConfig) (s0 s : State)
      → requests s.trace ≡ requests s0.trace
      → s.manager.socket_path ≡ s0.manager.socket_path
      → (launch c s).0 ≡ ok tt
      → Started c s0 (launch c s).1
  launch-Started c s0 s r q =
      let Up = λ (u : State). Started c s0 u in
      post_seq Up (remove_old_socket env)
        (λ u.
          continue (start_firecracker_process env u)
            (λ _ v. continue (wait_for_socket env v) (λ _. boot c)))
        s
        λ u e.
          let (m, k) = remove_old_socket-frame s in
          spawn-Started c s0 u (sym (ap (λ o. requests o.1.trace) e) ∙ k ∙ r)
            (ap (λ o. o.socket_path) (sym (ap (λ o. o.1.manager) e) ∙ m) ∙ q)

  -- `start` succeeds only with a running VM whose child process it keeps, after exactly these
  -- requests: boot source, root drive, machine configuration, network interface (if a TAP device
  -- and an address are set), entropy, vsock (if both its parts are set), and last the start.
  pub start-Started :
      (c : VmConfig) (s : State) → (start env c s).0 ≡ ok tt → Started c s (start env c s).1
  unfolding start
  start-Started c s =
      let Up = λ (u : State). Started c s u in
      post_seq Up (λ u. checked (Config.validate (exists env u.trace) c) u) (begin c) s
        λ u e.
          let (m, k) = checked-frame (Config.validate (exists env s.trace) c) s in
          post_seq Up (transition_to starting) (launch c) u λ v e'.
            let (m', k') = transition_to-frame starting u in
            launch-Started c s v
              (sym (ap (λ o. requests o.1.trace) e')
                ∙ ap requests k'
                ∙ (sym (ap (λ o. requests o.1.trace) e) ∙ ap requests k))
              (sym (ap (λ o. o.1.manager.socket_path) e')
                ∙ m'
                ∙ (sym (ap (λ o. o.1.manager.socket_path) e) ∙ m))
