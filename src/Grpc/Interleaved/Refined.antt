-- ===== src/Grpc/Interleaved/Refined.antt =====
-- The handlers `create_vm` and `delete_vm` of clawpot-server/src/grpc/service.rs as runs of the steps
-- of Interleaved.
use clawpot.Common.{
  ◌≡◌, ◌⊎◌, inl, inr, refl, ap, subst, true, List, ◌∷◌, Option, none, some, Text, Result, ok, err,
  arith, codes,
}
use clawpot.Host.{Env, Trace}
use clawpot.Host
use clawpot.Network.Addr.{IpAddr, ip_eq_iff}
use clawpot.Network.IpAllocator.{IpAllocator, allocate, release}
use clawpot.Network.IpAllocator
use clawpot.Network.Manager.{create_tap}
use clawpot.Vm.Manager.{VmManager}
use clawpot.Vm.Manager
use clawpot.Vm.Registry.{VmId, VmEntry, VmRegistry, insert, remove}
use clawpot.Vm.Registry
use clawpot.Grpc.Server.{Server, emit, drop_manager}
use clawpot.Grpc.Create.{
  CreateVmRequest, tap_name, socket_path, vm_config, vm_entry, wait_agent, register, after_insert,
  after_start, after_tap, after_allocate, create_vm,
}
use clawpot.Grpc.Delete.{after_remove, after_parse, delete_vm}
use clawpot.Grpc.Interleaved.{
  Shared, holds, give_up, allocated, exhausted, released, inserted, not_inserted, removed,
  not_found, Reachable, and_then,
}

-- The shared part of a server's state, while other handlers hold `held`.
abbrev pub shared : Server → List IpAddr → Shared
shared s held = record { pool = s.ip_allocator; vms = s.vm_registry; held = held }

-- The address that a handler has in hand is its own to give up.
holds-own : (ip : IpAddr) (held : List IpAddr) → holds ip (ip ∷ held) ≡ true
unfolding holds
holds-own ip held = ground (arith, ip_eq_iff ip ip)

give_up-own : (ip : IpAddr) (held : List IpAddr) → give_up ip (ip ∷ held) ≡ held
unfolding give_up
give_up-own ip held = ground (arith, ip_eq_iff ip ip)

-- What is left after a handler: nothing of its own, or one address that it gave up on.
abbrev pub Left : Server → List IpAddr → Type 0
Left s held = Reachable (shared s held) ⊎ ((ip : IpAddr) × Reachable (shared s (ip ∷ held)))

pub released-Reachable :
    (s : Server) (ip : IpAddr) (held : List IpAddr)
    → Reachable (shared s (ip ∷ held))
    → Reachable (record { pool = (release s.ip_allocator ip).1; vms = s.vm_registry; held = held })
released-Reachable s ip held r =
    subst
      (λ h.
        Reachable (record { pool = (release s.ip_allocator ip).1; vms = s.vm_registry; held = h }))
      (give_up-own ip held)
      (and_then _ _ r (released (shared s (ip ∷ held)) ip (holds-own ip held)))

module _ (env : Env) (req : CreateVmRequest) (id : VmId) (held : List IpAddr) where
  register-Left :
      (ip : IpAddr) (m : VmManager) (s : Server)
      → Reachable (shared s (ip ∷ held))
      → Left (register env req id ip m s).1 held
  unfolding register drop_manager
  register-Left ip m s r = go (insert s.vm_registry id e) refl
    where
      e : VmEntry
      e = vm_entry env req id ip m s

      go :
          (out : Result Registry.Error (Unit {0}) × VmRegistry)
          → insert s.vm_registry id e ≡ out
          → Left (after_insert env req id ip m out s).1 held
      go (ok a, vms) h = inl (
          subst (λ o. Reachable (record { pool = s.ip_allocator; vms = o.1; held = held })) h
            (subst
              (λ l.
                Reachable
                  (record { pool = s.ip_allocator; vms = (insert s.vm_registry id e).1; held = l }))
              (give_up-own ip held)
              (and_then _ _ r
                (inserted (shared s (ip ∷ held)) id e refl (holds-own ip held) (ap (λ o. o.0) h)))))
      go (err x, vms) h = inr (
        ip,
        subst (λ o. Reachable (record { pool = s.ip_allocator; vms = o.1; held = ip ∷ held })) h
            (and_then _ _ r (not_inserted (shared s (ip ∷ held)) id e x (ap (λ o. o.0) h))),
      )

  after_start-Left :
      (ip : IpAddr) (out : Result Manager.Error (Unit {0}) × Manager.State) (s : Server)
      → Reachable (shared s (ip ∷ held))
      → Left (after_start env req id ip out s).1 held
  unfolding after_start
  after_start-Left ip (ok a, v) s r =
      register-Left ip v.manager
        (wait_agent env req id
          (emit (codes "vm.create.firecracker_started") id (record s { trace = v.trace })))
        (unfold wait_agent in r)
  after_start-Left ip (err e, v) s r = inl (released-Reachable s ip held r)

  after_tap-Left :
      (ip : IpAddr) (out : Result Host.Error (Unit {0}) × Trace) (s : Server)
      → Reachable (shared s (ip ∷ held))
      → Left (after_tap env req id ip out s).1 held
  unfolding after_tap
  after_tap-Left ip (ok a, t) s r =
      let s' = emit (codes "vm.create.tap_created") id (record s { trace = t }) in
      after_start-Left ip
        (Manager.start env (vm_config env req id ip s')
          (record { manager = Manager.new (socket_path env req id); trace = t }))
        s' r
  after_tap-Left ip (err e, t) s r = inl (released-Reachable s ip held r)

  after_allocate-Left :
      (out : Result IpAllocator.Error IpAddr × IpAllocator) (s : Server)
      → allocate s.ip_allocator ≡ out
      → Reachable (shared s held)
      → Left (after_allocate env req id out s).1 held
  unfolding after_allocate
  after_allocate-Left (ok ip, pool) s h r =
      let s' = emit (codes "vm.create.ip_allocated") id (record s { ip_allocator = pool }) in
      after_tap-Left ip (create_tap env s'.network_manager (tap_name env req id) ip s'.trace) s' (
        subst (λ o. Reachable (record { pool = o.1; vms = s.vm_registry; held = ip ∷ held })) h
          (and_then _ _ r (allocated (shared s held) ip (ap (λ o. o.0) h))))
  after_allocate-Left (err e, pool) s h r = inl (
      subst (λ o. Reachable (record { pool = o.1; vms = s.vm_registry; held = held })) h
        (and_then _ _ r (exhausted (shared s held) e (ap (λ o. o.0) h))))

-- From any state that interleaved handlers reach, a run of `create_vm`, whatever the host answers,
-- is again a run of their steps: it ends in a state that they reach, with no address of its own in
-- hand, or with one, which it gave up on.
pub create_vm-Left :
    (env : Env) (req : CreateVmRequest) (s : Server) (held : List IpAddr)
    → Reachable (shared s held)
    → Left (create_vm env req s).1 held
unfolding create_vm
create_vm-Left env req s held r =
    after_allocate-Left env req (env.new_uuid s.trace) held (allocate s.ip_allocator)
      (emit (codes "vm.create.started") (env.new_uuid s.trace) s) refl r

after_remove-Reachable :
    (env : Env) (id : VmId) (held : List IpAddr) (out : Result Registry.Error VmEntry × VmRegistry)
    (s : Server)
    → remove s.vm_registry id ≡ out
    → Reachable (shared s held)
    → Reachable (shared (after_remove env id out s).1 held)
unfolding after_remove
after_remove-Reachable env id held (ok e, vms) s h r =
    released-Reachable (record s { vm_registry = vms }) e.ip_address held
      (subst
        (λ o. Reachable (record { pool = s.ip_allocator; vms = o.1; held = e.ip_address ∷ held })) h
        (and_then _ _ r (removed (shared s held) id e (ap (λ o. o.0) h))))
after_remove-Reachable env id held (err x, vms) s h r =
    subst (λ o. Reachable (record { pool = s.ip_allocator; vms = o.1; held = held })) h
      (and_then _ _ r (not_found (shared s held) id x (ap (λ o. o.0) h)))

after_parse-Reachable :
    (env : Env) (held : List IpAddr) (o : Option VmId) (s : Server)
    → Reachable (shared s held)
    → Reachable (shared (after_parse env o s).1 held)
unfolding after_parse
after_parse-Reachable env held none s r = r
after_parse-Reachable env held (some id) s r =
    after_remove-Reachable env id held (remove s.vm_registry id)
      (emit (codes "vm.delete.started") id s) refl r

-- From any state that interleaved handlers reach, a run of `delete_vm`, whatever the host answers,
-- is again a run of their steps and ends with no address of its own in hand.
pub delete_vm-Reachable :
    (env : Env) (text : Text) (s : Server) (held : List IpAddr)
    → Reachable (shared s held)
    → Reachable (shared (delete_vm env text s).1 held)
unfolding delete_vm
delete_vm-Reachable env text s held r = after_parse-Reachable env held (env.uuid_parse text) s r
