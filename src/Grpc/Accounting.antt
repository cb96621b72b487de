-- ===== src/Grpc/Accounting.antt =====
-- What `create_vm` of clawpot-server/src/grpc/service.rs does to the pool of addresses and the
-- registry (the books).
use clawpot.Common.{ℕ, ◌≡◌, refl, sym, ap, ◌∷◌, none, some, codes, Result, ok, err}
use clawpot.Host.{Trace, Env}
use clawpot.Host
use clawpot.Network.Addr.{IpAddr, display}
use clawpot.Network.IpAllocator.{IpAllocator, no_available}
use clawpot.Network.IpAllocator
use clawpot.Network.IpAllocator.Invariant.{leased, InPool}
use clawpot.Network.IpAllocator.Invariant
use clawpot.Network.IpAllocator.Allocate.{
  Allocates, leases, exhausted, allocate-Allocates, allocate-IsValid,
}
use clawpot.Network.IpAllocator.Release.{release-IsValid}
use clawpot.Network.IpAllocator.Laws.{release-allocate}
use clawpot.Network.Manager.{create_tap}
use clawpot.Vm.Lifecycle.{running}
use clawpot.Vm.Manager.{VmManager}
use clawpot.Vm.Manager
use clawpot.Vm.Manager.Start.{start-Started}
use clawpot.Vm.Registry.{VmId, VmEntry, lookup, find_by_ip, is_some}
use clawpot.Vm.Registry.Laws
use clawpot.Grpc.Server.{Server, Status, resource_exhausted, internal, emit}
use clawpot.Grpc.Create.{
  CreateVmRequest, CreateVmResponse, Response, tap_name, socket_path, vm_config, vm_entry,
  wait_agent, register, after_start, after_tap, after_allocate, create_vm,
}

-- The pool and the registry agree: an address is leased exactly if a registered VM has it.
pub record Inv (s : Server) : Type 0 where
  pub pool : Invariant.IsValid s.ip_allocator
  pub registry : Laws.IsValid s.vm_registry
  pub accounts : (a : IpAddr) → leased s.ip_allocator a ≡ is_some (find_by_ip s.vm_registry a)

-- The parts of the state that the accounting reads.
abbrev pub SameBooks : Server → Server → Type 0
SameBooks s t = (t.vm_registry ≡ s.vm_registry) × (t.ip_allocator ≡ s.ip_allocator)

-- How `create_vm` ends, from `s`, for the id it chose.
pub data Creates (s : Server) (id : VmId) (out : Response) : Type 0 where
  created :
      (ip : IpAddr) (e : VmEntry) (r : CreateVmResponse)
      → out.0 ≡ ok r
      → r.ip_address ≡ display ip
      → (IpAllocator.allocate s.ip_allocator).0 ≡ ok ip
      → out.1.ip_allocator ≡ (IpAllocator.allocate s.ip_allocator).1
      → out.1.vm_registry ≡ (id, e) ∷ s.vm_registry
      → (e.id ≡ id) × (e.ip_address ≡ ip)
      → e.manager.lifecycle.state ≡ running
      → ((pid : ℕ) × (e.manager.firecracker_process ≡ some pid))
      → Creates s id out
  failed :
      (st : Status)
      → out.0 ≡ err st
      → out.1.vm_registry ≡ s.vm_registry
      → Invariant.IsValid out.1.ip_allocator
      → ((a : IpAddr) → leased out.1.ip_allocator a ≡ leased s.ip_allocator a)
      → Creates s id out

refused_pool :
    {s : IpAllocator} (x : IpAllocator.Error) (pool : IpAllocator)
    → Allocates s (err x, pool)
    → pool ≡ s
refused_pool x pool (leases ip p free e view count) = cc
refused_pool x pool (exhausted all e) = ap (λ o. o.1) e

-- The handler holds the address `ip` that it allocated.
pub record Holds (s0 : Server) (ip : IpAddr) (s : Server) : Type 0 where
  pub got : (IpAllocator.allocate s0.ip_allocator).0 ≡ ok ip
  pub pool : s.ip_allocator ≡ (IpAllocator.allocate s0.ip_allocator).1
  pub registry : s.vm_registry ≡ s0.vm_registry

module _ (env : Env) (req : CreateVmRequest) (id : VmId) (s0 : Server) (inv : Inv s0) where
  released :
      (ip : IpAddr) (s : Server) (a : IpAddr)
      → Holds s0 ip s
      → leased (IpAllocator.release s.ip_allocator ip).1 a ≡ leased s0.ip_allocator a
  released ip s a h = rw h.pool (release-allocate s0.ip_allocator ip a inv.pool h.got)

  released-IsValid :
      (ip : IpAddr) (s : Server)
      → Holds s0 ip s
      → Invariant.IsValid (IpAllocator.release s.ip_allocator ip).1
  released-IsValid ip s h =
      rw h.pool (release-IsValid _ ip (allocate-IsValid s0.ip_allocator inv.pool))

  register-Creates :
      (ip : IpAddr) (m : VmManager) (s : Server)
      → Holds s0 ip s
      → lookup id s0.vm_registry ≡ none
      → m.lifecycle.state ≡ running
      → ((pid : ℕ) × (m.firecracker_process ≡ some pid))
      → Creates s0 id (register env req id ip m s)
  unfolding register
  register-Creates ip m s h fresh up child =
      rw (h.registry, fresh, register)
        (created ip (vm_entry env req id ip m s) _ refl refl h.got h.pool refl (refl, refl) up
          child)

  -- Emitting events, making calls and keeping time leave the books.
  wait_agent-Holds :
      (ip : IpAddr) (s : Server) → Holds s0 ip s → Holds s0 ip (wait_agent env req id s)
  unfolding wait_agent
  wait_agent-Holds ip s h = record { got = h.got; pool = h.pool; registry = h.registry }

  after_start-Creates :
      (ip : IpAddr) (out : Result Manager.Error (Unit {0}) × Manager.State) (s : Server)
      → Holds s0 ip s
      → lookup id s0.vm_registry ≡ none
      → (out.0 ≡ ok tt
          → (out.1.manager.lifecycle.state ≡ running)
            × ((pid : ℕ) × (out.1.manager.firecracker_process ≡ some pid)))
      → Creates s0 id (after_start env req id ip out s)
  unfolding after_start
  after_start-Creates ip (ok a, v) s h fresh up =
      register-Creates ip v.manager _
        (wait_agent-Holds ip _ (record { got = h.got; pool = h.pool; registry = h.registry })) fresh
        (up refl).0 (up refl).1
  after_start-Creates ip (err e, v) s h fresh up =
      failed (internal (codes "firecracker_start")) refl h.registry (released-IsValid ip s h)
        (λ a. released ip s a h)

  after_tap-Creates :
      (ip : IpAddr) (out : Result Host.Error (Unit {0}) × Trace) (s : Server)
      → Holds s0 ip s
      → lookup id s0.vm_registry ≡ none
      → Creates s0 id (after_tap env req id ip out s)
  unfolding after_tap
  after_tap-Creates ip (ok a, t) s h fresh =
      let s' = emit (codes "vm.create.tap_created") id (record s { trace = t }) in
      let begun : Manager.State = record {
        manager = Manager.new (socket_path env req id);
        trace = t;
      } in
      after_start-Creates ip (Manager.start env (vm_config env req id ip s') begun) s'
        (record { got = h.got; pool = h.pool; registry = h.registry }) fresh
        (λ e.
          let up = start-Started env (vm_config env req id ip s') begun e in
          (up.is_running, up.has_child))
  after_tap-Creates ip (err e, t) s h fresh =
      failed (internal (codes "tap_creation")) refl h.registry (released-IsValid ip s h)
        (λ a. released ip s a h)

  after_allocate-Creates :
      (out : Result IpAllocator.Error IpAddr × IpAllocator) (s : Server)
      → out ≡ IpAllocator.allocate s0.ip_allocator
      → s.vm_registry ≡ s0.vm_registry
      → lookup id s0.vm_registry ≡ none
      → Allocates s0.ip_allocator out
      → Creates s0 id (after_allocate env req id out s)
  unfolding after_allocate
  after_allocate-Creates (ok ip, pool) s e same fresh spec =
      let s' = emit (codes "vm.create.ip_allocated") id (record s { ip_allocator = pool }) in
      after_tap-Creates ip (create_tap env s'.network_manager (tap_name env req id) ip s'.trace) s'
        (record { got = sym (ap (λ o. o.0) e); pool = ap (λ o. o.1) e; registry = same }) fresh
  after_allocate-Creates (err x, pool) s e same fresh spec =
      let same_pool : pool ≡ s0.ip_allocator = refused_pool x pool spec in
      failed resource_exhausted refl same (rw same_pool inv.pool) (λ a. rw same_pool)

-- From books in order, whatever the host answers, and unless the new id is taken: `create_vm` either
-- returns the response, and has registered one more VM, running with its child process, under an
-- address that it allocated; or it returns an error, the registry is as before, and the same
-- addresses are leased.
pub create_vm-Creates :
    (env : Env) (req : CreateVmRequest) (s : Server)
    → Inv s
    → lookup (env.new_uuid s.trace) s.vm_registry ≡ none
    → Creates s (env.new_uuid s.trace) (create_vm env req s)
unfolding create_vm
create_vm-Creates env req s inv fresh =
    after_allocate-Creates env req (env.new_uuid s.trace) s inv
      (IpAllocator.allocate s.ip_allocator)
      (emit (codes "vm.create.started") (env.new_uuid s.trace) s) refl refl fresh
      (allocate-Allocates s.ip_allocator inv.pool)
