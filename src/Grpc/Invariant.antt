-- ===== src/Grpc/Invariant.antt =====
-- The invariant of the books through `create_vm`, `delete_vm` and the shutdown.
use clawpot.Common.{
  ==_refl, ◌≡◌, inl, inr, refl, sym, ◌∙◌, subst, Bool, true, false, [], ◌∷◌, Option, none, some,
  Text, Result, ok, err, arith, if◌then◌else◌, Option-cases, map,
}
use clawpot.Host.{Env}
use clawpot.Network.Addr.{IpAddr, v4, ip_eq, ip_eq_iff}
use clawpot.Network.IpAllocator.{IpAllocator}
use clawpot.Network.IpAllocator
use clawpot.Network.IpAllocator.Invariant.{leased, leased-InPool, InPool, new-IsValid, leased-new}
use clawpot.Network.IpAllocator.Invariant
use clawpot.Network.IpAllocator.Allocate.{leases, exhausted, allocate-Allocates, allocate-IsValid}
use clawpot.Network.IpAllocator.Release.{freed, refused, release-Releases, release-IsValid}
use clawpot.Vm.Registry.{VmId, VmEntry, VmRegistry, lookup, find_by_ip, is_some, erase, summary}
use clawpot.Vm.Registry
use clawpot.Vm.Registry.Laws.{find-erase, find-lookup, erase-IsValid}
use clawpot.Grpc.Server.{Server, Status, not_found, invalid_argument}
use clawpot.Grpc.Create.{CreateVmRequest, Response, create_vm}
use clawpot.Grpc.Delete.{after_remove, after_parse, delete_vm, cleanup_vm, cleanup, shutdown}
use clawpot.Grpc.Accounting.{Inv, Creates, created, failed, create_vm-Creates}

-- The pool after an address was allocated.
pub allocated-leased :
    (s : IpAllocator) (ip a : IpAddr)
    → Invariant.IsValid s
    → (IpAllocator.allocate s).0 ≡ ok ip
    → (leased s ip ≡ false)
      × (leased (IpAllocator.allocate s).1 a ≡ (if ip_eq a ip then true else leased s a))
allocated-leased s ip a v got = elim (allocate-Allocates s v) [
  | leases n p free e view count ↦
      let same : v4 n ≡ ip = ground arith in
      subst
        (λ x.
          (leased s x ≡ false)
          × (leased (IpAllocator.allocate s).1 a ≡ (if ip_eq a x then true else leased s a)))
        same (free, view a)
  | exhausted all e ↦ absurd (ground arith)
]

create-Inv :
    (s : Server) (id : VmId) (out : Response)
    → Inv s
    → lookup id s.vm_registry ≡ none
    → Creates s id out
    → Inv out.1
create-Inv s id out inv fresh (created ip e r h0 h1 got pool vms (own, at) up child) =
    let (free, _) = allocated-leased s.ip_allocator ip ip inv.pool got in
    record {
      pool = rw pool (allocate-IsValid s.ip_allocator inv.pool);
      registry = rw vms (own, fresh, ground (arith, at, free, inv.accounts ip), inv.registry);
      accounts = λ a.
          rw (pool, vms)
            (unfold find_by_ip in
              ground (
                arith,
                at,
                (allocated-leased s.ip_allocator ip a inv.pool got).1,
                inv.accounts a,
                ip_eq_iff a ip,
                ip_eq_iff ip a,
              ));
    }
create-Inv s id out inv fresh (failed st h0 vms valid same) = record {
  pool = valid;
  registry = rw vms inv.registry;
  accounts = λ a. rw vms (same a ∙ inv.accounts a);
}

-- `create_vm` keeps the books in order, whatever the host answers, unless the new id is taken.
pub create_vm-Inv :
    (env : Env) (req : CreateVmRequest) (s : Server)
    → Inv s
    → lookup (env.new_uuid s.trace) s.vm_registry ≡ none
    → Inv (create_vm env req s).1
create_vm-Inv env req s inv fresh =
    create-Inv s (env.new_uuid s.trace) (create_vm env req s) inv fresh
      (create_vm-Creates env req s inv fresh)

-- The address of a registered VM goes back to the pool.
pub released-leased :
    (s : IpAllocator) (ip a : IpAddr)
    → Invariant.IsValid s
    → leased s ip ≡ true
    → leased (IpAllocator.release s ip).1 a ≡ (if ip_eq a ip then false else leased s a)
released-leased s ip a v held = elim (release-Releases s ip v) [
  | freed n p same done view ↦ view a
  | refused out e same ↦ let (n, at, p) = leased-InPool s ip held in absurd (out n p at)
]

-- What removing the VM `e`, registered as `id`, makes of the books.
abbrev pub Removed : Server → VmId → VmEntry → Server → Type 0
Removed s id e t =
    (t.vm_registry ≡ erase id s.vm_registry)
    × (t.ip_allocator ≡ (IpAllocator.release s.ip_allocator e.ip_address).1)

Removed-Inv :
    (s t : Server) (id : VmId) (e : VmEntry)
    → Inv s
    → lookup id s.vm_registry ≡ some e
    → Removed s id e t
    → Inv t
Removed-Inv s t id e inv here (vms, pool) =
    let held : leased s.ip_allocator e.ip_address ≡ true =
      inv.accounts e.ip_address ∙ find-lookup s.vm_registry id e here in
    record {
      pool = rw pool (release-IsValid s.ip_allocator e.ip_address inv.pool);
      registry = rw vms (erase-IsValid s.vm_registry id inv.registry);
      accounts = λ a.
          rw (pool, vms)
            (ground (
              arith,
              released-leased s.ip_allocator e.ip_address a inv.pool held,
              find-erase s.vm_registry id e a inv.registry here,
              inv.accounts a,
            ));
    }

abbrev pub Deletion : Type 0
Deletion = Result Status Bool × Server

-- How `delete_vm` ends.
pub data Deletes (env : Env) (s : Server) (text : Text) (out : Deletion) : Type 0 where
  no_id : env.uuid_parse text ≡ none → out ≡ (err invalid_argument, s) → Deletes env s text out
  unknown :
      (id : VmId)
      → env.uuid_parse text ≡ some id
      → lookup id s.vm_registry ≡ none
      → out.0 ≡ err not_found
      → (out.1.vm_registry ≡ s.vm_registry) × (out.1.ip_allocator ≡ s.ip_allocator)
      → Deletes env s text out
  deleted :
      (id : VmId) (e : VmEntry)
      → env.uuid_parse text ≡ some id
      → lookup id s.vm_registry ≡ some e
      → out.0 ≡ ok true
      → Removed s id e out.1
      → Deletes env s text out

pub erase-none : (vms : VmRegistry) (id : VmId) → lookup id vms ≡ none → erase id vms ≡ vms
unfolding erase lookup
erase-none [] id h = refl
erase-none ((k, e) ∷ vms) id h = ground (arith, erase-none vms id)

after_parse-Deletes :
    (env : Env) (s : Server) (text : Text) (o : Option VmId)
    → env.uuid_parse text ≡ o
    → Deletes env s text (after_parse env o s)
unfolding after_parse
after_parse-Deletes env s text none p = no_id p refl
after_parse-Deletes env s text (some id) p = elim (Option-cases (lookup id s.vm_registry)) [
  | inl missing ↦ unknown id p missing (rw (missing, Registry.remove, after_remove)) (
    rw (missing, Registry.remove, after_remove) (erase-none s.vm_registry id missing),
    rw (missing, Registry.remove, after_remove),
  )
  | inr (e, here) ↦
      deleted id e p here (rw (here, Registry.remove, after_remove))
        (rw (here, Registry.remove, after_remove), rw (here, Registry.remove, after_remove))
]

-- `delete_vm` refuses a text that is no id and changes nothing; it answers `not_found` for an id
-- that is not registered and leaves registry and pool; otherwise it succeeds, whatever the host
-- answers, and has taken that VM out of the registry and released its address.
pub delete_vm-Deletes :
    (env : Env) (s : Server) (text : Text) → Deletes env s text (delete_vm env text s)
unfolding delete_vm
delete_vm-Deletes env s text = after_parse-Deletes env s text (env.uuid_parse text) refl

Deletes-Inv :
    (env : Env) (s : Server) (text : Text) (out : Result Status Bool × Server)
    → Inv s
    → Deletes env s text out
    → Inv out.1
Deletes-Inv env s text out inv (no_id p e) = subst (λ o. Inv o.1) (sym e) inv
Deletes-Inv env s text out inv (unknown id p missing e (vms, pool)) = record {
  pool = rw pool inv.pool;
  registry = rw vms inv.registry;
  accounts = λ a. rw (pool, vms) (inv.accounts a);
}
Deletes-Inv env s text out inv (deleted id e p here done gone) =
    Removed-Inv s out.1 id e inv here gone

-- `delete_vm` keeps the books in order, on every path.
pub delete_vm-Inv : (env : Env) (text : Text) (s : Server) → Inv s → Inv (delete_vm env text s).1
delete_vm-Inv env text s inv =
    Deletes-Inv env s text (delete_vm env text s) inv (delete_vm-Deletes env s text)

-- One round of the shutdown's loop, for the first VM that is registered.
pub cleanup_vm-Removed :
    (env : Env) (s : Server) (k : VmId) (e : VmEntry) (vms : VmRegistry)
    → s.vm_registry ≡ (k, e) ∷ vms
    → (lookup k s.vm_registry ≡ some e)
      × Removed s k e (cleanup_vm env k e.ip_address e.tap_name (Registry.remove s.vm_registry k) s)
      × (erase k s.vm_registry ≡ vms)
unfolding cleanup_vm Registry.remove
cleanup_vm-Removed env s k e vms h =
    let here : lookup k s.vm_registry ≡ some e = rw h (unfold lookup in rw (==_refl k)) in
    let rest : erase k s.vm_registry ≡ vms = rw h (unfold erase in rw (==_refl k)) in
    (here, rw (here, cleanup_vm) (refl, refl), rest)

cleanup-Inv :
    (env : Env) (vms : VmRegistry) (s : Server)
    → s.vm_registry ≡ vms
    → Inv s
    → Inv (cleanup env (map summary vms) s) × ((cleanup env (map summary vms) s).vm_registry ≡ [])
unfolding cleanup
cleanup-Inv env [] s h inv = (inv, h)
cleanup-Inv env ((k, e) ∷ vms) s h inv =
    let (here, gone, rest) = cleanup_vm-Removed env s k e vms h in
    let s' = cleanup_vm env k e.ip_address e.tap_name (Registry.remove s.vm_registry k) s in
    cleanup-Inv env vms s' (gone.0 ∙ rest) (Removed-Inv s s' k e inv here gone)

-- From books in order, the shutdown leaves no VM registered and no address leased, whatever the
-- host answers.
pub shutdown-empty :
    (env : Env) (s : Server)
    → Inv s
    → ((shutdown env s).vm_registry ≡ [])
      × ((a : IpAddr) → leased (shutdown env s).ip_allocator a ≡ false)
unfolding shutdown
shutdown-empty env s inv =
    let (after, none_left) = cleanup-Inv env s.vm_registry s refl inv in
    (none_left, λ a. after.accounts a ∙ rw none_left (unfold find_by_ip in refl))
