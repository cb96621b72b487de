-- ===== src/Grpc/Interleaved.antt =====
-- Handlers of clawpot-server/src/grpc/service.rs and the cleanup of main.rs that run at the same
-- time. Between two `await`s each of them does one thing to the shared pool or registry, under its
-- lock; any handler may come next. `held` lists the addresses that handlers have in hand: allocated
-- and not yet registered, or unregistered and not yet released. An address that a failed insertion
-- leaves behind stays there.
pub mod Safe
pub mod Refined
pub mod Shutdown
use clawpot.Common.{
  Bool, true, false, ◌||◌, ◌≡◌, List, [], ◌∷◌, Option, Result, ok, err, if◌then◌else◌,
}
use clawpot.Network.Addr.{IpAddr, ip_eq}
use clawpot.Network.IpAllocator.{IpAllocator, allocate, release}
use clawpot.Network.IpAllocator
use clawpot.Vm.Registry.{VmId, VmEntry, VmRegistry, insert, remove}
use clawpot.Vm.Registry

pub record Shared : Type 0 where
  pub pool : IpAllocator
  pub vms : VmRegistry
  pub held : List IpAddr

unfoldable pub server_start : Shared
server_start = record { pool = IpAllocator.new; vms = Registry.new; held = [] }

unfoldable pub holds : IpAddr → List IpAddr → Bool
holds a [] = false
holds a (x ∷ xs) = ip_eq x a || holds a xs

unfoldable pub give_up : IpAddr → List IpAddr → List IpAddr
give_up a [] = []
give_up a (x ∷ xs) = if ip_eq x a then xs else x ∷ give_up a xs

pub data Step : Shared → Shared → Type 0 where
  -- `create_vm`: `allocate`
  allocated :
      (s : Shared) (ip : IpAddr)
      → (allocate s.pool).0 ≡ ok ip
      → Step s (record s { pool = (allocate s.pool).1; held = ip ∷ s.held })
  exhausted :
      (s : Shared) (e : IpAllocator.Error)
      → (allocate s.pool).0 ≡ err e
      → Step s (record s { pool = (allocate s.pool).1 })
  -- `create_vm` after a failure, `delete_vm` and the shutdown: `release`
  released :
      (s : Shared) (ip : IpAddr)
      → holds ip s.held ≡ true
      → Step s (record s { pool = (release s.pool ip).1; held = give_up ip s.held })
  -- `create_vm`: `insert`
  inserted :
      (s : Shared) (id : VmId) (e : VmEntry)
      → e.id ≡ id
      → holds e.ip_address s.held ≡ true
      → (insert s.vms id e).0 ≡ ok tt
      → Step s (record s { vms = (insert s.vms id e).1; held = give_up e.ip_address s.held })
  not_inserted :
      (s : Shared) (id : VmId) (e : VmEntry) (x : Registry.Error)
      → (insert s.vms id e).0 ≡ err x
      → Step s (record s { vms = (insert s.vms id e).1 })
  -- `delete_vm` and the shutdown: `remove`
  removed :
      (s : Shared) (id : VmId) (e : VmEntry)
      → (remove s.vms id).0 ≡ ok e
      → Step s (record s { vms = (remove s.vms id).1; held = e.ip_address ∷ s.held })
  not_found :
      (s : Shared) (id : VmId) (x : Registry.Error)
      → (remove s.vms id).0 ≡ err x
      → Step s (record s { vms = (remove s.vms id).1 })

-- What any interleaving of handlers can reach.
pub data Reachable : Shared → Type 0 where
  begin : Reachable server_start
  and_then : (s t : Shared) → Reachable s → Step s t → Reachable t
