-- ===== src/Grpc/Interleaved/Shutdown.antt =====
-- The cleanup of clawpot-server/src/main.rs as a run of the steps of Interleaved, while handlers of
-- clawpot-server/src/grpc/service.rs may still have addresses in hand.
use clawpot.Common.{◌≡◌, refl, ap, ◌∙◌, subst, List, [], ◌∷◌, map, Result, ok, err, some}
use clawpot.Host.{Env}
use clawpot.Network.Addr.{IpAddr}
use clawpot.Vm.Registry.{VmId, VmEntry, VmRegistry, remove, lookup, summary, list}
use clawpot.Vm.Registry
use clawpot.Grpc.Server.{Server}
use clawpot.Grpc.Delete.{cleanup_vm, cleanup, shutdown}
use clawpot.Grpc.Invariant.{cleanup_vm-Removed}
use clawpot.Grpc.Interleaved.{removed, Reachable, and_then}
use clawpot.Grpc.Interleaved.Refined.{shared, released-Reachable}

module _ (env : Env) (held : List IpAddr) where
  -- A round that finds its VM removes it and releases its address.
  found-Reachable :
      (s : Server) (id : VmId) (e : VmEntry) (out : Result Registry.Error VmEntry × VmRegistry)
      → remove s.vm_registry id ≡ out
      → out.0 ≡ ok e
      → Reachable (shared s held)
      → Reachable (shared (cleanup_vm env id e.ip_address e.tap_name out s) held)
  unfolding cleanup_vm
  found-Reachable s id e (err x, vms) h k r = cc
  found-Reachable s id e (ok x, vms) h k r =
      released-Reachable (record s { vm_registry = vms }) e.ip_address held
        (subst
          (λ o. Reachable (record { pool = s.ip_allocator; vms = o.1; held = e.ip_address ∷ held }))
          h (and_then _ _ r (removed (shared s held) id e (ap (λ o. o.0) h ∙ k))))

  is_found :
      (s : Server) (id : VmId) (e : VmEntry)
      → lookup id s.vm_registry ≡ some e
      → (remove s.vm_registry id).0 ≡ ok e
  unfolding remove
  is_found s id e h = rw h refl

  cleanup-Reachable :
      (vms : VmRegistry) (s : Server)
      → s.vm_registry ≡ vms
      → Reachable (shared s held)
      → Reachable (shared (cleanup env (map summary vms) s) held)
  unfolding cleanup
  cleanup-Reachable [] s h r = r
  cleanup-Reachable ((k, e) ∷ vms) s h r =
      let (here, gone, rest) = cleanup_vm-Removed env s k e vms h in
      let s' = cleanup_vm env k e.ip_address e.tap_name (remove s.vm_registry k) s in
      cleanup-Reachable vms s' (gone.0 ∙ rest)
        (found-Reachable s k e (remove s.vm_registry k) refl (is_found s k e here) r)

  -- From any state that interleaved handlers reach, with whatever addresses they have in hand, the
  -- cleanup of the shutdown, whatever the host answers, is again a run of their steps and ends with no
  -- address of its own in hand.
  pub shutdown-Reachable :
      (s : Server) → Reachable (shared s held) → Reachable (shared (shutdown env s) held)
  unfolding shutdown list
  shutdown-Reachable s r = cleanup-Reachable s.vm_registry s refl r
