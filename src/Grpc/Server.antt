-- ===== src/Grpc/Server.antt =====
-- The state that the handlers of clawpot-server/src/grpc/service.rs share, and what they return.
use clawpot.Common.{Bool, List, ◌∷◌, Option, none, some, Text, codes}
use clawpot.Host.{Trace, Env}
use clawpot.Network.Addr.{IpAddr}
use clawpot.Network.IpAllocator.{IpAllocator}
use clawpot.Network.IpAllocator
use clawpot.Network.Manager.{NetworkManager, delete_tap}
use clawpot.Vm.Manager.{VmManager}
use clawpot.Vm.Manager
use clawpot.Vm.Registry.{VmId, VmRegistry}

-- An emitted event: its type, its VM, the `step` of a failure, and its outcome if it has one.
pub record Emitted : Type 0 where
  pub event_type : Text
  pub vm_id : VmId
  pub failed_step : Option Text
  pub success : Option Bool

-- `ClawpotServiceImpl`, with what its shared parts hold. Events and calls are newest first.
pub record Server : Type 0 where
  pub vm_registry : VmRegistry
  pub ip_allocator : IpAllocator
  pub network_manager : NetworkManager
  pub kernel_path : Text
  pub rootfs_path : Text
  pub events : List Emitted
  pub trace : Trace

-- The `Status` codes that the handlers return.
pub data Status : Type 0 where
  resource_exhausted invalid_argument not_found unavailable unimplemented : Status
  internal : (step : Text) → Status

abbrev pub emit : Text → VmId → Server → Server
emit event_type vm_id s = record s {
  events =
      record { event_type = event_type; vm_id = vm_id; failed_step = none; success = none }
      ∷ s.events;
}

abbrev pub emit_failed : VmId → Text → Server → Server
emit_failed vm_id step s = record s {
  events =
      record {
        event_type = codes "vm.create.failed";
        vm_id = vm_id;
        failed_step = some step;
        success = none;
      }
      ∷ s.events;
}

abbrev pub emit_with_outcome : Text → VmId → Bool → Server → Server
emit_with_outcome event_type vm_id success s = record s {
  events =
      record { event_type = event_type; vm_id = vm_id; failed_step = none; success = some success }
      ∷ s.events;
}

-- `let _ = self.ip_allocator.lock().await.release(ip)`
unfoldable pub release_ip : IpAddr → Server → Server
release_ip ip s = record s { ip_allocator = (IpAllocator.release s.ip_allocator ip).1 }

-- A call of `delete_tap` whose failure is only logged or ignored.
unfoldable pub delete_device : Env → Text → IpAddr → Server → Server
delete_device env tap ip s = record s {
  trace = (delete_tap env s.network_manager tap ip s.trace).1;
}

-- The drop of a manager that a handler owns.
unfoldable pub drop_manager : Env → VmManager → Server → Server
drop_manager env m s = record s {
  trace = (Manager.drop env (record { manager = m; trace = s.trace })).1.trace;
}
