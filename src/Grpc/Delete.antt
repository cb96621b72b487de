-- ===== src/Grpc/Delete.antt =====
-- `delete_vm` of clawpot-server/src/grpc/service.rs, and the cleanup of
-- `shutdown_signal` in clawpot-server/src/main.rs.
use clawpot.Common.{Bool, true, List, [], ◌∷◌, Option, none, some, Text, codes, Result, ok, err}
use clawpot.Host.{Env, Call, remove_file, entry}
use clawpot.Network.Addr.{IpAddr}
use clawpot.Network.Iptables.{remove_proxy_rules}
use clawpot.Vm.Manager.{VmManager}
use clawpot.Vm.Manager
use clawpot.Vm.Registry.{VmId, VmEntry, VmRegistry, Summary}
use clawpot.Vm.Registry
use clawpot.Grpc.Server.{
  Server, Status, invalid_argument, not_found, emit, emit_with_outcome, release_ip, drop_manager,
  delete_device,
}

-- A call whose failure is ignored.
abbrev pub attempt : Env → Call → Server → Server
attempt env c s = record s { trace = entry c (env.succeeds s.trace c) ∷ s.trace }

module _ (env : Env) where
  -- `entry.manager.stop()`, whose failure is only logged.
  unfoldable pub stop_manager : VmEntry → Server → VmManager × Server
  stop_manager e s =
      let v = (Manager.stop env (record { manager = e.manager; trace = s.trace })).1 in
      (v.manager, record s { trace = v.trace })

  -- What follows the removal from the registry.
  unfoldable pub after_remove :
      VmId → Result Registry.Error VmEntry × VmRegistry → Server → Result Status Bool × Server
  unfolding stop_manager delete_device drop_manager release_ip
  after_remove vm_id (ok e, vms) s =
      let (m, s1) = stop_manager e (record s { vm_registry = vms }) in
      let s2 = release_ip e.ip_address (delete_device env e.tap_name e.ip_address s1) in
      let s3 = attempt env (remove_file e.vsock_uds_path) s2 in
      (ok true, drop_manager env m (emit_with_outcome (codes "vm.delete.completed") vm_id true s3))
  after_remove vm_id (err e, vms) s = (err not_found, record s { vm_registry = vms })

  unfoldable pub after_parse : Option VmId → Server → Result Status Bool × Server
  unfolding after_remove Registry.remove
  after_parse none s = (err invalid_argument, s)
  after_parse (some vm_id) s =
      let s' = emit (codes "vm.delete.started") vm_id s in
      after_remove vm_id (Registry.remove s'.vm_registry vm_id) s'

  unfoldable pub delete_vm : Text → Server → Result Status Bool × Server
  unfolding after_parse
  delete_vm vm_id s = after_parse (env.uuid_parse vm_id) s

  -- One round of the loop over the listed VMs; `continue` on a VM that is gone.
  unfoldable pub cleanup_vm :
      VmId → IpAddr → Text → Result Registry.Error VmEntry × VmRegistry → Server → Server
  unfolding stop_manager delete_device drop_manager release_ip
  cleanup_vm vm_id ip tap (ok e, vms) s =
      let (m, s1) = stop_manager e (record s { vm_registry = vms }) in
      drop_manager env m (release_ip ip (delete_device env tap ip s1))
  cleanup_vm vm_id ip tap (err e, vms) s = s

  unfoldable pub cleanup : List Summary → Server → Server
  unfolding cleanup_vm Registry.remove
  cleanup [] s = s
  cleanup ((vm_id, ip, tap, vcpus, mem, created) ∷ rest) s =
      cleanup rest (cleanup_vm vm_id ip tap (Registry.remove s.vm_registry vm_id) s)

  -- What `shutdown_signal` does once the signal has come.
  unfoldable pub shutdown : Server → Server
  unfolding cleanup Registry.list
  shutdown s =
      let s' = cleanup (Registry.list s.vm_registry) s in
      record s' { trace = (remove_proxy_rules env s'.network_manager.bridge_name s'.trace).1 }
