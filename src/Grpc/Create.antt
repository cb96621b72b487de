-- ===== src/Grpc/Create.antt =====
-- `create_vm` of clawpot-server/src/grpc/service.rs. Each function below is the handler from one
-- call on; it is given that call's outcome.
use clawpot.Common.{
  ℕ, ◌%◌, Bool, true, false, ◌∷◌, ◌++◌, take, Option, none, some, Text, codes, Result, ok, err,
}
use clawpot.Host.{Trace, Env, Call, agent_wait_ready, entry}
use clawpot.Host
use clawpot.Network.Addr.{IpAddr, display}
use clawpot.Network.IpAllocator.{IpAllocator}
use clawpot.Network.IpAllocator
use clawpot.Network.Manager.{create_tap}
use clawpot.Vm.Config.{VmConfig}
use clawpot.Vm.Config
use clawpot.Vm.Manager.{VmManager}
use clawpot.Vm.Manager
use clawpot.Vm.Registry.{VmId, VmEntry, VmRegistry}
use clawpot.Vm.Registry
use clawpot.Grpc.Server.{
  Server, Status, resource_exhausted, internal, emit, emit_failed, emit_with_outcome, release_ip,
  drop_manager, delete_device,
}

-- The fields are `optional uint32`.
pub record CreateVmRequest : Type 0 where
  pub vcpu_count : Option ℕ
  pub mem_size_mib : Option ℕ

pub record CreateVmResponse : Type 0 where
  pub vm_id : Text
  pub ip_address : Text
  pub socket_path : Text

abbrev pub Response : Type 0
Response = Result Status CreateVmResponse × Server

abbrev pub unwrap_or : Option ℕ → ℕ → ℕ
unwrap_or none d = d
unwrap_or (some n) d = n

-- `const GUEST_CID`
abbrev pub guest_cid : ℕ
guest_cid = 3

-- `req.vcpu_count.unwrap_or(1) as u8`
abbrev pub vcpus : CreateVmRequest → ℕ
vcpus req = unwrap_or req.vcpu_count 1 % 256

abbrev pub memory : CreateVmRequest → ℕ
memory req = unwrap_or req.mem_size_mib 256

module _ (env : Env) (req : CreateVmRequest) (vm_id : VmId) where
  abbrev pub tap_name : Text
  tap_name = codes "tap-" ++ take 11 (env.uuid_simple vm_id)

  abbrev pub vsock_uds_path : Text
  vsock_uds_path = codes "/tmp/fc-" ++ (env.uuid_simple vm_id ++ codes "-vsock.sock")

  abbrev pub socket_path : Text
  socket_path = codes "/tmp/fc-" ++ (env.uuid_simple vm_id ++ codes ".sock")

  unfoldable pub vm_config : IpAddr → Server → VmConfig
  unfolding Config.new Config.with_vcpus Config.with_memory Config.with_network Config.with_vsock
  vm_config ip s =
      Config.with_vsock
        (Config.with_network
          (Config.with_memory
            (Config.with_vcpus (Config.new s.kernel_path s.rootfs_path) (vcpus req)) (memory req))
          tap_name (display ip))
        guest_cid vsock_uds_path

  unfoldable pub vm_entry : IpAddr → VmManager → Server → VmEntry
  vm_entry ip manager s = record {
    id = vm_id;
    manager = manager;
    ip_address = ip;
    tap_name = tap_name;
    created_at = env.now s.trace;
    vcpu_count = vcpus req;
    mem_size_mib = memory req;
    vsock_uds_path = vsock_uds_path;
  }

  -- After `vm_registry.insert`, which drops an entry that it refuses.
  unfoldable pub after_insert :
      IpAddr → VmManager → Result Registry.Error (Unit {0}) × VmRegistry → Server → Response
  unfolding drop_manager
  after_insert ip m (ok a, vms) s = (
    ok (record {
      vm_id = env.uuid_display vm_id;
      ip_address = display ip;
      socket_path = socket_path;
    }),
    emit_with_outcome (codes "vm.create.completed") vm_id true (record s { vm_registry = vms }),
  )
  after_insert ip m (err e, vms) s = (
    err (internal (codes "registry_insert")),
    emit_failed vm_id (codes "registry_insert")
        (drop_manager env m (record s { vm_registry = vms })),
  )

  abbrev pub readiness : Bool → Text
  readiness true = codes "vm.create.agent_ready"
  readiness false = codes "vm.create.agent_timeout"

  -- `AgentClient::wait_ready`, whose failure is not fatal.
  unfoldable pub wait_agent : Server → Server
  wait_agent s =
      let ready = env.succeeds s.trace (agent_wait_ready vsock_uds_path) in
      emit (readiness ready) vm_id
        (record s { trace = entry (agent_wait_ready vsock_uds_path) ready ∷ s.trace })

  unfoldable pub register : IpAddr → VmManager → Server → Response
  unfolding after_insert Registry.insert vm_entry
  register ip m s = after_insert ip m (Registry.insert s.vm_registry vm_id (vm_entry ip m s)) s

  unfoldable pub after_start :
      IpAddr → Result Manager.Error (Unit {0}) × Manager.State → Server → Response
  unfolding register wait_agent delete_device release_ip drop_manager
  after_start ip (ok a, v) s = register ip v.manager (
      wait_agent
        (emit (codes "vm.create.firecracker_started") vm_id (record s { trace = v.trace })))
  after_start ip (err e, v) s = (
    err (internal (codes "firecracker_start")),
    drop_manager env v.manager (
        emit_failed vm_id (codes "firecracker_start")
          (release_ip ip (delete_device env tap_name ip (record s { trace = v.trace })))),
  )

  unfoldable pub after_tap : IpAddr → Result Host.Error (Unit {0}) × Trace → Server → Response
  unfolding after_start vm_config release_ip Manager.new
  after_tap ip (ok a, t) s =
      let s' = emit (codes "vm.create.tap_created") vm_id (record s { trace = t }) in
      after_start ip
        (Manager.start env (vm_config ip s')
          (record { manager = Manager.new socket_path; trace = t }))
        s'
  after_tap ip (err e, t) s = (
    err (internal (codes "tap_creation")),
    emit_failed vm_id (codes "tap_creation") (release_ip ip (record s { trace = t })),
  )

  unfoldable pub after_allocate : Result IpAllocator.Error IpAddr × IpAllocator → Server → Response
  unfolding after_tap
  after_allocate (ok ip, pool) s =
      let s' = emit (codes "vm.create.ip_allocated") vm_id (record s { ip_allocator = pool }) in
      after_tap ip (create_tap env s'.network_manager tap_name ip s'.trace) s'
  after_allocate (err e, pool) s = (
    err resource_exhausted,
    emit_failed vm_id (codes "ip_allocation") (record s { ip_allocator = pool }),
  )

unfoldable pub create_vm : Env → CreateVmRequest → Server → Response
unfolding after_allocate
create_vm env req s =
    let vm_id = env.new_uuid s.trace in
    let s' = emit (codes "vm.create.started") vm_id s in
    after_allocate env req vm_id (IpAllocator.allocate s'.ip_allocator) s'
