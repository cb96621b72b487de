-- ===== src/Tests/Grpc.antt =====
-- Tests of clawpot-server/src/grpc and of the shutdown in clawpot-server/src/main.rs.
use clawpot.Common.{Bool, Text, true, arith, ok, ◌∷◌, ◌≡◌, refl, false, [], none, some, codes, err}
use clawpot.Host.{Env}
use clawpot.Network.Addr.{IpAddr, v4, ipv4}
use clawpot.Network.IpAllocator
use clawpot.Network.IpAllocator.Invariant.{leased, leased-new, new-IsValid}
use clawpot.Network.Manager
use clawpot.Vm.Config.{validate}
use clawpot.Vm
use clawpot.Vm.Registry.{lookup, find_by_ip}
use clawpot.Grpc.Server.{Server, internal}
use clawpot.Grpc.Create.{CreateVmRequest, create_vm}
use clawpot.Grpc.Delete.{delete_vm, shutdown}
use clawpot.Grpc.Interleaved.Shutdown.{shutdown-Reachable}
use clawpot.Grpc.Accounting.{Inv, Creates, create_vm-Creates}
use clawpot.Grpc.Invariant.{
  create_vm-Inv, Deletes, delete_vm-Deletes, delete_vm-Inv, shutdown-empty,
}
use clawpot.Grpc.Interleaved.{Shared, server_start, allocated, Reachable, begin, and_then}
use clawpot.Grpc.Interleaved.Refined.{shared, Left, create_vm-Left, delete_vm-Reachable}
use clawpot.Grpc.Interleaved.Safe.{Safe, Reachable-Safe}
use clawpot.Grpc.Query.{ExecVmRequest, exec_vm, Execs, exec_vm-Execs}
use clawpot.Grpc.Requested.{Acceptable, VcpusFit}
use clawpot.Tests.Hosts.{calm, no_firecracker}

abbrev idle : Server
idle = record {
  vm_registry = [];
  ip_allocator = IpAllocator.new;
  network_manager = Manager.new;
  kernel_path = codes "vmlinux";
  rootfs_path = codes "rootfs.ext4";
  events = [];
  trace = [];
}

idle-Inv : Inv idle
unfolding find_by_ip
idle-Inv = record { pool = new-IsValid; registry = tt; accounts = leased-new }

abbrev request : CreateVmRequest
request = record { vcpu_count = some 2; mem_size_mib = none }

abbrev after : Env → Server
after env = (create_vm env request idle).1

free_id : lookup 7 idle.vm_registry ≡ none
unfolding lookup
free_id = refl

create_vm-Creates_example : Creates idle 7 (create_vm calm request idle)
create_vm-Creates_example = create_vm-Creates calm request idle idle-Inv free_id

create_vm-Inv_example : Inv (create_vm no_firecracker request idle).1
create_vm-Inv_example = create_vm-Inv no_firecracker request idle idle-Inv free_id

one_vm-Inv : Inv (after calm)
one_vm-Inv = create_vm-Inv calm request idle idle-Inv free_id

delete_vm-Deletes_example :
    Deletes calm (after calm) (codes "7") (delete_vm calm (codes "7") (after calm))
delete_vm-Deletes_example = delete_vm-Deletes calm (after calm) (codes "7")

delete_vm-Inv_example : Inv (delete_vm calm (codes "7") (after calm)).1
delete_vm-Inv_example = delete_vm-Inv calm (codes "7") (after calm) one_vm-Inv

shutdown-empty_example :
    ((shutdown calm (after calm)).vm_registry ≡ [])
    × ((a : IpAddr) → leased (shutdown calm (after calm)).ip_allocator a ≡ false)
shutdown-empty_example = shutdown-empty calm (after calm) one_vm-Inv

refused_start :
    (create_vm no_firecracker request idle).0 ≡ err (internal (codes "firecracker_start"))
unfolding create_vm IpAllocator.allocate IpAllocator.new Manager.create_tap Vm.Manager.start
    validate
refused_start = refl

abbrev uname : ExecVmRequest
uname = record {
  vm_id = codes "7";
  command = codes "uname";
  args = codes "-a" ∷ [];
  env = [];
  working_dir = codes "/tmp";
}

exec_vm-Execs_example : Execs calm (after calm) uname (exec_vm calm uname (after calm))
exec_vm-Execs_example = exec_vm-Execs calm (after calm) uname

abbrev first_ip : IpAddr
first_ip = v4 (ipv4 192 168 100 2)

abbrev one_held : Shared
one_held = record server_start {
  pool = (IpAllocator.allocate server_start.pool).1;
  held = first_ip ∷ server_start.held;
}

got_first : (IpAllocator.allocate server_start.pool).0 ≡ ok first_ip
unfolding server_start IpAllocator.allocate IpAllocator.new
got_first = refl

one_held-Reachable : Reachable one_held
one_held-Reachable =
    and_then server_start one_held begin (allocated server_start first_ip got_first)

Reachable-Safe_example : Safe one_held
Reachable-Safe_example = Reachable-Safe one_held one_held-Reachable

idle-Reachable : Reachable (shared idle [])
unfolding server_start
idle-Reachable = begin

create_vm-Left_example : Left (create_vm calm request idle).1 []
create_vm-Left_example = create_vm-Left calm request idle [] idle-Reachable

delete_vm-Reachable_example : Reachable (shared (delete_vm calm (codes "7") idle).1 [])
delete_vm-Reachable_example = delete_vm-Reachable calm (codes "7") idle [] idle-Reachable

abbrev on_disk : Text → Bool
on_disk path = true

-- 256 vCPUs are 0 in 8 bits.
two_hundred_fifty_six : ¬ Acceptable on_disk idle (record request { vcpu_count = some 256 })
unfolding Acceptable VcpusFit
two_hundred_fifty_six = λ h. ground (arith, h.2)

-- A create handler has an address in hand while the server shuts down.
abbrev one_creating : Server
one_creating = record idle { ip_allocator = one_held.pool }

one_creating-Reachable : Reachable (shared one_creating (first_ip ∷ []))
unfolding server_start
one_creating-Reachable = one_held-Reachable

shutdown-Reachable_example : Reachable (shared (shutdown calm one_creating) (first_ip ∷ []))
shutdown-Reachable_example =
    shutdown-Reachable calm (first_ip ∷ []) one_creating one_creating-Reachable
