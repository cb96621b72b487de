-- ===== src/Tests/Vm.antt =====
-- Tests of clawpot-common/src/vm and of clawpot-server/src/vm/registry.rs.
use clawpot.Common.{◌≡◌, refl, true, [], ◌∷◌, codes, ok, err, List, some, none, Result}
use clawpot.Network.Addr.{v4, ipv4}
use clawpot.Vm.Lifecycle.{
  VmState, VmLifecycle, starting, running, stopped, error, transition_to, run,
}
use clawpot.Vm.Lifecycle
use clawpot.Vm.Config.{VmConfig, validate, memory_too_small, with_memory}
use clawpot.Vm.Config
use clawpot.Vm.Manager.{
  VmManager, State, socket_not_ready, start, stop, transition_to as move, configure_vm, put_network,
  put_vsock, kill_and_wait, remove_socket, remove_old_socket, start_firecracker_process,
  wait_for_socket, wait_attempts,
}
use clawpot.Vm.Manager
use clawpot.Vm.Manager.Start.{Started, start-Started}
use clawpot.Vm.Manager.Stop.{Stopped, stop-Stopped}
use clawpot.Vm.Client.{Wire, Api, responded, call, put, response}
use clawpot.Vm.Client
use clawpot.Vm.Client.Configured.{Puts, resources, configure_vm-Puts}
use clawpot.Vm.Client.Wire.{is_ok, Over, wire}
use clawpot.Vm.Registry.{VmEntry, VmRegistry, lookup, find_by_ip}
use clawpot.Vm.Registry.Laws.{IsValid}
use clawpot.Tests.Hosts.{calm}

abbrev boot_sequence : List VmState
boot_sequence = starting ∷ running ∷ []

booted : (run Lifecycle.new boot_sequence).state ≡ running
unfolding Lifecycle.new run transition_to
booted = refl

abbrev broken : VmLifecycle
broken = record { state = error }

abbrev config : VmConfig
config = Config.new (codes "vmlinux") (codes "rootfs.ext4")

small_refused : validate (λ path. true) (with_memory config 127) ≡ err memory_too_small
unfolding validate with_memory Config.new
small_refused = refl

abbrev fresh : State
fresh = record { manager = Manager.new (codes "/tmp/fc-a.sock"); trace = [] }

start_ok : (start calm config fresh).0 ≡ ok tt
unfolding start Manager.new Config.new validate
start_ok = refl

start-Started_example : Started calm config fresh (start calm config fresh).1
start-Started_example = start-Started calm config fresh start_ok

stop-Stopped_example : Stopped calm fresh (stop calm fresh)
stop-Stopped_example = stop-Stopped calm fresh

-- A Firecracker that accepts all.
abbrev accepting : Api
accepting = record {
  exchange = λ sent r. responded 204 [];
  to_string = λ r. some (codes "{}");
  fault_message = λ body. none;
  instance_info = λ body. none;
}

calm-Over : Over accepting calm
unfolding call response put
calm-Over t p r = refl

same_socket : fresh.manager.socket_path ≡ codes "/tmp/fc-a.sock"
unfolding Manager.new
same_socket = refl

configure_vm-Puts_example :
    (did : Result Client.Error (Unit {0}) × Wire) × Puts accepting
      (codes "/tmp/fc-a.sock")
      (resources config)
      []
      did
    × (is_ok (configure_vm calm config fresh).0 ≡ is_ok did.0)
    × (wire accepting (configure_vm calm config fresh).1.trace ≡ did.1)
unfolding wire
configure_vm-Puts_example =
    configure_vm-Puts accepting (codes "/tmp/fc-a.sock") calm calm-Over config fresh same_socket

abbrev pub entry : VmEntry
entry = record {
  id = 7;
  manager = Manager.new (codes "/tmp/fc-a.sock");
  ip_address = v4 (ipv4 192 168 100 2);
  tap_name = codes "tap-a";
  created_at = 0;
  vcpu_count = 1;
  mem_size_mib = 256;
  vsock_uds_path = codes "/tmp/fc-a-vsock.sock";
}

abbrev pub one_vm : VmRegistry
one_vm = (7, entry) ∷ []

one_vm-IsValid : IsValid one_vm
unfolding lookup find_by_ip
one_vm-IsValid = (refl, refl, refl, tt)
