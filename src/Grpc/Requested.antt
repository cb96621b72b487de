-- ===== src/Grpc/Requested.antt =====
-- The microVM that `create_vm` of clawpot-server/src/grpc/service.rs asks for, read by `validate` of
-- clawpot-common/src/firecracker/config.rs.
use clawpot.Common.{◌≡◌, ◌↔◌, ◌%◌, ◌≤◌, ℕ, Bool, true, Option, none, some, ok, Text, arith}
use clawpot.Host.{Env}
use clawpot.Network.Addr.{IpAddr}
use clawpot.Vm.Config.{validate}
use clawpot.Vm.Config
use clawpot.Vm.Config.Validate.{Bootable, validate_iff}
use clawpot.Vm.Registry.{VmId}
use clawpot.Grpc.Server.{Server}
use clawpot.Grpc.Create.{CreateVmRequest, unwrap_or, vm_config}

-- What a request may ask for: no count of vCPUs that is 0 in 8 bits, and 128 MiB at least.
unfoldable pub VcpusFit : Option ℕ → Type 0
VcpusFit none = Unit
VcpusFit (some n) = 1 ≤ n % 256

unfoldable pub MemoryFits : Option ℕ → Type 0
MemoryFits none = Unit
MemoryFits (some n) = 128 ≤ n

unfoldable pub Acceptable : (Text → Bool) → Server → CreateVmRequest → Type 0
Acceptable exists s req =
    (exists s.kernel_path ≡ true)
    × (exists s.rootfs_path ≡ true)
    × VcpusFit req.vcpu_count
    × MemoryFits req.mem_size_mib

VcpusFit_lem : (o : Option ℕ) → (1 ≤ unwrap_or o 1 % 256) ↔ VcpusFit o
unfolding VcpusFit
VcpusFit_lem none = ground arith
VcpusFit_lem (some n) = ground arith

MemoryFits_lem : (o : Option ℕ) → (128 ≤ unwrap_or o 256) ↔ MemoryFits o
unfolding MemoryFits
MemoryFits_lem none = ground arith
MemoryFits_lem (some n) = ground arith

vm_config-Bootable :
    (env : Env) (req : CreateVmRequest) (id : VmId) (ip : IpAddr) (s : Server)
    (exists : Text → Bool)
    → Bootable exists (vm_config env req id ip s) ↔ Acceptable exists s req
unfolding vm_config Bootable Acceptable Config.new Config.with_vcpus Config.with_memory
    Config.with_network Config.with_vsock
vm_config-Bootable env req id ip s exists =
    let v = VcpusFit_lem req.vcpu_count in
    let m = MemoryFits_lem req.mem_size_mib in
    ((λ h. (h.0, h.1, v.0 h.2, m.0 h.3)), (λ h. (h.0, h.1, v.1 h.2, m.1 h.3)))

-- `validate` accepts the configuration that `create_vm` builds from a request exactly if the kernel
-- and the root file system exist, the vCPUs that the request names are not 0 in 8 bits, and the
-- memory that it names is at least 128 MiB; what it does not name is no obstacle.
pub validate-vm_config :
    (env : Env) (req : CreateVmRequest) (id : VmId) (ip : IpAddr) (s : Server)
    (exists : Text → Bool)
    → (validate exists (vm_config env req id ip s) ≡ ok tt) ↔ Acceptable exists s req
validate-vm_config env req id ip s exists =
    let v = validate_iff exists (vm_config env req id ip s) in
    let b = vm_config-Bootable env req id ip s exists in ((λ h. b.0 (v.0 h)), (λ h. v.1 (b.1 h)))
