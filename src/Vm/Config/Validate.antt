-- ===== src/Vm/Config/Validate.antt =====
-- What `validate` of clawpot-common/src/firecracker/config.rs accepts.
use clawpot.Common.{◌≡◌, ◌↔◌, Bool, true, ok, Text, ◌≤◌, arith}
use clawpot.Vm.Config.{VmConfig, validate}

-- Both files exist, and there are a vcpu and the memory that the microVM needs.
unfoldable pub Bootable : (Text → Bool) → VmConfig → Type 0
Bootable exists c =
    (exists c.kernel_path ≡ true)
    × (exists c.rootfs_path ≡ true)
    × (1 ≤ c.vcpu_count)
    × (128 ≤ c.mem_size_mib)

-- `validate` accepts exactly the bootable configurations.
pub validate_iff :
    (exists : Text → Bool) (c : VmConfig) → (validate exists c ≡ ok tt) ↔ Bootable exists c
unfolding validate Bootable
validate_iff exists c = ground arith
