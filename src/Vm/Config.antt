-- ===== src/Vm/Config.antt =====
-- clawpot-common/src/firecracker/config.rs. A path is its text; whether it exists is asked of the
-- file system, the argument `exists`.
pub mod Validate
use clawpot.Common.{
  ℕ, ltb, ◌==◌, Bool, not, if◌then◌else◌, Option, none, some, Text, codes, ◌++◌, Result, ok, err,
}

pub record VmConfig : Type 0 where
  pub kernel_path : Text
  pub rootfs_path : Text
  pub vcpu_count : ℕ  -- u8
  pub mem_size_mib : ℕ  -- u32
  pub boot_args : Text
  pub tap_device : Option Text
  pub ip_address : Option Text
  pub guest_cid : Option ℕ  -- u32
  pub vsock_uds_path : Option Text

pub data Error : Type 0 where
  kernel_not_found rootfs_not_found : Text → Error
  no_vcpus memory_too_small : Error

unfoldable pub new : Text → Text → VmConfig
new kernel_path rootfs_path = record {
  kernel_path = kernel_path;
  rootfs_path = rootfs_path;
  vcpu_count = 1;
  mem_size_mib = 256;
  boot_args = codes "console=ttyS0 reboot=k panic=1 pci=off";
  tap_device = none;
  ip_address = none;
  guest_cid = none;
  vsock_uds_path = none;
}

unfoldable pub with_vcpus : VmConfig → ℕ → VmConfig
with_vcpus c count = record c { vcpu_count = count }

unfoldable pub with_memory : VmConfig → ℕ → VmConfig
with_memory c mib = record c { mem_size_mib = mib }

unfoldable pub with_boot_args : VmConfig → Text → VmConfig
with_boot_args c args = record c { boot_args = args }

unfoldable pub with_network : VmConfig → Text → Text → VmConfig
with_network c tap_device ip_address = record c {
  tap_device = some tap_device;
  boot_args =
      codes "console=ttyS0 reboot=k panic=1 pci=off ip="
      ++ (ip_address ++ codes "::192.168.100.1:255.255.255.0::eth0:off");
  ip_address = some ip_address;
}

unfoldable pub with_vsock : VmConfig → ℕ → Text → VmConfig
with_vsock c guest_cid uds_path = record c {
  guest_cid = some guest_cid;
  vsock_uds_path = some uds_path;
}

unfoldable pub validate : (Text → Bool) → VmConfig → Result Error (Unit {0})
validate exists c =
    if not (exists c.kernel_path)
    then err (kernel_not_found c.kernel_path)
    else if not (exists c.rootfs_path)
    then err (rootfs_not_found c.rootfs_path)
    else if c.vcpu_count == 0
    then err no_vcpus
    else if ltb c.mem_size_mib 128
    then err memory_too_small
    else ok tt
