-- ===== src/Vm/Registry.antt =====
-- clawpot-server/src/vm/registry.rs. The hash map is an association list; its order stands for the
-- unspecified order of iteration. Each method holds the lock for its whole body.
pub mod Laws
use clawpot.Common.{
  ℕ, ◌==◌, Bool, true, false, List, [], ◌∷◌, map, Option, none, some, Text, Result, ok, err, length,
  if◌then◌else◌,
}
use clawpot.Network.Addr.{IpAddr, ip_eq}
use clawpot.Vm.Manager.{VmManager}

-- `Uuid`, as its 128-bit number.
abbrev pub VmId : Type 0
VmId = ℕ

pub record VmEntry : Type 0 where
  pub id : VmId
  pub manager : VmManager
  pub ip_address : IpAddr
  pub tap_name : Text
  pub created_at : ℕ
  pub vcpu_count : ℕ  -- u8
  pub mem_size_mib : ℕ  -- u32
  pub vsock_uds_path : Text

abbrev pub VmRegistry : Type 0
VmRegistry = List (VmId × VmEntry)

pub data Error : Type 0 where
  already_exists not_found : VmId → Error

abbrev pub new : VmRegistry
new = []

-- The parts of `HashMap` that the methods use.
unfoldable pub lookup : VmId → VmRegistry → Option VmEntry
lookup id [] = none
lookup id ((k, e) ∷ vms) = if k == id then some e else lookup id vms

abbrev pub is_some {ℓ} : {A : Type ℓ} → Option A → Bool
is_some none = false
is_some (some a) = true

unfoldable pub erase : VmId → VmRegistry → VmRegistry
erase id [] = []
erase id ((k, e) ∷ vms) = if k == id then vms else (k, e) ∷ erase id vms

unfoldable pub insert : VmRegistry → VmId → VmEntry → Result Error (Unit {0}) × VmRegistry
unfolding lookup
insert vms id entry =
    if is_some (lookup id vms) then (err (already_exists id), vms) else (ok tt, (id, entry) ∷ vms)

abbrev pub found : VmId → Option VmEntry → Result Error VmEntry
found id none = err (not_found id)
found id (some e) = ok e

unfoldable pub remove : VmRegistry → VmId → Result Error VmEntry × VmRegistry
unfolding lookup erase
remove vms id = (found id (lookup id vms), erase id vms)

unfoldable pub get : VmRegistry → VmId → Result Error VmId
unfolding lookup
get vms id = if is_some (lookup id vms) then ok id else err (not_found id)

abbrev pub Summary : Type 0
Summary = VmId × IpAddr × Text × ℕ × ℕ × ℕ

abbrev pub summary : VmId × VmEntry → Summary
summary (id, e) = (id, e.ip_address, e.tap_name, e.vcpu_count, e.mem_size_mib, e.created_at)

unfoldable pub list : VmRegistry → List Summary
list vms = map summary vms

abbrev pub count : VmRegistry → ℕ
count vms = length vms

abbrev pub Info : Type 0
Info = IpAddr × Text × ℕ × ℕ × ℕ

abbrev pub info : VmId → Option VmEntry → Result Error Info
info id none = err (not_found id)
info id (some e) = ok (e.ip_address, e.tap_name, e.vcpu_count, e.mem_size_mib, e.created_at)

unfoldable pub get_vm_info : VmRegistry → VmId → Result Error Info
unfolding lookup
get_vm_info vms id = info id (lookup id vms)

unfoldable pub find_by_ip : VmRegistry → IpAddr → Option VmId
find_by_ip [] ip = none
find_by_ip ((id, e) ∷ vms) ip = if ip_eq e.ip_address ip then some id else find_by_ip vms ip

abbrev pub vsock_path : VmId → Option VmEntry → Result Error Text
vsock_path id none = err (not_found id)
vsock_path id (some e) = ok e.vsock_uds_path

unfoldable pub get_vsock_path : VmRegistry → VmId → Result Error Text
unfolding lookup
get_vsock_path vms id = vsock_path id (lookup id vms)
