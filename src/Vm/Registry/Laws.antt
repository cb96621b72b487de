-- ===== src/Vm/Registry/Laws.antt =====
-- The registry as a finite map, and as a map from addresses.
use clawpot.Common.{
  ◌==◌, ==_iff, ◌≡◌, ◌↔◌, inl, inr, ◌∙◌, true, [], ◌∷◌, none, some, arith, if◌then◌else◌,
  Bool-cases,
}
use clawpot.Network.Addr.{IpAddr, ip_eq, ip_eq_iff}
use clawpot.Vm.Registry.{VmId, VmEntry, VmRegistry, lookup, is_some, erase, find_by_ip}

-- Every entry stands under its own id, no id twice, and no address twice.
abbrev pub IsValid : VmRegistry → Type 0
IsValid [] = Unit {0}
IsValid ((k, e) ∷ vms) =
    (e.id ≡ k) × (lookup k vms ≡ none) × (find_by_ip vms e.ip_address ≡ none) × IsValid vms

pub lookup-erase :
    (vms : VmRegistry) (i j : VmId)
    → IsValid vms
    → lookup j (erase i vms) ≡ (if i == j then none else lookup j vms)
unfolding lookup erase
lookup-erase [] i j v = ground arith
lookup-erase ((k, e) ∷ vms) i j v =
    ground (arith, lookup-erase vms i j v.3, ==_iff k i, ==_iff k j, ==_iff i j)

-- A registered VM is found by its address.
pub find-lookup :
    (vms : VmRegistry) (i : VmId) (e : VmEntry)
    → lookup i vms ≡ some e
    → is_some (find_by_ip vms e.ip_address) ≡ true
unfolding lookup find_by_ip
find-lookup [] i e h = cc
find-lookup ((k, x) ∷ vms) i e h =
    ground (arith, find-lookup vms i e, ip_eq_iff x.ip_address e.ip_address)

pub find-erase :
    (vms : VmRegistry) (i : VmId) (e : VmEntry) (a : IpAddr)
    → IsValid vms
    → lookup i vms ≡ some e
    → find_by_ip (erase i vms) a ≡ (if ip_eq a e.ip_address then none else find_by_ip vms a)
unfolding lookup erase find_by_ip
find-erase [] i e a v h = cc
find-erase ((k, x) ∷ vms) i e a v h = ground (
  arith,
  find-erase vms i e a v.3,
  find-lookup vms i e,
  ip_eq_iff a e.ip_address,
  ip_eq_iff x.ip_address a,
  ip_eq_iff x.ip_address e.ip_address,
)

find_none_of_erase :
    (vms : VmRegistry) (i : VmId) (a : IpAddr)
    → find_by_ip vms a ≡ none
    → find_by_ip (erase i vms) a ≡ none
unfolding erase find_by_ip
find_none_of_erase [] i a h = h
find_none_of_erase ((k, x) ∷ vms) i a h = ground (arith, find_none_of_erase vms i a)

pub erase-IsValid : (vms : VmRegistry) (i : VmId) → IsValid vms → IsValid (erase i vms)
unfolding erase
erase-IsValid [] i v = v
erase-IsValid ((k, x) ∷ vms) i v = elim (Bool-cases (k == i)) [
  | inl hit ↦ rw hit v.3
  | inr miss ↦ rw miss (
    v.0,
    (lookup-erase vms i k v.3 ∙ ground (arith, v.1)),
    find_none_of_erase vms i x.ip_address v.2,
    erase-IsValid vms i v.3,
  )
]

-- In a valid registry, looking up by address gives the one VM that has it.
pub find_by_ip_iff :
    (vms : VmRegistry) (ip : IpAddr) (id : VmId)
    → IsValid vms
    → (find_by_ip vms ip ≡ some id)
      ↔ ((e : VmEntry) × (lookup id vms ≡ some e) × (e.ip_address ≡ ip))
unfolding find_by_ip lookup
find_by_ip_iff [] ip id v = ((λ h. cc), (λ h. cc (h.1)))
find_by_ip_iff ((k, x) ∷ vms) ip id v =
    let (to, from) = find_by_ip_iff vms ip id v.3 in
    elim (Bool-cases (ip_eq x.ip_address ip)) [
      | inl hit ↦ rw hit (
        (λ h. (x, ground (arith, h), (ip_eq_iff x.ip_address ip).0 hit)),
        (λ h.
            ground
              (arith, h.1, h.2, find-lookup vms id h.0, v.2, (ip_eq_iff x.ip_address ip).0 hit)),
      )
      | inr miss ↦ rw miss (
        (λ h. let (e, l, q) = to h in (e, ground (arith, l, v.1), q)),
        (λ h. from (h.0, ground (arith, h.1, h.2, miss, (ip_eq_iff x.ip_address ip).1), h.2)),
      )
    ]
