-- ===== src/Network/IpAllocator/Laws.antt =====
-- How `allocate` and `release` go together.
use clawpot.Common.{
  ℕ, suc, ◌+◌, ◌<◌, ◌≡◌, ◌↔◌, refl, ap, Bool, true, List, [], ◌∷◌, get_elem?, length, arith, ok,
  err, some, count_ones, count_ones-le-length,
}
use clawpot.Network.Addr.{IpAddr, ip_eq_iff}
use clawpot.Network.IpAllocator.{IpAllocator, no_available, available_count, allocate, release}
use clawpot.Network.IpAllocator.Invariant.{IsValid, first_ip, leased, get_elem?-leased}
use clawpot.Network.IpAllocator.Allocate.{leases, exhausted, allocate-Allocates, allocate-IsValid}
use clawpot.Network.IpAllocator.Release.{freed, refused, release-Releases}

count_ones-full :
    (bs : List Bool)
    → ((i : ℕ) → i < length bs → get_elem? bs i ≡ some true)
    → count_ones bs ≡ length bs
count_ones-full [] all = refl
count_ones-full (b ∷ bs) all =
    ground (arith, all 0 (omega arith), count_ones-full bs (λ i h. all (suc i) (omega arith)))

-- On a well-formed allocator `allocate` fails exactly when `available_count` is 0.
pub allocate-err_iff :
    (s : IpAllocator) → IsValid s → ((allocate s).0 ≡ err no_available) ↔ (available_count s ≡ 0)
allocate-err_iff s v = elim (allocate-Allocates s v) [
  | leases ip p free e view count ↦ (
    λ h. ground (arith, e, h),
    λ h. absurd (
        omega (
          arith,
          count,
          v.sized,
          (allocate-IsValid s v).sized,
          count_ones-le-length (allocate s).1.allocated,
        )),
  )
  | exhausted all e ↦ (
    λ _.
        let full = count_ones-full s.allocated (λ i h.
          get_elem?-leased s i v (omega (arith, v.sized))
            (all (first_ip + i) (omega (arith, v.sized)))) in
        omega (arith, full),
    λ _. ap (λ r. r.0) e,
  )
]

-- On a well-formed allocator an address just allocated and then released leaves the set of leased addresses as it was.
pub release-allocate :
    (s : IpAllocator) (a b : IpAddr)
    → IsValid s
    → (allocate s).0 ≡ ok a
    → leased (release (allocate s).1 a).1 b ≡ leased s b
release-allocate s a b v got = elim (allocate-Allocates s v) [
  | leases ip p free e view count ↦
      elim (release-Releases (allocate s).1 a (allocate-IsValid s v)) [
        | freed jp q same done back ↦ ground (arith, back b, view b, ip_eq_iff b a)
        | refused out x same ↦ absurd (out ip p (ground arith))
      ]
  | exhausted all e ↦ absurd (ground arith)
]
