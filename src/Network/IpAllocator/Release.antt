-- ===== src/Network/IpAllocator/Release.antt =====
-- `release` of clawpot-server/src/network/ip_allocator.rs over the view of the leased addresses.
use clawpot.Common.{
  Text, ℕ, ◌+◌, ◌-◌, ◌≡◌, ◌≢◌, refl, subst, false, if◌then◌else◌, inl, inr, set, length-set, arith,
  ok, err, Result, Bool-cases,
}
use clawpot.Network.Addr.{IpAddr, v4, v6, ip_eq}
use clawpot.Network.IpAllocator.{IpAllocator, Error, ipv6_unsupported, not_in_range, release}
use clawpot.Network.IpAllocator.Invariant.{IsValid, first_ip, InPool, in_pool, leased, leased-set}

release_pool :
    (s : IpAllocator) (ip : ℕ)
    → IsValid s
    → InPool ip
    → release s (v4 ip) ≡ (ok tt, record s { allocated = set s.allocated (ip - first_ip) false })
unfolding release
release_pool s ip v p =
    let same : ip - s.network_base - 2 ≡ ip - first_ip = omega (arith, v.based) in
    rw v.based (ground (arith, v.sized))

abbrev pub Released : Type 0
Released = Result Error (Unit {0}) × IpAllocator

-- The outcomes of `release`, over the view.
pub data Releases (s : IpAllocator) (a : IpAddr) (r : Released) : Type 0 where
  freed :
      (ip : ℕ)
      → InPool ip
      → a ≡ v4 ip
      → r.0 ≡ ok tt
      → ((b : IpAddr) → leased r.1 b ≡ (if ip_eq b a then false else leased s b))
      → Releases s a r
  refused : ((ip : ℕ) → InPool ip → a ≢ v4 ip) → (e : Error) → r ≡ (err e, s) → Releases s a r

release_outside :
    (s : IpAllocator) (ip : ℕ)
    → IsValid s
    → in_pool ip ≡ false
    → release s (v4 ip) ≡ (err not_in_range, s)
unfolding release
release_outside s ip v out = rw v.based (ground arith)

release_v4-Releases :
    (s : IpAllocator) (ip : ℕ) → IsValid s → Releases s (v4 ip) (release s (v4 ip))
release_v4-Releases s ip v = elim (Bool-cases (in_pool ip)) [
  | inl inside ↦
      let p : InPool ip = ground arith in
      let back : first_ip + (ip - first_ip) ≡ ip = omega arith in
      rw (release_pool s ip v p) (
        freed ip p refl refl (λ b.
          subst
            (λ x.
              leased (record s { allocated = set s.allocated (ip - first_ip) false }) b
              ≡ (if ip_eq b (v4 x) then false else leased s b))
            back (leased-set s (ip - first_ip) s.next_index false b v (omega arith))))
  | inr outside ↦
      refused (λ jp p e. absurd (ground (arith, e))) not_in_range (release_outside s ip v outside)
]

release_v6 : (s : IpAllocator) (ip : Text) → release s (v6 ip) ≡ (err ipv6_unsupported, s)
unfolding release
release_v6 s ip = refl

-- On a well-formed allocator every release either frees the one address of the pool that it names, whether or not that
-- address was leased, or refuses the address and changes nothing.
pub release-Releases : (s : IpAllocator) (a : IpAddr) → IsValid s → Releases s a (release s a)
release-Releases s (v4 ip) v = release_v4-Releases s ip v
release-Releases s (v6 ip) v = refused (λ jp p e. cc) ipv6_unsupported (release_v6 s ip)

pub release-IsValid : (s : IpAllocator) (a : IpAddr) → IsValid s → IsValid (release s a).1
unfolding release
release-IsValid s (v4 ip) v = record {
  based = ground (arith, v.based);
  sized = ground (arith, v.sized, length-set s.allocated (ip - s.network_base - 2) false);
  hinted = ground (arith, v.hinted);
}
release-IsValid s (v6 ip) v = v
