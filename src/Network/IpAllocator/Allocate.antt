-- ===== src/Network/IpAllocator/Allocate.antt =====
-- `allocate` of clawpot-server/src/network/ip_allocator.rs, by slots and over the view of the leased
-- addresses.
use clawpot.Common.{
  sym, ◌∙◌, subst, ℕ_discrete, ℕ, zero, suc, ◌+◌, ◌-◌, ◌%◌, ◌<◌, ◌≤◌, ◌≡◌, refl, ap, Bool, true,
  false, if◌then◌else◌, ◌⊎◌, inl, inr, Option, some, get_elem?, length, arith, length-set, ok, err,
  Result, get_elem?_total, count_ones-set-true,
}
use clawpot.Network.Addr.{IpAddr, v4, ip_eq}
use clawpot.Network.IpAllocator.{
  IpAllocator, Error, no_available, allocated_count, allocate, allocate_from, take_slot,
}
use clawpot.Network.IpAllocator.Invariant.{
  IsValid, first_ip, InPool, leased, leased-set, leased-slot,
}

-- The slot of round `k`.
abbrev pub slot : IpAllocator → ℕ → ℕ
slot s k = (s.next_index + k) % length s.allocated

abbrev pub IsFree : IpAllocator → ℕ → Type 0
IsFree s k = get_elem? s.allocated (slot s k) ≡ some false

abbrev pub AllTaken : IpAllocator → ℕ → ℕ → Type 0
AllTaken s i n = (j : ℕ) → i ≤ j → j < n → get_elem? s.allocated (slot s j) ≡ some true

-- How the rounds from `i` up to `n` end: at the first free slot, or with none.
pub data Scan (s : IpAllocator) (i n : ℕ) (r : Result Error IpAddr × IpAllocator) : Type 0 where
  found :
      (k : ℕ)
      → i ≤ k
      → k < n
      → IsFree s k
      → AllTaken s i k
      → r ≡ take_slot s (slot s k)
      → Scan s i n r
  full : AllTaken s i n → r ≡ (err no_available, s) → Scan s i n r

slot-lt : (s : IpAllocator) (k : ℕ) → IsValid s → slot s k < length s.allocated
slot-lt s k v = omega (arith, v.sized)

AllTaken-cons :
    (s : IpAllocator) (i n : ℕ)
    → get_elem? s.allocated (slot s i) ≡ some true
    → AllTaken s (i + 1) n
    → AllTaken s i n
AllTaken-cons s i n t h j p q = elim (ℕ_discrete i j) [
  | yes e ↦ subst (λ m. get_elem? s.allocated (slot s m) ≡ some true) e t
  | no d ↦ h j (omega (arith, d)) q
]

Scan-cons :
    (s : IpAllocator) (i n : ℕ) (r : Result Error IpAddr × IpAllocator)
    → get_elem? s.allocated (slot s i) ≡ some true
    → Scan s (i + 1) n r
    → Scan s i n r
Scan-cons s i n r t (found k p q free before e) =
    found k (omega arith) q free (AllTaken-cons s i k t before) e
Scan-cons s i n r t (full all e) = full (AllTaken-cons s i n t all) e

bit_cases : (o : Option Bool) (b : Bool) → o ≡ some b → (o ≡ some true) ⊎ (o ≡ some false)
bit_cases o true e = inl e
bit_cases o false e = inr e

allocate_from-Scan :
    (left i : ℕ) (s : IpAllocator) → IsValid s → Scan s i (i + left) (allocate_from left i s)
unfolding allocate_from
allocate_from-Scan zero i s v = full (λ j p q. absurd (omega arith)) refl
allocate_from-Scan (suc left) i s v =
    let (b, e) = get_elem?_total s.allocated (slot s i) (slot-lt s i v) in
    elim (bit_cases (get_elem? s.allocated (slot s i)) b e) [
      | inl t ↦
          rw (t, allocate_from)
            (Scan-cons s i (i + suc left) _ t (
              subst (λ n. Scan s (i + 1) n (allocate_from left (i + 1) s)) (omega arith)
                (allocate_from-Scan left (i + 1) s v)))
      | inr f ↦
          found i (omega arith) (omega arith) f (λ j p q. absurd (omega arith))
            (rw (f, allocate_from) refl)
    ]

-- On a well-formed allocator `allocate` goes round the bitmap once, from the slot of its hint on, and takes the first free slot
-- that it meets; where it meets none it fails and changes nothing.
pub allocate-Scan : (s : IpAllocator) → IsValid s → Scan s 0 (length s.allocated) (allocate s)
unfolding allocate
allocate-Scan s v =
    subst (λ n. Scan s 0 n (allocate_from (length s.allocated) 0 s)) (omega arith)
      (allocate_from-Scan (length s.allocated) 0 s v)

-- The outcomes of `allocate`, over the view.
pub data Allocates (s : IpAllocator) (r : Result Error IpAddr × IpAllocator) : Type 0 where
  leases :
      (ip : ℕ)
      → InPool ip
      → leased s (v4 ip) ≡ false
      → r.0 ≡ ok (v4 ip)
      → ((a : IpAddr) → leased r.1 a ≡ (if ip_eq a (v4 ip) then true else leased s a))
      → allocated_count r.1 ≡ allocated_count s + 1
      → Allocates s r
  exhausted :
      ((ip : ℕ) → InPool ip → leased s (v4 ip) ≡ true) → r ≡ (err no_available, s) → Allocates s r

pub take_slot-ip :
    (s : IpAllocator) (i : ℕ) → IsValid s → i < 253 → (take_slot s i).0 ≡ ok (v4 (first_ip + i))
unfolding take_slot
take_slot-ip s i v h = ap (λ ip. ok (v4 ip)) (omega (arith, v.based))

take_slot-leased :
    (s : IpAllocator) (i : ℕ) (a : IpAddr)
    → IsValid s
    → i < 253
    → leased (take_slot s i).1 a ≡ (if ip_eq a (v4 (first_ip + i)) then true else leased s a)
unfolding take_slot
take_slot-leased s i a v h = leased-set s i _ true a v h

take_slot-count :
    (s : IpAllocator) (i : ℕ)
    → get_elem? s.allocated i ≡ some false
    → allocated_count (take_slot s i).1 ≡ allocated_count s + 1
unfolding take_slot
take_slot-count s i h = count_ones-set-true s.allocated i h

take_slot-Allocates :
    (s : IpAllocator) (i : ℕ)
    → IsValid s
    → i < 253
    → get_elem? s.allocated i ≡ some false
    → Allocates s (take_slot s i)
take_slot-Allocates s i v h free =
    leases (first_ip + i) (omega arith) (leased-slot s i false h free) (take_slot-ip s i v h)
      (λ a. take_slot-leased s i a v h) (take_slot-count s i free)

-- Every slot has its round.
AllTaken-leased :
    (s : IpAllocator) (ip : ℕ)
    → IsValid s
    → AllTaken s 0 (length s.allocated)
    → InPool ip
    → leased s (v4 ip) ≡ true
AllTaken-leased s ip v all p =
    let i = ip - first_ip in
    let k = (i + (253 - s.next_index)) % 253 in
    let here : slot s k ≡ i = rw v.sized (omega (arith, v.hinted)) in
    let bit : get_elem? s.allocated i ≡ some true =
      subst (λ j. get_elem? s.allocated j ≡ some true) here
        (all k (omega arith) (omega (arith, v.sized))) in
    let back : first_ip + i ≡ ip = omega arith in
    subst (λ a. leased s (v4 a) ≡ true) back (leased-slot s i true (omega arith) bit)

Scan-Allocates :
    (s : IpAllocator) (r : Result Error IpAddr × IpAllocator)
    → IsValid s
    → Scan s 0 (length s.allocated) r
    → Allocates s r
Scan-Allocates s r v (found k p q free before e) =
    subst (Allocates s) (sym e)
      (take_slot-Allocates s (slot s k) v (omega (arith, v.sized, slot-lt s k v)) free)
Scan-Allocates s r v (full all e) = exhausted (λ ip p. AllTaken-leased s ip v all p) e

-- On a well-formed allocator `allocate` leases one address of the pool that was free, returns it and changes no other address;
-- or all addresses of the pool are leased, and it fails and changes nothing.
pub allocate-Allocates : (s : IpAllocator) → IsValid s → Allocates s (allocate s)
allocate-Allocates s v = Scan-Allocates s (allocate s) v (allocate-Scan s v)

take_slot-IsValid : (s : IpAllocator) (i : ℕ) → IsValid s → IsValid (take_slot s i).1
unfolding take_slot
take_slot-IsValid s i v = record {
  based = v.based;
  sized = length-set s.allocated i true ∙ v.sized;
  hinted = omega (arith, v.sized);
}

pub allocate-IsValid : (s : IpAllocator) → IsValid s → IsValid (allocate s).1
allocate-IsValid s v = elim (allocate-Scan s v) [
  | found k p q free before e ↦ subst (λ r. IsValid r.1) (sym e) (take_slot-IsValid s (slot s k) v)
  | full all e ↦ subst (λ r. IsValid r.1) (sym e) v
]
