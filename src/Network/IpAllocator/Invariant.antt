-- ===== src/Network/IpAllocator/Invariant.antt =====
-- What holds of every allocator that the server can reach, and the abstract view of it: which of
-- the addresses are leased.
use clawpot.Common.{
  get_elem?-replicate, ap, sym, ◌∙◌, List, if◌then◌else◌, ◌==◌, ==_refl, ℕ_discrete, subst,
  get_elem?-set_self, get_elem?-set_ne, ℕ, ◌+◌, ◌-◌, ◌<◌, ◌≤◌, ◌≡◌, refl, Bool, true, false, ◌&&◌,
  leb, Option, none, some, get_elem?, set, length, arith, get_elem?_total,
}
use clawpot.Network.Addr.{ip_eq, IpAddr, v4, v6, ipv4}
use clawpot.Network.IpAllocator.{IpAllocator, new}

pub record IsValid (s : IpAllocator) : Type 0 where
  pub based : s.network_base ≡ ipv4 192 168 100 0
  pub sized : length s.allocated ≡ 253
  pub hinted : s.next_index < 253

pub new-IsValid : IsValid new
unfolding new
new-IsValid = record { based = refl; sized = refl; hinted = omega arith }

-- The addresses 192.168.100.2 to 192.168.100.254.
abbrev pub first_ip : ℕ
first_ip = ipv4 192 168 100 2

abbrev pub last_ip : ℕ
last_ip = ipv4 192 168 100 254

-- Whether bit `index` is set, false outside the bitmap.
abbrev pub bit_of : Option Bool → Bool
bit_of none = false
bit_of (some b) = b

-- The address that slot `index` stands for is leased.
abbrev pub leased_slot : IpAllocator → ℕ → Bool
leased_slot s index = bit_of (get_elem? s.allocated index)

abbrev pub InPool : ℕ → Type 0
InPool ip = (first_ip ≤ ip) × (ip ≤ last_ip)

abbrev pub in_pool : ℕ → Bool
in_pool ip = leb first_ip ip && leb ip last_ip

-- The abstract view: is this address leased?
pub leased : IpAllocator → IpAddr → Bool
leased s (v4 ip) = in_pool ip && leased_slot s (ip - first_ip)
leased s (v6 ip) = false

bit-set :
    (bs : List Bool) (i j : ℕ) (b : Bool)
    → i < length bs
    → bit_of (get_elem? (set bs i b) j) ≡ (if i == j then b else bit_of (get_elem? bs j))
bit-set bs i j b h = elim (ℕ_discrete i j) [
  | yes e ↦
      subst
        (λ k. bit_of (get_elem? (set bs i b) k) ≡ (if i == k then b else bit_of (get_elem? bs k))) e
        (rw (get_elem?-set_self bs i b h) (rw (==_refl i)))
  | no d ↦ rw (get_elem?-set_ne bs i j b d) (ground arith)
]

-- Writing one slot changes the view at the address of that slot only.
pub leased-set :
    (s : IpAllocator) (i n : ℕ) (b : Bool) (a : IpAddr)
    → IsValid s
    → i < 253
    → leased (record s { allocated = set s.allocated i b; next_index = n }) a
      ≡ (if ip_eq a (v4 (first_ip + i)) then b else leased s a)
unfolding leased
leased-set s i n b (v4 ip) v h =
    ground (arith, bit-set s.allocated i (ip - first_ip) b (omega (arith, v.sized)))
leased-set s i n b (v6 ip) v h = refl

pub leased-slot :
    (s : IpAllocator) (i : ℕ) (b : Bool)
    → i < 253
    → get_elem? s.allocated i ≡ some b
    → leased s (v4 (first_ip + i)) ≡ b
unfolding leased
leased-slot s i b h e =
    let k : first_ip + i - first_ip ≡ i = omega arith in rw k (rw e (ground arith))

pub get_elem?-leased :
    (s : IpAllocator) (i : ℕ)
    → IsValid s
    → i < 253
    → leased s (v4 (first_ip + i)) ≡ true
    → get_elem? s.allocated i ≡ some true
get_elem?-leased s i v h l =
    let (b, e) = get_elem?_total s.allocated i (omega (arith, v.sized)) in
    e ∙ ap some (sym (leased-slot s i b h e) ∙ l)

-- Only addresses of the pool are ever leased.
pub leased-InPool :
    (s : IpAllocator) (a : IpAddr) → leased s a ≡ true → (ip : ℕ) × (a ≡ v4 ip) × InPool ip
unfolding leased
leased-InPool s (v4 ip) h = (ip, refl, ground arith)
leased-InPool s (v6 text) h = cc

pub leased-new : (a : IpAddr) → leased new a ≡ false
unfolding leased new
leased-new (v4 ip) =
    ground (arith, λ (h : ip - first_ip < 253). get_elem?-replicate 253 (ip - first_ip) false h)
leased-new (v6 text) = refl
