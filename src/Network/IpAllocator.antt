-- ===== src/Network/IpAllocator.antt =====
-- clawpot-server/src/network/ip_allocator.rs. The bitmap `BitVec` is a list of Booleans; an access
-- out of its bounds is an error of its own. `u32` arithmetic wraps, as in a release build.
pub mod Invariant
pub mod Allocate
pub mod Release
pub mod Laws
use clawpot.Common.{
  ℕ, zero, suc, ◌+◌, ◌-◌, ◌%◌, ◌^◌, Bool, true, false, ◌||◌, List, get_elem?, set, length,
  replicate, count_ones, Option, none, some, ltb, leb, if◌then◌else◌, Result, ok, err,
}
use clawpot.Network.Addr.{IpAddr, v4, v6, ipv4}

pub record IpAllocator : Type 0 where
  pub network_base : ℕ
  pub gateway : ℕ
  pub allocated : List Bool
  pub next_index : ℕ

pub data Error : Type 0 where
  no_available : Error
  ipv6_unsupported : Error
  not_in_range : Error
  out_of_range : Error
  index_out_of_bounds : Error  -- no error of the source: its `BitVec` panics

abbrev pub u32 : ℕ → ℕ
u32 n = n % 2 ^ 32

unfoldable pub new : IpAllocator
new = record {
  network_base = ipv4 192 168 100 0;
  gateway = ipv4 192 168 100 1;
  allocated = replicate 253 false;
  next_index = 0;
}

-- The branch of the loop in which slot `index` is free.
unfoldable pub take_slot : IpAllocator → ℕ → Result Error IpAddr × IpAllocator
take_slot s index = (
  ok (v4 (u32 (u32 (s.network_base + 2) + u32 index))),
  record s {
    allocated = set s.allocated index true;
    next_index = (index + 1) % length s.allocated;
  },
)

-- The rounds of `for i in 0..len` that are left, from round `i` on.
unfoldable pub allocate_from : ℕ → ℕ → IpAllocator → Result Error IpAddr × IpAllocator
allocate_from zero i s = (err no_available, s)
allocate_from (suc left) i s =
    let index = (s.next_index + i) % length s.allocated in
    elim (get_elem? s.allocated index) [
      | none ↦ (err index_out_of_bounds, s)
      | some true ↦ allocate_from left (i + 1) s
      | some false ↦ take_slot s index
    ]

unfoldable pub allocate : IpAllocator → Result Error IpAddr × IpAllocator
unfolding allocate_from take_slot
allocate s = allocate_from (length s.allocated) 0 s

-- `ip_u32 - network_base - 2` runs only where it does not go below 0.
unfoldable pub release_v4 : IpAllocator → ℕ → Result Error (Unit {0}) × IpAllocator
release_v4 s ip =
    if ltb ip (u32 (s.network_base + 2)) || ltb (u32 (s.network_base + 254)) ip
    then (err not_in_range, s)
    else (let index = ip - s.network_base - 2 in
        if leb (length s.allocated) index
        then (err out_of_range, s)
        else (ok tt, record s { allocated = set s.allocated index false }))

unfoldable pub release : IpAllocator → IpAddr → Result Error (Unit {0}) × IpAllocator
unfolding release_v4
release s (v4 ip) = release_v4 s ip
release s (v6 ip) = (err ipv6_unsupported, s)

abbrev pub allocated_count : IpAllocator → ℕ
allocated_count s = count_ones s.allocated

abbrev pub available_count : IpAllocator → ℕ
available_count s = length s.allocated - allocated_count s
