-- ===== src/Grpc/Interleaved/Safe.antt =====
-- The invariant of the shared state under interleaved handlers of
-- clawpot-server/src/grpc/service.rs.
use clawpot.Common.{
  true, false, ◌||◌, ◌≡◌, refl, sym, ap, ◌∙◌, subst, List, [], ◌∷◌, Option, none, some, ok, err,
  if◌then◌else◌, arith, inl, inr, Option-cases, Bool-cases,
}
use clawpot.Network.Addr.{IpAddr, ip_eq, ip_eq_iff}
use clawpot.Network.IpAllocator.{IpAllocator, allocate, release}
use clawpot.Network.IpAllocator
use clawpot.Network.IpAllocator.Invariant.{leased, new-IsValid, leased-new}
use clawpot.Network.IpAllocator.Invariant
use clawpot.Network.IpAllocator.Allocate.{allocate-Allocates, allocate-IsValid, leases, exhausted}
use clawpot.Network.IpAllocator.Release.{release-IsValid}
use clawpot.Vm.Registry.{
  VmId, VmEntry, VmRegistry, insert, remove, lookup, find_by_ip, is_some, erase,
}
use clawpot.Vm.Registry
use clawpot.Vm.Registry.Laws.{find-erase, find-lookup, erase-IsValid, find_by_ip_iff}
use clawpot.Vm.Registry.Laws
use clawpot.Grpc.Invariant.{allocated-leased, released-leased, erase-none}
use clawpot.Grpc.Interleaved.{
  Shared, server_start, holds, give_up, Step, Reachable, begin, and_then,
}
use clawpot.Grpc.Interleaved

abbrev pub NoDup : List IpAddr → Type 0
NoDup [] = Unit {0}
NoDup (x ∷ xs) = (holds x xs ≡ false) × NoDup xs

-- The leased addresses are those of registered VMs and those in hand, and no address is both, or in
-- two hands.
pub record Inv (s : Shared) : Type 0 where
  pub pool : Invariant.IsValid s.pool
  pub registry : Laws.IsValid s.vms
  pub distinct : NoDup s.held
  pub accounts : (a : IpAddr) → leased s.pool a ≡ (is_some (find_by_ip s.vms a) || holds a s.held)
  pub apart : (a : IpAddr) → holds a s.held ≡ true → find_by_ip s.vms a ≡ none

holds-give_up :
    (xs : List IpAddr) (x a : IpAddr)
    → NoDup xs
    → holds x xs ≡ true
    → holds a (give_up x xs) ≡ (if ip_eq x a then false else holds a xs)
unfolding holds give_up
holds-give_up [] x a d h = cc
holds-give_up (y ∷ ys) x a d h =
    ground (arith, holds-give_up ys x a d.1, d.0, ip_eq_iff y x, ip_eq_iff y a, ip_eq_iff x a)

holds-sub : (xs : List IpAddr) (x a : IpAddr) → holds a xs ≡ false → holds a (give_up x xs) ≡ false
unfolding holds give_up
holds-sub [] x a h = refl
holds-sub (y ∷ ys) x a h = ground (arith, holds-sub ys x a)

give_up-NoDup : (xs : List IpAddr) (x : IpAddr) → NoDup xs → NoDup (give_up x xs)
unfolding give_up
give_up-NoDup [] x d = d
give_up-NoDup (y ∷ ys) x d = elim (Bool-cases (ip_eq y x)) [
  | inl hit ↦ rw hit d.1
  | inr miss ↦ rw miss (holds-sub ys x y d.0, give_up-NoDup ys x d.1)
]

find_none : (o : Option VmId) → is_some o ≡ false → o ≡ none
find_none none h = refl
find_none (some id) h = cc

allocate_step-Inv :
    (s : Shared) (ip : IpAddr)
    → Inv s
    → (allocate s.pool).0 ≡ ok ip
    → Inv (record s { pool = (allocate s.pool).1; held = ip ∷ s.held })
allocate_step-Inv s ip inv got =
    let (free, _) = allocated-leased s.pool ip ip inv.pool got in
    let out : holds ip s.held ≡ false = ground (arith, free, inv.accounts ip) in
    let gone : find_by_ip s.vms ip ≡ none = find_none _ (ground (arith, free, inv.accounts ip)) in
    record {
      pool = allocate-IsValid s.pool inv.pool;
      registry = inv.registry;
      distinct = (out, inv.distinct);
      accounts = λ a.
          unfold holds in
          ground (
            arith,
            (allocated-leased s.pool ip a inv.pool got).1,
            inv.accounts a,
            ip_eq_iff a ip,
            ip_eq_iff ip a,
          );
      apart = λ a h. unfold holds in ground (arith, inv.apart a, ip_eq_iff ip a, gone, h);
    }

release_step-Inv :
    (s : Shared) (ip : IpAddr)
    → Inv s
    → holds ip s.held ≡ true
    → Inv (record s { pool = (release s.pool ip).1; held = give_up ip s.held })
release_step-Inv s ip inv has =
    let gone = inv.apart ip has in
    let held : leased s.pool ip ≡ true = ground (arith, inv.accounts ip, has, gone) in
    record {
      pool = release-IsValid s.pool ip inv.pool;
      registry = inv.registry;
      distinct = give_up-NoDup s.held ip inv.distinct;
      accounts = λ a. ground (
        arith,
        released-leased s.pool ip a inv.pool held,
        inv.accounts a,
        holds-give_up s.held ip a inv.distinct has,
        gone,
        ip_eq_iff a ip,
        ip_eq_iff ip a,
      );
      apart = λ a h. ground (arith, inv.apart a, holds-give_up s.held ip a inv.distinct has, h);
    }

insert_step-Inv :
    (s : Shared) (id : VmId) (e : VmEntry)
    → Inv s
    → e.id ≡ id
    → holds e.ip_address s.held ≡ true
    → lookup id s.vms ≡ none
    → Inv (record s { vms = (id, e) ∷ s.vms; held = give_up e.ip_address s.held })
insert_step-Inv s id e inv own has fresh =
    let ip = e.ip_address in
    record {
      pool = inv.pool;
      registry = (own, fresh, inv.apart ip has, inv.registry);
      distinct = give_up-NoDup s.held ip inv.distinct;
      accounts = λ a.
          unfold find_by_ip in
          ground (
            arith,
            inv.accounts a,
            holds-give_up s.held ip a inv.distinct has,
            has,
            ip_eq_iff ip a,
          );
      apart = λ a h.
          unfold find_by_ip in
          ground (arith, inv.apart a, holds-give_up s.held ip a inv.distinct has, h);
    }

remove_step-Inv :
    (s : Shared) (id : VmId) (e : VmEntry)
    → Inv s
    → lookup id s.vms ≡ some e
    → Inv (record s { vms = erase id s.vms; held = e.ip_address ∷ s.held })
remove_step-Inv s id e inv here =
    let ip = e.ip_address in
    let there = find-lookup s.vms id e here in
    let out : holds ip s.held ≡ false = ground (arith, inv.apart ip, there) in
    record {
      pool = inv.pool;
      registry = erase-IsValid s.vms id inv.registry;
      distinct = (out, inv.distinct);
      accounts = λ a.
          unfold holds in
          ground (
            arith,
            inv.accounts a,
            find-erase s.vms id e a inv.registry here,
            there,
            ip_eq_iff a ip,
            ip_eq_iff ip a,
          );
      apart = λ a h.
          unfold holds in
          ground (
            arith,
            inv.apart a,
            find-erase s.vms id e a inv.registry here,
            ip_eq_iff a ip,
            ip_eq_iff ip a,
            h,
          );
    }

start-Inv : Inv server_start
unfolding server_start
start-Inv = record {
  pool = new-IsValid;
  registry = tt;
  distinct = tt;
  accounts = λ a. leased-new a ∙ (unfold find_by_ip in unfold holds in refl);
  apart = λ a h. unfold find_by_ip in refl;
}

-- An allocation that fails, and an insertion or a removal that fails, change nothing.
exhausted-pool :
    (s : Shared) (e : IpAllocator.Error)
    → Inv s
    → (allocate s.pool).0 ≡ err e
    → (allocate s.pool).1 ≡ s.pool
exhausted-pool s e inv h = elim (allocate-Allocates s.pool inv.pool) [
  | leases ip p free got view count ↦ cc
  | exhausted all same ↦ ap (λ r. r.1) same
]

inserted-fresh :
    (vms : VmRegistry) (id : VmId) (e : VmEntry)
    → (insert vms id e).0 ≡ ok tt
    → (lookup id vms ≡ none) × ((insert vms id e).1 ≡ (id, e) ∷ vms)
unfolding insert
inserted-fresh vms id e h = elim (Option-cases (lookup id vms)) [
  | inl missing ↦ (missing, rw missing refl)
  | inr (x, here) ↦ absurd (ground arith)
]

not_inserted-same :
    (vms : VmRegistry) (id : VmId) (e : VmEntry) (x : Registry.Error)
    → (insert vms id e).0 ≡ err x
    → (insert vms id e).1 ≡ vms
unfolding insert
not_inserted-same vms id e x h = ground arith

remove-lookup :
    (vms : VmRegistry) (id : VmId) (e : VmEntry)
    → (remove vms id).0 ≡ ok e
    → (lookup id vms ≡ some e) × ((remove vms id).1 ≡ erase id vms)
unfolding remove
remove-lookup vms id e h = elim (Option-cases (lookup id vms)) [
  | inl missing ↦ absurd (ground arith)
  | inr (x, here) ↦ (ground arith, refl)
]

remove-missing :
    (vms : VmRegistry) (id : VmId) (x : Registry.Error)
    → (remove vms id).0 ≡ err x
    → (remove vms id).1 ≡ vms
unfolding remove
remove-missing vms id x h = elim (Option-cases (lookup id vms)) [
  | inl missing ↦ erase-none vms id missing
  | inr (e, here) ↦ absurd (ground arith)
]

Step-Inv : (s t : Shared) → Step s t → Inv s → Inv t
Step-Inv s t (Interleaved.allocated s' ip got) inv = allocate_step-Inv s ip inv got
Step-Inv s t (Interleaved.exhausted s' e h) inv =
    subst (λ p. Inv (record s { pool = p })) (sym (exhausted-pool s e inv h)) inv
Step-Inv s t (Interleaved.released s' ip has) inv = release_step-Inv s ip inv has
Step-Inv s t (Interleaved.inserted s' id e own has done) inv =
    let (fresh, same) = inserted-fresh s.vms id e done in
    subst (λ v. Inv (record s { vms = v; held = give_up e.ip_address s.held })) (sym same)
      (insert_step-Inv s id e inv own has fresh)
Step-Inv s t (Interleaved.not_inserted s' id e x h) inv =
    subst (λ v. Inv (record s { vms = v })) (sym (not_inserted-same s.vms id e x h)) inv
Step-Inv s t (Interleaved.removed s' id e h) inv =
    let (here, same) = remove-lookup s.vms id e h in
    subst (λ v. Inv (record s { vms = v; held = e.ip_address ∷ s.held })) (sym same)
      (remove_step-Inv s id e inv here)
Step-Inv s t (Interleaved.not_found s' id x h) inv =
    subst (λ v. Inv (record s { vms = v })) (sym (remove-missing s.vms id x h)) inv

pub Reachable-Inv : (s : Shared) → Reachable s → Inv s
Reachable-Inv s begin = start-Inv
Reachable-Inv s (and_then r s' past step) = Step-Inv r s step (Reachable-Inv r past)

-- What the handlers rely on.
pub record Safe (s : Shared) : Type 0 where
  pub one_owner :
      (i j : VmId) (e f : VmEntry)
      → lookup i s.vms ≡ some e
      → lookup j s.vms ≡ some f
      → e.ip_address ≡ f.ip_address
      → i ≡ j
  pub fresh_address :
      (ip : IpAddr)
      → (allocate s.pool).0 ≡ ok ip
      → (find_by_ip s.vms ip ≡ none) × (holds ip s.held ≡ false)
  pub no_loss :
      (a : IpAddr)
      → leased s.pool a ≡ true
      → (is_some (find_by_ip s.vms a) || holds a s.held) ≡ true

-- Whatever the order in which handlers take their turns, from the server's start on: no two
-- registered VMs have the same address, an address that `allocate` returns is neither a VM's nor in
-- the hands of another handler, and every leased address is a VM's or in a handler's hands.
pub Reachable-Safe : (s : Shared) → Reachable s → Safe s
Reachable-Safe s r =
    let inv = Reachable-Inv s r in
    record {
      one_owner = λ i j e f at_i at_j same.
          let find_i = (find_by_ip_iff s.vms e.ip_address i inv.registry).1 (e, at_i, refl) in
          let find_j = (find_by_ip_iff s.vms e.ip_address j inv.registry).1 (f, at_j, sym same) in
          cc;
      fresh_address = λ ip got.
          let (free, _) = allocated-leased s.pool ip ip inv.pool got in
          (
            find_none _ (ground (arith, free, inv.accounts ip)),
            ground (arith, free, inv.accounts ip),
          );
      no_loss = λ a h. sym (inv.accounts a) ∙ h;
    }
