-- ===== src/Network/Addr/RoundTrip.antt =====
-- `Display` of an IPv4 address and of a port, read back (clawpot-server/src/proxy/proxy_protocol.rs).
use clawpot.Common.{
  All, All-append, ℕ, zero, suc, ◌+◌, ◌*◌, ◌/◌, ◌%◌, ◌^◌, ◌≤◌, ◌<◌, ltb, ◌==◌, Bool, Bool-cases,
  true, false, ◌&&◌, [], ◌∷◌, inl, inr, ◌++◌, length, Option, none, some, Text, dec, dec_from, ◌≡◌,
  ◌≢◌, refl, sym, ap, ◌∙◌, arith, IsInk, length-append,
}
use clawpot.Network.Addr.{v4, octet, display}
use clawpot.Network.Addr.Parse.{
  split_dot_from, parse_octet, four, join_octets, parse_ipv4, parse_ip, either,
}
use mathlib.Core.List.{append_assoc, append-nil}

all_below : ℕ → (ℕ → Bool) → Bool
all_below zero p = true
all_below (suc n) p = p n && all_below n p

all_below_lem : (n : ℕ) (p : ℕ → Bool) (x : ℕ) → all_below n p ≡ true → x < n → p x ≡ true
unfolding all_below
all_below_lem zero p x h k = absurd (omega arith)
all_below_lem (suc n) p x h k = ground (arith, all_below_lem n p x)

abbrev is_some_of : ℕ → Option ℕ → Bool
is_some_of n none = false
is_some_of n (some m) = m == n

some_of : (n : ℕ) (o : Option ℕ) → is_some_of n o ≡ true → o ≡ some n
some_of n none h = cc
some_of n (some m) h = ground arith

octets_table : all_below 256 (λ n. is_some_of n (parse_octet (dec n))) ≡ true
unfolding all_below parse_octet dec
octets_table = refl

parse_octet-dec : (n : ℕ) → n < 256 → parse_octet (dec n) ≡ some n
parse_octet-dec n h =
    some_of n (parse_octet (dec n))
      (all_below_lem 256 (λ n. is_some_of n (parse_octet (dec n))) n octets_table h)

abbrev IsDigit : ℕ → Type 0
IsDigit c = (48 ≤ c) × (c ≤ 57)

dec_from-IsDigit : (fuel n : ℕ) → All IsDigit (dec_from fuel n)
unfolding dec_from
dec_from-IsDigit zero n = tt
dec_from-IsDigit (suc fuel) n = elim (Bool-cases (ltb n 10)) [
  | inl h ↦ rw h ((omega arith, ground arith), tt)
  | inr h ↦ rw h (
      All-append IsDigit (dec_from fuel (n / 10)) ((48 + n % 10) ∷ [])
        (dec_from-IsDigit fuel (n / 10)) ((omega arith, omega arith), tt))
]

pub dec-IsDigit : (n : ℕ) → All IsDigit (dec n)
unfolding dec
dec-IsDigit n = dec_from-IsDigit (suc n) n

module _ (bound k : ℕ) (short : (fuel n : ℕ) → n < bound → length (dec_from fuel n) ≤ k) where
  one_more : (fuel n : ℕ) → n < bound * 10 → length (dec_from fuel n) ≤ suc k
  unfolding dec_from
  one_more zero n h = omega arith
  one_more (suc fuel) n h =
      ground
        (arith, short fuel (n / 10), length-append (dec_from fuel (n / 10)) ((48 + n % 10) ∷ []))

one_digit : (fuel n : ℕ) → n < 10 → length (dec_from fuel n) ≤ 1
unfolding dec_from
one_digit zero n h = omega arith
one_digit (suc fuel) n h = ground arith

three_digits : (fuel n : ℕ) → n < 1000 → length (dec_from fuel n) ≤ 3
three_digits = one_more 100 2 (one_more 10 1 one_digit)

pub length-dec_octet : (n : ℕ) → n < 256 → length (dec n) ≤ 3
unfolding dec
length-dec_octet n h = three_digits (suc n) n (omega arith)

pub length-dec_port : (n : ℕ) → n < 65536 → length (dec n) ≤ 5
unfolding dec
length-dec_port n h = one_more 10000 4 (one_more 1000 3 three_digits) (suc n) n (omega arith)

split-digit :
    (c : ℕ) (cur r : Text)
    → IsDigit c
    → split_dot_from cur (c ∷ r) ≡ split_dot_from (cur ++ c ∷ []) r
unfolding split_dot_from
split-digit c cur r h = ground arith

split-IsDigit :
    (t cur r : Text) → All IsDigit t → split_dot_from cur (t ++ r) ≡ split_dot_from (cur ++ t) r
split-IsDigit [] cur r h = ap (λ s. split_dot_from s r) (sym (append-nil cur))
split-IsDigit (c ∷ t) cur r h =
    split-digit c cur (t ++ r) h.0
    ∙ split-IsDigit t (cur ++ c ∷ []) r h.1
    ∙ ap (λ s. split_dot_from s r) (append_assoc cur (c ∷ []) t)

split-dec : (n : ℕ) (r : Text) → split_dot_from [] (dec n ++ b'.' ∷ r) ≡ dec n ∷ split_dot_from [] r
unfolding split_dot_from
split-dec n r = split-IsDigit (dec n) [] (b'.' ∷ r) (dec-IsDigit n)

split-dec_last : (n : ℕ) → split_dot_from [] (dec n) ≡ dec n ∷ []
unfolding split_dot_from
split-dec_last n =
    ap (split_dot_from []) (sym (append-nil (dec n))) ∙ split-IsDigit (dec n) [] [] (dec-IsDigit n)

split-display :
    (ip : ℕ)
    → split_dot_from [] (display (v4 ip))
      ≡ dec (octet 3 ip) ∷ dec (octet 2 ip) ∷ dec (octet 1 ip) ∷ dec (octet 0 ip) ∷ []
unfolding display
split-display ip =
    split-dec (octet 3 ip) _
    ∙ ap (λ l. dec (octet 3 ip) ∷ l)
        (split-dec (octet 2 ip) _
          ∙ ap (λ l. dec (octet 2 ip) ∷ l)
              (split-dec (octet 1 ip) _
                ∙ ap (λ l. dec (octet 1 ip) ∷ l) (split-dec_last (octet 0 ip))))

join_octets-octet :
    (ip : ℕ)
    → ip < 2 ^ 32
    → join_octets (some (octet 3 ip)) (some (octet 2 ip)) (some (octet 1 ip)) (some (octet 0 ip))
      ≡ some ip
join_octets-octet ip h = ap some (omega arith)

pub parse_ipv4-display : (ip : ℕ) → ip < 2 ^ 32 → parse_ipv4 (display (v4 ip)) ≡ some ip
unfolding parse_ipv4
parse_ipv4-display ip h =
    ap four (split-display ip)
    ∙ rw
        (
          parse_octet-dec (octet 3 ip) (omega arith),
          parse_octet-dec (octet 2 ip) (omega arith),
          parse_octet-dec (octet 1 ip) (omega arith),
          parse_octet-dec (octet 0 ip) (omega arith),
        )
        (join_octets-octet ip h)

pub parse_ip-display :
    (parse_ipv6 : Text → Option Text) (ip : ℕ)
    → ip < 2 ^ 32
    → parse_ip parse_ipv6 (display (v4 ip)) ≡ some (v4 ip)
unfolding parse_ip
parse_ip-display parse_ipv6 ip h =
    ap (λ o. either o (parse_ipv6 (display (v4 ip)))) (parse_ipv4-display ip h)

digit-IsInk : (t : Text) → All IsDigit t → All IsInk t
digit-IsInk [] h = tt
digit-IsInk (c ∷ t) h = ((ground arith, omega arith), digit-IsInk t h.1)

pub dec-IsInk : (n : ℕ) → All IsInk (dec n)
dec-IsInk n = digit-IsInk (dec n) (dec-IsDigit n)

dot-IsInk : (n : ℕ) (t : Text) → All IsInk t → All IsInk (dec n ++ b'.' ∷ t)
dot-IsInk n t h = All-append IsInk (dec n) (b'.' ∷ t) (dec-IsInk n) ((refl, omega arith), h)

pub display-IsInk : (ip : ℕ) → All IsInk (display (v4 ip))
unfolding display
display-IsInk ip =
    dot-IsInk (octet 3 ip) _
      (dot-IsInk (octet 2 ip) _ (dot-IsInk (octet 1 ip) _ (dec-IsInk (octet 0 ip))))

-- Four octets of three digits, and three dots.
pub length-display : (ip : ℕ) → length (display (v4 ip)) ≤ 15
unfolding display
length-display ip =
    let a = dec (octet 3 ip) in
    let b = dec (octet 2 ip) in
    let c = dec (octet 1 ip) in
    let d = dec (octet 0 ip) in
    omega (
      arith,
      length-append a (b'.' ∷ (b ++ b'.' ∷ (c ++ b'.' ∷ d))),
      length-append b (b'.' ∷ (c ++ b'.' ∷ d)),
      length-append c (b'.' ∷ d),
      length-dec_octet (octet 3 ip) (omega arith),
      length-dec_octet (octet 2 ip) (omega arith),
      length-dec_octet (octet 1 ip) (omega arith),
      length-dec_octet (octet 0 ip) (omega arith),
    )

append-nonempty : (s : Text) (c : ℕ) (t : Text) → s ++ c ∷ t ≢ []
append-nonempty [] c t h = cc
append-nonempty (x ∷ s) c t h = cc

pub dec-nonempty : (n : ℕ) → dec n ≢ []
unfolding dec dec_from
dec-nonempty n = elim (Bool-cases (ltb n 10)) [
  | inl h ↦ rw h (λ e. cc)
  | inr h ↦ rw h (append-nonempty (dec_from n (n / 10)) (48 + n % 10) [])
]

pub display-nonempty : (ip : ℕ) → display (v4 ip) ≢ []
unfolding display
display-nonempty ip = append-nonempty (dec (octet 3 ip)) b'.' _
