-- ===== src/Network/Addr.antt =====
-- Socket addresses of the standard library, as far as the server uses them. An IPv4 address is the
-- number that `u32::from` gives of it; an IPv6 address is the text that `Display` gives of it.
pub mod Parse
pub mod RoundTrip
use clawpot.Common.{
  ℕ, ◌+◌, ◌*◌, ◌/◌, ◌%◌, ◌^◌, Bool, false, ◌==◌, ◌≡◌, ◌↔◌, arith, Text, text_eq, text_eq_iff, dec,
  ◌++◌, ◌∷◌,
}

pub data IpAddr : Type 0 where
  v4 : ℕ → IpAddr
  v6 : Text → IpAddr

-- `u32::from(Ipv4Addr::new(a, b, c, d))`
abbrev pub ipv4 : ℕ → ℕ → ℕ → ℕ → ℕ
ipv4 a b c d = ((a * 256 + b) * 256 + c) * 256 + d

-- The derived equality.
abbrev pub ip_eq : IpAddr → IpAddr → Bool
ip_eq (v4 a) (v4 b) = a == b
ip_eq (v4 a) (v6 b) = false
ip_eq (v6 a) (v4 b) = false
ip_eq (v6 a) (v6 b) = text_eq a b

pub ip_eq_iff : (a b : IpAddr) → (ip_eq a b ≡ Bool.true) ↔ (a ≡ b)
ip_eq_iff (v4 a) (v4 b) = ground arith
ip_eq_iff (v4 a) (v6 b) = ground arith
ip_eq_iff (v6 a) (v4 b) = ground arith
ip_eq_iff (v6 a) (v6 b) = ground (arith, text_eq_iff a b)

-- Byte `k` of an IPv4 address, counted from the right.
abbrev pub octet : ℕ → ℕ → ℕ
octet k ip = ip / 256 ^ k % 256

-- `Display`
unfoldable pub display : IpAddr → Text
display (v4 ip) =
    dec (octet 3 ip)
    ++ (b'.' ∷ (dec (octet 2 ip) ++ (b'.' ∷ (dec (octet 1 ip) ++ (b'.' ∷ dec (octet 0 ip))))))
display (v6 text) = text
