-- ===== src/Network/Addr/Parse.antt =====
-- `str::parse::<IpAddr>` of the standard library, for clawpot-server/src/proxy/proxy_protocol.rs. How
-- an IPv6 address is read is left to a parameter: the server listens on IPv4 addresses.
use clawpot.Common.{
  ℕ, ◌+◌, ◌-◌, ◌*◌, ltb, leb, ◌==◌, Bool, false, ◌&&◌, ◌||◌, not, List, [], ◌∷◌, ◌++◌, length,
  Option, none, some, Text, if◌then◌else◌,
}
use clawpot.Network.Addr.{IpAddr, v4, v6, ipv4}

-- `cur` is the piece read so far.
unfoldable pub split_dot_from : (cur s : Text) → List Text
split_dot_from cur [] = cur ∷ []
split_dot_from cur (c ∷ s) =
    let next = cur ∷ split_dot_from [] s in
    let inside = split_dot_from (cur ++ c ∷ []) s in if c == b'.' then next else inside

abbrev is_digit : ℕ → Bool
is_digit c = leb 48 c && leb c 57

unfoldable pub digits_from : ℕ → Text → Option ℕ
digits_from n [] = some n
digits_from n (c ∷ s) = if is_digit c then digits_from (n * 10 + (c - 48)) s else none

abbrev starts_with_zero : Text → Bool
starts_with_zero [] = false
starts_with_zero (c ∷ s) = c == 48

abbrev below_256 : Option ℕ → Option ℕ
below_256 none = none
below_256 (some n) = if ltb n 256 then some n else none

-- One to three digits, without a leading zero.
unfoldable pub parse_octet : Text → Option ℕ
unfolding digits_from
parse_octet s =
    if length s == 0 || (ltb 3 (length s) || (starts_with_zero s && not (length s == 1)))
    then none
    else below_256 (digits_from 0 s)

abbrev pub join_octets : Option ℕ → Option ℕ → Option ℕ → Option ℕ → Option ℕ
join_octets (some a) (some b) (some c) (some d) = some (ipv4 a b c d)
join_octets _ _ _ _ = none

abbrev pub four : List Text → Option ℕ
four (a ∷ b ∷ c ∷ d ∷ []) =
    join_octets (parse_octet a) (parse_octet b) (parse_octet c) (parse_octet d)
four _ = none

unfoldable pub parse_ipv4 : Text → Option ℕ
unfolding parse_octet split_dot_from
parse_ipv4 s = four (split_dot_from [] s)

abbrev pub either : Option ℕ → Option Text → Option IpAddr
either (some ip) other = some (v4 ip)
either none (some text) = some (v6 text)
either none none = none

-- `parse_ipv6` gives the text that `Display` shows.
unfoldable pub parse_ip : (parse_ipv6 : Text → Option Text) → Text → Option IpAddr
unfolding parse_ipv4
parse_ip parse_ipv6 s = either (parse_ipv4 s) (parse_ipv6 s)
