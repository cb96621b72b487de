-- ===== src/Proxy/ProxyProtocol.antt =====
-- The PROXY protocol header of clawpot-server/src/proxy/proxy_protocol.rs, by which the TLS proxy
-- tells the HTTP proxy the address of its client. A stream is the list of the bytes that arrive
-- before it ends or fails.
pub mod RoundTrip
pub mod Bounds
use clawpot.Common.{
  ℕ, leb, ◌==◌, Bool, true, false, not, List, [], ◌∷◌, ◌++◌, length, Option, none, some, Text,
  codes, text_eq, dec, split_whitespace, Result, ok, err, if◌then◌else◌,
}
use clawpot.Common.Utf8.{is_utf8}
use clawpot.Network.Addr.{IpAddr, display}
use clawpot.Network.Addr.Parse.{parse_ip}

pub record SocketAddr : Type 0 where
  pub ip : IpAddr
  pub port : ℕ  -- u16

pub data Error : Type 0 where
  read_failed too_long not_utf8 invalid_header invalid_ip : Error

abbrev blank : Text → Text
blank t = b' ' ∷ t

-- The line that is written.
unfoldable pub write_proxy_header : (client server : SocketAddr) → Text
write_proxy_header client server =
    codes "PROXY"
    ++ blank (
        codes "TCP4"
        ++ blank (
            display client.ip
            ++ blank (
                display server.ip
                ++ blank (dec client.port ++ blank (dec server.port ++ codes "\r\n")))))

abbrev address : Option IpAddr → Result Error IpAddr
address none = err invalid_ip
address (some ip) = ok ip

abbrev from_parts : (Text → Option Text) → List Text → Result Error IpAddr
from_parts parse_ipv6 (proxy ∷ family ∷ src ∷ dst ∷ src_port ∷ dst_port ∷ []) =
    if text_eq proxy (codes "PROXY") then address (parse_ip parse_ipv6 src) else err invalid_header
from_parts parse_ipv6 _ = err invalid_header

unfoldable pub parse_proxy_line : (parse_ipv6 : Text → Option Text) → Text → Result Error IpAddr
unfolding parse_ip split_whitespace is_utf8 text_eq
parse_proxy_line parse_ipv6 line =
    if is_utf8 line then from_parts parse_ipv6 (split_whitespace line) else err not_utf8

-- The loop: the line, and the bytes that are left in the stream.
unfoldable pub read_line : (line stream : Text) → Result Error Text × Text
read_line line [] = (err read_failed, [])
read_line line (b ∷ s) =
    let line' = line ++ b ∷ [] in
    let more = read_line line' s in
    if b == b'\n' then (ok line', s) else if leb (length line') 256 then more else (err too_long, s)

abbrev pub parsed : (Text → Option Text) → Result Error Text × Text → Result Error IpAddr × Text
parsed parse_ipv6 (ok line, rest) = (parse_proxy_line parse_ipv6 line, rest)
parsed parse_ipv6 (err e, rest) = (err e, rest)

unfoldable pub read_proxy_header :
    (parse_ipv6 : Text → Option Text) → Text → Result Error IpAddr × Text
unfolding read_line parse_proxy_line
read_proxy_header parse_ipv6 stream = parsed parse_ipv6 (read_line [] stream)
