-- ===== src/Proxy/Dns/Frames.antt =====
-- The framing of messages over TCP in clawpot-server/src/proxy/dns_proxy.rs.
use clawpot.Common.{◌<◌, ◌^◌, ◌≡◌, ap, ◌++◌, length, some, Text, arith}
use clawpot.Proxy.Dns.{write_dns_message, read_dns_length}

-- What `write_dns_message` wrote of a message that is shorter than 2^16 bytes, `read_dns_length`
-- reads back: the length of the message, and behind the prefix the message and what followed it.
pub read_dns_length-write_dns_message :
    (message stream : Text)
    → length message < 2 ^ 16
    → read_dns_length (write_dns_message message ++ stream)
      ≡ some (length message, message ++ stream)
unfolding read_dns_length write_dns_message
read_dns_length-write_dns_message message stream h =
    ap (λ n. some (n, message ++ stream)) (omega (arith, h))
