-- ===== src/Proxy/Dns.antt =====
-- Messages of clawpot-server/src/proxy/dns_proxy.rs: the question of a query, the refusal, and the
-- framing over TCP. A buffer is a list of bytes.
pub mod Total
pub mod Query
pub mod Decision
pub mod Tcp
pub mod Listener
pub mod Encoded
pub mod Refused
pub mod Frames
use clawpot.Common.{
  ℕ, zero, suc, ◌+◌, ◌-◌, ◌*◌, ◌/◌, ◌%◌, ◌^◌, ltb, leb, ◌==◌, Bool, List, [], ◌∷◌, ◌++◌, take, drop,
  length, Option, none, some, Text, codes, if◌then◌else◌,
}
use clawpot.Common.Utf8.{from_utf8_lossy}
use clawpot.Common.Bytes.{Run, panic, done, ◌>>=◌, byte, be16, slice}

-- The query's name and type.
abbrev pub Question : Type 0
Question = Text × Text

-- `labels.join(".")`
unfoldable pub join : List Text → Text
join [] = []
join (l ∷ []) = l
join (l ∷ m ∷ ls) = l ++ (codes "." ++ join (m ∷ ls))

unfoldable pub qtype_str : ℕ → Text
qtype_str q =
    if q == 1
    then codes "A"
    else if q == 2
    then codes "NS"
    else if q == 5
    then codes "CNAME"
    else if q == 6
    then codes "SOA"
    else if q == 15
    then codes "MX"
    else if q == 16
    then codes "TXT"
    else if q == 28
    then codes "AAAA"
    else if q == 33
    then codes "SRV"
    else if q == 255
    then codes "ANY"
    else codes "OTHER"

-- The loop over the labels, with the rounds that it may still take. It returns the labels and the
-- position behind them.
unfoldable pub parse_labels : ℕ → Text → ℕ → List Text → Run (Option (List Text × ℕ))
unfolding byte slice
parse_labels zero packet pos labels = panic
parse_labels (suc rounds) packet pos labels = if leb (length packet) pos then done none else (do
  label_len ← byte packet pos
  (if label_len == 0
      then done (some (labels, pos + 1))
      else if ltb (length packet) (pos + 1 + label_len)
      then done none
      else (do
        label ← slice packet (pos + 1) (pos + 1 + label_len)
        parse_labels rounds packet (pos + 1 + label_len) (labels ++ from_utf8_lossy label ∷ []))))

-- What follows the loop.
unfoldable pub after_labels : Text → Option (List Text × ℕ) → Run (Option Question)
unfolding join qtype_str be16
after_labels packet none = done none
after_labels packet (some (labels, pos)) =
    if ltb (length packet) (pos + 2)
    then done (some (join labels, codes "unknown"))
    else (do qtype ← be16 packet pos; done (some (join labels, qtype_str qtype)))

-- One round more than there are bytes is enough, since each round but the last takes one.
unfoldable pub parse_dns_question : Text → Run (Option Question)
unfolding parse_labels after_labels be16
parse_dns_question packet = if ltb (length packet) 12 then done none else (do
  qdcount ← be16 packet 4
  (if qdcount == 0 then done none else (do
    labels ← parse_labels (suc (length packet)) packet 12 []
    after_labels packet labels)))

-- `(b | 0x80) & 0xFD` and `(b & 0xF0) | 0x05` on a byte.
unfoldable pub mark_response : ℕ → ℕ
mark_response b = let r = (if ltb b 128 then b + 128 else b) in r - r / 2 % 2 * 2

unfoldable pub mark_refused : ℕ → ℕ
mark_refused b = b - b % 16 + 5

-- The query, which is 12 bytes at least, with its third and fourth byte changed and the next six
-- but two set to 0.
unfoldable pub build_refused_response : Text → Text
unfolding mark_response mark_refused
build_refused_response (id0 ∷ id1 ∷ f2 ∷ f3 ∷ q4 ∷ q5 ∷ _ ∷ _ ∷ _ ∷ _ ∷ _ ∷ _ ∷ rest) =
    id0 ∷ id1 ∷ mark_response f2 ∷ mark_refused f3 ∷ q4 ∷ q5 ∷ 0 ∷ 0 ∷ 0 ∷ 0 ∷ 0 ∷ 0 ∷ rest
build_refused_response _ = []

-- Writes of a length prefix and of the message behind it, without the failures of the stream.
unfoldable pub write_dns_message : Text → Text
write_dns_message message = let len = length message % 2 ^ 16 in len / 256 ∷ len % 256 ∷ message

-- A read of the prefix from what the stream still holds; `none` is the end of the stream.
unfoldable pub read_dns_length : Text → Option (ℕ × Text)
read_dns_length (hi ∷ lo ∷ stream) = some (hi * 256 + lo, stream)
read_dns_length _ = none
