-- ===== src/Proxy/ProxyProtocol/Bounds.antt =====
-- How much of a stream `read_proxy_header` of clawpot-server/src/proxy/proxy_protocol.rs takes.
use clawpot.Common.{
  All, ℕ, ◌+◌, ◌-◌, ◌≤◌, leb, ◌==◌, Bool-cases, false, inl, inr, [], ◌∷◌, ◌++◌, length, Option,
  Text, Result, ok, err, ◌≡◌, refl, ap, arith, length-append, subst, sym,
}
use clawpot.Proxy.ProxyProtocol.{Error, read_line, parsed, read_proxy_header}

-- The bytes taken: up to `room` of them that are no line feed, and at most one behind them; and the
-- bytes left.
pub record Takes (room : ℕ) (stream rest : Text) : Type 0 where
  pub body : Text
  pub last : Text
  pub splits : stream ≡ body ++ (last ++ rest)
  pub no_line_feed : All (λ c. (c == 10) ≡ false) body
  pub body_short : length body ≤ room
  pub last_short : length last ≤ 1

module _ {room : ℕ} (b : ℕ) (s : Text) where
  Takes-last : Takes room (b ∷ s) s
  Takes-last = record {
    body = [];
    last = b ∷ [];
    splits = refl;
    no_line_feed = tt;
    body_short = omega arith;
    last_short = omega arith;
  }

  Takes-cons :
      (rest : Text) (less : ℕ)
      → (b == 10) ≡ false
      → less + 1 ≤ room
      → Takes less s rest
      → Takes room (b ∷ s) rest
  Takes-cons rest less h k t = record {
    body = b ∷ t.body;
    last = t.last;
    splits = ap (λ r. b ∷ r) t.splits;
    no_line_feed = (h, t.no_line_feed);
    body_short = omega (arith, t.body_short);
    last_short = t.last_short;
  }

read_line-Takes :
    (s line : Text) (room : ℕ) → length line + room ≡ 256 → Takes room s (read_line line s).1
unfolding read_line
read_line-Takes [] line room h = record {
  body = [];
  last = [];
  splits = refl;
  no_line_feed = tt;
  body_short = omega arith;
  last_short = omega arith;
}
read_line-Takes (b ∷ s) line room h = elim (Bool-cases (b == 10)) [
  | inl e ↦ rw e (Takes-last b s)
  | inr e ↦ elim (Bool-cases (leb (length (line ++ b ∷ [])) 256)) [
    | inl k ↦
        rw (e, k)
          (Takes-cons b s (read_line (line ++ b ∷ []) s).1 (256 - length (line ++ b ∷ [])) e
            (ground (arith, k, length-append line (b ∷ [])))
            (read_line-Takes s (line ++ b ∷ []) (256 - length (line ++ b ∷ []))
              (ground (arith, k))))
    | inr k ↦ rw (e, k) (Takes-last b s)
  ]
]

parsed-rest :
    (parse_ipv6 : Text → Option Text) (out : Result Error Text × Text)
    → (parsed parse_ipv6 out).1 ≡ out.1
parsed-rest parse_ipv6 (ok line, rest) = refl
parsed-rest parse_ipv6 (err e, rest) = refl

-- Whatever arrives, `read_proxy_header` takes at most 257 bytes, none of them behind the first line
-- feed, and leaves the others in the stream as they are.
pub read_proxy_header-Takes :
    (parse_ipv6 : Text → Option Text) (stream : Text)
    → Takes 256 stream (read_proxy_header parse_ipv6 stream).1
unfolding read_proxy_header
read_proxy_header-Takes parse_ipv6 stream =
    subst (Takes 256 stream) (sym (parsed-rest parse_ipv6 (read_line [] stream)))
      (read_line-Takes stream [] 256 (omega arith))
