-- ===== src/Proxy/Dns/Total.antt =====
-- Termination of `parse_dns_question` of clawpot-server/src/proxy/dns_proxy.rs.
use clawpot.Common.{
  ℕ, zero, suc, ◌+◌, ◌<◌, ◌≤◌, ltb, leb, ◌==◌, refl, List, [], ◌∷◌, ◌++◌, length, Option, none,
  some, Text, arith,
}
use clawpot.Common.Utf8.{from_utf8_lossy}
use clawpot.Common.Bytes.{
  byte, be16, slice, Returns, byte-Returns, be16-Returns, slice-Returns, bind-Returns, if-Returns,
}
use clawpot.Proxy.Dns.{parse_labels, after_labels, parse_dns_question}

parse_labels-Returns :
    (rounds : ℕ) (packet : Text) (pos : ℕ) (labels : List Text)
    → pos ≤ length packet
    → length packet < rounds + pos
    → Returns (parse_labels rounds packet pos labels)
unfolding parse_labels
parse_labels-Returns zero packet pos labels p h = absurd (omega (arith, p, h))
parse_labels-Returns (suc rounds) packet pos labels p h =
    if-Returns (leb (length packet) pos) _ _ (λ _. (none, refl))
      λ inside. bind-Returns (byte packet pos) _ (byte-Returns packet pos (ground arith)) λ n _.
        if-Returns (n == 0) _ _ (λ _. (_, refl))
          λ more.
            if-Returns (ltb (length packet) (pos + 1 + n)) _ _ (λ _. (_, refl))
              λ fits.
                bind-Returns (slice packet (pos + 1) (pos + 1 + n)) _
                  (_, slice-Returns packet (pos + 1) (pos + 1 + n) (omega arith) (ground arith))
                  λ label _.
                    parse_labels-Returns rounds packet (pos + 1 + n)
                      (labels ++ from_utf8_lossy label ∷ []) (ground arith) (omega (arith, h))

after_labels-Returns :
    (packet : Text) (found : Option (List Text × ℕ)) → Returns (after_labels packet found)
unfolding after_labels
after_labels-Returns packet none = (_, refl)
after_labels-Returns packet (some (labels, pos)) =
    if-Returns (ltb (length packet) (pos + 2)) _ _ (λ _. (_, refl))
      λ fits.
        bind-Returns (be16 packet pos) _ (be16-Returns packet pos (ground arith)) (λ q _. (_, refl))

-- `parse_dns_question` returns on every packet, however malformed: no index is out of bounds, and
-- the loop over the labels ends.
pub parse_dns_question-Returns : (packet : Text) → Returns (parse_dns_question packet)
unfolding parse_dns_question
parse_dns_question-Returns packet =
    if-Returns (ltb (length packet) 12) _ _ (λ _. (_, refl))
      λ long. bind-Returns (be16 packet 4) _ (be16-Returns packet 4 (ground arith)) λ n _.
        if-Returns (n == 0) _ _ (λ _. (_, refl))
          λ some_question.
            bind-Returns (parse_labels (suc (length packet)) packet 12 []) _
              (parse_labels-Returns (suc (length packet)) packet 12 [] (ground arith) (omega arith))
              λ labels _. after_labels-Returns packet labels
