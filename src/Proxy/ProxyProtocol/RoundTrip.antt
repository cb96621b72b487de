-- ===== src/Proxy/ProxyProtocol/RoundTrip.antt =====
-- The header written is the header read, in clawpot-server/src/proxy/proxy_protocol.rs.
use clawpot.Common.{
  All, All-append, All-imp, ℕ, ◌+◌, ◌^◌, ◌≤◌, ◌<◌, ◌==◌, false, [], ◌∷◌, ◌++◌, length, Option, Text,
  codes, text_eq, dec, split_whitespace, ok, ◌≡◌, refl, sym, ap, ◌∙◌, arith, IsInk, length-append,
  words-word, words-last,
}
use clawpot.Common.Utf8.{is_utf8-ascii}
use clawpot.Network.Addr.{v4, display}
use clawpot.Network.Addr.RoundTrip.{
  parse_ip-display, dec-IsInk, display-IsInk, length-display, length-dec_port, dec-nonempty,
  display-nonempty,
}
use clawpot.Proxy.ProxyProtocol.{
  write_proxy_header, parse_proxy_line, read_line, parsed, read_proxy_header,
}
use mathlib.Core.List.{append_assoc, append-nil}

abbrev pub NoLf : ℕ → Type 0
NoLf c = (c == 10) ≡ false

read_line-NoLf :
    (t line r : Text)
    → All NoLf t
    → length line + length t ≤ 256
    → read_line line (t ++ r) ≡ read_line (line ++ t) r
unfolding read_line
read_line-NoLf [] line r h k = ap (λ l. read_line l r) (sym (append-nil line))
read_line-NoLf (b ∷ t) line r h k =
    ground (arith, h.0, length-append line (b ∷ []))
    ∙ read_line-NoLf t (line ++ b ∷ []) r h.1 (omega (arith, length-append line (b ∷ [])))
    ∙ ap (λ l. read_line l r) (append_assoc line (b ∷ []) t)

All-blank : (P : ℕ → Type 0) → P 32 → (s t : Text) → All P s → All P t → All P (s ++ 32 ∷ t)
All-blank P blank s t h k = All-append P s (32 ∷ t) h (blank, k)

-- The header up to its line's end, for IPv4 addresses.
module _ (client server : ℕ) (client_port server_port : ℕ) where
  abbrev ports : Text → Text
  ports end = dec client_port ++ 32 ∷ (dec server_port ++ end)

  abbrev from_server : Text → Text
  from_server end = display (v4 server) ++ 32 ∷ ports end

  abbrev from_client : Text → Text
  from_client end = display (v4 client) ++ 32 ∷ from_server end

  abbrev header : Text → Text
  header end = codes "PROXY" ++ 32 ∷ (codes "TCP4" ++ 32 ∷ from_client end)

  header-append : (s t : Text) → header (s ++ t) ≡ header s ++ t
  header-append s t = simp (append_assoc)

  All-header :
      (P : ℕ → Type 0)
      → ((c : ℕ) → IsInk c → P c)
      → P 32
      → (end : Text) → All P end
      → All P (header end)
  All-header P ink blank end h =
      let all = All-imp IsInk P ink in
      let word = All-blank P blank in
      word (codes "PROXY") (codes "TCP4" ++ 32 ∷ from_client end)
        (all (codes "PROXY") (ground arith))
        (word (codes "TCP4") (from_client end) (all (codes "TCP4") (ground arith)) (
          word (display (v4 client)) (from_server end)
            (all (display (v4 client)) (display-IsInk client))
            (word (display (v4 server)) (ports end)
              (all (display (v4 server)) (display-IsInk server))
              (word (dec client_port) (dec server_port ++ end)
                (all (dec client_port) (dec-IsInk client_port))
                (All-append P (dec server_port) end (all (dec server_port) (dec-IsInk server_port))
                  h)))))

  length-header :
      client_port < 65536
      → server_port < 65536
      → (end : Text) → length (header end) ≤ length end + 54
  length-header p q end =
      let c = display (v4 client) in
      let s = display (v4 server) in
      let cp = dec client_port in
      let sp = dec server_port in
      omega (
        arith,
        length-append c (32 ∷ (s ++ 32 ∷ (cp ++ 32 ∷ (sp ++ end)))),
        length-append s (32 ∷ (cp ++ 32 ∷ (sp ++ end))),
        length-append cp (32 ∷ (sp ++ end)),
        length-append sp end,
        length-display client,
        length-display server,
        length-dec_port client_port p,
        length-dec_port server_port q,
      )

  split_whitespace-header :
      split_whitespace (header (codes "\r\n"))
      ≡ codes "PROXY"
        ∷ codes "TCP4"
        ∷ display (v4 client)
        ∷ display (v4 server)
        ∷ dec client_port
        ∷ dec server_port
        ∷ []
  unfolding split_whitespace
  split_whitespace-header =
      let end = codes "\r\n" in
      words-word (codes "PROXY") (codes "TCP4" ++ 32 ∷ from_client end) (λ e. cc) (ground arith)
      ∙ ap (λ l. codes "PROXY" ∷ l)
          (words-word (codes "TCP4") (from_client end) (λ e. cc) (ground arith)
            ∙ ap (λ l. codes "TCP4" ∷ l)
                (words-word (display (v4 client)) (from_server end) (display-nonempty client)
                    (display-IsInk client)
                  ∙ ap (λ l. display (v4 client) ∷ l)
                      (words-word (display (v4 server)) (ports end) (display-nonempty server)
                          (display-IsInk server)
                        ∙ ap (λ l. display (v4 server) ∷ l)
                            (words-word (dec client_port) (dec server_port ++ end)
                                (dec-nonempty client_port) (dec-IsInk client_port)
                              ∙ ap (λ l. dec client_port ∷ l)
                                  (words-last (dec server_port) (dec-nonempty server_port)
                                    (dec-IsInk server_port))))))

  parse_proxy_line-header :
      (parse_ipv6 : Text → Option Text)
      → client < 2 ^ 32
      → parse_proxy_line parse_ipv6 (header (codes "\r\n")) ≡ ok (v4 client)
  unfolding parse_proxy_line
  parse_proxy_line-header parse_ipv6 h =
      rw
        (
          is_utf8-ascii (header (codes "\r\n"))
              (All-header (λ c. c < 128) (λ c k. k.1) (omega arith) (codes "\r\n") (ground arith)),
          split_whitespace-header,
          parse_ip-display parse_ipv6 client h,
        )
        (unfold text_eq in refl)

  read_line-header :
      client_port < 65536
      → server_port < 65536
      → (rest : Text)
      → read_line [] (header (codes "\r\n") ++ rest) ≡ (ok (header (codes "\r\n")), rest)
  unfolding read_line
  read_line-header p q rest =
      let ended = header-append (codes "\r") (codes "\n") in
      ap (λ t. read_line [] (t ++ rest)) ended
      ∙ ap (read_line []) (append_assoc (header (codes "\r")) (codes "\n") rest)
      ∙ read_line-NoLf (header (codes "\r")) [] (10 ∷ rest)
          (All-header NoLf (λ c k. ground (arith, k.0)) refl (codes "\r") (refl, tt))
          (omega (arith, length-header p q (codes "\r")))
      ∙ ap (λ t. (ok t, rest)) (sym ended)

-- Between IPv4 addresses, the HTTP proxy reads back the address that the TLS proxy wrote, and
-- leaves the stream right behind the header.
pub read_proxy_header-write_proxy_header :
    (parse_ipv6 : Text → Option Text) (client server client_port server_port : ℕ) (rest : Text)
    → client < 2 ^ 32
    → client_port < 65536
    → server_port < 65536
    → read_proxy_header parse_ipv6 (
        write_proxy_header
          (record { ip = v4 client; port = client_port })
          (record { ip = v4 server; port = server_port })
        ++ rest)
      ≡ (ok (v4 client), rest)
unfolding read_proxy_header write_proxy_header
read_proxy_header-write_proxy_header parse_ipv6 client server client_port server_port rest h p q =
    ap (parsed parse_ipv6) (read_line-header client server client_port server_port p q rest)
    ∙ ap (λ r. (r, rest))
        (parse_proxy_line-header client server client_port server_port parse_ipv6 h)
