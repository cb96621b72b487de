-- ===== src/Proxy/Tls/Forwarded.antt =====
-- Through the TLS proxy of clawpot-server/src/proxy/tls_mitm.rs, a VM's request reaches the HTTP proxy
-- as one from the VM.
use clawpot.Common.{
  ℕ, ◌≡◌, ◌≢◌, refl, ap, subst, ◌<◌, ◌^◌, Bool-cases, inl, inr, true, false, [], ◌∷◌, ◌++◌, take,
  Option, none, some, Text, Result, ok, err, arith,
}
use clawpot.Common.Bytes.{Run, panic, done, ◌>>=◌}
use clawpot.Network.Addr.{IpAddr, v4}
use clawpot.Proxy.Ca.{Rcgen, CachedCert, CertificateAuthority, get_or_create_cert}
use clawpot.Proxy.Ca
use clawpot.Proxy.Ca.Cache.{IsIssued, IsValid, get_or_create_cert-Serves}
use clawpot.Proxy.ProxyProtocol.{SocketAddr, write_proxy_header}
use clawpot.Proxy.Sni.{extract_sni}
use clawpot.Proxy.Http.{Request, World, Log}
use clawpot.Proxy.Http.Connection.{serve_connection, serve_connection-write_proxy_header}
use clawpot.Proxy.Tls.{
  Socket, Tunnel, server_addr, Outcome, unwrap_or_default, accepted, issued, named, peeked,
  handle_connection,
}

module _ (rcgen : Rcgen) (socket : Socket) (ip port : ℕ) where
  abbrev client : SocketAddr
  client = record { ip = v4 ip; port = port }

  -- The tunnel that a connection ends in.
  pub record Tunnels (ca : CertificateAuthority rcgen) (t : Tunnel) : Type 0 where
    pub hello : Text
    pub plain : Text
    pub peeked : socket.peek ≡ some hello
    pub sni_read : extract_sni (take 4096 hello) ≡ done (some t.sni)
    pub sni_given : t.sni ≢ []
    pub cert_shown : socket.accept t.cert ≡ some plain
    pub cert_issued : IsIssued rcgen ca.ca_cert ca.ca_key t.sni t.cert
    pub forwarded :
        (w : World) (parse_ipv6 : Text → Option Text) (read_request : Text → Option Request)
        (peer : IpAddr) (log : Log)
        → serve_connection w parse_ipv6 read_request true peer t.sent log
          ≡ serve_connection w parse_ipv6 read_request false (v4 ip) plain log

  module _ (ca' : CertificateAuthority rcgen) (t : Tunnel) (hello : Text)
      (peek : socket.peek ≡ some hello) (ip_lt : ip < 2 ^ 32) (port_lt : port < 65536) where
    from_accepted :
        (sni : Text) (cert : CachedCert) (o : Option Text) (ca : CertificateAuthority rcgen)
        → extract_sni (take 4096 hello) ≡ done (some sni)
        → sni ≢ []
        → socket.accept cert ≡ o
        → IsIssued rcgen ca.ca_cert ca.ca_key sni cert
        → accepted rcgen socket client sni cert o ca ≡ (ok t, ca')
        → Tunnels ca' t
    from_accepted sni cert none ca read given shown issued h = absurd (cc)
    from_accepted sni cert (some plain) ca read given shown issued h =
        elim (Bool-cases socket.connects) [
          | inr j ↦ absurd (cc (rw j at h))
          | inl j ↦ elim (Bool-cases socket.write) [
            | inr k ↦ absurd (cc (rw (j, k) at h))
            | inl k ↦
                let made : Tunnel = record {
                  sni = sni;
                  cert = cert;
                  sent = write_proxy_header client server_addr ++ plain;
                } in
                let whole : ◌≡◌ {A = Outcome rcgen socket client} (ok made, ca) (ok t, ca') =
                  rw (j, k) at h in
                let same : made ≡ t = cc whole in
                let kept : ca ≡ ca' = ap (λ o. o.1) whole in
                subst (λ c. Tunnels c t) kept
                  (subst (Tunnels ca) same (record {
                    hello = hello;
                    plain = plain;
                    peeked = peek;
                    sni_read = read;
                    sni_given = given;
                    cert_shown = shown;
                    cert_issued = issued;
                    forwarded = λ w parse_ipv6 read_request peer log.
                        serve_connection-write_proxy_header w parse_ipv6 read_request peer ip 0 port
                          10443 plain log ip_lt port_lt (omega arith);
                  }))
          ]
        ]

    from_issued :
        (sni : Text) (out : Result Ca.Error CachedCert × CertificateAuthority rcgen)
        → extract_sni (take 4096 hello) ≡ done (some sni)
        → sni ≢ []
        → ((c : CachedCert) → out.0 ≡ ok c → IsIssued rcgen out.1.ca_cert out.1.ca_key sni c)
        → issued rcgen socket client sni out ≡ (ok t, ca')
        → Tunnels ca' t
    from_issued sni (err e, ca) read given serves h = absurd (cc)
    from_issued sni (ok cert, ca) read given serves h =
        elim (Bool-cases (socket.config_ok cert.cert_pem cert.key_pem ca.ca_cert_pem)) [
          | inl j ↦
              from_accepted sni cert (socket.accept cert) ca read given refl (serves cert refl)
                (rw j at h)
          | inr j ↦ absurd (cc (rw j at h))
        ]

    from_sni :
        (sni : Option Text) (ca : CertificateAuthority rcgen)
        → IsValid rcgen ca
        → extract_sni (take 4096 hello) ≡ done sni
        → named rcgen socket client (unwrap_or_default sni) ca ≡ (ok t, ca')
        → Tunnels ca' t
    from_sni none ca v read h = absurd (cc)
    from_sni (some []) ca v read h = absurd (cc)
    from_sni (some (c ∷ sni)) ca v read h =
        from_issued (c ∷ sni) (get_or_create_cert rcgen (c ∷ sni) ca) read (λ e. cc)
          (λ cert e. ((get_or_create_cert-Serves rcgen (c ∷ sni) ca v).1 cert e).0) h

    from_hello :
        (r : Run (Option Text)) (ca : CertificateAuthority rcgen)
        → IsValid rcgen ca
        → extract_sni (take 4096 hello) ≡ r
        → (r >>= λ sni. done (named rcgen socket client (unwrap_or_default sni) ca))
          ≡ done (ok t, ca')
        → Tunnels ca' t
    from_hello panic ca v read h = absurd (cc)
    from_hello (done sni) ca v read h = from_sni sni ca v read (cc)

  from_peek :
      (o : Option Text) (ca ca' : CertificateAuthority rcgen) (t : Tunnel)
      → socket.peek ≡ o
      → ip < 2 ^ 32
      → port < 65536
      → IsValid rcgen ca
      → peeked rcgen socket client o ca ≡ done (ok t, ca')
      → Tunnels ca' t
  from_peek none ca ca' t peek p q v h = absurd (cc)
  from_peek (some hello) ca ca' t peek p q v h =
      from_hello ca' t hello peek p q (extract_sni (take 4096 hello)) ca v refl h

  -- A TLS connection from an IPv4 address that ends in a tunnel showed a certificate that this
  -- authority issued for the server name of its ClientHello, which is not empty; and the HTTP proxy
  -- serves what the tunnel sends as the decrypted stream of a connection from that address.
  pub handle_connection-Tunnels :
      (ca ca' : CertificateAuthority rcgen) (t : Tunnel)
      → ip < 2 ^ 32
      → port < 65536
      → IsValid rcgen ca
      → handle_connection rcgen socket client ca ≡ done (ok t, ca')
      → Tunnels ca' t
  unfolding handle_connection
  handle_connection-Tunnels ca ca' t p q v h = from_peek socket.peek ca ca' t refl p q v h
