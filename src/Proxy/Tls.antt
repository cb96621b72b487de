-- ===== src/Proxy/Tls.antt =====
-- `handle_connection` of clawpot-server/src/proxy/tls_mitm.rs: a TLS connection of a VM, from the
-- ClientHello to the tunnel to the HTTP proxy. The socket and the crate rustls are a parameter.
pub mod Forwarded
use clawpot.Common.{
  ℕ, Bool, true, false, not, List, [], ◌∷◌, ◌++◌, take, Option, none, some, Text, Result, ok, err,
  if◌then◌else◌,
}
use clawpot.Common.Bytes.{Run, panic, done, ◌>>=◌}
use clawpot.Network.Addr.{v4, ipv4}
use clawpot.Proxy.Ca.{Rcgen, CachedCert, CertificateAuthority, get_or_create_cert}
use clawpot.Proxy.Ca
use clawpot.Proxy.ProxyProtocol.{SocketAddr, write_proxy_header}
use clawpot.Proxy.Sni.{extract_sni}

pub record Socket : Type 0 where
  -- the bytes that have arrived, if `peek` succeeds; it returns 4096 of them at most
  pub peek : Option Text
  -- whether `build_server_config` takes the leaf certificate, its key and the CA's certificate
  pub config_ok : (cert_pem key_pem ca_pem : Text) → Bool
  -- what the client sends inside TLS once the handshake with that certificate has succeeded
  pub accept : CachedCert → Option Text
  pub connects : Bool
  pub write : Bool

pub data Error : Type 0 where
  peek_failed no_sni no_config handshake_failed connect_failed write_failed : Error
  no_cert : Ca.Error → Error

-- A tunnel: the server name, the certificate that was shown for it, and what goes to the HTTP proxy.
pub record Tunnel : Type 0 where
  pub sni : Text
  pub cert : CachedCert
  pub sent : Text

-- `MITM_LISTEN_ADDR`
abbrev pub server_addr : SocketAddr
server_addr = record { ip = v4 (ipv4 0 0 0 0); port = 10443 }

abbrev pub unwrap_or_default : Option Text → Text
unwrap_or_default none = []
unwrap_or_default (some t) = t

module _ (rcgen : Rcgen) (socket : Socket) (client : SocketAddr) where
  abbrev pub Outcome : Type 0
  Outcome = Result Error Tunnel × CertificateAuthority rcgen

  -- From the handshake's outcome on.
  abbrev pub accepted : Text → CachedCert → Option Text → CertificateAuthority rcgen → Outcome
  accepted sni cert none ca = (err handshake_failed, ca)
  accepted sni cert (some plain) ca =
      if not socket.connects
      then (err connect_failed, ca)
      else if not socket.write
      then (err write_failed, ca)
      else (
        ok (record {
          sni = sni;
          cert = cert;
          sent = write_proxy_header client server_addr ++ plain;
        }),
        ca,
      )

  abbrev pub issued : Text → Result Ca.Error CachedCert × CertificateAuthority rcgen → Outcome
  issued sni (err e, ca) = (err (no_cert e), ca)
  issued sni (ok cert, ca) =
      if socket.config_ok cert.cert_pem cert.key_pem ca.ca_cert_pem
      then accepted sni cert (socket.accept cert) ca
      else (err no_config, ca)

  abbrev pub named : Text → CertificateAuthority rcgen → Outcome
  named [] ca = (err no_sni, ca)
  named (c ∷ sni) ca = issued (c ∷ sni) (get_or_create_cert rcgen (c ∷ sni) ca)

  abbrev pub peeked : Option Text → CertificateAuthority rcgen → Run Outcome
  peeked none ca = done (err peek_failed, ca)
  peeked (some buf) ca = do
    sni ← extract_sni (take 4096 buf)
    done (named (unwrap_or_default sni) ca)

  -- A panic of `extract_sni` ends the task of this connection.
  unfoldable pub handle_connection : CertificateAuthority rcgen → Run Outcome
  unfolding get_or_create_cert extract_sni write_proxy_header
  handle_connection ca = peeked socket.peek ca
