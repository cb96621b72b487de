-- ===== src/Tests/Tls.antt =====
-- Tests of clawpot-server/src/proxy/proxy_protocol.rs, ca.rs, tls_mitm.rs and of the connections of
-- http_proxy.rs.
use clawpot.Common.{
  dec, ℕ, ◌≡◌, refl, true, [], ◌∷◌, ◌++◌, Option, none, some, Text, codes, ok, replicate, arith,
}
use clawpot.Common.Bytes.{done}
use clawpot.Common.Utf8.{is_utf8}
use clawpot.Network.Addr.{display, v4, ipv4}
use clawpot.Proxy.ProxyProtocol.{write_proxy_header, read_proxy_header}
use clawpot.Proxy.ProxyProtocol.RoundTrip.{read_proxy_header-write_proxy_header}
use clawpot.Proxy.ProxyProtocol.Bounds.{Takes, read_proxy_header-Takes}
use clawpot.Proxy.Ca.{
  Rcgen, CachedCert, CertificateAuthority, Directory, Disk, cached, get_or_create_cert, authority,
}
use clawpot.Proxy.Ca
use clawpot.Proxy.Ca.Cache.{Serves, get_or_create_cert-Serves}
use clawpot.Proxy.Ca.Restart.{new-new}
use clawpot.Proxy.Tls.{Socket, Tunnel, server_addr, handle_connection}
use clawpot.Proxy.Tls.Forwarded.{Tunnels, handle_connection-Tunnels}

abbrev no_ipv6 : Text → Option Text
no_ipv6 t = none

abbrev vm_addr : ℕ
vm_addr = ipv4 192 168 100 2

-- The test of the source.
header_text :
    write_proxy_header
      (record { ip = v4 vm_addr; port = 45678 })
      (record { ip = v4 0; port = 10443 })
    ≡ codes "PROXY TCP4 192.168.100.2 0.0.0.0 45678 10443\r\n"
unfolding write_proxy_header display dec
header_text = refl

read_proxy_header-write_proxy_header_example :
    read_proxy_header no_ipv6 (
      write_proxy_header
        (record { ip = v4 vm_addr; port = 45678 })
        (record { ip = v4 0; port = 10443 })
      ++ codes "GET")
    ≡ (ok (v4 vm_addr), codes "GET")
read_proxy_header-write_proxy_header_example =
    read_proxy_header-write_proxy_header no_ipv6 vm_addr 0 45678 10443 (codes "GET") (omega arith)
      (omega arith) (omega arith)

read_proxy_header-Takes_example :
    Takes 256
      (codes "GET / HTTP/1.1\r\n")
      (read_proxy_header no_ipv6 (codes "GET / HTTP/1.1\r\n")).1
read_proxy_header-Takes_example = read_proxy_header-Takes no_ipv6 (codes "GET / HTTP/1.1\r\n")

-- Keys and certificates are texts.
abbrev toy : Rcgen
toy = record {
  KeyPair = Text;
  Certificate = Text;
  generate = λ run n. some (run ∷ n ∷ []);
  from_pem = λ t. some t;
  serialize_pem = λ k. k;
  pem = λ c. c;
  self_signed = λ run k. some (run ∷ k);
  valid_name = λ d. true;
  signed_by = λ d key c k. some (d ++ (key ++ k));
}

abbrev working : Disk
working = record {
  can_create = true;
  can_read_key = true;
  can_read_cert = true;
  can_write_cert = true;
  can_write_key = true;
}

abbrev empty : Directory
empty = record { cert = none; key = none }

abbrev first_key : Text
first_key = 0 ∷ 0 ∷ []

abbrev first_ca : CertificateAuthority toy
first_ca = authority toy 0 1 (0 ∷ first_key) first_key (0 ∷ first_key)

created : (Ca.new toy working 0 empty).0 ≡ ok first_ca
unfolding Ca.new
created = refl

new-new_example : Ca.new toy working 1 (Ca.new toy working 0 empty).1 ≡ (
  ok (authority toy 1 0 (1 ∷ first_key) first_key (0 ∷ first_key)),
  (Ca.new toy working 0 empty).1,
)
new-new_example =
    new-new toy (λ k. refl) working working 0 1 empty first_ca (1 ∷ first_key) created refl refl
      refl refl

get_or_create_cert-Serves_example :
    Serves toy (codes "a.b") (get_or_create_cert toy (codes "a.b") first_ca)
get_or_create_cert-Serves_example = get_or_create_cert-Serves toy (codes "a.b") first_ca tt

-- A ClientHello for a.b.
abbrev hello : Text
hello =
    22
    ∷ 3
    ∷ 1
    ∷ 0
    ∷ 59
    ∷ 1
    ∷ 0
    ∷ 0
    ∷ 55
    ∷ 3
    ∷ 3
    ∷ (replicate 32 7
        ++ 0 ∷ 0 ∷ 2 ∷ 19 ∷ 1 ∷ 1 ∷ 0 ∷ 0 ∷ 12 ∷ 0 ∷ 0 ∷ 0 ∷ 8 ∷ 0 ∷ 6 ∷ 0 ∷ 0 ∷ 3 ∷ codes "a.b")

abbrev socket : Socket
socket = record {
  peek = some hello;
  config_ok = λ c k ca. true;
  accept = λ c. some (codes "GET /");
  connects = true;
  write = true;
}

abbrev leaf : CachedCert
leaf = record { cert_pem = codes "a.b" ++ (0 ∷ 1 ∷ first_key); key_pem = 0 ∷ 1 ∷ [] }

abbrev tunnel : Tunnel
tunnel = record {
  sni = codes "a.b";
  cert = leaf;
  sent = write_proxy_header (record { ip = v4 vm_addr; port = 45678 }) server_addr ++ codes "GET /";
}

abbrev after : CertificateAuthority toy
after = record first_ca { cache = (codes "a.b", leaf) ∷ []; generated = 2 }

tunnelled :
    handle_connection toy socket (record { ip = v4 vm_addr; port = 45678 }) first_ca
    ≡ done (ok tunnel, after)
unfolding handle_connection is_utf8
tunnelled = refl

handle_connection-Tunnels_example : Tunnels toy socket vm_addr 45678 after tunnel
handle_connection-Tunnels_example =
    handle_connection-Tunnels toy socket vm_addr 45678 first_ca after tunnel (omega arith)
      (omega arith) tt tunnelled
