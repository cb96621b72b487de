-- ===== src/Proxy/Http/Connection.antt =====
-- `serve_connection` of clawpot-server/src/proxy/http_proxy.rs. How hyper reads a request from the
-- bytes of a connection is a parameter; with `keep_alive(false)` it serves one.
use clawpot.Common.{
  Bool, true, false, Option, none, some, Text, Result, ok, err, ℕ, ◌<◌, ◌^◌, ◌++◌, ◌≡◌, ap,
}
use clawpot.Network.Addr.{IpAddr, v4}
use clawpot.Proxy.ProxyProtocol.{Error, read_proxy_header, write_proxy_header}
use clawpot.Proxy.ProxyProtocol.RoundTrip.{read_proxy_header-write_proxy_header}
use clawpot.Proxy.Http.{Request, Response, World, Log, handle_request}

module _ (w : World) (parse_ipv6 : Text → Option Text) (read_request : Text → Option Request) where
  abbrev pub served : IpAddr → Option Request → Log → Option Response × Log
  served client none log = (none, log)
  served client (some req) log =
      let (resp, log') = handle_request w req client log in (some resp, log')

  -- Behind the PROXY header, if there was one.
  abbrev pub after_header : Result Error IpAddr × Text → Log → Option Response × Log
  after_header (ok ip, rest) log = served ip (read_request rest) log
  after_header (err e, rest) log = (none, log)

  -- The response that is sent, if one is. `proxy_protocol` is set for the listener on port 10081.
  unfoldable pub serve_connection :
      (proxy_protocol : Bool) → (peer : IpAddr) → (stream : Text) → Log → Option Response × Log
  unfolding handle_request read_proxy_header
  serve_connection true peer stream log = after_header (read_proxy_header parse_ipv6 stream) log
  serve_connection false peer stream log = served peer (read_request stream) log

  -- On the listener behind the TLS proxy, a connection that starts with a PROXY header from an IPv4
  -- address is served as one that comes from that address, whoever the peer is.
  pub serve_connection-write_proxy_header :
      (peer : IpAddr) (client server client_port server_port : ℕ) (stream : Text) (log : Log)
      → client < 2 ^ 32
      → client_port < 65536
      → server_port < 65536
      → serve_connection true peer
          (write_proxy_header
              (record { ip = v4 client; port = client_port })
              (record { ip = v4 server; port = server_port })
            ++ stream)
          log
        ≡ serve_connection false (v4 client) stream log
  unfolding serve_connection
  serve_connection-write_proxy_header peer client server client_port server_port stream log h p q =
      ap (λ out. after_header out log)
        (read_proxy_header-write_proxy_header parse_ipv6 client server client_port server_port
          stream h p q)
