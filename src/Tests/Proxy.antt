-- ===== src/Tests/Proxy.antt =====
-- Tests of clawpot-server/src/proxy.
use clawpot.Common.{
  All, text_eq, starts_with, Bool, ◌≡◌, ◌⊎◌, refl, true, false, [], ◌∷◌, ◌++◌, ◌/◌, ◌%◌, List, none,
  some, Text, codes, dec, err, map, arith,
}
use clawpot.Common.Bytes.{panic, done, Returns}
use clawpot.Network.Addr.{v4, ipv4}
use clawpot.Proxy.Auth.{Service, connected}
use clawpot.Proxy.Dns.{
  write_dns_message, join, qtype_str, parse_dns_question, build_refused_response,
}
use clawpot.Proxy.Dns.Encoded.{encode_labels, lossy, parse_dns_question-encode}
use clawpot.Proxy.Dns.Refused.{header, Refuses, build_refused_response-Refuses}
use clawpot.Proxy.Dns.Query.{World, Log, Answer, process_dns_query}
use clawpot.Proxy.Dns.Decision.{Processes, process_dns_query-Processes}
use clawpot.Proxy.Dns.Tcp.{
  handle_tcp_dns_connection, handle_tcp_dns_connection-frames, Answers, next_query, no_socket,
  bind_failed, Fit, frames,
}
use clawpot.Proxy.Dns.Listener.{Wake, received, connection, cancelled, stopped, run_inner}
use clawpot.Proxy.Dns.Listener.Guarded.{Guards, run_inner-Guards}
use clawpot.Proxy.Llm.{LlmKeyStore, LlmDetection, Header, detect_llm_request, upstream_headers}
use clawpot.Proxy.Llm.Headers.{Sends, upstream_headers-Sends}
use clawpot.Proxy.Sni.{extract_sni}
use clawpot.Proxy.Sni.Panic.{Truncated, extract_sni-Truncated}
use clawpot.Tests.Vm.{one_vm}

-- A query for example.com, type A.
abbrev name : List Text
name = codes "example" ∷ codes "com" ∷ []

abbrev query : Text
query = header 0 1 1 0 0 1 0 0 0 0 0 0 ++ (encode_labels name ++ (1 / 256 ∷ 1 % 256 ∷ 0 ∷ 1 ∷ []))

parse_dns_question-encode_example :
    parse_dns_question query ≡ done (some (join (map lossy name), qtype_str 1))
parse_dns_question-encode_example =
    parse_dns_question-encode 0 1 1 0 0 1 0 0 0 0 0 0 name 1 (0 ∷ 1 ∷ []) (omega arith)
      (omega arith, (omega arith, tt)) (omega arith)

build_refused_response-Refuses_example : Refuses 1 0 query (build_refused_response query)
build_refused_response-Refuses_example =
    build_refused_response-Refuses 0 1 1 0 0 1 0 0 0 0 0 0
      (encode_labels name ++ (1 / 256 ∷ 1 % 256 ∷ 0 ∷ 1 ∷ [])) (omega arith) (omega arith)

-- A service that cannot be reached.
abbrev down : Service
down r = err (codes "connection refused")

abbrev world : World
world = record {
  registry = one_vm;
  auth = connected down;
  uuid_display = dec;
  send_to = λ p. true;
  receive = λ p. none;
}

abbrev quiet : Log
quiet = record { events = []; sent = [] }

process_dns_query-Processes_example :
    (out : Answer) × (process_dns_query world query (v4 (ipv4 192 168 100 2)) quiet ≡ done out)
    × Processes world query (v4 (ipv4 192 168 100 2)) quiet out
process_dns_query-Processes_example =
    process_dns_query-Processes world query (v4 (ipv4 192 168 100 2)) quiet

-- A query, a query without a socket for it, and a connection.
abbrev busy : List Wake
busy =
    received world (v4 (ipv4 192 168 100 2)) query true
    ∷ received world (v4 (ipv4 192 168 100 2)) query false
    ∷ connection world (v4 1) (λ k m. false) (0 ∷ 1 ∷ 7 ∷ [])
    ∷ []

run_inner-Guards_example :
    (run_inner (busy ++ cancelled ∷ busy) ≡ (stopped, (run_inner busy).1))
    × All Guards (run_inner busy).1
unfolding run_inner
run_inner-Guards_example = run_inner-Guards busy busy refl

-- A record whose handshake is one byte.
abbrev cut_off : Text
cut_off = 22 ∷ 3 ∷ 1 ∷ 0 ∷ 1 ∷ 1 ∷ []

panics : extract_sni cut_off ≡ panic
unfolding extract_sni
panics = refl

extract_sni-Truncated_example :
    (Truncated cut_off × (extract_sni cut_off ≡ panic))
    ⊎ ((¬ Truncated cut_off) × Returns (extract_sni cut_off))
extract_sni-Truncated_example = extract_sni-Truncated cut_off

-- A second query gets no socket.
abbrev one_socket : Text → Text → Bool
one_socket [] message = true
one_socket written message = false

-- Queries from an address of no VM.
one_answer :
    Answers world
      (v4 1)
      one_socket
      (query ∷ query ∷ [])
      quiet
      []
      (build_refused_response query ∷ [])
      quiet
      (err bind_failed)
unfolding process_dns_query write_dns_message
one_answer =
    next_query query (build_refused_response query) (query ∷ []) [] quiet quiet quiet []
      (err bind_failed) refl refl (no_socket query [] quiet _ refl)

two-Fit : Fit (query ∷ query ∷ [])
unfolding encode_labels
two-Fit = (omega arith, omega arith, (omega arith, omega arith, tt))

handle_tcp_dns_connection-frames_example :
    handle_tcp_dns_connection world (v4 1) one_socket (frames (query ∷ query ∷ [])) quiet
    ≡ done (err bind_failed, quiet, frames (build_refused_response query ∷ []))
handle_tcp_dns_connection-frames_example =
    handle_tcp_dns_connection-frames world (v4 1) one_socket (query ∷ query ∷ [])
      (build_refused_response query ∷ []) quiet quiet (err bind_failed) two-Fit one_answer

abbrev server_keys : LlmKeyStore
server_keys = (codes "anthropic", codes "secret") ∷ []

-- The host has another server's name behind the colon.
abbrev other_host : Text
other_host = codes "api.anthropic.com" ++ 58 ∷ codes "x@evil.example"

abbrev found : LlmDetection
found = record {
  provider = codes "anthropic";
  endpoint_name = codes "messages";
  strip_header = some (codes "x-api-key");
  inject_header = some (codes "x-api-key", codes "secret");
}

key_for_other_host : detect_llm_request other_host (codes "/v1/messages") server_keys ≡ some found
unfolding detect_llm_request text_eq starts_with
key_for_other_host = refl

abbrev vm_headers : List Header
vm_headers = (codes "host", other_host) ∷ (codes "X-Api-Key", codes "mine") ∷ []

upstream_headers-Sends_example :
    Sends other_host server_keys vm_headers (upstream_headers (some found) vm_headers)
upstream_headers-Sends_example =
    upstream_headers-Sends other_host (codes "/v1/messages") server_keys found vm_headers
      key_for_other_host
