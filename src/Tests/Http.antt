-- ===== src/Tests/Http.antt =====
-- Tests of clawpot-server/src/proxy/http_proxy.rs.
use clawpot.Common.{
  ◌++◌, none, false, ◌≡◌, refl, true, List, none, [], ◌∷◌, some, codes, dec, ok, text_eq,
  starts_with,
}
use clawpot.Network.Addr.{v4, ipv4}
use clawpot.Proxy.Auth.{connected, authorize_http}
use clawpot.Proxy.Http.{
  World, Request, Log, answered, handle_request, end_to_end, collect, insert_header, is_visible,
}
use clawpot.Proxy.Http.Decision.{Handles, handle_request-Handles}
use clawpot.Proxy.Http.{Event, Response, detected, verdict_on, get_header}
use clawpot.Proxy.Http.Listener.{
  Wake, connection, cancelled, stopped, run_listener, GuardsAll, run_listener-Guards,
}
use clawpot.Proxy.Http.Events.{event_type, event_data, response_data}
use clawpot.Proxy.Http.Trail.{Trail, content_type, handle_request-Trail}
use clawpot.Proxy.Http.Reassembled.{handle_request-Streamed}
use clawpot.Proxy.Llm.{detect_llm_request, LlmDetection}
use clawpot.Proxy.Llm.Sse.RoundTrip.{encode, frames_events}
use clawpot.Proxy.Llm.Response.Streamed.{reassembled}
use clawpot.Vm.Registry.{find_by_ip}
use clawpot.Tests.Jsons.{trees}
use clawpot.Tests.Llm.{stream, stream-IsFrame, stream_utf8, streaming}
use clawpot.Tests.Vm.{one_vm}

abbrev world : World
world = record {
  registry = one_vm;
  auth = connected (λ r. ok (true, codes "fine"));
  uuid_display = dec;
  llm_keys = [];
  use_tls_upstream = true;
  request = λ u. answered (record { status = 204; headers = []; body = [] });
  storage_dir = codes "bodies";
  can_write = λ p. true;
}

abbrev get_request : Request
get_request = record {
  method = codes "GET";
  host = some (codes "example.com");
  path = some (codes "/a?b");
  headers = (codes "host", codes "example.com") ∷ [];
  body = [];
}

abbrev quiet : Log
quiet = record { events = []; sent = []; files = [] }

-- Of two headers with one name, the last one is kept.
one_cookie :
    end_to_end (
      collect
        ((codes "set-cookie", codes "a=1")
          ∷ (codes "connection", codes "close")
          ∷ (codes "set-cookie", codes "b=2")
          ∷ [])
        [])
    ≡ (codes "set-cookie", codes "b=2") ∷ []
unfolding end_to_end collect insert_header is_visible text_eq
one_cookie = refl

handle_request-Handles_example :
    Handles world get_request
      (v4 (ipv4 192 168 100 2))
      quiet
      (handle_request world get_request (v4 (ipv4 192 168 100 2)) quiet)
handle_request-Handles_example =
    handle_request-Handles world get_request (v4 (ipv4 192 168 100 2)) quiet

handle_request-Trail_example :
    Trail world get_request
      (v4 (ipv4 192 168 100 2))
      quiet
      (handle_request world get_request (v4 (ipv4 192 168 100 2)) quiet)
handle_request-Trail_example =
    handle_request-Trail world get_request (v4 (ipv4 192 168 100 2)) quiet

-- A chat with an LLM, whose answer is streamed.
abbrev chat_request : Request
chat_request = record {
  method = codes "POST";
  host = some (codes "api.openai.com");
  path = some (codes "/v1/chat/completions");
  headers = (codes "host", codes "api.openai.com") ∷ [];
  body = codes "{}";
}

abbrev streamed : Response
streamed = record {
  status = 200;
  headers = (codes "content-type", codes "text/event-stream; charset=utf-8") ∷ [];
  body = encode stream;
}

abbrev chatty : World
chatty = record world { request = λ u. answered streamed }

abbrev chat : LlmDetection
chat = record {
  provider = codes "openai";
  endpoint_name = codes "chat_completions";
  strip_header = none;
  inject_header = none;
}

is_chat : detected chatty chat_request ≡ some chat
unfolding detect_llm_request text_eq starts_with
is_chat = refl

declared : content_type streamed ≡ some (codes "text/event-stream; charset=utf-8")
unfolding collect insert_header is_visible text_eq get_header
declared = refl

known : find_by_ip one_vm (v4 (ipv4 192 168 100 2)) ≡ some 7
unfolding find_by_ip
known = refl

let_through : verdict_on chatty chat_request (dec 7) ≡ (true, codes "fine")
unfolding authorize_http
let_through = refl

handle_request-Streamed_example :
    (response answer : Event) × (es : List Event) × ((handle_request chatty chat_request
        (v4 (ipv4 192 168 100 2))
        quiet).1.events
      ≡ response ∷ answer ∷ es)
    × (event_type answer ≡ codes "llm.response")
    × (event_data trees answer
        ≡ response_data trees chat 200
            (reassembled trees (codes "chat_completions") (frames_events stream)))
handle_request-Streamed_example =
    handle_request-Streamed trees chatty chat_request (v4 (ipv4 192 168 100 2)) quiet 7
      (codes "fine") chat streamed (codes "text/event-stream; charset=utf-8") stream known
      let_through is_chat refl declared streaming stream-IsFrame stream_utf8 refl

-- Two connections of a VM.
abbrev two_connections : List Wake
two_connections =
    connection (record { world = world; peer = v4 (ipv4 192 168 100 2); stream = codes "GET /" })
    ∷ connection (record { world = chatty; peer = v4 1; stream = [] })
    ∷ []

run_listener-Guards_example :
    (run_listener (two_connections ++ cancelled ∷ two_connections)
      ≡ (stopped, (run_listener two_connections).1))
    × GuardsAll (λ s. none) (λ s. some get_request) false (run_listener two_connections).1
unfolding run_listener
run_listener-Guards_example =
    run_listener-Guards (λ s. none) (λ s. some get_request) false two_connections two_connections
      refl
