-- ===== src/Proxy/Http.antt =====
-- `handle_request` of clawpot-server/src/proxy/http_proxy.rs, with the body store of
-- clawpot-server/src/proxy/body_store.rs. The upstream server is a parameter. Events are kept without
-- correlation ids and durations; the child `Events` has the JSON of each.
pub mod Decision
pub mod Connection
pub mod Listener
pub mod Events
pub mod Trail
pub mod Reassembled
use clawpot.Common.{
  ℕ, ◌*◌, ◌+◌, leb, ltb, ◌&&◌, ◌||◌, ◌==◌, Bool, true, false, List, [], ◌∷◌, ◌++◌, Option, none,
  some, Text, codes, text_eq, dec, length, if◌then◌else◌,
}
use clawpot.Network.Addr.{IpAddr}
use clawpot.Vm.Registry.{VmId, VmRegistry, find_by_ip}
use clawpot.Proxy.Auth.{AuthClient, Verdict, authorize_http}
use clawpot.Proxy.Llm.{
  Header, LlmKeyStore, LlmDetection, detect_llm_request, upstream_headers, to_lowercase,
}

-- A request as hyper has parsed it: `host` is the header of that name where it is text, `path` the
-- path and query of the URI where it has one.
pub record Request : Type 0 where
  pub method : Text
  pub host : Option Text
  pub path : Option Text
  pub headers : List Header
  pub body : Text

pub record Upstream : Type 0 where
  pub method : Text
  pub url : Text
  pub headers : List Header
  pub body : Text

pub record Response : Type 0 where
  pub status : ℕ
  pub headers : List Header
  pub body : Text

-- The URL or the request was not valid, the request failed, or there is a response.
pub data Sent : Type 0 where
  not_built failed : Text → Sent
  answered : Response → Sent

pub record World : Type 0 where
  pub registry : VmRegistry
  pub auth : AuthClient
  pub uuid_display : VmId → Text
  pub llm_keys : LlmKeyStore
  pub use_tls_upstream : Bool
  pub request : Upstream → Sent
  -- the directory of the body store, and whether a file can be written
  pub storage_dir : Text
  pub can_write : Text → Bool

pub data Event : Type 0 where
  http_request :
      (vm_id method url : Text) (headers : List Header) (body_size : ℕ) (body_path : Option Text)
      → Event
  http_authorized : (vm_id : Text) (allowed : Bool) (reason : Text) → Event
  -- the response event of a request that is denied
  http_denied : (vm_id : Text) → Event
  http_response :
      (vm_id : Text) (status body_size : ℕ) (body_path : Option Text) (headers : List Header)
      → Event
  -- the body of the request, and the content type and the body of the response
  llm_request : (vm_id : Text) (det : LlmDetection) (url body : Text) → Event
  llm_response :
      (vm_id : Text) (det : LlmDetection) (status : ℕ) (content_type : Option Text) (body : Text)
      → Event

-- Events, requests that went upstream, and files written, newest first.
pub record Log : Type 0 where
  pub events : List Event
  pub sent : List Upstream
  pub files : List (Text × Text)

abbrev pub emit : Event → Log → Log
emit e log = record log { events = e ∷ log.events }

-- `DEFAULT_INLINE_THRESHOLD`
abbrev pub inline_threshold : ℕ
inline_threshold = 64 * 1024

-- `BodyStore::store`: a larger body goes to a file, whose path is given; a write that fails is passed
-- over.
unfoldable pub store : World → (request_id : ℕ) (suffix body : Text) → Log → Option Text × Log
store w request_id suffix body log =
    let name = dec request_id ++ (codes "_" ++ (suffix ++ codes ".bin")) in
    let path = w.storage_dir ++ (codes "/" ++ name) in
    if leb (length body) inline_threshold
    then (none, log)
    else if w.can_write path
    then (some path, record log { files = (path, body) ∷ log.files })
    else (none, log)

abbrev pub or_else : Option Text → Text → Text
or_else none d = d
or_else (some t) d = t

-- `HeaderValue::to_str`: visible ASCII, blanks and tabs; other values count as empty.
unfoldable pub is_visible : Text → Bool
is_visible [] = true
is_visible (c ∷ s) = (leb 32 c && ltb c 127 || c == 9) && is_visible s

-- `HashMap::insert`
unfoldable pub insert_header : Header → List Header → List Header
insert_header (k, v) [] = (k, v) ∷ []
insert_header (k, v) ((n, x) ∷ hs) =
    if text_eq n k then (n, v) ∷ hs else (n, x) ∷ insert_header (k, v) hs

-- The headers collected into a map, on top of `m`.
unfoldable pub collect : List Header → List Header → List Header
unfolding insert_header is_visible
collect [] m = m
collect ((k, v) ∷ hs) m = collect hs (insert_header (k, if is_visible v then v else []) m)

-- `HashMap::get`
unfoldable pub get_header : Text → List Header → Option Text
get_header key [] = none
get_header key ((n, x) ∷ hs) = if text_eq n key then some x else get_header key hs

-- The headers of the response but for the hop-by-hop ones.
unfoldable pub end_to_end : List Header → List Header
unfolding to_lowercase
end_to_end [] = []
end_to_end ((k, v) ∷ hs) =
    let rest = end_to_end hs in
    if text_eq (to_lowercase k) (codes "transfer-encoding")
      || text_eq (to_lowercase k) (codes "connection")
    then rest
    else (k, v) ∷ rest

abbrev pub plain : ℕ → Text → Response
plain status body = record { status = status; headers = []; body = body }

-- `Proxy error: …`
abbrev pub bad_gateway : Text → Response
bad_gateway e = plain 502 (codes "Proxy error: " ++ e)

-- `StatusCode::is_success`
abbrev pub is_success : ℕ → Bool
is_success status = leb 200 status && ltb status 300

abbrev pub log_llm_request : (vm_id url body : Text) → Option LlmDetection → Log → Log
log_llm_request vm_id url body none log = log
log_llm_request vm_id url body (some det) log = emit (llm_request vm_id det url body) log

unfoldable pub log_llm_response : Text → Response → Option LlmDetection → Log → Log
unfolding collect get_header
log_llm_response vm_id resp none log = log
log_llm_response vm_id resp (some det) log =
    emit
      (llm_response vm_id det resp.status
        (get_header (codes "content-type") (collect resp.headers [])) resp.body)
      log

module _ (w : World) (req : Request) where
  abbrev pub host : Text
  host = or_else req.host (codes "unknown")

  abbrev pub path : Text
  path = or_else req.path (codes "/")

  abbrev pub scheme : Bool → Text
  scheme true = codes "https"
  scheme false = codes "http"

  abbrev pub url : Text
  url = scheme w.use_tls_upstream ++ (codes "://" ++ (host ++ path))

  abbrev pub detected : Option LlmDetection
  detected = detect_llm_request host path w.llm_keys

  unfoldable pub upstream_req : Upstream
  unfolding detect_llm_request upstream_headers
  upstream_req = record {
    method = req.method;
    url = url;
    headers = upstream_headers detected req.headers;
    body = req.body;
  }

  -- From the upstream's answer on.
  unfoldable pub finish : Text → Sent → Log → Response × Log
  unfolding store collect end_to_end log_llm_response
  finish vm_id (not_built e) log = (bad_gateway e, log)
  finish vm_id (failed e) log = (bad_gateway e, record log { sent = upstream_req ∷ log.sent })
  finish vm_id (answered resp) log =
      let log' =
        log_llm_response vm_id resp detected (record log { sent = upstream_req ∷ log.sent }) in
      let (path, log'') = store w 0 (codes "resp") resp.body log' in
      let headers = collect resp.headers [] in
      (
        record { status = resp.status; headers = end_to_end headers; body = resp.body },
        emit (http_response vm_id resp.status (length resp.body) path headers) log'',
      )

  unfoldable pub decide : Text → Verdict → Log → Response × Log
  unfolding finish
  decide vm_id (true, reason) log =
      finish vm_id (w.request upstream_req) (log_llm_request vm_id url req.body detected log)
  decide vm_id (false, reason) log =
      (plain 403 (codes "Denied: " ++ reason), emit (http_denied vm_id) log)

  abbrev pub verdict_on : Text → Verdict
  verdict_on vm_id = authorize_http w.auth 0 vm_id req.method url (collect req.headers []) req.body

  unfoldable pub after_lookup : Option VmId → Log → Response × Log
  unfolding decide authorize_http store
  after_lookup none log = (plain 403 (codes "Unknown VM"), log)
  after_lookup (some id) log =
      let vm_id = w.uuid_display id in
      let (path, log') = store w 0 (codes "req") req.body log in
      let v = verdict_on vm_id in
      decide vm_id v (
        emit (http_authorized vm_id v.0 v.1) (
          emit (http_request vm_id req.method url (collect req.headers []) (length req.body) path)
            log'))

  unfoldable pub handle_request : IpAddr → Log → Response × Log
  unfolding after_lookup find_by_ip
  handle_request peer log = after_lookup (find_by_ip w.registry peer) log
