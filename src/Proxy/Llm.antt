-- ===== src/Proxy/Llm.antt =====
-- Detection of requests to LLM APIs in clawpot-server/src/proxy/llm.rs, and the headers that
-- clawpot-server/src/proxy/http_proxy.rs then sends upstream. Header names are ASCII.
pub mod Headers
pub mod Sse
pub mod Streams
pub mod Reply
pub mod Anthropic
pub mod OpenAi
pub mod Response
use clawpot.Common.{
  ℕ, ◌+◌, leb, ◌==◌, ◌&&◌, Bool, true, false, List, [], ◌∷◌, ◌++◌, map, Option, none, some, Text,
  codes, text_eq, trim, starts_with, if◌then◌else◌,
}

pub record LlmEndpoint : Type 0 where
  pub name : Text
  pub path_prefix : Text

pub record LlmProvider : Type 0 where
  pub name : Text
  pub host : Text
  pub env_var : Text
  pub auth_header : Text
  pub bearer_format : Bool
  pub endpoints : List LlmEndpoint

abbrev pub endpoint : Text → Text → LlmEndpoint
endpoint name path_prefix = record { name = name; path_prefix = path_prefix }

abbrev pub anthropic : LlmProvider
anthropic = record {
  name = codes "anthropic";
  host = codes "api.anthropic.com";
  env_var = codes "CLAWPOT_ANTHROPIC_API_KEY";
  auth_header = codes "x-api-key";
  bearer_format = false;
  endpoints = endpoint (codes "messages") (codes "/v1/messages") ∷ [];
}

abbrev pub openai : LlmProvider
openai = record {
  name = codes "openai";
  host = codes "api.openai.com";
  env_var = codes "CLAWPOT_OPENAI_API_KEY";
  auth_header = codes "authorization";
  bearer_format = true;
  endpoints =
      endpoint (codes "chat_completions") (codes "/v1/chat/completions")
      ∷ endpoint (codes "responses") (codes "/v1/responses")
      ∷ [];
}

unfoldable pub providers : List LlmProvider
providers = anthropic ∷ openai ∷ []

-- The keys by the providers' names.
abbrev pub LlmKeyStore : Type 0
LlmKeyStore = List (Text × Text)

abbrev is_empty : Text → Bool
is_empty [] = true
is_empty _ = false

abbrev loaded : LlmProvider → Option Text → LlmKeyStore
loaded p none = []
loaded p (some raw_key) = let key = trim raw_key in if is_empty key then [] else (p.name, key) ∷ []

-- The loop of `from_env` over the providers; `var` reads an environment variable.
unfoldable pub load_keys : (Text → Option Text) → List LlmProvider → LlmKeyStore
load_keys var [] = []
load_keys var (p ∷ ps) = loaded p (var p.env_var) ++ load_keys var ps

unfoldable pub get_key : LlmKeyStore → Text → Option Text
get_key [] name = none
get_key ((n, key) ∷ keys) name = if text_eq n name then some key else get_key keys name

pub record LlmDetection : Type 0 where
  pub provider : Text
  pub endpoint_name : Text
  pub strip_header : Option Text
  pub inject_header : Option (Text × Text)

abbrev pub lower : ℕ → ℕ
lower c = if leb 65 c && leb c 90 then c + 32 else c

unfoldable pub to_lowercase : Text → Text
to_lowercase s = map lower s

-- `eq_ignore_ascii_case`, also of two names in lower case.
abbrev pub same_name : Text → Text → Bool
same_name a b = text_eq (to_lowercase a) (to_lowercase b)

-- `host.split(':').next()`
unfoldable pub host_bare : Text → Text
host_bare [] = []
host_bare (c ∷ s) = if c == 58 then [] else c ∷ host_bare s

unfoldable pub find_endpoint : Text → List LlmEndpoint → Text
find_endpoint path [] = codes "unknown"
find_endpoint path (e ∷ es) =
    if starts_with path e.path_prefix then e.name else find_endpoint path es

abbrev pub key_value : Bool → Text → Text
key_value true key = codes "Bearer " ++ key
key_value false key = key

unfoldable pub detection : LlmProvider → Text → Option Text → LlmDetection
unfolding find_endpoint
detection p path none = record {
  provider = p.name;
  endpoint_name = find_endpoint path p.endpoints;
  strip_header = none;
  inject_header = none;
}
detection p path (some key) = record {
  provider = p.name;
  endpoint_name = find_endpoint path p.endpoints;
  strip_header = some p.auth_header;
  inject_header = some (p.auth_header, key_value p.bearer_format key);
}

-- The loop over the providers that are left.
unfoldable pub detect_in : List LlmProvider → (bare path : Text) → LlmKeyStore → Option LlmDetection
unfolding detection get_key to_lowercase
detect_in [] bare path keys = none
detect_in (p ∷ ps) bare path keys =
    if same_name bare p.host
    then some (detection p path (get_key keys p.name))
    else detect_in ps bare path keys

unfoldable pub detect_llm_request : (host path : Text) → LlmKeyStore → Option LlmDetection
unfolding detect_in host_bare providers
detect_llm_request host path keys = detect_in providers (host_bare host) path keys

abbrev pub Header : Type 0
Header = Text × Text

-- The loop over the headers of the VM's request.
unfoldable pub strip_headers : Option Text → List Header → List Header
unfolding to_lowercase
strip_headers none hs = hs
strip_headers (some strip) [] = []
strip_headers (some strip) ((key, value) ∷ hs) =
    let rest = strip_headers (some strip) hs in
    if same_name key strip then rest else (key, value) ∷ rest

abbrev pub injected : Option (Text × Text) → List Header
injected none = []
injected (some h) = h ∷ []

-- The headers of the upstream request.
unfoldable pub upstream_headers : Option LlmDetection → List Header → List Header
unfolding strip_headers
upstream_headers none hs = hs
upstream_headers (some det) hs = strip_headers det.strip_header hs ++ injected det.inject_header
