-- ===== src/Proxy/Llm/Headers.antt =====
-- What becomes of the headers, and which hosts get a key.
use clawpot.Common.{
  All, ◌==◌, ◌≡◌, ◌⊎◌, codes, inl, inr, refl, ap, ◌∙◌, subst, Bool, true, false, List, [], ◌∷◌,
  ◌++◌, Option, none, some, Text, text_eq, text_eq_iff, if◌then◌else◌, arith, Bool-cases,
}
use mathlib.Core.List.{append-nil}
use clawpot.Proxy.Llm.{
  LlmProvider, LlmKeyStore, LlmDetection, Header, providers, get_key, to_lowercase, same_name,
  host_bare, detection, detect_in, detect_llm_request, strip_headers, upstream_headers, key_value,
}

-- All values of a header, whose name is compared without regard to case.
unfoldable pub values_of : Text → List Header → List Text
values_of name [] = []
values_of name ((key, value) ∷ hs) =
    if same_name key name then value ∷ values_of name hs else values_of name hs

values-append :
    (name : Text) (xs ys : List Header)
    → values_of name (xs ++ ys) ≡ values_of name xs ++ values_of name ys
unfolding values_of
values-append name [] ys = refl
values-append name ((key, value) ∷ xs) ys = elim (Bool-cases (same_name key name)) [
  | inl hit ↦ rw hit (ap (λ l. value ∷ l) (values-append name xs ys))
  | inr miss ↦ rw miss (values-append name xs ys)
]

same_trans : (a b c : Text) → same_name a b ≡ true → same_name a c ≡ same_name b c
same_trans a b c h =
    ap (λ x. text_eq x (to_lowercase c)) ((text_eq_iff (to_lowercase a) (to_lowercase b)).0 h)

same_refl : (a : Text) → same_name a a ≡ true
same_refl a = (text_eq_iff (to_lowercase a) (to_lowercase a)).1 refl

values-strip :
    (strip name : Text) (hs : List Header)
    → values_of name (strip_headers (some strip) hs)
      ≡ (if same_name strip name then [] else values_of name hs)
unfolding strip_headers values_of
values-strip strip name [] = ground arith
values-strip strip name ((key, value) ∷ hs) = elim (Bool-cases (same_name key strip)) [
  | inl hit ↦ rw hit (ground (arith, values-strip strip name hs, same_trans key strip name hit))
  | inr miss ↦ rw miss (
      ground (
        arith,
        values-strip strip name hs,
        miss,
        text_eq_iff (to_lowercase key) (to_lowercase strip),
        text_eq_iff (to_lowercase key) (to_lowercase name),
        text_eq_iff (to_lowercase strip) (to_lowercase name),
      ))
]

-- A provider that stands in a list of them.
abbrev pub Listed : LlmProvider → List LlmProvider → Type 0
Listed p [] = ⊥
Listed p (x ∷ xs) = (p ≡ x) ⊎ Listed p xs

-- The store has that key under that name; or it has none under it.
abbrev pub Has : LlmKeyStore → (name key : Text) → Type 0
Has [] name key = ⊥
Has ((n, k) ∷ keys) name key = ((n ≡ name) × (k ≡ key)) ⊎ Has keys name key

abbrev pub HasNone : LlmKeyStore → (name : Text) → Type 0
HasNone keys name = All (λ k. ¬ (k.0 ≡ name)) keys

get_key-Has :
    (keys : LlmKeyStore) (name key : Text) → get_key keys name ≡ some key → Has keys name key
unfolding get_key
get_key-Has [] name key h = cc
get_key-Has ((n, k) ∷ keys) name key h = elim (Bool-cases (text_eq n name)) [
  | inl hit ↦ inl ((text_eq_iff n name).0 hit, ground arith)
  | inr miss ↦ inr (get_key-Has keys name key (ground arith))
]

get_key-HasNone : (keys : LlmKeyStore) (name : Text) → get_key keys name ≡ none → HasNone keys name
unfolding get_key
get_key-HasNone [] name h = tt
get_key-HasNone ((n, k) ∷ keys) name h = elim (Bool-cases (text_eq n name)) [
  | inl hit ↦ absurd (ground arith)
  | inr miss ↦
      (λ e. absurd (cc ((text_eq_iff n name).1 e, miss)), get_key-HasNone keys name (ground arith))
]

-- What a detection found of the keys: the provider whose host it is, and its key if there is one.
data Detected (ps : List LlmProvider) (bare path : Text) (keys : LlmKeyStore) (d : LlmDetection)
    : Type 0 where
  with_key :
      (p : LlmProvider) (key : Text)
      → Listed p ps
      → same_name bare p.host ≡ true
      → get_key keys p.name ≡ some key
      → d.strip_header ≡ some p.auth_header
      → d.inject_header ≡ some (p.auth_header, key_value p.bearer_format key)
      → Detected ps bare path keys d
  without_key :
      (p : LlmProvider)
      → Listed p ps
      → same_name bare p.host ≡ true
      → get_key keys p.name ≡ none
      → d.strip_header ≡ none
      → d.inject_header ≡ none
      → Detected ps bare path keys d

detection-Detected :
    (ps : List LlmProvider) (p : LlmProvider) (bare path : Text) (keys : LlmKeyStore)
    (o : Option Text)
    → Listed p ps
    → same_name bare p.host ≡ true
    → get_key keys p.name ≡ o
    → Detected ps bare path keys (detection p path o)
unfolding detection
detection-Detected ps p bare path keys none known at e = without_key p known at e refl refl
detection-Detected ps p bare path keys (some key) known at e = with_key p key known at e refl refl

detect_in-Detected :
    (ps all : List LlmProvider) (bare path : Text) (keys : LlmKeyStore) (d : LlmDetection)
    → ((p : LlmProvider) → Listed p ps → Listed p all)
    → detect_in ps bare path keys ≡ some d
    → Detected all bare path keys d
unfolding detect_in
detect_in-Detected [] all bare path keys d known h = cc
detect_in-Detected (p ∷ ps) all bare path keys d known h =
    elim (Bool-cases (same_name bare p.host)) [
      | inl hit ↦
          let same : detection p path (get_key keys p.name) ≡ d = ground arith in
          subst (Detected all bare path keys) same (
            detection-Detected all p bare path keys (get_key keys p.name) (known p (inl refl)) hit
              refl)
      | inr miss ↦
          detect_in-Detected ps all bare path keys d (λ q k. known q (inr k)) (ground arith)
    ]

-- The header that carries a key, as the provider wants it.
abbrev pub header_value : LlmProvider → Text → Text
header_value p key = if p.bearer_format then codes "Bearer " ++ key else key

-- What goes upstream for a request to a provider's host.
pub data Sends (host : Text) (keys : LlmKeyStore) (hs out : List Header) : Type 0 where
  server_key :
      (p : LlmProvider) (key : Text)
      → Listed p providers
      → same_name (host_bare host) p.host ≡ true
      → Has keys p.name key
      → values_of p.auth_header out ≡ header_value p key ∷ []
      → ((other : Text)
          → same_name p.auth_header other ≡ false
          → values_of other out ≡ values_of other hs)
      → Sends host keys hs out
  own_key :
      (p : LlmProvider)
      → Listed p providers
      → same_name (host_bare host) p.host ≡ true
      → HasNone keys p.name
      → out ≡ hs
      → Sends host keys hs out

injected-values :
    (d : LlmDetection) (hs : List Header) (name value n : Text)
    → d.strip_header ≡ some name
    → d.inject_header ≡ some (name, value)
    → values_of n (upstream_headers (some d) hs)
      ≡ (if same_name name n then [] else values_of n hs) ++ values_of n ((name, value) ∷ [])
unfolding upstream_headers
injected-values d hs name value n s i =
    rw (s, i)
      (values-append n (strip_headers (some name) hs) ((name, value) ∷ [])
        ∙ ap (λ l. l ++ values_of n ((name, value) ∷ [])) (values-strip name n hs))

key_value-header_value :
    (p : LlmProvider) (key : Text) → key_value p.bearer_format key ≡ header_value p key
key_value-header_value p key = ground arith

with_key-Sends :
    (host : Text) (keys : LlmKeyStore) (d : LlmDetection) (hs : List Header) (p : LlmProvider)
    (key : Text)
    → Listed p providers
    → same_name (host_bare host) p.host ≡ true
    → Has keys p.name key
    → d.strip_header ≡ some p.auth_header
    → d.inject_header ≡ some (p.auth_header, key_value p.bearer_format key)
    → Sends host keys hs (upstream_headers (some d) hs)
with_key-Sends host keys d hs p key known at has s i =
    let name = p.auth_header in
    let value = key_value p.bearer_format key in
    server_key p key known at has
      (injected-values d hs name value name s i
        ∙ rw (same_refl name) (unfold values_of in rw (same_refl name) refl)
        ∙ ap (λ v. v ∷ []) (key_value-header_value p key))
      (λ other k.
        injected-values d hs name value other s i
        ∙ rw k (unfold values_of in rw k (append-nil (values_of other hs))))

-- For a request to an LLM provider, the one of the table whose host stands before the colon of the
-- request's host: where the server has a key under that provider's name, the header of the key goes
-- upstream exactly once, with such a key of that provider as the provider wants it, whatever the VM
-- sent under that name in any case, and all other headers go with the values that they had; where it
-- has none, the headers go as they came.
pub upstream_headers-Sends :
    (host path : Text) (keys : LlmKeyStore) (d : LlmDetection) (hs : List Header)
    → detect_llm_request host path keys ≡ some d
    → Sends host keys hs (upstream_headers (some d) hs)
unfolding detect_llm_request
upstream_headers-Sends host path keys d hs h =
    elim (detect_in-Detected providers providers (host_bare host) path keys d (λ q k. k) h) [
      | with_key p key known at e s i ↦
          with_key-Sends host keys d hs p key known at (get_key-Has keys p.name key e) s i
      | without_key p known at e s i ↦
          own_key p known at (get_key-HasNone keys p.name e)
            (unfold upstream_headers in rw (s, i) (unfold strip_headers in append-nil hs))
    ]

abbrev pub no_colon : Text → Bool
no_colon [] = true
no_colon (c ∷ s) = if c == 58 then false else no_colon s

host_bare-colon : (h rest : Text) → no_colon h ≡ true → host_bare (h ++ 58 ∷ rest) ≡ host_bare h
unfolding host_bare
host_bare-colon [] rest k = refl
host_bare-colon (c ∷ h) rest k = ground (arith, host_bare-colon h rest)

-- The detection, with the key that it uses, depends only on what stands before the first colon of
-- the host: whatever follows the colon, a port or not, changes nothing.
pub detect_llm_request-colon :
    (h rest path : Text) (keys : LlmKeyStore)
    → no_colon h ≡ true
    → detect_llm_request (h ++ 58 ∷ rest) path keys ≡ detect_llm_request h path keys
unfolding detect_llm_request
detect_llm_request-colon h rest path keys k =
    ap (λ b. detect_in providers b path keys) (host_bare-colon h rest k)
