-- ===== src/Proxy/Auth.antt =====
-- clawpot-server/src/proxy/auth_client.rs. The authorization service is a parameter: to each request
-- it answers, or the call fails with a message. Its timestamp is left out.
use clawpot.Common.{
  ℕ, ◌*◌, ◌++◌, ltb, Bool, true, false, List, take, length, Text, codes, dec, Result, ok, err,
}

pub data Request : Type 0 where
  http :
      (request_id vm_id method url : Text) (headers : List (Text × Text)) (body : Text)
      (body_truncated : Bool)
      → Request
  dns : (request_id vm_id query_name query_type : Text) → Request

-- The answer of the service: whether to allow, and why.
abbrev pub Verdict : Type 0
Verdict = Bool × Text

abbrev pub Service : Type 0
Service = Request → Result Text Verdict

pub data AuthClient : Type 0 where
  connected : Service → AuthClient
  disabled : AuthClient

-- `MAX_BODY_FOR_GRPC`
abbrev pub max_body : ℕ
max_body = 1024 * 1024

-- A call that fails denies.
abbrev pub verdict : Result Text Verdict → Verdict
verdict (ok v) = v
verdict (err e) = (false, codes "auth service unreachable: " ++ e)

abbrev pub allow_all : Verdict
allow_all = (true, codes "authorization disabled")

-- `take` leaves a body that is not longer as it is.
unfoldable pub authorize_http :
    AuthClient
    → (request_id : ℕ) (vm_id method url : Text) (headers : List (Text × Text)) (body : Text)
    → Verdict
authorize_http disabled request_id vm_id method url headers body = allow_all
authorize_http (connected service) request_id vm_id method url headers body = verdict (
    service (
      http (dec request_id) vm_id method url headers (take max_body body)
        (ltb max_body (length body))))

unfoldable pub authorize_dns :
    AuthClient → (request_id : ℕ) (vm_id query_name query_type : Text) → Verdict
authorize_dns disabled request_id vm_id query_name query_type = allow_all
authorize_dns (connected service) request_id vm_id query_name query_type =
    verdict (service (dns (dec request_id) vm_id query_name query_type))
