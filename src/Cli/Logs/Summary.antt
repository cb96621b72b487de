-- ===== src/Cli/Logs/Summary.antt =====
-- `format_data_summary` of clawpot-cli/src/commands/logs.rs. A slice of a text panics where it cuts a
-- character.
pub mod Compact
use clawpot.Common.{
  ℕ, ltb, leb, ◌==◌, ◌||◌, ◌&&◌, Bool, true, false, List, [], ◌∷◌, ◌++◌, length, get_elem?, take,
  Option, none, some, Text, codes, dec, text_eq, if◌then◌else◌,
}
use clawpot.Common.Bytes.{Run, panic, done}
use clawpot.Json.{Json, and_then, unwrap_or}
use clawpot.Cli.Logs.{show_signed, Signed}

-- Whether a byte continues a character.
abbrev pub is_continuation : ℕ → Bool
is_continuation b = leb 128 b && ltb b 192

abbrev pub boundary_at : Option ℕ → Bool
boundary_at none = false
boundary_at (some b) = if is_continuation b then false else true

-- `str::is_char_boundary`
unfoldable pub is_char_boundary : Text → ℕ → Bool
is_char_boundary s n = n == 0 || (n == length s || boundary_at (get_elem? s n))

-- `&s[..n]`
unfoldable pub slice_to : Text → ℕ → Run Text
unfolding is_char_boundary
slice_to s n = if is_char_boundary s n then done (take n s) else panic

abbrev pub dotted : Run Text → Run Text
dotted panic = panic
dotted (done s) = done (s ++ codes "...")

-- The last arm, on the JSON text.
unfoldable pub compact : Text → Run Text
unfolding slice_to
compact s = if ltb 80 (length s) then dotted (slice_to s 77) else done s

abbrev pub after_eq : Text → Option Text → Text
after_eq label none = []
after_eq label (some t) = label ++ t

abbrev shown : Option ℕ → Option Text
shown none = none
shown (some n) = some (dec n)

abbrev bool_text : Option Bool → Option Text
bool_text none = none
bool_text (some true) = some (codes "true")
bool_text (some false) = some (codes "false")

abbrev tokens : Option ℕ → Option ℕ → Text
tokens (some i) (some o) = codes " tokens=" ++ (dec i ++ b'+' ∷ dec o)
tokens (some i) none = []
tokens none o = []

module _ (json : Json) where
  open json use {Value, get, as_str, as_u64, as_i64, as_bool, to_string}

  abbrev str_or : Value → Text → Text → Text
  str_or v key d = unwrap_or (and_then (get v key) as_str) d

  abbrev u64_at : Value → Text → Option ℕ
  u64_at v key = and_then (get v key) as_u64

  unfoldable pub http_response : Value → Text
  http_response v = codes "status=" ++ dec (unwrap_or (u64_at v (codes "status_code")) 0)

  unfoldable pub vm_exec : Value → Text
  vm_exec v =
      str_or v (codes "command") (codes "?")
      ++ (codes " exit="
          ++ show_signed (unwrap_or (and_then (get v (codes "exit_code")) as_i64) (true, 1)))

  abbrev subject : Value → Text
  subject v =
      str_or v (codes "provider") (codes "?")
      ++ (b'/'
          ∷ (str_or v (codes "endpoint") (codes "?")
              ++ (codes " model=" ++ str_or v (codes "model") (codes "unknown"))))

  unfoldable pub llm_request : Value → Text
  llm_request v =
      subject v
      ++ (after_eq (codes " messages=") (shown (u64_at v (codes "message_count")))
          ++ after_eq (codes " streaming=")
              (bool_text (and_then (get v (codes "streaming")) as_bool)))

  unfoldable pub llm_response : Value → Text
  llm_response v =
      subject v
      ++ (tokens (u64_at v (codes "input_tokens")) (u64_at v (codes "output_tokens"))
          ++ after_eq (codes " status=") (shown (u64_at v (codes "status_code"))))

  -- The arms of the `match` that have a summary of their own.
  unfoldable pub own_summary : Text → Value → Option Text
  unfolding http_response vm_exec llm_request llm_response
  own_summary event_type v =
      if text_eq event_type (codes "log")
      then some (str_or v (codes "message") [])
      else if text_eq event_type (codes "network.http.request")
      then some (str_or v (codes "method") (codes "?") ++ b' ' ∷ str_or v (codes "url") (codes "?"))
      else if text_eq event_type (codes "network.http.response")
      then some (http_response v)
      else if text_eq event_type (codes "network.dns.request")
      then some (
          str_or v (codes "query_name") (codes "?")
          ++ b' ' ∷ str_or v (codes "query_type") (codes "?"))
      else if text_eq event_type (codes "vm.create.ip_allocated")
      then some (str_or v (codes "ip_address") [])
      else if text_eq event_type (codes "vm.exec")
      then some (vm_exec v)
      else if text_eq event_type (codes "llm.request")
      then some (llm_request v)
      else if text_eq event_type (codes "llm.response")
      then some (llm_response v)
      else none

  abbrev pub or_compact : Option Text → Value → Run Text
  or_compact none v = compact (unwrap_or (to_string v) [])
  or_compact (some t) v = done t

  unfoldable pub format_data_summary : Text → Value → Run Text
  unfolding own_summary compact
  format_data_summary event_type v = or_compact (own_summary event_type v) v
