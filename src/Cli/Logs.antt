-- ===== src/Cli/Logs.antt =====
-- The event log as clawpot-cli/src/commands/logs.rs reads it. SQLite is a parameter: what opening a
-- database and running a statement give.
pub mod Summary
pub mod Lines
pub mod Commands
pub mod Query
use clawpot.Common.{
  ℕ, ◌==◌, Bool, true, false, not, List, [], ◌∷◌, ◌++◌, Option, none, some, Text, codes, dec,
  Result, ok, err, if◌then◌else◌,
}
use clawpot.Json.{Json, unwrap_or}
use clawpot.Events.Query.{Statement, EventFilters, filter_all, limit_by}

-- An `i64` or `i32`: whether it is negative, and its absolute value.
abbrev pub Signed : Type 0
Signed = Bool × ℕ

abbrev pub show_signed : Signed → Text
show_signed (true, n) = b'-' ∷ dec n
show_signed (false, n) = dec n

pub record SessionInfo : Type 0 where
  pub id : Text
  pub started_at : Text
  pub stopped_at : Option Text
  pub server_version : Text
  pub event_count : Signed

pub record Event (V : Type 0) : Type 0 where
  pub id : Signed
  pub session_id : Text
  pub timestamp : Text
  pub category : Text
  pub event_type : Text
  pub vm_id : Option Text
  pub correlation_id : Option Text
  pub duration_ms : Option Signed
  pub success : Option Bool
  pub content : V  -- `data`

-- The columns of a row, as `row.get` reads them.
pub record Row : Type 0 where
  pub id : Signed
  pub session_id : Text
  pub timestamp : Text
  pub category : Text
  pub event_type : Text
  pub vm_id : Option Text
  pub correlation_id : Option Text
  pub duration_ms : Option Signed
  pub success_int : Option Signed
  pub data_str : Text

pub data Error : Type 0 where
  open_failed pragma_failed statement_failed row_failed no_database not_serialized : Error

-- A statement is not prepared or not run, or gives rows, some of which may not be read.
abbrev pub Rows : Type 0 → Type 0
Rows R = Option (List (Option R))

pub record Sqlite : Type 0 where
  pub opens : Text → Bool
  pub pragmas : Text → Bool
  pub sessions : Text → (sql : Text) → Rows SessionInfo
  pub rows : Text → Statement → Rows Row

unfoldable pub open_db : Sqlite → Text → Result Error Text
open_db db path =
    if not (db.opens path)
    then err open_failed
    else if db.pragmas path
    then ok path
    else err pragma_failed

abbrev pub push {ℓ} : {A : Type ℓ} → A → Result Error (List A) → Result Error (List A)
push a (ok xs) = ok (a ∷ xs)
push a (err e) = err e

-- `for row in rows { events.push(row?); }`
unfoldable pub read_rows {ℓ} :
    {R : Type 0} {A : Type ℓ} → (R → A) → List (Option R) → Result Error (List A)
read_rows read [] = ok []
read_rows read (none ∷ rows) = err row_failed
read_rows read (some r ∷ rows) = push (read r) (read_rows read rows)

abbrev pub collected {ℓ} : {R : Type 0} {A : Type ℓ} → (R → A) → Rows R → Result Error (List A)
collected read none = err statement_failed
collected read (some rows) = read_rows read rows

abbrev pub sessions_sql : Text
sessions_sql =
    codes
      "SELECT s.id, s.started_at, s.stopped_at, s.server_version,\n                (SELECT COUNT(*) FROM events e WHERE e.session_id = s.id) as event_count\n         FROM sessions s\n         ORDER BY s.started_at DESC"

unfoldable pub list_sessions : Sqlite → Text → Result Error (List SessionInfo)
unfolding read_rows
list_sessions db conn = collected (λ s. s) (db.sessions conn sessions_sql)

abbrev pub base : Text
base =
    codes
      "SELECT id, session_id, timestamp, category, event_type, vm_id,\n                correlation_id, duration_ms, success, data\n         FROM events WHERE 1=1"

-- The statement that `query_events` builds; its arguments are the fields of an `EventFilters`.
unfoldable pub query_sql : EventFilters → Statement
unfolding filter_all
query_sql f =
    let (sql, params) = filter_all f (base, []) in
    ((sql ++ codes " ORDER BY timestamp ASC, id ASC") ++ limit_by f.limit, params)

abbrev pub as_success : Option Signed → Option Bool
as_success none = none
as_success (some (sign, n)) = some (not (n == 0))

module _ (json : Json) where
  open json use {Value, object, from_slice}

  unfoldable pub read_event : Row → Event Value
  read_event r = record {
    id = r.id;
    session_id = r.session_id;
    timestamp = r.timestamp;
    category = r.category;
    event_type = r.event_type;
    vm_id = r.vm_id;
    correlation_id = r.correlation_id;
    duration_ms = r.duration_ms;
    success = as_success r.success_int;
    content = unwrap_or (from_slice r.data_str) (object []);
  }

  unfoldable pub query_events : Sqlite → Text → EventFilters → Result Error (List (Event Value))
  unfolding query_sql read_rows read_event
  query_events db conn f = collected read_event (db.rows conn (query_sql f))
