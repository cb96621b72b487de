-- ===== src/Events/Rows.antt =====
-- Rows of the event log in clawpot-server/src/events/store.rs: what `flush_batch_inner` inserts for a
-- record, and what `query_events` and `list_sessions` read of a row. SQLite keeps a row as its values
-- by the names of their columns.
pub mod Restored
use clawpot.Common.{
  ℕ, zero, suc, ◌==◌, Bool, true, false, not, List, [], ◌∷◌, Option, none, some, Text, codes,
  text_eq, get_elem?, map, if◌then◌else◌,
}
use clawpot.Json.{Json, unwrap_or, and_then}
use clawpot.Events.Store.{EventRecord}
use mathlib.Core.Option.{map as option_map}

-- An `i64` or `i32`: whether it is negative, and its absolute value.
abbrev pub Signed : Type 0
Signed = Bool × ℕ

-- A value of SQLite.
pub data Column : Type 0 where
  null : Column
  text : Text → Column
  integer : Signed → Column

pub record Event (V : Type 0) : Type 0 where
  pub id : Signed
  pub session_id : Text
  pub timestamp : Text
  pub category : Text
  pub event_type : Text
  pub vm_id : Option Text
  pub correlation_id : Option Text
  pub duration_ms : Option Signed
  pub success : Option Bool
  pub content : V  -- `data`

pub record SessionInfo : Type 0 where
  pub id : Text
  pub started_at : Text
  pub stopped_at : Option Text
  pub server_version : Text
  pub event_count : Signed

-- The columns that the `INSERT` names, and those that the `SELECT` names.
unfoldable pub inserted_columns : List Text
inserted_columns =
    codes "session_id"
    ∷ codes "timestamp"
    ∷ codes "category"
    ∷ codes "event_type"
    ∷ codes "vm_id"
    ∷ codes "correlation_id"
    ∷ codes "duration_ms"
    ∷ codes "success"
    ∷ codes "data"
    ∷ []

unfoldable pub selected_columns : List Text
selected_columns =
    codes "id"
    ∷ codes "session_id"
    ∷ codes "timestamp"
    ∷ codes "category"
    ∷ codes "event_type"
    ∷ codes "vm_id"
    ∷ codes "correlation_id"
    ∷ codes "duration_ms"
    ∷ codes "success"
    ∷ codes "data"
    ∷ []

abbrev pub or_null {ℓ} : {A : Type ℓ} → (A → Column) → Option A → Column
or_null f none = null
or_null f (some a) = f a

-- `i32::from` of a Boolean.
abbrev pub as_int : Bool → Signed
as_int true = (false, 1)
as_int false = (false, 0)

-- The parameters of the `INSERT`. A duration is not negative.
unfoldable pub insert_params : (session_id : Text) → EventRecord → List Column
insert_params session_id r =
    text session_id
    ∷ text r.timestamp
    ∷ text r.category
    ∷ text r.event_type
    ∷ or_null text r.vm_id
    ∷ or_null text r.correlation_id
    ∷ or_null (λ n. integer (false, n)) r.duration_ms
    ∷ or_null (λ b. integer (as_int b)) r.success
    ∷ text r.data_json
    ∷ []

abbrev pub Row : Type 0
Row = List (Text × Column)

unfoldable pub zip_columns : List Text → List Column → Row
zip_columns [] vs = []
zip_columns (n ∷ ns) [] = []
zip_columns (n ∷ ns) (v ∷ vs) = (n, v) ∷ zip_columns ns vs

-- The row of the table, with its id.
unfoldable pub row_of : (id : Signed) → (session_id : Text) → EventRecord → Row
unfolding zip_columns insert_params inserted_columns
row_of id session_id r =
    (codes "id", integer id) ∷ zip_columns inserted_columns (insert_params session_id r)

unfoldable pub column : Row → Text → Column
column [] name = null
column ((n, v) ∷ row) name = if text_eq n name then v else column row name

-- The values that a `SELECT` gives.
unfoldable pub select : List Text → Row → List Column
unfolding column
select names row = map (column row) names

-- `row.get` of each type: another type of value is an error.
abbrev pub as_text : Column → Option Text
as_text (text t) = some t
as_text null = none
as_text (integer n) = none

abbrev pub as_integer : Column → Option Signed
as_integer (integer n) = some n
as_integer null = none
as_integer (text t) = none

abbrev pub as_option {ℓ} : {A : Type ℓ} → (Column → Option A) → Column → Option (Option A)
as_option read null = some none
as_option read (text t) = option_map some (read (text t))
as_option read (integer n) = option_map some (read (integer n))

abbrev pub get {ℓ} : {A : Type ℓ} → (Column → Option A) → List Column → ℕ → Option A
get read row i = and_then (get_elem? row i) read

abbrev pub is_nonzero : Signed → Bool
is_nonzero (sign, n) = not (n == 0)

infixl 5 ◌>>=◌
abbrev ◌>>=◌ {ℓ κ} : {A : Type ℓ} {B : Type κ} → Option A → (A → Option B) → Option B
◌>>=◌ o f = and_then o f

-- The closure of `list_sessions`.
unfoldable pub read_session : List Column → Option SessionInfo
read_session row = do
  id ← get as_text row 0
  started_at ← get as_text row 1
  stopped_at ← get (as_option as_text) row 2
  server_version ← get as_text row 3
  event_count ← get as_integer row 4
  some (record {
    id = id;
    started_at = started_at;
    stopped_at = stopped_at;
    server_version = server_version;
    event_count = event_count;
  })

module _ (json : Json) where
  open json use {Value, object, from_slice}

  -- The closure of `query_events`.
  unfoldable pub read_event : List Column → Option (Event Value)
  read_event row = do
    success_int ← get (as_option as_integer) row 8
    data_str ← get as_text row 9
    id ← get as_integer row 0
    session_id ← get as_text row 1
    timestamp ← get as_text row 2
    category ← get as_text row 3
    event_type ← get as_text row 4
    vm_id ← get (as_option as_text) row 5
    correlation_id ← get (as_option as_text) row 6
    duration_ms ← get (as_option as_integer) row 7
    some (record {
      id = id;
      session_id = session_id;
      timestamp = timestamp;
      category = category;
      event_type = event_type;
      vm_id = vm_id;
      correlation_id = correlation_id;
      duration_ms = duration_ms;
      success = option_map is_nonzero success_int;
      content = unwrap_or (from_slice data_str) (object []);
    })

  -- `row?` in the loop over the rows: the first that cannot be read ends it.
  unfoldable pub read_events : List (List Column) → Option (List (Event Value))
  unfolding read_event
  read_events [] = some []
  read_events (row ∷ rows) = do e ← read_event row; es ← read_events rows; some (e ∷ es)
