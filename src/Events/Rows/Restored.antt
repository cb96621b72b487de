-- ===== src/Events/Rows/Restored.antt =====
-- What the event log of clawpot-server/src/events/store.rs gives back of the records written into it.
use clawpot.Common.{
  ℕ, map, ◌≡◌, refl, ap, Bool, true, false, List, [], ◌∷◌, Option, none, some, Text, text_eq,
}
use clawpot.Json.{Json, unwrap_or}
use clawpot.Events.Store.{EventRecord}
use clawpot.Events.Rows.{
  Signed, Event, Column, text, integer, or_null, as_option, as_text, as_integer, as_int, is_nonzero,
  selected_columns, row_of, select, column, read_event, read_events, zip_columns, insert_params,
  inserted_columns,
}
use mathlib.Core.Option.{map as option_map}

text_option : (o : Option Text) → as_option as_text (or_null text o) ≡ some o
text_option none = refl
text_option (some t) = refl

duration_option :
    (o : Option ℕ)
    → as_option as_integer (or_null (λ n. integer (false, n)) o)
      ≡ some (option_map (λ n. (false, n)) o)
duration_option none = refl
duration_option (some n) = refl

success_option :
    (o : Option Bool)
    → as_option as_integer (or_null (λ b. integer (as_int b)) o) ≡ some (option_map as_int o)
success_option none = refl
success_option (some b) = refl

is_nonzero-as_int : (o : Option Bool) → option_map is_nonzero (option_map as_int o) ≡ o
is_nonzero-as_int none = refl
is_nonzero-as_int (some true) = refl
is_nonzero-as_int (some false) = refl

module _ (json : Json) (session_id : Text) where
  open json use {Value, object, from_slice}

  -- The event of a record: its data as JSON, or the empty object if it is not JSON.
  unfoldable pub event_of : Signed × EventRecord → Event Value
  event_of (id, r) = record {
    id = id;
    session_id = session_id;
    timestamp = r.timestamp;
    category = r.category;
    event_type = r.event_type;
    vm_id = r.vm_id;
    correlation_id = r.correlation_id;
    duration_ms = option_map (λ n. (false, n)) r.duration_ms;
    success = r.success;
    content = unwrap_or (from_slice r.data_json) (object []);
  }

  abbrev pub selected : Signed × EventRecord → List Column
  selected (id, r) = select selected_columns (row_of id session_id r)

  read_event-selected :
      (r : Signed × EventRecord) → read_event json (selected r) ≡ some (event_of r)
  unfolding read_event select column selected_columns row_of zip_columns insert_params
      inserted_columns event_of text_eq
  read_event-selected (id, r) =
      rw
        (
          text_option r.vm_id,
          text_option r.correlation_id,
          duration_option r.duration_ms,
          success_option r.success,
        )
        (ap (λ s. some (record (event_of (id, r)) { success = s })) (is_nonzero-as_int r.success))

  -- Records that were written and are selected again come back in their order, each with its id, the
  -- session, and its fields; its data is read as JSON, and is the empty object if it is not JSON.
  pub read_events-selected :
      (rs : List (Signed × EventRecord))
      → read_events json (map selected rs) ≡ some (map event_of rs)
  unfolding read_events
  read_events-selected [] = refl
  read_events-selected (r ∷ rs) = rw (read_event-selected r, read_events-selected rs) refl
