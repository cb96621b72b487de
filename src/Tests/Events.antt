-- ===== src/Tests/Events.antt =====
-- Tests of clawpot-server/src/events.
use clawpot.Common.{
  ◌≡◌, refl, true, false, [], ◌∷◌, ◌++◌, Bool, some, none, codes, text_eq, List, map,
}
use clawpot.Events.Store.{
  EventRecord, EventStore, persist_structured, event, close, emit_inner, close_session,
  should_persist,
}
use clawpot.Events.Writer.{Arrivals, Db, background_writer}
use clawpot.Events.Writer.Persisted.{sound, messages, before_close, late, writer-rows}
use clawpot.Events.Writer.Session.{emit_all}
use clawpot.Events.Query.{EventFilters}
use clawpot.Events.Rows.{Signed, read_events}
use clawpot.Events.Rows.Restored.{selected, event_of, read_events-selected}
use clawpot.Tests.Jsons.{trees}

abbrev log_line : EventRecord
log_line = record {
  timestamp = codes "2026-01-01T00:00:00.000Z";
  category = codes "server";
  event_type = codes "log";
  vm_id = none;
  correlation_id = none;
  duration_ms = none;
  success = none;
  data_json = codes "{}";
}

abbrev started : EventRecord
started = record log_line { category = codes "vm"; event_type = codes "vm.create.started" }

abbrev empty_db : Db
empty_db = record { rows = []; stopped = false }

abbrev always : Db → Bool
always db = true

-- Events behind a close: written where the close is what `recv` returns, and not where the inner
-- loop finds it.
written_late :
    (background_writer sound always ((close, event started ∷ []) ∷ []) empty_db).rows ≡ started ∷ []
unfolding background_writer
written_late = refl

not_written :
    (background_writer sound always
      ((event log_line, close ∷ event started ∷ []) ∷ [])
      empty_db).rows
    ≡ log_line ∷ []
unfolding background_writer
not_written = refl

abbrev looks : Arrivals
looks = (event log_line, event started ∷ []) ∷ (close, []) ∷ []

writer-rows_example :
    (background_writer sound always looks empty_db).rows
    ≡ [] ++ (before_close (messages looks) ++ late looks)
writer-rows_example = writer-rows always looks empty_db

abbrev fresh_store : EventStore
fresh_store = record {
  session_id = codes "s";
  persist_mode = persist_structured;
  next_id = 1;
  sent = [];
  writer_alive = true;
}

abbrev seen : Arrivals
seen = (event started, close ∷ []) ∷ []

seen_all : messages seen ≡ (close_session (emit_all (log_line ∷ started ∷ []) fresh_store)).sent
unfolding messages close_session emit_all emit_inner should_persist text_eq
seen_all = refl

abbrev pub filters : EventFilters
filters = record {
  session_id = none;
  vm_id = some (codes "7");
  category = none;
  event_type = some (codes "log");
  limit = some (false, 5);
}

-- An event that succeeded and whose data is no JSON.
abbrev no_json : EventRecord
no_json = record started { success = some true; duration_ms = some 12; data_json = codes "?" }

abbrev written : List (Signed × EventRecord)
written = ((false, 1), started) ∷ ((false, 2), no_json) ∷ []

read_events-selected_example :
    read_events trees (map (selected trees (codes "s-1")) written)
    ≡ some (map (event_of trees (codes "s-1")) written)
read_events-selected_example = read_events-selected trees (codes "s-1") written
