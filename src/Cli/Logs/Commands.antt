-- ===== src/Cli/Logs/Commands.antt =====
-- The commands of clawpot-cli/src/commands/logs.rs. What a command prints is the list of its lines as
-- `println!` has them, without the last line feed.
use clawpot.Common.{
  Bool, not, List, [], ◌∷◌, ◌++◌, map, Option, none, some, Text, codes, text_eq, Result, ok, err,
  if◌then◌else◌,
}
use clawpot.Common.Bytes.{Run, panic, done}
use clawpot.Json.{Json, unwrap_or}
use clawpot.Events.Query.{EventFilters}
use clawpot.Cli.Logs.{
  Signed, Event, Error, no_database, not_serialized, Sqlite, open_db, list_sessions, query_events,
}
use clawpot.Cli.Logs.Lines.{print_sessions, print_events, timeline_line}
use clawpot.Cli.Logs.Summary.{format_data_summary}

-- The lines, and how the command ends.
abbrev pub Printed : Type 0
Printed = List Text × Run (Result Error (Unit {0}))

abbrev pub finished : List Text → Printed
finished ls = (ls, done (ok tt))

abbrev pub failed : Error → Printed
failed e = ([], done (err e))

-- `{root}/data/events.db`
unfoldable pub default_db_path : (var : Text → Option Text) → Text
default_db_path var =
    unwrap_or (var (codes "CLAWPOT_ROOT")) (codes "/workspaces/clawpot") ++ codes "/data/events.db"

-- The machine: environment variables, files, and SQLite.
pub record Machine : Type 0 where
  pub var : Text → Option Text
  pub exists : Text → Bool
  pub sqlite : Sqlite

abbrev pub no_database_at : Text → Text
no_database_at path = codes "No events database found at " ++ path

abbrev pub after {ℓ} : {A : Type ℓ} → Result Error A → (A → Printed) → Printed
after (ok a) f = f a
after (err e) f = failed e

module _ (json : Json) (m : Machine) where
  open json use {Value, null, string, array, object, integer, bool, to_string, to_string_pretty}

  abbrev pub path_of : Option Text → Text
  path_of db_path = unwrap_or db_path (default_db_path m.var)

  -- The database that is open, where there is one.
  abbrev with_db : Text → (Text → Printed) → Printed
  with_db path f = after (open_db m.sqlite path) f

  unfoldable pub execute_sessions : (db_path : Option Text) → Printed
  unfolding default_db_path open_db list_sessions print_sessions
  execute_sessions db_path =
      let path = path_of db_path in
      if not (m.exists path)
      then finished (no_database_at path ∷ [])
      else with_db path
          (λ conn. after (list_sessions m.sqlite conn) (λ ss. finished (print_sessions ss)))

  unfoldable pub execute_show : (db_path : Option Text) → EventFilters → Printed
  unfolding default_db_path open_db query_events print_events
  execute_show db_path f =
      let path = path_of db_path in
      if not (m.exists path)
      then finished (no_database_at path ∷ [])
      else with_db path
          (λ conn. after (query_events json m.sqlite conn f) (λ es. finished (print_events es)))

  abbrev only_session : Option Text → EventFilters
  only_session session_id = record {
    session_id = session_id;
    vm_id = none;
    category = none;
    event_type = none;
    limit = none;
  }

  abbrev of_text : Option Text → Value
  of_text none = null
  of_text (some t) = string t

  abbrev of_signed : Option Signed → Value
  of_signed none = null
  of_signed (some n) = integer n

  abbrev of_bool : Option Bool → Value
  of_bool none = null
  of_bool (some b) = bool b

  -- The derived `Serialize`.
  unfoldable pub event_json : Event Value → Value
  event_json e = object (
      (codes "id", integer e.id)
      ∷ (codes "session_id", string e.session_id)
      ∷ (codes "timestamp", string e.timestamp)
      ∷ (codes "category", string e.category)
      ∷ (codes "event_type", string e.event_type)
      ∷ (codes "vm_id", of_text e.vm_id)
      ∷ (codes "correlation_id", of_text e.correlation_id)
      ∷ (codes "duration_ms", of_signed e.duration_ms)
      ∷ (codes "success", of_bool e.success)
      ∷ (codes "data", e.content)
      ∷ [])

  abbrev after_line : Text → Printed → Printed
  after_line l (ls, r) = (l ∷ ls, r)

  abbrev json_line : Option Text → Printed → Printed
  json_line none rest = failed not_serialized
  json_line (some t) rest = after_line t rest

  -- JSONL
  unfoldable pub print_lines : List (Event Value) → Printed
  unfolding event_json
  print_lines [] = finished []
  print_lines (e ∷ es) = json_line (to_string (event_json e)) (print_lines es)

  unfoldable pub export_events : (format : Text) → List (Event Value) → Printed
  unfolding print_lines
  export_events format es =
      if text_eq format (codes "json")
      then json_line (to_string_pretty (array (map event_json es))) (finished [])
      else print_lines es

  unfoldable pub execute_export : (db_path session_id : Option Text) → (format : Text) → Printed
  unfolding default_db_path open_db query_events export_events
  execute_export db_path session_id format =
      let path = path_of db_path in
      if not (m.exists path)
      then failed no_database
      else with_db path (λ conn.
        after (query_events json m.sqlite conn (only_session session_id)) (export_events format))

  abbrev summed_line : Event Value → Run Text → Printed → Printed
  summed_line e panic rest = ([], panic)
  summed_line e (done summary) rest = after_line (timeline_line e summary) rest

  -- The loop over the events; a panic ends the program.
  unfoldable pub print_timeline : List (Event Value) → Printed
  unfolding timeline_line format_data_summary
  print_timeline [] = finished []
  print_timeline (e ∷ es) =
      summed_line e (format_data_summary json e.event_type e.content) (print_timeline es)

  abbrev timeline : List (Event Value) → Printed
  timeline [] = finished (codes "No events found." ∷ [])
  timeline (e ∷ es) = print_timeline (e ∷ es)

  unfoldable pub execute_timeline : (db_path session_id vm_id : Option Text) → Printed
  unfolding default_db_path open_db query_events print_timeline
  execute_timeline db_path session_id vm_id =
      let path = path_of db_path in
      if not (m.exists path)
      then finished (no_database_at path ∷ [])
      else with_db path (λ conn.
        after (query_events json m.sqlite conn (record (only_session session_id) { vm_id = vm_id }))
          timeline)
