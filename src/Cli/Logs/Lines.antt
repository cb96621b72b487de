-- ===== src/Cli/Logs/Lines.antt =====
-- The lines that clawpot-cli/src/commands/logs.rs prints of sessions and events.
use clawpot.Common.{
  ℕ, ◌-◌, suc, Bool, true, false, List, [], ◌∷◌, ◌++◌, map, length, replicate, Option, none, some,
  Text, codes, dec, if◌then◌else◌,
}
use clawpot.Json.{unwrap_or}
use clawpot.Cli.Logs.{Signed, show_signed, SessionInfo, Event}
use clawpot.Cli.Logs.Summary.{is_continuation}

-- The width of a text is counted in characters.
abbrev pub chars : Text → ℕ
chars [] = 0
chars (b ∷ s) = if is_continuation b then chars s else suc (chars s)

-- `{:<w}` and `{:>w}`
unfoldable pub pad_right : ℕ → Text → Text
pad_right w t = t ++ replicate (w - chars t) b' '

unfoldable pub pad_left : ℕ → Text → Text
pad_left w t = replicate (w - chars t) b' ' ++ t

-- Columns with a blank between them.
abbrev pub columns : List Text → Text
columns [] = []
columns (c ∷ []) = c
columns (c ∷ d ∷ cs) = c ++ b' ' ∷ columns (d ∷ cs)

unfoldable pub session_line : SessionInfo → Text
unfolding pad_right pad_left
session_line s = columns (
    pad_right 38 s.id
    ∷ pad_right 26 s.started_at
    ∷ pad_right 26 (unwrap_or s.stopped_at (codes "(running)"))
    ∷ pad_right 10 s.server_version
    ∷ pad_left 6 (show_signed s.event_count)
    ∷ [])

abbrev pub sessions_header : Text
sessions_header = columns (
    pad_right 38 (codes "SESSION ID")
    ∷ pad_right 26 (codes "STARTED")
    ∷ pad_right 26 (codes "STOPPED")
    ∷ pad_right 10 (codes "VERSION")
    ∷ pad_left 6 (codes "EVENTS")
    ∷ [])

abbrev pub rule : ℕ → Text
rule n = replicate n b'-'

unfoldable pub print_sessions : List SessionInfo → List Text
unfolding session_line
print_sessions [] = codes "No sessions found." ∷ []
print_sessions (s ∷ ss) = sessions_header ∷ rule 110 ∷ map session_line (s ∷ ss)

abbrev pub yes_no : Option Bool → Text
yes_no none = codes "-"
yes_no (some true) = codes "yes"
yes_no (some false) = codes "no"

abbrev pub duration : Option Signed → Text
duration none = codes "-"
duration (some d) = show_signed d

unfoldable pub event_line : {V : Type 0} → Event V → Text
unfolding pad_right pad_left
event_line e = columns (
    pad_right 26 e.timestamp
    ∷ pad_right 12 e.category
    ∷ pad_right 32 e.event_type
    ∷ pad_right 38 (unwrap_or e.vm_id (codes "-"))
    ∷ pad_left 8 (duration e.duration_ms)
    ∷ pad_right 7 (yes_no e.success)
    ∷ [])

abbrev pub events_header : Text
events_header = columns (
    pad_right 26 (codes "TIMESTAMP")
    ∷ pad_right 12 (codes "CATEGORY")
    ∷ pad_right 32 (codes "EVENT TYPE")
    ∷ pad_right 38 (codes "VM ID")
    ∷ pad_left 8 (codes "DUR(ms)")
    ∷ pad_right 7 (codes "OK")
    ∷ [])

unfoldable pub print_events : {V : Type 0} → List (Event V) → List Text
unfolding event_line
print_events [] = codes "No events found." ∷ []
print_events (e ∷ es) =
    events_header
    ∷ rule 130
    ∷ (map event_line (e ∷ es)
        ++ ((10 ∷ codes "Total: ") ++ (dec (length (e ∷ es)) ++ codes " event(s)")) ∷ [])

abbrev pub vm_part : Option Text → Text
vm_part none = []
vm_part (some v) = codes " vm=" ++ v

abbrev pub duration_part : Option Signed → Text
duration_part none = []
duration_part (some d) = codes " (" ++ (show_signed d ++ codes "ms)")

abbrev pub success_part : Option Bool → Text
success_part none = []
success_part (some true) = codes " OK"
success_part (some false) = codes " FAIL"

-- A line of the timeline, with its summary.
unfoldable pub timeline_line : {V : Type 0} → Event V → Text → Text
timeline_line e summary =
    e.timestamp
    ++ (codes " ["
        ++ (e.category
            ++ (codes "] "
                ++ (e.event_type
                    ++ (vm_part e.vm_id
                        ++ (duration_part e.duration_ms
                            ++ (success_part e.success ++ b' ' ∷ summary)))))))
