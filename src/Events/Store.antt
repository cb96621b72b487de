-- ===== src/Events/Store.antt =====
-- `PersistMode` and the emission of events in clawpot-server/src/events/store.rs. The serialization
-- of an event's data is done before; the copy of an event that goes to the log is left out.
use clawpot.Common.{
  ℕ, ◌+◌, ◌%◌, ◌^◌, Bool, true, false, not, List, [], ◌∷◌, ◌++◌, Option, Text, codes, text_eq,
  if◌then◌else◌,
}

pub data PersistMode : Type 0 where
  persist_all persist_structured persist_none : PersistMode

-- `CLAWPOT_EVENTS_PERSIST`, empty where it is not set.
unfoldable pub from_env : Text → PersistMode
from_env s =
    if text_eq s (codes "structured")
    then persist_structured
    else if text_eq s (codes "none")
    then persist_none
    else persist_all

pub record EventRecord : Type 0 where
  pub timestamp : Text
  pub category : Text
  pub event_type : Text
  pub vm_id : Option Text
  pub correlation_id : Option Text
  pub duration_ms : Option ℕ
  pub success : Option Bool
  pub data_json : Text

pub data WriterMsg : Type 0 where
  event : EventRecord → WriterMsg
  close : WriterMsg

-- `sent` holds all messages sent into the channel, oldest first; `writer_alive` is false once the
-- writer has dropped its end.
pub record EventStore : Type 0 where
  pub session_id : Text
  pub persist_mode : PersistMode
  pub next_id : ℕ
  pub sent : List WriterMsg
  pub writer_alive : Bool

unfoldable pub should_persist : PersistMode → Text → Bool
should_persist persist_all event_type = true
should_persist persist_structured event_type = not (text_eq event_type (codes "log"))
should_persist persist_none event_type = false

abbrev pub send : WriterMsg → EventStore → EventStore
send m s = if s.writer_alive then record s { sent = s.sent ++ m ∷ [] } else s

-- The id is an `i64`, kept as its bit pattern.
unfoldable pub emit_inner : EventRecord → EventStore → ℕ × EventStore
unfolding should_persist
emit_inner r s =
    let s' = record s { next_id = (s.next_id + 1) % 2 ^ 64 } in
    (s.next_id, if should_persist s.persist_mode r.event_type then send (event r) s' else s')

-- The time limit on the answer is left out.
unfoldable pub close_session : EventStore → EventStore
close_session s = send close s
