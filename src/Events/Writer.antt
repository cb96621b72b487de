-- ===== src/Events/Writer.antt =====
-- `background_writer` of clawpot-server/src/events/store.rs. What it finds in the channel depends on
-- when it looks: `Arrivals` lists, for each `recv`, the message that it returns and those that wait
-- behind it until the channel is found empty; the list ends where all senders are dropped.
pub mod Persisted
pub mod Session
use clawpot.Common.{Bool, true, false, ◌||◌, List, [], ◌∷◌, ◌++◌, if◌then◌else◌}
use clawpot.Events.Store.{EventRecord, WriterMsg, event, close}

abbrev pub Arrivals : Type 0
Arrivals = List (WriterMsg × List WriterMsg)

-- The rows of the events table for this session, oldest first, and whether the session is closed.
pub record Db : Type 0 where
  pub rows : List EventRecord
  pub stopped : Bool

-- How the inner loop ends, with the batch that it has collected.
pub data Drained : Type 0 where
  emptied closed : List EventRecord → Drained

unfoldable pub drain : List WriterMsg → List EventRecord → Drained
drain [] batch = emptied batch
drain (event r ∷ waiting) batch = drain waiting (batch ++ r ∷ [])
drain (close ∷ waiting) batch = closed batch

-- The loop on an outer `Close`: a second one is passed over.
unfoldable pub drain_all : List WriterMsg → List EventRecord → List EventRecord
drain_all [] batch = batch
drain_all (event r ∷ waiting) batch = drain_all waiting (batch ++ r ∷ [])
drain_all (close ∷ waiting) batch = drain_all waiting batch

-- SQLite's answers: whether a transaction commits, and whether the session row is updated.
module _ (commits : Db → List EventRecord → Bool) (updates : Db → Bool) where
  -- A batch that fails is dropped.
  unfoldable pub flush_batch : List EventRecord → Db → Db
  flush_batch [] db = db
  flush_batch (r ∷ rs) db =
      if commits db (r ∷ rs) then record db { rows = db.rows ++ (r ∷ rs) } else db

  unfoldable pub close_session_row : Db → Db
  close_session_row db = record db { stopped = db.stopped || updates db }

  abbrev pub finish : List EventRecord → Db → Db
  finish batch db = close_session_row (flush_batch batch db)

  -- After the inner loop: whether the writer has returned, and the database.
  abbrev pub after_drain : Drained → Db → Bool × Db
  after_drain (emptied batch) db = (false, flush_batch batch db)
  after_drain (closed batch) db = (true, finish batch db)

  unfoldable pub round : WriterMsg → List WriterMsg → Db → Bool × Db
  unfolding drain drain_all flush_batch close_session_row
  round (event r) waiting db = after_drain (drain waiting (r ∷ [])) db
  round close waiting db = (true, finish (drain_all waiting []) db)

  -- The batch is empty whenever the loop starts anew.
  unfoldable pub background_writer : Arrivals → Db → Db
  unfolding round
  background_writer [] db = finish [] db
  background_writer ((m, waiting) ∷ rest) db =
      let next = background_writer rest (round m waiting db).1 in
      if (round m waiting db).0 then (round m waiting db).1 else next
