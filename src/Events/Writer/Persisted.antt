-- ===== src/Events/Writer/Persisted.antt =====
-- Which events the writer persists, when no transaction fails.
use clawpot.Common.{
  ◌≡◌, refl, sym, ap, ◌∙◌, Bool, true, false, List, [], ◌∷◌, ◌++◌, if◌then◌else◌, Bool-cases, inl,
  inr,
}
use mathlib.Core.List.{append_assoc, append-nil}
use clawpot.Events.Store.{EventRecord, WriterMsg, event, close}
use clawpot.Events.Writer.{
  Arrivals, Db, Drained, emptied, closed, drain, drain_all, flush_batch, close_session_row,
  background_writer, finish,
}

-- All messages, in the order in which they were sent.
unfoldable pub messages : Arrivals → List WriterMsg
messages [] = []
messages ((m, waiting) ∷ rest) = m ∷ (waiting ++ messages rest)

unfoldable pub before_close : List WriterMsg → List EventRecord
before_close [] = []
before_close (event r ∷ ms) = r ∷ before_close ms
before_close (close ∷ ms) = []

unfoldable pub all_events : List WriterMsg → List EventRecord
all_events [] = []
all_events (event r ∷ ms) = r ∷ all_events ms
all_events (close ∷ ms) = all_events ms

unfoldable pub has_close : List WriterMsg → Bool
has_close [] = false
has_close (event r ∷ ms) = has_close ms
has_close (close ∷ ms) = true

-- The events sent after the close that are written all the same: those that wait when the close is
-- what `recv` returns.
unfoldable pub late : Arrivals → List EventRecord
unfolding all_events has_close
late [] = []
late ((close, waiting) ∷ rest) = all_events waiting
late ((event r, waiting) ∷ rest) = let l = late rest in if has_close waiting then [] else l

drain_all-events :
    (ms : List WriterMsg) (batch : List EventRecord) → drain_all ms batch ≡ batch ++ all_events ms
unfolding drain_all all_events
drain_all-events [] batch = sym (append-nil batch)
drain_all-events (event r ∷ ms) batch =
    drain_all-events ms (batch ++ r ∷ []) ∙ append_assoc batch (r ∷ []) (all_events ms)
drain_all-events (close ∷ ms) batch = drain_all-events ms batch

abbrev drained : Bool → List EventRecord → Drained
drained true batch = closed batch
drained false batch = emptied batch

drain-before :
    (ms : List WriterMsg) (batch : List EventRecord)
    → drain ms batch ≡ drained (has_close ms) (batch ++ before_close ms)
unfolding drain has_close before_close
drain-before [] batch = ap emptied (sym (append-nil batch))
drain-before (event r ∷ ms) batch =
    drain-before ms (batch ++ r ∷ [])
    ∙ ap (drained (has_close ms)) (append_assoc batch (r ∷ []) (before_close ms))
drain-before (close ∷ ms) batch = ap closed (sym (append-nil batch))

before_close-append :
    (xs ys : List WriterMsg)
    → before_close (xs ++ ys) ≡ before_close xs ++ (if has_close xs then [] else before_close ys)
unfolding before_close has_close
before_close-append [] ys = refl
before_close-append (event r ∷ xs) ys = ap (λ l. r ∷ l) (before_close-append xs ys)
before_close-append (close ∷ xs) ys = refl

-- A database that commits every transaction.
abbrev pub sound : Db → List EventRecord → Bool
sound db batch = true

module _ (updates : Db → Bool) where
  flush-rows :
      (batch : List EventRecord) (db : Db)
      → (flush_batch sound updates batch db).rows ≡ db.rows ++ batch
  unfolding flush_batch
  flush-rows [] db = sym (append-nil db.rows)
  flush-rows (r ∷ rs) db = refl

  finish-rows :
      (batch : List EventRecord) (db : Db) → (finish sound updates batch db).rows ≡ db.rows ++ batch
  unfolding close_session_row
  finish-rows batch db = flush-rows batch db

  -- One round that ends with the writer done, and one that ends with it running.
  closed_round :
      (r : EventRecord) (waiting : List WriterMsg) (rest : Arrivals) (db : Db)
      → has_close waiting ≡ true
      → background_writer sound updates ((event r, waiting) ∷ rest) db
        ≡ finish sound updates (r ∷ before_close waiting) db
  unfolding background_writer
  closed_round r waiting rest db h = rw (drain-before waiting (r ∷ []), h) refl

  open_round :
      (r : EventRecord) (waiting : List WriterMsg) (rest : Arrivals) (db : Db)
      → has_close waiting ≡ false
      → background_writer sound updates ((event r, waiting) ∷ rest) db
        ≡ background_writer sound updates rest
            (flush_batch sound updates (r ∷ before_close waiting) db)
  unfolding background_writer
  open_round r waiting rest db h = rw (drain-before waiting (r ∷ []), h) refl

  -- Where every transaction commits: whatever the writer finds waiting at each look, the rows that it
  -- adds are the events sent before the first close, all of them, once and in order, followed by no
  -- others than those that wait behind a close that `recv` itself returns.
  pub writer-rows :
      (arrivals : Arrivals) (db : Db)
      → (background_writer sound updates arrivals db).rows
        ≡ db.rows ++ (before_close (messages arrivals) ++ late arrivals)
  unfolding messages before_close late
  writer-rows [] db = unfold background_writer in finish-rows [] db
  writer-rows ((close, waiting) ∷ rest) db =
      unfold background_writer in
      (finish-rows (drain_all waiting []) db ∙ ap (λ l. db.rows ++ l) (drain_all-events waiting []))
  writer-rows ((event r, waiting) ∷ rest) db = elim (Bool-cases (has_close waiting)) [
    | inl ends ↦
        ap (λ d. d.rows) (closed_round r waiting rest db ends)
        ∙ (finish-rows (r ∷ before_close waiting) db
            ∙ rw (before_close-append waiting (messages rest), ends)
                (ap (λ l. db.rows ++ (r ∷ l))
                  (sym (append-nil (before_close waiting))
                    ∙ sym (append-nil (before_close waiting ++ [])))))
    | inr runs ↦
        ap (λ d. d.rows) (open_round r waiting rest db runs)
        ∙ (writer-rows rest (flush_batch sound updates (r ∷ before_close waiting) db)
            ∙ (ap (λ l. l ++ (before_close (messages rest) ++ late rest))
                  (flush-rows (r ∷ before_close waiting) db)
                ∙ (append_assoc db.rows (r ∷ before_close waiting) _
                    ∙ rw (before_close-append waiting (messages rest), runs)
                        (ap (λ l. db.rows ++ (r ∷ l))
                          (sym (
                            append_assoc (before_close waiting) (before_close (messages rest))
                              (late rest)))))))
  ]
