-- ===== src/Events/Writer/Session.antt =====
-- A whole session: what is emitted until it is closed, and what the database then holds.
use clawpot.Common.{
  ◌≡◌, refl, sym, ap, ap₂, ◌∙◌, subst, Bool, true, false, List, [], ◌∷◌, ◌++◌, map, if◌then◌else◌,
  Bool-cases, inl, inr,
}
use mathlib.Core.List.{append_assoc, append-nil}
use clawpot.Events.Store.{
  PersistMode, EventRecord, WriterMsg, event, close, EventStore, should_persist, emit_inner,
  close_session,
}
use clawpot.Events.Writer.{Arrivals, Db, background_writer}
use clawpot.Events.Writer.Persisted.{
  messages, before_close, all_events, has_close, late, sound, writer-rows,
}

unfoldable pub emit_all : List EventRecord → EventStore → EventStore
emit_all [] s = s
emit_all (r ∷ rs) s = emit_all rs (emit_inner r s).1

-- The events that the mode persists.
unfoldable pub kept : PersistMode → List EventRecord → List EventRecord
kept mode [] = []
kept mode (r ∷ rs) = if should_persist mode r.event_type then r ∷ kept mode rs else kept mode rs

-- One event, into a channel whose writer is alive.
emit-sent :
    (r : EventRecord) (s : EventStore)
    → s.writer_alive ≡ true
    → ((emit_inner r s).1.sent ≡ s.sent ++ map event (kept s.persist_mode (r ∷ [])))
      × ((emit_inner r s).1.writer_alive ≡ true)
      × ((emit_inner r s).1.persist_mode ≡ s.persist_mode)
unfolding emit_inner kept
emit-sent r s alive = elim (Bool-cases (should_persist s.persist_mode r.event_type)) [
  | inl keep ↦ rw (keep, alive) (refl, refl, refl)
  | inr skip ↦ rw skip (sym (append-nil s.sent), alive, refl)
]

kept-cons :
    (mode : PersistMode) (r : EventRecord) (rs : List EventRecord)
    → kept mode (r ∷ []) ++ kept mode rs ≡ kept mode (r ∷ rs)
unfolding kept
kept-cons mode r rs = elim (Bool-cases (should_persist mode r.event_type)) [
  | inl keep ↦ rw keep refl
  | inr skip ↦ rw skip refl
]

map-append : (xs ys : List EventRecord) → map event (xs ++ ys) ≡ map event xs ++ map event ys
map-append [] ys = refl
map-append (x ∷ xs) ys = ap (λ l. event x ∷ l) (map-append xs ys)

emit_all-sent :
    (rs : List EventRecord) (s : EventStore)
    → s.writer_alive ≡ true
    → ((emit_all rs s).sent ≡ s.sent ++ map event (kept s.persist_mode rs))
      × ((emit_all rs s).writer_alive ≡ true)
unfolding emit_all
emit_all-sent [] s alive = (unfold kept in sym (append-nil s.sent), alive)
emit_all-sent (r ∷ rs) s alive =
    let (one, still, mode) = emit-sent r s alive in
    let (more, last) = emit_all-sent rs (emit_inner r s).1 still in
    (
      more
          ∙ (ap₂ (λ l m. l ++ map event (kept m rs)) one mode
              ∙ (append_assoc s.sent (map event (kept s.persist_mode (r ∷ []))) _
                  ∙ ap (λ l. s.sent ++ l)
                      (sym (map-append (kept s.persist_mode (r ∷ [])) (kept s.persist_mode rs))
                        ∙ ap (map event) (kept-cons s.persist_mode r rs)))),
      last,
    )

before_close-map : (rs : List EventRecord) → before_close (map event rs ++ close ∷ []) ≡ rs
unfolding before_close
before_close-map [] = refl
before_close-map (r ∷ rs) = ap (λ l. r ∷ l) (before_close-map rs)

-- Nothing is sent behind the first close.
abbrev LastClose : List WriterMsg → Type 0
LastClose [] = Unit {0}
LastClose (event r ∷ ms) = LastClose ms
LastClose (close ∷ ms) = ms ≡ []

map-LastClose : (rs : List EventRecord) → LastClose (map event rs ++ close ∷ [])
map-LastClose [] = refl
map-LastClose (r ∷ rs) = map-LastClose rs

LastClose-append :
    (xs ys : List WriterMsg) → LastClose (xs ++ ys) → has_close xs ≡ false → LastClose ys
unfolding has_close
LastClose-append [] ys h k = h
LastClose-append (event r ∷ xs) ys h k = LastClose-append xs ys h k
LastClose-append (close ∷ xs) ys h k = cc

all_events-append_nil : (ms xs : List WriterMsg) → ms ++ xs ≡ [] → all_events ms ≡ []
unfolding all_events
all_events-append_nil [] xs h = refl
all_events-append_nil (m ∷ ms) xs h = cc

late-none : (arrivals : Arrivals) → LastClose (messages arrivals) → late arrivals ≡ []
unfolding late messages
late-none [] h = refl
late-none ((close, waiting) ∷ rest) h = all_events-append_nil waiting (messages rest) h
late-none ((event r, waiting) ∷ rest) h = elim (Bool-cases (has_close waiting)) [
  | inl ends ↦ rw ends refl
  | inr runs ↦ rw runs (late-none rest (LastClose-append waiting (messages rest) h runs))
]

-- Where every transaction commits and the writer lives until the session is closed: after a session
-- that starts with an empty channel, emits `rs` and is then closed, the database holds exactly the events of `rs` that the mode
-- persists, once and in order, however the writer's looks into the channel fall.
pub session-rows :
    (updates : Db → Bool) (rs : List EventRecord) (s : EventStore) (arrivals : Arrivals) (db : Db)
    → s.writer_alive ≡ true
    → s.sent ≡ []
    → messages arrivals ≡ (close_session (emit_all rs s)).sent
    → (background_writer sound updates arrivals db).rows ≡ db.rows ++ kept s.persist_mode rs
session-rows updates rs s arrivals db alive fresh all =
    let (sent, still) = emit_all-sent rs s alive in
    let queue : messages arrivals ≡ map event (kept s.persist_mode rs) ++ close ∷ [] =
      all
      ∙ (unfold close_session in
          rw still (
            ap (λ l. l ++ close ∷ [])
              (sent ∙ ap (λ l. l ++ map event (kept s.persist_mode rs)) fresh))) in
    let none_late : late arrivals ≡ [] =
      late-none arrivals (subst LastClose (sym queue) (map-LastClose (kept s.persist_mode rs))) in
    writer-rows updates arrivals db
    ∙ ap (λ l. db.rows ++ l)
        (ap₂ (λ a b. a ++ b) (ap before_close queue ∙ before_close-map (kept s.persist_mode rs))
            none_late
          ∙ append-nil (kept s.persist_mode rs))
