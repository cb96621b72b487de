-- ===== src/Events/Query.antt =====
-- The statement that `query_events` of clawpot-server/src/events/store.rs builds. Running it is
-- SQLite's part.
use clawpot.Common.{
  ℕ, ◌+◌, suc, ◌≡◌, refl, sym, ap, ap₂, ◌∙◌, Bool, true, false, List, [], ◌∷◌, ◌++◌, map, length,
  Option, none, some, Text, codes, dec, arith,
}
use mathlib.Core.List.{append_assoc, append-nil}

pub record EventFilters : Type 0 where
  pub session_id : Option Text
  pub vm_id : Option Text
  pub category : Option Text
  pub event_type : Option Text
  -- an `i64`: whether it is negative, and its absolute value
  pub limit : Option (Bool × ℕ)

abbrev pub Statement : Type 0
Statement = Text × List Text

abbrev pub base : Text
base =
    codes
      "SELECT id, session_id, timestamp, category, event_type, vm_id,\n                    correlation_id, duration_ms, success, data\n             FROM events WHERE 1=1"

-- ` AND column = ?n`
abbrev pub condition : Text → ℕ → Text
condition column n = codes " AND " ++ (column ++ (codes " = ?" ++ dec n))

unfoldable pub filter_by : Text → Option Text → Statement → Statement
filter_by column none q = q
filter_by column (some v) (sql, params) =
    (sql ++ condition column (length params + 1), params ++ v ∷ [])

abbrev pub limit_by : Option (Bool × ℕ) → Text
limit_by none = []
limit_by (some (true, n)) = codes " LIMIT -" ++ dec n
limit_by (some (false, n)) = codes " LIMIT " ++ dec n

-- The four filters of an `EventFilters`.
unfoldable pub filter_all : EventFilters → Statement → Statement
unfolding filter_by
filter_all f q = filter_by (codes "event_type") f.event_type (
    filter_by (codes "category") f.category
      (filter_by (codes "vm_id") f.vm_id (filter_by (codes "session_id") f.session_id q)))

unfoldable pub query_events : EventFilters → Statement
unfolding filter_all
query_events f =
    let (sql, params) = filter_all f (base, []) in
    ((sql ++ codes " ORDER BY timestamp ASC, id ASC") ++ limit_by f.limit, params)

-- The filters that are set, with their columns.
abbrev pub Filter : Type 0
Filter = Text × Text

abbrev pub set_filter : Text → Option Text → List Filter
set_filter column none = []
set_filter column (some v) = (column, v) ∷ []

unfoldable pub set_filters : EventFilters → List Filter
set_filters f =
    ((set_filter (codes "session_id") f.session_id ++ set_filter (codes "vm_id") f.vm_id)
      ++ set_filter (codes "category") f.category)
    ++ set_filter (codes "event_type") f.event_type

-- The conditions of filters, numbered from `n` on.
unfoldable pub conditions : ℕ → List Filter → Text
conditions n [] = []
conditions n ((column, v) ∷ fs) = condition column n ++ conditions (n + 1) fs

abbrev pub values : List Filter → List Text
values fs = map (λ f. f.1) fs

conditions-append :
    (n : ℕ) (fs gs : List Filter)
    → conditions n (fs ++ gs) ≡ conditions n fs ++ conditions (n + length fs) gs
unfolding conditions
conditions-append n [] gs = ap (λ k. conditions k gs) (omega arith)
conditions-append n (f ∷ fs) gs =
    ap (λ t. condition f.0 n ++ t)
      (conditions-append (n + 1) fs gs
        ∙ ap (λ k. conditions (n + 1) fs ++ conditions k gs) (omega arith))
    ∙ sym (
        append_assoc (condition f.0 n) (conditions (n + 1) fs)
          (conditions (n + suc (length fs)) gs))

values-append : (fs gs : List Filter) → values (fs ++ gs) ≡ values fs ++ values gs
values-append [] gs = refl
values-append (f ∷ fs) gs = ap (λ l. f.1 ∷ l) (values-append fs gs)

length-values : (fs : List Filter) → length (values fs) ≡ length fs
length-values [] = refl
length-values (f ∷ fs) = ap suc (length-values fs)

-- The statement for filters, behind the text `head`.
abbrev pub statement : Text → List Filter → Statement
statement head fs = (head ++ conditions 1 fs, values fs)

one_condition :
    (column v : Text) (fs : List Filter)
    → condition column (length (values fs) + 1) ≡ conditions (1 + length fs) ((column, v) ∷ [])
unfolding conditions
one_condition column v fs =
    ap (condition column) (omega (arith, length-values fs))
    ∙ sym (append-nil (condition column (1 + length fs)))

filter_by-statement :
    (head column : Text) (o : Option Text) (fs : List Filter)
    → filter_by column o (statement head fs) ≡ statement head (fs ++ set_filter column o)
unfolding filter_by
filter_by-statement head column none fs = ap (statement head) (sym (append-nil fs))
filter_by-statement head column (some v) fs =
    ap₂ (λ a b. (a, b))
      (append_assoc head (conditions 1 fs) (condition column (length (values fs) + 1))
        ∙ ap (λ t. head ++ t)
            (ap (λ t. conditions 1 fs ++ t) (one_condition column v fs)
              ∙ sym (conditions-append 1 fs ((column, v) ∷ []))))
      (sym (values-append fs ((column, v) ∷ [])))

-- The four filters add their conditions in the order of the columns.
pub filter_all-statement :
    (head : Text) (f : EventFilters) → filter_all f (head, []) ≡ statement head (set_filters f)
unfolding filter_all set_filters conditions
filter_all-statement head f =
    let s1 = set_filter (codes "session_id") f.session_id in
    let s2 = s1 ++ set_filter (codes "vm_id") f.vm_id in
    let s3 = s2 ++ set_filter (codes "category") f.category in
    ap (λ q. filter_all f (q, [])) (sym (append-nil head))
    ∙ ap (filter_by (codes "event_type") f.event_type) (
        ap (filter_by (codes "category") f.category) (
          ap (filter_by (codes "vm_id") f.vm_id)
            (filter_by-statement head (codes "session_id") f.session_id [])
          ∙ filter_by-statement head (codes "vm_id") f.vm_id s1)
        ∙ filter_by-statement head (codes "category") f.category s2)
    ∙ filter_by-statement head (codes "event_type") f.event_type s3

-- The end of the statement: the order, and the limit, if one is set.
abbrev pub ordered : EventFilters → Statement → Statement
ordered f q = ((q.0 ++ codes " ORDER BY timestamp ASC, id ASC") ++ limit_by f.limit, q.1)

-- The statement has one condition for each filter that is set, in the order of the columns, and the
-- placeholder of each has the number at which its value stands among the parameters; then come the
-- order and the limit, if one is set.
pub query_events-conditions :
    (f : EventFilters) → query_events f ≡ ordered f (statement base (set_filters f))
unfolding query_events
query_events-conditions f = ap (ordered f) (filter_all-statement base f)
