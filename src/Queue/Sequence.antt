-- ===== src/Queue/Sequence.antt =====
-- About the numbers that `append_event` of repositories/runs.py gives to the events of a run.
use mathlib.Core.Option
use ops_composer.Prelude.{
  ℕ, zero, suc, ◌≡◌, refl, ap, ◌∙◌, Bool, false, Option, none, some, List, [], ◌∷◌, ◌++◌, inl, inr,
  arith, ◌==◌, ==_iff, ==_refl, if◌then◌else◌, Bool-cases, exists_where, rows_where, map,
  update_where, first_where-update_where,
}
use ops_composer.Db.{Db, ok, After, After-ok}
use ops_composer.Domain.Ops.{Run, RunEvent}
use ops_composer.Queue.Store.{has_run_id, run_of}
use ops_composer.Queue.Settled.{own_id, same_row}
use ops_composer.Queue.Events.{append_to, append_event, next_sequence, same_event}

-- 1, 2, …, n
abbrev pub counted : ℕ → List ℕ
counted zero = []
counted (suc n) = counted n ++ suc n ∷ []

abbrev pub event_of : ℕ → RunEvent → Bool
event_of run_id e = e.run_id == run_id

-- The sequence numbers of a run's events, in the order in which they were stored.
abbrev pub sequences : ℕ → List RunEvent → List ℕ
sequences run_id es = map (λ e. e.sequence) (rows_where (event_of run_id) es)

-- The run's events are numbered from 1 to n, and n + 1 is next.
abbrev pub IsNumbered : ℕ → Db → Type 0
IsNumbered run_id db =
    (n : ℕ) × (r : Run) × (run_of run_id db ≡ some r)
    × (r.next_event_sequence ≡ suc n)
    × (sequences run_id db.run_events ≡ counted n)

sequences-append_own :
    (run_id : ℕ) (es : List RunEvent) (e : RunEvent)
    → e.run_id ≡ run_id
    → sequences run_id (es ++ e ∷ []) ≡ sequences run_id es ++ e.sequence ∷ []
unfolding rows_where
sequences-append_own run_id [] e own = rw (own, ==_refl run_id)
sequences-append_own run_id (x ∷ es) e own = elim (Bool-cases (x.run_id == run_id)) [
  | inl h ↦ rw h (ap (λ ns. x.sequence ∷ ns) (sequences-append_own run_id es e own))
  | inr h ↦ rw h (sequences-append_own run_id es e own)
]

sequences-append_other :
    (run_id : ℕ) (es : List RunEvent) (e : RunEvent)
    → (e.run_id == run_id) ≡ false
    → sequences run_id (es ++ e ∷ []) ≡ sequences run_id es
unfolding rows_where
sequences-append_other run_id [] e other = rw other
sequences-append_other run_id (x ∷ es) e other = elim (Bool-cases (x.run_id == run_id)) [
  | inl h ↦ rw h (ap (λ ns. x.sequence ∷ ns) (sequences-append_other run_id es e other))
  | inr h ↦ rw h (sequences-append_other run_id es e other)
]

-- The two tables after an event was stored.
stored : RunEvent → Db → Db
stored row db = record db {
  runs = update_where (has_run_id row.run_id) next_sequence db.runs;
  run_events = db.run_events ++ row ∷ [];
}

run_of-stored :
    (run_id : ℕ) (row : RunEvent) (db : Db) (r : Run)
    → run_of run_id db ≡ some r
    → run_of run_id (stored row db) ≡ some (if has_run_id row.run_id r then next_sequence r else r)
unfolding run_of stored
run_of-stored run_id row db r found =
    first_where-update_where (has_run_id run_id) (has_run_id row.run_id) next_sequence (λ x. refl)
      db.runs
    ∙ ap (Option.map _) found

stored-own :
    (run_id n : ℕ) (row : RunEvent) (db : Db) (r : Run)
    → run_of run_id db ≡ some r
    → r.run_id ≡ run_id
    → r.next_event_sequence ≡ suc n
    → sequences run_id db.run_events ≡ counted n
    → row.run_id ≡ run_id
    → row.sequence ≡ suc n
    → IsNumbered run_id (stored row db)
unfolding stored
stored-own run_id n row db r found own_row next seqs own count = (
  suc n,
  next_sequence r,
  run_of-stored run_id row db r found ∙ rw (own, own_row, ==_refl run_id),
  rw next (omega arith),
  sequences-append_own run_id db.run_events row own ∙ rw (seqs, count),
)

stored-other :
    (run_id n : ℕ) (row : RunEvent) (db : Db) (r : Run)
    → run_of run_id db ≡ some r
    → r.run_id ≡ run_id
    → r.next_event_sequence ≡ suc n
    → sequences run_id db.run_events ≡ counted n
    → (row.run_id == run_id) ≡ false
    → IsNumbered run_id (stored row db)
unfolding stored
stored-other run_id n row db r found own_row next seqs other = (
  n,
  r,
  run_of-stored run_id row db r found ∙ ground (arith, own_row, other),
  next,
  sequences-append_other run_id db.run_events row other ∙ seqs,
)

append_to-IsNumbered :
    (run_id : ℕ) (e : RunEvent) (db : Db)
    → IsNumbered run_id db
    → (o : Option Run) → run_of e.run_id db ≡ o
    → After (IsNumbered run_id) (append_to e o db)
unfolding append_to run_of stored
append_to-IsNumbered run_id e db numbered none found = tt
append_to-IsNumbered run_id e db (n, r, row, next, seqs) (some s) found =
    let own_row : r.run_id ≡ run_id = own_id db.runs run_id row in
    elim (Bool-cases
      (exists_where (same_event (record e { sequence = s.next_event_sequence })) db.run_events)) [
        | inl clash ↦ rw clash tt
        | inr new ↦ rw new (elim (Bool-cases (e.run_id == run_id)) [
          | inl own ↦
              let same : s ≡ r = same_row db.runs e.run_id run_id own found row in
              stored-own run_id n (record e { sequence = s.next_event_sequence }) db r row own_row
                next seqs ((==_iff e.run_id run_id).0 own)
                (ap (λ (x : Run). x.next_event_sequence) same ∙ next)
          | inr other ↦
              stored-other run_id n (record e { sequence = s.next_event_sequence }) db r row own_row
                next seqs other
        ])
      ]

-- If a run's events are numbered from 1 without a gap and the run knows the next number, the same holds
-- after an event of any run is stored.
pub append_event-IsNumbered :
    (run_id : ℕ) (e x : RunEvent) (db db' : Db)
    → IsNumbered run_id db
    → append_event e db ≡ ok (x, db')
    → IsNumbered run_id db'
unfolding append_event
append_event-IsNumbered run_id e x db db' numbered done =
    After-ok (IsNumbered run_id) _
      (append_to-IsNumbered run_id e db numbered (run_of e.run_id db) refl) done
