-- ===== src/Queue/Settled.antt =====
-- The agreement of the tables `runs` and `run_targets` as a predicate, and UPDATEs against it.
use mathlib.Core.Option
use ops_composer.Prelude.{
  ℕ, ◌≡◌, refl, ap, ◌∙◌, Bool, true, false, Option, none, some, List, inl, inr, ◌==◌, ==_iff,
  if◌then◌else◌, Bool-cases, All, All-map, All-update_where, All-first_where, update_where,
  first_where, first_where-update_where, first_where_holds,
}
use ops_composer.Db.{Db}
use ops_composer.Domain.Ops.{Run, RunTarget, is_terminal}
use ops_composer.Queue.Store.{has_run_id, is_queued, is_pending}
use ops_composer.Queue.Lifecycle.{is_open}

-- Every row is the one that its id finds: ids are not repeated.
abbrev pub IsKeyed : List Run → Type 0
IsKeyed runs = All (λ r. first_where (has_run_id r.run_id) runs ≡ some r) runs

abbrev pub Agrees : Option Run → RunTarget → Type 0
Agrees none t = ⊥
Agrees (some r) t =
    (is_terminal r.status ≡ true → is_open t.status ≡ false)
    × (is_queued r.status ≡ true → is_pending t.status ≡ true)

abbrev pub Settled : List Run → List RunTarget → Type 0
Settled runs targets = All (λ t. Agrees (first_where (has_run_id t.run_id) runs) t) targets

pub record IsSettled (db : Db) : Type 0 where
  pub keyed : IsKeyed db.runs
  pub settled : Settled db.runs db.run_targets

-- With ids as keys, a row that a test finds is the row of its id.
pub keyed_row :
    (runs : List Run) (q : Run → Bool) {r : Run}
    → IsKeyed runs
    → first_where q runs ≡ some r
    → first_where (has_run_id r.run_id) runs ≡ some r
keyed_row runs q keyed e =
    All-first_where (λ r. first_where (has_run_id r.run_id) runs ≡ some r) q runs e keyed

-- The first and the last run that an id finds are one.
pub same_row :
    (runs : List Run) (i j : ℕ) {r s : Run}
    → (i == j) ≡ true
    → first_where (has_run_id i) runs ≡ some r
    → first_where (has_run_id j) runs ≡ some s
    → r ≡ s
same_row runs i j same found other =
    let e : i ≡ j = (==_iff i j).0 same in
    let found' : first_where (has_run_id j) runs ≡ some _ = rw e at found in cc

-- A run's own id is the id that found it.
pub own_id :
    (runs : List Run) (i : ℕ) {r : Run} → first_where (has_run_id i) runs ≡ some r → r.run_id ≡ i
own_id runs i {r} found = (==_iff r.run_id i).0 (first_where_holds (has_run_id i) runs found)

module _ (p : Run → Bool) (f : Run → Run) (keep_id : (r : Run) → (f r).run_id ≡ r.run_id) where
  abbrev pub changed : Run → Run
  changed r = if p r then f r else r

  changed-run_id : (r : Run) → (changed r).run_id ≡ r.run_id
  changed-run_id r = elim (Bool-cases (p r)) [ inl e ↦ rw e (keep_id r) | inr e ↦ rw e ]

  -- An UPDATE that keeps the ids finds the changed row under the same id.
  pub first_where-update_runs :
      (run_id : ℕ) (runs : List Run)
      → first_where (has_run_id run_id) (update_where p f runs)
        ≡ Option.map changed (first_where (has_run_id run_id) runs)
  first_where-update_runs run_id runs =
      first_where-update_where (has_run_id run_id) p f (λ r. ap (λ i. i == run_id) (keep_id r)) runs

  pub update_runs-IsKeyed : (runs : List Run) → IsKeyed runs → IsKeyed (update_where p f runs)
  update_runs-IsKeyed runs keyed =
      All-update_where (λ r. first_where (has_run_id r.run_id) runs ≡ some r)
        (λ r. first_where (has_run_id r.run_id) (update_where p f runs) ≡ some r) p f runs
        (λ r found.
          rw changed-run_id (first_where-update_runs r.run_id runs ∙ ap (Option.map changed) found))
        keyed

  module _ (q : RunTarget → Bool) (g : RunTarget → RunTarget)
      (keep_run : (t : RunTarget) → (g t).run_id ≡ t.run_id) where
    abbrev pub moved : RunTarget → RunTarget
    moved t = if q t then g t else t

    moved-run_id : (t : RunTarget) → (moved t).run_id ≡ t.run_id
    moved-run_id t = elim (Bool-cases (q t)) [ inl e ↦ rw e (keep_run t) | inr e ↦ rw e ]

    target-Agrees :
        (runs : List Run) (t : RunTarget)
        → ((r : Run)
            → first_where (has_run_id t.run_id) runs ≡ some r
            → Agrees (some r) t
            → Agrees (some (changed r)) (moved t))
        → Agrees (first_where (has_run_id t.run_id) runs) t
        → Agrees (first_where (has_run_id (moved t).run_id) (update_where p f runs)) (moved t)
    target-Agrees runs t step h =
        rw (moved-run_id t, first_where-update_runs t.run_id runs)
          (go (first_where (has_run_id t.run_id) runs) refl h)
      where
        go :
            (o : Option Run)
            → first_where (has_run_id t.run_id) runs ≡ o
            → Agrees o t
            → Agrees (Option.map changed o) (moved t)
        go none e bad = absurd bad
        go (some r) e ok = step r e ok

    -- Two UPDATEs keep the tables in agreement if they do for each target and its run.
    pub update_both-Settled :
        (runs : List Run) (targets : List RunTarget)
        → ((r : Run) (t : RunTarget)
            → first_where (has_run_id t.run_id) runs ≡ some r
            → Agrees (some r) t
            → Agrees (some (changed r)) (moved t))
        → Settled runs targets
        → Settled (update_where p f runs) (update_where q g targets)
    update_both-Settled runs targets step h =
        All-update_where (λ t. Agrees (first_where (has_run_id t.run_id) runs) t)
          (λ t. Agrees (first_where (has_run_id t.run_id) (update_where p f runs)) t) q g targets
          (λ t. target-Agrees runs t (λ r. step r t)) h

-- An UPDATE of the runs alone.
module _ (p : Run → Bool) (f : Run → Run) (keep_id : (r : Run) → (f r).run_id ≡ r.run_id) where
  pub update_runs-Settled :
      (runs : List Run) (targets : List RunTarget)
      → ((r : Run) (t : RunTarget)
          → first_where (has_run_id t.run_id) runs ≡ some r
          → Agrees (some r) t
          → Agrees (some (if p r then f r else r)) t)
      → Settled runs targets
      → Settled (update_where p f runs) targets
  update_runs-Settled runs targets step h =
      All-map (λ t. Agrees (first_where (has_run_id t.run_id) runs) t)
        (λ t. Agrees (first_where (has_run_id t.run_id) (update_where p f runs)) t) targets
        (λ t. target-Agrees p f keep_id (λ _. false) (λ t. t) (λ t. refl) runs t (λ r. step r t)) h

-- An UPDATE of the targets alone.
module _ (q : RunTarget → Bool) (g : RunTarget → RunTarget)
    (keep_run : (t : RunTarget) → (g t).run_id ≡ t.run_id) where
  pub update_targets-Settled :
      (runs : List Run) (targets : List RunTarget)
      → ((o : Option Run) (t : RunTarget)
          → first_where (has_run_id t.run_id) runs ≡ o
          → q t ≡ true
          → Agrees o t
          → Agrees o (g t))
      → Settled runs targets
      → Settled runs (update_where q g targets)
  update_targets-Settled runs targets step h =
      All-update_where (λ t. Agrees (first_where (has_run_id t.run_id) runs) t)
        (λ t. Agrees (first_where (has_run_id t.run_id) runs) t) q g targets
        (λ t k. elim (Bool-cases (q t)) [
          | inl e ↦ simp (e, keep_run t) (step (first_where (has_run_id t.run_id) runs) t refl e k)
          | inr e ↦ rw e k
        ])
        h
