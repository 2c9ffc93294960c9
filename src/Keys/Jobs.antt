-- ===== src/Keys/Jobs.antt =====
-- The rotation jobs (repositories/encryption.py) under a claim and under the progress of a batch, when
-- one job is active.
use ops_composer.Prelude.{
  ℕ, ◌≤◌, Bool, true, false, Option, none, some, List, [], ◌∷◌, ◌≡◌, refl, ◌∙◌, subst, inl, inr,
  arith, ==_iff, length, All, All-map, All-update_where, All-order_by, All-rows_where, All-both,
  rows_where, update_where, exists_where, order_by, first, length-order_by,
  exists_where-update_where_same, Bool-cases,
}
use ops_composer.Db.{Db}
use ops_composer.Domain.Encryption.{KeyRotationState, KeyRotationJob}
use ops_composer.Keys.Store.{later, active, is_active, has_job_id, is_due, is_claimable, candidate}
use ops_composer.Keys.Shrinks.{alone}

-- The job is there, in a state and for a version, and no other job is active.
pub record IsSole (state : KeyRotationState) (target job_id : ℕ) (jobs : List KeyRotationJob)
    : Type 0 where
  pub there : exists_where (has_job_id job_id) jobs ≡ true
  pub at_state :
      All
        (λ j. has_job_id job_id j ≡ true → (j.state ≡ state) × (j.target_key_version ≡ target))
        jobs
  pub only : All (λ j. is_active j ≡ true → has_job_id job_id j ≡ true) jobs

-- A statement that sets the state of the job.
pub update-IsSole :
    (before after : KeyRotationState) (target job_id : ℕ) (f : KeyRotationJob → KeyRotationJob)
    → ((j : KeyRotationJob)
        → (has_job_id job_id (f j) ≡ has_job_id job_id j)
          × ((f j).state ≡ after)
          × ((f j).target_key_version ≡ j.target_key_version))
    → (jobs : List KeyRotationJob) → IsSole before target job_id jobs
    → IsSole after target job_id (update_where (has_job_id job_id) f jobs)
update-IsSole before after target job_id f sets jobs h = record {
  there =
      exists_where-update_where_same (has_job_id job_id) (has_job_id job_id) f (λ j. (sets j).0)
        jobs
      ∙ h.there;
  at_state =
      All-update_where _ _ (has_job_id job_id) f jobs
        (λ j old. elim (Bool-cases (has_job_id job_id j)) [
          | inl e ↦ rw e (λ _. ((sets j).1, (sets j).2 ∙ (old e).1))
          | inr e ↦ rw e (λ found. absurd (cc (found, e)))
        ])
        h.at_state;
  only =
      All-update_where _ _ (has_job_id job_id) f jobs
        (λ j old. elim (Bool-cases (has_job_id job_id j)) [
          | inl e ↦ rw e (λ _. (sets j).0 ∙ e)
          | inr e ↦ rw e old
        ])
        h.only;
}

first_of : {R : Type 0} (rs : List R) → 1 ≤ length rs → (r : R) × (first rs ≡ some r)
first_of [] h = absurd (omega (arith, h))
first_of (r ∷ rs) h = (r, refl)

All-first : {R : Type 0} (P : R → Type 0) (rs : List R) {r : R} → All P rs → first rs ≡ some r → P r
All-first P [] h e = cc
All-first P (s ∷ rs) {r} h e = let same : s ≡ r = cc in subst P same h.0

some_selected :
    {R : Type 0} (p : R → Bool) (rs : List R)
    → exists_where p rs ≡ true
    → 1 ≤ length (rows_where p rs)
unfolding exists_where rows_where
some_selected p [] h = cc
some_selected p (r ∷ rs) h = ground (arith, some_selected p rs)

exists_where-All :
    {R : Type 0} (p q : R → Bool) (rs : List R)
    → All (λ r. p r ≡ true → q r ≡ true) rs
    → exists_where p rs ≡ true
    → exists_where q rs ≡ true
unfolding exists_where
exists_where-All p q [] inside h = h
exists_where-All p q (r ∷ rs) inside h = elim (Bool-cases (p r)) [
  | inl e ↦ rw (inside.0 e) refl
  | inr e ↦ ground (arith, exists_where-All p q rs inside.1 (rw e at h))
]

due_active :
    (now : ℕ) (state : KeyRotationState) (lease : Option ℕ)
    → is_due now state lease ≡ true
    → active state ≡ true
due_active now KeyRotationState.pending lease h = refl
due_active now KeyRotationState.running lease h = refl
due_active now KeyRotationState.succeeded lease h = cc
due_active now KeyRotationState.failed lease h = cc

ended_active :
    {state : KeyRotationState} → state ≡ KeyRotationState.succeeded → active state ≡ true → ⊥
ended_active e h = let live : active KeyRotationState.succeeded ≡ true = rw e at h in cc

-- The job that a claim finds.
pub candidate_sole :
    (target job_id now : ℕ) (db : Db)
    → IsSole KeyRotationState.pending target job_id db.key_rotation_jobs
    → (j : KeyRotationJob) × (candidate alone now db ≡ some j)
      × (j.key_rotation_job_id ≡ job_id)
      × (j.target_key_version ≡ target)
unfolding candidate
candidate_sole target job_id now db h =
    let sorted = order_by (λ i j. later j i) chosen in
    let (j, e) =
      first_of sorted (
        omega (arith, some_selected due jobs present, length-order_by (λ i j. later j i) chosen)) in
    let (id, at) =
      All-first Sole sorted
        (All-order_by Sole (λ i j. later j i) chosen (All-rows_where Sole due jobs soles)) e in
    (j, e, (==_iff j.key_rotation_job_id job_id).0 id, at)
  where
    jobs : List KeyRotationJob
    jobs = db.key_rotation_jobs

    due : KeyRotationJob → Bool
    due = is_claimable alone now

    chosen : List KeyRotationJob
    chosen = rows_where due jobs

    At : KeyRotationJob → Type 0
    At i =
        has_job_id job_id i ≡ true
        → (i.state ≡ KeyRotationState.pending) × (i.target_key_version ≡ target)

    Only : KeyRotationJob → Type 0
    Only i = is_active i ≡ true → has_job_id job_id i ≡ true

    Sole : KeyRotationJob → Type 0
    Sole i = (has_job_id job_id i ≡ true) × (i.target_key_version ≡ target)

    present : exists_where due jobs ≡ true
    present =
        exists_where-All (has_job_id job_id) due jobs
          (All-map At (λ i. has_job_id job_id i ≡ true → due i ≡ true) jobs
            (λ i waits e. rw (waits e).0 refl) h.at_state)
          h.there

    soles : All (λ i. due i ≡ true → Sole i) jobs
    soles =
        All-map (λ i. Only i × At i) (λ i. due i ≡ true → Sole i) jobs
          (λ i both e.
            let found = both.0 (due_active now i.state i.lease_expires_at e) in
            (found, (both.1 found).1))
          (All-both Only At jobs h.only h.at_state)

none_selected :
    {R : Type 0} (p : R → Bool) (rs : List R) → All (λ r. p r ≡ false) rs → rows_where p rs ≡ []
unfolding rows_where
none_selected p [] h = refl
none_selected p (r ∷ rs) h = rw h.0 (none_selected p rs h.1)

-- A job that has ended is not claimed, and no other is active.
pub no_candidate :
    (target job_id now : ℕ) (db : Db)
    → IsSole KeyRotationState.succeeded target job_id db.key_rotation_jobs
    → candidate alone now db ≡ none
unfolding candidate order_by
no_candidate target job_id now db h =
    let jobs = db.key_rotation_jobs in
    let none_due : All (λ i. is_claimable alone now i ≡ false) jobs =
      All-map
        (λ i.
          (is_active i ≡ true → has_job_id job_id i ≡ true)
          × (has_job_id job_id i ≡ true
              → (i.state ≡ KeyRotationState.succeeded) × (i.target_key_version ≡ target)))
        (λ i. is_claimable alone now i ≡ false) jobs
        (λ i both. elim (Bool-cases (is_claimable alone now i)) [
          | inr e ↦ e
          | inl e ↦
              let live = due_active now i.state i.lease_expires_at e in
              let ended = (both.1 (both.0 live)).0 in absurd (ended_active ended live)
        ])
        (All-both _ _ jobs h.only h.at_state) in
    rw (none_selected (is_claimable alone now) jobs none_due) refl
