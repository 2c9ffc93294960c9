-- ===== src/Migrations/Applied.antt =====
-- About `up`, `status` and `validate_current` of backend/src/ops_composer/db/migration_engine.py.
use ops_composer.Prelude.{
  ℕ, String, ◌≡◌, refl, sym, ap, ◌∙◌, subst, true, false, not, Option, none, some, List, [], ◌∷◌,
  ◌++◌, ◌||◌, map, inl, inr, arith, text_eq, Bool-cases, All, All-map, All-both, rows_where,
  first_where, has_text, has_duplicates, text_refl, eq_iff, append_nil, append_assoc_one,
}
use ops_composer.Migrations.Visit.{Migration, done, ◌>>=◌, id_of, by_id}
use ops_composer.Migrations.Steps.{>>=-eq-done, done-inj}
use ops_composer.Migrations.Runner.{Applied, row_of, executed, apply_one, apply_all}

-- The migrations that are not among the ids.
abbrev pub remaining : List String → List Migration → List Migration
remaining before ms = rows_where (λ m. not (has_text m.migration_id before)) ms

module _ {S : Type 0} (checksum : Migration → String) (run_sql : String → S → Option S)
    (now : ℕ) where
  executed-row :
      (m : Migration) (rows : List Applied) (o : Option S) (r : List Applied × S)
      → executed checksum run_sql now m rows o ≡ done r
      → r.0 ≡ rows ++ row_of checksum now m ∷ []
  executed-row m rows none r h = cc
  executed-row m rows (some s) r h = sym (ap (λ (x : List Applied × S). x.0) (done-inj h))

  apply_one-row :
      (m : Migration) (rows : List Applied) (s : S) (r : List Applied × S)
      → apply_one checksum run_sql now m rows s ≡ done r
      → r.0 ≡ rows ++ row_of checksum now m ∷ []
  unfolding apply_one
  apply_one-row m rows s r h = executed-row m rows (run_sql m.up_sql s) r h

  -- What the loop returns: the ids and the rows of what was not applied before.
  pub apply_all-remaining :
      (ms : List Migration) (before : List String) (rows : List Applied) (s : S) (ids : List String)
      (rows' : List Applied) (s' : S)
      → apply_all checksum run_sql now ms before rows s ≡ done (ids, rows', s')
      → (ids ≡ map id_of (remaining before ms))
        × (rows' ≡ rows ++ map (row_of checksum now) (remaining before ms))
  unfolding apply_all rows_where has_text
  apply_all-remaining [] before rows s ids rows' s' h =
      let e : ◌≡◌ {A = List String × List Applied × S} ([], rows, s) (ids, rows', s') =
        done-inj h in
      (
        sym (ap (λ (x : List String × List Applied × S). x.0) e),
        sym (ap (λ (x : List String × List Applied × S). x.1) e) ∙ sym (append_nil rows),
      )
  apply_all-remaining (m ∷ ms) before rows s ids rows' s' h =
      elim (Bool-cases (has_text m.migration_id before)) [
        | inl was ↦
            rw was (apply_all-remaining ms before rows s ids rows' s' (rw (was, apply_all) at h))
        | inr new ↦
            let ((mid, t), first, rest) =
              >>=-eq-done (apply_one checksum run_sql now m rows s)
                (λ r. apply_all checksum run_sql now ms before r.0 r.1 >>= λ x.
                  done (m.migration_id ∷ x.0, x.1, x.2))
                (rw (new, apply_all) at h) in
            let ((ids1, rows1, s1), deeper, last) =
              >>=-eq-done (apply_all checksum run_sql now ms before mid t)
                (λ x. done (m.migration_id ∷ x.0, x.1, x.2)) rest in
            let (a, b) = apply_all-remaining ms before mid t ids1 rows1 s1 deeper in
            let e : ◌≡◌ {A = List String × List Applied × S} (m.migration_id ∷ ids1, rows1, s1)
                (ids, rows', s') =
              done-inj last in
            rw new (
              sym (ap (λ (x : List String × List Applied × S). x.0) e)
                  ∙ ap (λ xs. m.migration_id ∷ xs) a,
              sym (ap (λ (x : List String × List Applied × S). x.1) e)
                  ∙ b
                  ∙ ap (λ xs. xs ++ map (row_of checksum now) (remaining before ms))
                      (apply_one-row m rows s (mid, t) first)
                  ∙ append_assoc_one rows (map (row_of checksum now) (remaining before ms))
                      (row_of checksum now m),
            )
      ]

  -- A loop over migrations that are all applied does nothing.
  pub apply_all-nothing :
      (ms : List Migration) (before : List String) (rows : List Applied) (s : S)
      → All (λ m. has_text m.migration_id before ≡ true) ms
      → apply_all checksum run_sql now ms before rows s ≡ done ([], rows, s)
  unfolding apply_all
  apply_all-nothing [] before rows s h = refl
  apply_all-nothing (m ∷ ms) before rows s h =
      rw (h.0, apply_all) (apply_all-nothing ms before rows s h.1)

remaining_was :
    (before : List String) (m : Migration) (ms : List Migration)
    → has_text m.migration_id before ≡ true
    → remaining before (m ∷ ms) ≡ remaining before ms
unfolding rows_where
remaining_was before m ms h = rw h refl

remaining_new :
    (before : List String) (m : Migration) (ms : List Migration)
    → has_text m.migration_id before ≡ false
    → remaining before (m ∷ ms) ≡ m ∷ remaining before ms
unfolding rows_where
remaining_new before m ms h = rw h refl

-- Every migration of `ms` is applied before or among `rest`.
abbrev pub Covered : List String → List Migration → List Migration → Type 0
Covered before rest ms =
    All (λ m. (has_text m.migration_id before || has_text m.migration_id (map id_of rest)) ≡ true)
      ms

Covered-cons :
    (before : List String) (m : Migration) (rest ms : List Migration)
    → Covered before rest ms
    → Covered before (m ∷ rest) ms
unfolding has_text
Covered-cons before m rest [] h = tt
Covered-cons before m rest (x ∷ ms) h = (ground (arith, h.0), Covered-cons before m rest ms h.1)

pub remaining-Covered :
    (before : List String) (ms : List Migration) → Covered before (remaining before ms) ms
unfolding has_text
remaining-Covered before [] = tt
remaining-Covered before (m ∷ ms) = elim (Bool-cases (has_text m.migration_id before)) [
  | inl was ↦
      subst (λ rest. Covered before rest (m ∷ ms)) (sym (remaining_was before m ms was))
        (rw was refl, remaining-Covered before ms)
  | inr new ↦
      subst (λ rest. Covered before rest (m ∷ ms)) (sym (remaining_new before m ms new))
        (
          ground (arith, text_refl m.migration_id),
          Covered-cons before m (remaining before ms) ms (remaining-Covered before ms),
        )
]

-- With ids apart, a migration is found under its id.
ids_apart :
    (id : String) (ms : List Migration)
    → has_text id (map id_of ms) ≡ false
    → All (λ m. text_eq id m.migration_id ≡ false) ms
unfolding has_text
ids_apart id [] h = tt
ids_apart id (m ∷ ms) h = (
  ground (arith, h, eq_iff id m.migration_id, eq_iff m.migration_id id),
  ids_apart id ms (ground (arith, h)),
)

pub by_id-All :
    (ms : List Migration)
    → has_duplicates (map id_of ms) ≡ false
    → All (λ m. by_id ms m.migration_id ≡ some m) ms
unfolding by_id first_where has_duplicates
by_id-All [] h = tt
by_id-All (m ∷ ms) h =
    let apart : has_text m.migration_id (map id_of ms) ≡ false = ground (arith, h) in
    let rest : has_duplicates (map id_of ms) ≡ false = ground (arith, h) in
    (
      rw (text_refl m.migration_id) refl,
      All-map
          (λ x.
            (text_eq m.migration_id x.migration_id ≡ false) × (by_id ms x.migration_id ≡ some x))
          (λ x. by_id (m ∷ ms) x.migration_id ≡ some x) ms (λ x k. rw k.0 k.1)
          (All-both (λ x. text_eq m.migration_id x.migration_id ≡ false)
            (λ x. by_id ms x.migration_id ≡ some x) ms (ids_apart m.migration_id ms apart)
            (by_id-All ms rest)),
    )
