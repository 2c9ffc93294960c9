-- ===== src/Migrations/Current.antt =====
-- About the end of `up` of backend/src/ops_composer/db/migration_engine.py.
use ops_composer.Prelude.{
  ℕ, String, ◌≡◌, refl, sym, ap, ◌∙◌, subst, true, false, not, Option, some, List, [], ◌∷◌, ◌++◌,
  ◌||◌, map, inl, inr, arith, Bool-cases, All, All-map, All-rows_where, rows_where, exists_where,
  exists_where-append, exists_where-map, All-not_exists_where, has_text, has_text-append, text_refl,
}
use ops_composer.Migrations.Visit.{Migration, done, ◌>>=◌, id_of, by_id, ordered_migrations}
use ops_composer.Migrations.Steps.{>>=-eq-done, done-inj}
use ops_composer.Migrations.Order.{ordered_migrations_complete}
use ops_composer.Migrations.Runner.{
  Applied, Schema, row_id, applied_rows, is_pending, is_unknown, is_changed, validate_rows,
  validate_history, validate_current, row_of, apply_all, up,
}
use ops_composer.Migrations.Applied.{
  remaining, remaining-Covered, by_id-All, apply_all-remaining, apply_all-nothing,
}

validate_rows-eq-done :
    (checksum : Migration → String) (order : List Migration) (rows : List Applied)
    → validate_rows checksum order rows ≡ done tt
    → (exists_where (is_unknown checksum order) rows ≡ false)
      × (exists_where (is_changed checksum order) rows ≡ false)
unfolding validate_rows
validate_rows-eq-done checksum order rows h =
    elim (Bool-cases (exists_where (is_unknown checksum order) rows)) [
      | inl e ↦ absurd (ground (arith, rw e at h))
      | inr e ↦ elim (Bool-cases (exists_where (is_changed checksum order) rows)) [
        | inl k ↦ absurd (ground (arith, rw (e, k) at h))
        | inr k ↦ (e, k)
      ]
    ]

validate_rows_of :
    (checksum : Migration → String) (order : List Migration) (rows : List Applied)
    → exists_where (is_unknown checksum order) rows ≡ false
    → exists_where (is_changed checksum order) rows ≡ false
    → validate_rows checksum order rows ≡ done tt
unfolding validate_rows
validate_rows_of checksum order rows e k = rw (e, k) refl

row_ids :
    (checksum : Migration → String) (now : ℕ) (ms : List Migration)
    → map row_id (map (row_of checksum now) ms) ≡ map id_of ms
row_ids checksum now [] = refl
row_ids checksum now (m ∷ ms) = ap (λ ids. m.migration_id ∷ ids) (row_ids checksum now ms)

row_ids-append : (xs ys : List Applied) → map row_id (xs ++ ys) ≡ map row_id xs ++ map row_id ys
row_ids-append [] ys = refl
row_ids-append (x ∷ xs) ys = ap (λ ids. x.migration_id ∷ ids) (row_ids-append xs ys)

-- The rows of known migrations pass the tests.
module _ (checksum : Migration → String) (now : ℕ) (order : List Migration) where
  row_of-known :
      (m : Migration)
      → by_id order m.migration_id ≡ some m
      → (is_unknown checksum order (row_of checksum now m) ≡ false)
        × (is_changed checksum order (row_of checksum now m) ≡ false)
  unfolding is_unknown is_changed
  row_of-known m found = (rw found refl, rw (found, is_changed) (rw (text_refl (checksum m)) refl))

  -- Rows that pass, and the rows of migrations of the order.
  validate_rows-append :
      (rows : List Applied) (ms : List Migration)
      → validate_rows checksum order rows ≡ done tt
      → All (λ m. by_id order m.migration_id ≡ some m) ms
      → validate_rows checksum order (rows ++ map (row_of checksum now) ms) ≡ done tt
  validate_rows-append rows ms h known =
      let (a, b) = validate_rows-eq-done checksum order rows h in
      validate_rows_of checksum order (rows ++ map (row_of checksum now) ms)
        (exists_where-append (is_unknown checksum order) rows (map (row_of checksum now) ms)
          ∙ rw
              (
                a,
                exists_where-map (is_unknown checksum order) (row_of checksum now) ms (
                    All-map (λ m. by_id order m.migration_id ≡ some m)
                      (λ m. is_unknown checksum order (row_of checksum now m) ≡ false) ms
                      (λ m k. (row_of-known m k).0) known),
              )
              refl)
        (exists_where-append (is_changed checksum order) rows (map (row_of checksum now) ms)
          ∙ rw
              (
                b,
                exists_where-map (is_changed checksum order) (row_of checksum now) ms (
                    All-map (λ m. by_id order m.migration_id ≡ some m)
                      (λ m. is_changed checksum order (row_of checksum now m) ≡ false) ms
                      (λ m k. (row_of-known m k).1) known),
              )
              refl)

-- Where the rows pass and no migration is pending.
validate_current_of :
    (checksum : Migration → String) (order : List Migration) (rows : List Applied)
    → validate_rows checksum order rows ≡ done tt
    → All (λ m. has_text m.migration_id (map row_id rows) ≡ true) order
    → validate_current checksum order (some rows) ≡ done tt
unfolding validate_current validate_history is_pending
validate_current_of checksum order rows valid all =
    rw
      (
        valid,
        All-not_exists_where (λ m. not (has_text m.migration_id (map row_id rows))) order
            (All-map (λ m. has_text m.migration_id (map row_id rows) ≡ true)
              (λ m. not (has_text m.migration_id (map row_id rows)) ≡ false) order (λ m k. ap not k)
              all),
      )
      refl

up_current :
    {S : Type 0} (checksum : Migration → String) (run_sql : String → S → Option S) (now : ℕ)
    (order : List Migration) (rows : List Applied) (s : S)
    → validate_rows checksum order rows ≡ done tt
    → All (λ m. has_text m.migration_id (map row_id rows) ≡ true) order
    → up checksum run_sql now order (record { tracking = some rows; state = s })
      ≡ done ([], record { tracking = some rows; state = s })
unfolding up
up_current checksum run_sql now order rows s valid all =
    rw (valid, apply_all-nothing checksum run_sql now order (map row_id rows) rows s all) refl

module _ {S : Type 0} (checksum : Migration → String) (run_sql : String → S → Option S) (now : ℕ)
    (ms order : List Migration) (ordered : ordered_migrations ms ≡ done order) (db db' : Schema S)
    (ids : List String) (h : up checksum run_sql now order db ≡ done (ids, db')) where
  rest : List Migration
  rest = remaining (map row_id (applied_rows db.tracking)) order

  -- The parts of `up`.
  ran :
      (validate_rows checksum order (applied_rows db.tracking) ≡ done tt)
      × (ids ≡ map id_of rest)
      × (db'.tracking ≡ some (applied_rows db.tracking ++ map (row_of checksum now) rest))
  unfolding up rest
  ran =
      let rows = applied_rows db.tracking in
      let (u, valid, k) =
        >>=-eq-done (validate_rows checksum order rows)
          (λ _. apply_all checksum run_sql now order (map row_id rows) rows db.state >>= λ r.
            done (r.0, record { tracking = some r.1; state = r.2 }))
          h in
      let ((ids1, rows1, s1), loop, last) =
        >>=-eq-done (apply_all checksum run_sql now order (map row_id rows) rows db.state)
          (λ r. done (r.0, record { tracking = some r.1; state = r.2 })) k in
      let (a, b) =
        apply_all-remaining checksum run_sql now order (map row_id rows) rows db.state ids1 rows1 s1
          loop in
      let e : ◌≡◌ {A = List String × Schema S} (ids1, record { tracking = some rows1; state = s1 })
          (ids, db') =
        done-inj last in
      (
        valid,
        sym (ap (λ (x : List String × Schema S). x.0) e) ∙ a,
        sym (ap (λ (x : List String × Schema S). x.1.tracking) e) ∙ ap some b,
      )

  -- A run of the migrations, in the order of `ordered_migrations`, that returns gives the ids of the
  -- migrations without a row, in that order, and adds a row for each of them, with its checksum, behind the rows that were there.
  up-pending :
      (ids ≡ map id_of (rows_where (is_pending (applied_rows db.tracking)) order))
      × (db'.tracking
          ≡ some (
              applied_rows db.tracking
              ++ map
                  (row_of checksum now)
                  (rows_where (is_pending (applied_rows db.tracking)) order)))
  unfolding rest is_pending
  up-pending = (ran.1, ran.2)

  rows_after : List Applied
  rows_after = applied_rows db.tracking ++ map (row_of checksum now) rest

  covered : All (λ m. has_text m.migration_id (map row_id rows_after) ≡ true) order
  unfolding rest rows_after
  covered =
      let rows = applied_rows db.tracking in
      All-map
        (λ m.
          (has_text m.migration_id (map row_id rows) || has_text m.migration_id (map id_of rest))
          ≡ true)
        (λ m. has_text m.migration_id (map row_id rows_after) ≡ true) order
        (λ m k.
          ap (has_text m.migration_id) (
            row_ids-append rows (map (row_of checksum now) rest)
            ∙ ap (λ xs. map row_id rows ++ xs) (row_ids checksum now rest))
          ∙ has_text-append m.migration_id (map row_id rows) (map id_of rest)
          ∙ k)
        (remaining-Covered (map row_id rows) order)

  valid_after : validate_rows checksum order rows_after ≡ done tt
  unfolding rest rows_after
  valid_after = validate_rows-append checksum now order (applied_rows db.tracking) rest ran.0 (
      All-rows_where (λ m. by_id order m.migration_id ≡ some m)
        (λ m. not (has_text m.migration_id (map row_id (applied_rows db.tracking)))) order
        (All-map (λ m. by_id order m.migration_id ≡ some m)
          (λ m.
            not (has_text m.migration_id (map row_id (applied_rows db.tracking))) ≡ true
            → by_id order m.migration_id ≡ some m)
          order (λ m k _. k) (by_id-All order (ordered_migrations_complete ms order ordered).1)))

  -- After a run of the migrations, in the order of `ordered_migrations`, that returns,
  -- `validate_current` accepts the database.
  pub up-validate_current : validate_current checksum order db'.tracking ≡ done tt
  unfolding rows_after
  up-validate_current =
      subst (λ t. validate_current checksum order t ≡ done tt) (sym ran.2)
        (validate_current_of checksum order rows_after valid_after covered)

  -- After a run of the migrations, in the order of `ordered_migrations`, that returns, a second run, at any
  -- later time, applies nothing and changes nothing.
  up_again : (later : ℕ) → up checksum run_sql later order db' ≡ done ([], db')
  unfolding rows_after
  up_again later =
      let with_rows : Option (List Applied) → Schema S =
        λ t. record { tracking = t; state = db'.state } in
      subst (λ (x : Schema S). up checksum run_sql later order x ≡ done ([], x))
        (ap with_rows (sym ran.2))
        (up_current checksum run_sql later order rows_after db'.state valid_after covered)
