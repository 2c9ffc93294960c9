-- ===== src/Migrations/Fuel.antt =====
-- About the fuel of `visit` in backend/src/ops_composer/db/migration_engine.py.
use ops_composer.Prelude.{
  ℕ, zero, suc, ◌≤◌, ◌<◌, String, ◌≡◌, ◌≢◌, refl, sym, ap, ◌∙◌, true, false, not, Option, none,
  some, List, [], ◌∷◌, map, inl, inr, arith, text_eq, Bool-cases, first_where, length, rows_where,
  sorted, has_text, remove_text, remove_text-cons, has_duplicates, text_refl, eq_iff,
}
use ops_composer.Migrations.Visit.{
  Migration, out_of_fuel, Outcome, done, failed, ◌>>=◌, Walk, id_of, by_id, enter, leave, visit_all,
  visit_new, visit, any_missing, start, walk, ordered_migrations,
}
use ops_composer.Migrations.Steps.{visit_all-keeps, visit-cases}

-- What is being visited is the same after a visit.
pub visit-visiting :
    (ms : List Migration) (n : ℕ) (id : String) (w w' : Walk)
    → visit ms n id w ≡ done w'
    → w'.visiting ≡ w.visiting
visit-visiting ms zero id w w' h = unfold visit in cc
visit-visiting ms (suc n) id w w' h = elim (visit-cases ms n id w w' h) [
  | inl (_, e) ↦ ap (λ (x : Walk). x.visiting) (sym e)
  | inr (m, mid, _, outside, _, deeper, e) ↦
      ap (λ (x : Walk). x.visiting) e
      ∙ ap (remove_text id) (
          visit_all-keeps (λ a b. b.visiting ≡ a.visiting) (visit ms n) (λ _. refl)
            (λ a b c p q. q ∙ p) (visit-visiting ms n) (sorted m.dependencies) (enter id w) mid
            deeper)
      ∙ remove_text-cons id w.visiting outside
]

-- The migrations that are not being visited.
free : List Migration → List String → ℕ
free ms vs = length (rows_where (λ m. not (has_text m.migration_id vs)) ms)

free-enter_le :
    (ms : List Migration) (id : String) (vs : List String) → free ms (id ∷ vs) ≤ free ms vs
unfolding free rows_where has_text
free-enter_le [] id vs = omega arith
free-enter_le (m ∷ ms) id vs = ground (arith, free-enter_le ms id vs)

free-enter :
    (ms : List Migration) (id : String) (vs : List String) (m : Migration)
    → by_id ms id ≡ some m
    → has_text id vs ≡ false
    → free ms (id ∷ vs) < free ms vs
unfolding free rows_where has_text by_id first_where
free-enter [] id vs m found outside = cc
free-enter (x ∷ ms) id vs m found outside = elim (Bool-cases (text_eq x.migration_id id)) [
  | inl mine ↦
      let e : x.migration_id ≡ id = (eq_iff x.migration_id id).0 mine in
      let flip : text_eq id x.migration_id ≡ true = rw e (text_refl id) in
      let away : has_text x.migration_id vs ≡ false = rw e outside in
      ground (arith, flip, away, free-enter_le ms id vs)
  | inr other ↦ ground (arith, other, found, free-enter ms id vs m (rw other at found) outside)
]

abbrev pub IsFueled : {A : Type 0} → Outcome A → Type 0
IsFueled (done a) = Unit
IsFueled (failed e) = e ≢ out_of_fuel

bind-IsFueled :
    {A B : Type 0} (m : Outcome A) (f : A → Outcome B)
    → IsFueled m
    → ((a : A) → m ≡ done a → IsFueled (f a))
    → IsFueled (m >>= f)
bind-IsFueled (done a) f h k = k a refl
bind-IsFueled (failed e) f h k = h

visit_all-IsFueled :
    (v : String → Walk → Outcome Walk) (vs : List String)
    → ((id : String) (w : Walk) → w.visiting ≡ vs → IsFueled (v id w))
    → ((id : String) (w w' : Walk) → v id w ≡ done w' → w'.visiting ≡ w.visiting)
    → (ids : List String) (w : Walk) → w.visiting ≡ vs
    → IsFueled (visit_all v ids w)
unfolding visit_all
visit_all-IsFueled v vs enough same [] w at = tt
visit_all-IsFueled v vs enough same (id ∷ ids) w at =
    bind-IsFueled (v id w) (visit_all v ids) (enough id w at)
      λ mid e. visit_all-IsFueled v vs enough same ids mid (same id w mid e ∙ at)

-- The part of a visit after the tests.
visit_new-IsFueled :
    (ms : List Migration) (n : ℕ) (id : String) (w : Walk)
    → ((x : String) (a : Walk) → free ms a.visiting < n → IsFueled (visit ms n x a))
    → free ms w.visiting < suc n
    → has_text id w.visiting ≡ false
    → (o : Option Migration) → by_id ms id ≡ o
    → IsFueled (visit_new (visit ms n) id o w)
unfolding visit_new
visit_new-IsFueled ms n id w deeper enough outside none found = λ e. cc
visit_new-IsFueled ms n id w deeper enough outside (some m) found =
    bind-IsFueled (visit_all (visit ms n) (sorted m.dependencies) (enter id w))
      (λ a. done (leave id m a))
      (visit_all-IsFueled (visit ms n) (id ∷ w.visiting)
        (λ x a at. deeper x a (rw at (omega (arith, free-enter ms id w.visiting m found outside))))
        (visit-visiting ms n) (sorted m.dependencies) (enter id w) refl)
      (λ a e. tt)

visit-IsFueled :
    (ms : List Migration) (n : ℕ) (id : String) (w : Walk)
    → free ms w.visiting < n
    → IsFueled (visit ms n id w)
unfolding visit
visit-IsFueled ms zero id w enough = absurd (omega (arith, enough))
visit-IsFueled ms (suc n) id w enough = elim (Bool-cases (has_text id w.visited)) [
  | inl seen ↦ rw seen tt
  | inr unseen ↦ elim (Bool-cases (has_text id w.visiting)) [
    | inl inside ↦ rw (unseen, inside) (λ e. cc)
    | inr outside ↦
        rw (unseen, outside)
          (visit_new-IsFueled ms n id w (visit-IsFueled ms n) enough outside (by_id ms id) refl)
  ]
]

free-nil : (ms : List Migration) → free ms [] ≤ length ms
unfolding free rows_where has_text
free-nil [] = omega arith
free-nil (m ∷ ms) = omega (arith, free-nil ms)

walk-IsFueled : (ms : List Migration) → IsFueled (walk ms)
unfolding walk
walk-IsFueled ms =
    visit_all-IsFueled (visit ms (suc (length ms))) []
      (λ id w at. visit-IsFueled ms (suc (length ms)) id w (rw at (omega (arith, free-nil ms))))
      (visit-visiting ms (suc (length ms))) (sorted (map id_of ms)) start refl

IsFueled-ne : {A : Type 0} (o : Outcome A) → IsFueled o → o ≢ failed out_of_fuel
IsFueled-ne (done a) h e = cc
IsFueled-ne (failed x) h e = h (cc)

-- Whatever the migrations and their dependencies are, cycles and gaps included, the walk ends with an
-- answer of the code: it never runs out of fuel.
pub ordered_migrations-fueled : (ms : List Migration) → ordered_migrations ms ≢ failed out_of_fuel
unfolding ordered_migrations
ordered_migrations-fueled ms = elim (Bool-cases (has_duplicates (map id_of ms))) [
  | inl twice ↦ rw twice (λ e. cc)
  | inr once ↦ elim (Bool-cases (any_missing (map id_of ms) ms)) [
    | inl missing ↦ rw (once, missing) (λ e. cc)
    | inr all ↦
        rw (once, all)
          (IsFueled-ne (walk ms >>= λ w. done w.ordered)
            (bind-IsFueled (walk ms) (λ w. done w.ordered) (walk-IsFueled ms) (λ a e. tt)))
  ]
]
