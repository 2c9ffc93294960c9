-- ===== src/Migrations/Steps.antt =====
-- `visit` of backend/src/ops_composer/db/migration_engine.py, inverted, and what a loop of visits keeps.
use ops_composer.Prelude.{
  ℕ, suc, String, ◌≡◌, refl, sym, subst, true, false, Option, none, some, List, [], ◌∷◌, inl, inr,
  arith, ◌⊎◌, Bool-cases, sorted, has_text,
}
use ops_composer.Migrations.Visit.{
  Migration, Outcome, done, failed, ◌>>=◌, Walk, by_id, enter, leave, visit_all, visit_new, visit,
}

pub >>=-eq-done :
    {A B : Type 0} (m : Outcome A) (f : A → Outcome B) {b : B}
    → (m >>= f) ≡ done b
    → (a : A) × (m ≡ done a) × (f a ≡ done b)
>>=-eq-done (done a) f h = (a, refl, h)
>>=-eq-done (failed e) f h = cc

pub done-inj : {A : Type 0} {a b : A} → ◌≡◌ {A = Outcome A} (done a) (done b) → a ≡ b
done-inj e = cc

-- A loop over ids keeps what each visit keeps.
pub visit_all-keeps :
    (P : Walk → Walk → Type 0) (v : String → Walk → Outcome Walk)
    → ((w : Walk) → P w w)
    → ((a b c : Walk) → P a b → P b c → P a c)
    → ((id : String) (w w' : Walk) → v id w ≡ done w' → P w w')
    → (ids : List String) (w w' : Walk) → visit_all v ids w ≡ done w'
    → P w w'
unfolding visit_all
visit_all-keeps P v same both one [] w w' h = subst (P w) (done-inj h) (same w)
visit_all-keeps P v same both one (id ∷ ids) w w' h =
    let (mid, first, rest) = >>=-eq-done (v id w) (visit_all v ids) h in
    both w mid w' (one id w mid first) (visit_all-keeps P v same both one ids mid w' rest)

module _ (ms : List Migration) (n : ℕ) (id : String) (w w' : Walk) where
  -- A visit that does its work: the migration, and the walk after its dependencies.
  abbrev pub Works : Type 0
  Works =
      (m : Migration) × (mid : Walk) × (has_text id w.visited ≡ false)
      × (has_text id w.visiting ≡ false)
      × (by_id ms id ≡ some m)
      × (visit_all (visit ms n) (sorted m.dependencies) (enter id w) ≡ done mid)
      × (w' ≡ leave id m mid)

  visit_new-works :
      (o : Option Migration)
      → has_text id w.visited ≡ false
      → has_text id w.visiting ≡ false
      → by_id ms id ≡ o
      → visit_new (visit ms n) id o w ≡ done w'
      → Works
  unfolding visit_new
  visit_new-works none unseen outside found h = cc
  visit_new-works (some m) unseen outside found h =
      let (mid, deeper, last) =
        >>=-eq-done (visit_all (visit ms n) (sorted m.dependencies) (enter id w))
          (λ a. done (leave id m a)) h in
      (m, mid, unseen, outside, found, deeper, sym (done-inj last))

  -- A visit that returns has been there before, or does its work.
  pub visit-cases :
      visit ms (suc n) id w ≡ done w' → ((has_text id w.visited ≡ true) × (w ≡ w')) ⊎ Works
  unfolding visit
  visit-cases h = elim (Bool-cases (has_text id w.visited)) [
    | inl seen ↦ inl (seen, done-inj (rw seen at h))
    | inr unseen ↦ elim (Bool-cases (has_text id w.visiting)) [
      | inl inside ↦ absurd (ground (arith, rw (unseen, inside) at h))
      | inr outside ↦
          inr (visit_new-works (by_id ms id) unseen outside refl (rw (unseen, outside) at h))
    ]
  ]
