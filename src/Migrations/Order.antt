-- ===== src/Migrations/Order.antt =====
-- About the order that `ordered_migrations` of backend/src/ops_composer/db/migration_engine.py gives.
use ops_composer.Prelude.{
  ℕ, zero, suc, String, ◌≡◌, refl, sym, ap, ◌∙◌, subst, true, false, some, List, [], ◌∷◌, ◌++◌, map,
  inl, inr, arith, text_eq, Bool-cases, All, order_by-All, first_where_holds, length, sorted,
  has_text, has_duplicates, text_refl, eq_iff, has_text-append, has_text-append_left,
  has_duplicates-append, text_ltb, append_nil, append_assoc_one,
}
use ops_composer.Migrations.Visit.{
  Migration, Outcome, done, Walk, id_of, by_id, enter, leave, visit_all, visit, any_missing, start,
  walk, ordered_migrations,
}
use ops_composer.Migrations.Steps.{>>=-eq-done, done-inj, visit-cases}
use ops_composer.Migrations.Fuel.{visit-visiting}

abbrev pub AllIn : List String → List String → Type 0
AllIn ids seen = All (λ d. has_text d seen ≡ true) ids

-- Every migration comes after its dependencies, where `seen` came before the list.
abbrev pub Respects : List String → List Migration → Type 0
Respects seen [] = Unit
Respects seen (m ∷ ms) = AllIn m.dependencies seen × Respects (seen ++ m.migration_id ∷ []) ms

Respects-append :
    (seen : List String) (ms : List Migration) (m : Migration)
    → Respects seen ms
    → AllIn m.dependencies (seen ++ map id_of ms)
    → Respects seen (ms ++ m ∷ [])
Respects-append seen [] m r deps = (subst (AllIn m.dependencies) (append_nil seen) deps, tt)
Respects-append seen (x ∷ ms) m r deps = (
  r.0,
  Respects-append (seen ++ x.migration_id ∷ []) ms m r.1 (
      subst (AllIn m.dependencies) (sym (append_assoc_one seen (map id_of ms) x.migration_id))
        deps),
)

map-append_one :
    (ms : List Migration) (m : Migration)
    → map id_of (ms ++ m ∷ []) ≡ map id_of ms ++ m.migration_id ∷ []
map-append_one [] m = refl
map-append_one (x ∷ ms) m = ap (λ ys. x.migration_id ∷ ys) (map-append_one ms m)

-- What every walk keeps.
pub record IsWalk (w : Walk) : Type 0 where
  pub seen : w.visited ≡ map id_of w.ordered
  pub respects : Respects [] w.ordered
  pub once : has_duplicates w.visited ≡ false

-- What a visit leaves of what came before.
pub record Extends (w w' : Walk) : Type 0 where
  pub keeps : IsWalk w → IsWalk w'
  pub grows : (x : String) → has_text x w.visited ≡ true → has_text x w'.visited ≡ true
  -- nothing that is being visited gets done in between
  pub waits :
      (x : String)
      → has_text x w.visiting ≡ true
      → has_text x w.visited ≡ false
      → has_text x w'.visited ≡ false
  pub same : w'.visiting ≡ w.visiting

Extends-refl : (w : Walk) → Extends w w
Extends-refl w = record { keeps = λ k. k; grows = λ x h. h; waits = λ x h k. k; same = refl }

Extends-trans : (a b c : Walk) → Extends a b → Extends b c → Extends a c
Extends-trans a b c p q = record {
  keeps = λ k. q.keeps (p.keeps k);
  grows = λ x h. q.grows x (p.grows x h);
  waits = λ x h k. q.waits x (rw p.same h) (p.waits x h k);
  same = q.same ∙ p.same;
}

-- A loop that visits ids has visited them all.
visit_all-AllIn :
    (v : String → Walk → Outcome Walk)
    → ((id : String) (w w' : Walk)
        → v id w ≡ done w'
        → Extends w w' × (has_text id w'.visited ≡ true))
    → (ids : List String) (w w' : Walk) → visit_all v ids w ≡ done w'
    → Extends w w' × AllIn ids w'.visited
unfolding visit_all
visit_all-AllIn v one [] w w' h = (subst (Extends w) (done-inj h) (Extends-refl w), tt)
visit_all-AllIn v one (id ∷ ids) w w' h =
    let (mid, first, rest) = >>=-eq-done (v id w) (visit_all v ids) h in
    let (here, at) = one id w mid first in
    let (there, all) = visit_all-AllIn v one ids mid w' rest in
    (Extends-trans w mid w' here there, (there.grows id at, all))

has_text-last : (x : String) (xs : List String) → has_text x (xs ++ x ∷ []) ≡ true
unfolding has_text
has_text-last x xs = has_text-append x xs (x ∷ []) ∙ ground (arith, text_refl x)

-- The walk that a working visit leaves.
leave-IsWalk :
    (id : String) (m : Migration) (mid : Walk)
    → m.migration_id ≡ id
    → IsWalk mid
    → AllIn m.dependencies mid.visited
    → has_text id mid.visited ≡ false
    → IsWalk (leave id m mid)
leave-IsWalk id m mid own k deps new = record {
  seen =
      ap (λ ids. ids ++ id ∷ []) k.seen
      ∙ ap (λ i. map id_of mid.ordered ++ i ∷ []) (sym own)
      ∙ sym (map-append_one mid.ordered m);
  respects = Respects-append [] mid.ordered m k.respects (subst (AllIn m.dependencies) k.seen deps);
  once = has_duplicates-append id mid.visited ∙ rw (k.once, new);
}

sorted_back : (ids seen : List String) → AllIn (sorted ids) seen → AllIn ids seen
unfolding sorted
sorted_back ids seen h = order_by-All (λ d. has_text d seen ≡ true) text_ltb ids h

has_text_apart :
    (x id : String) (vs : List String)
    → has_text x vs ≡ true
    → has_text id vs ≡ false
    → text_eq id x ≡ false
has_text_apart x id vs h k = elim (Bool-cases (text_eq id x)) [
  | inl e ↦
      let same : id ≡ x = (eq_iff id x).0 e in
      let away : has_text x vs ≡ false = rw same at k in absurd (ground (arith, h, away))
  | inr e ↦ e
]

leave-Extends :
    (ms : List Migration) (id : String) (m : Migration) (w mid : Walk)
    → Extends (enter id w) mid
    → AllIn m.dependencies mid.visited
    → by_id ms id ≡ some m
    → has_text id w.visited ≡ false
    → has_text id w.visiting ≡ false
    → (leave id m mid).visiting ≡ w.visiting
    → Extends w (leave id m mid)
unfolding by_id has_text
leave-Extends ms id m w mid ext deps found unseen outside back =
    let own : m.migration_id ≡ id =
      (eq_iff m.migration_id id).0 (first_where_holds (λ x. text_eq x.migration_id id) ms found) in
    let new : has_text id mid.visited ≡ false =
      ext.waits id (ground (arith, text_refl id)) unseen in
    record {
      keeps = λ k.
          leave-IsWalk id m mid own
            (ext.keeps (record { seen = k.seen; respects = k.respects; once = k.once })) deps new;
      grows = λ x h. has_text-append_left x mid.visited (id ∷ []) (ext.grows x h);
      waits = λ x h k.
          has_text-append x mid.visited (id ∷ [])
          ∙ ground
              (arith, has_text_apart x id w.visiting h outside, ext.waits x (ground (arith, h)) k);
      same = back;
    }

-- Every visit that returns.
visit-Extends :
    (ms : List Migration) (n : ℕ) (id : String) (w w' : Walk)
    → visit ms n id w ≡ done w'
    → Extends w w' × (has_text id w'.visited ≡ true)
visit-Extends ms zero id w w' h = unfold visit in cc
visit-Extends ms (suc n) id w w' h = elim (visit-cases ms n id w w' h) [
  | inl (seen, e) ↦
      (subst (Extends w) e (Extends-refl w), subst (λ x. has_text id x.visited ≡ true) e seen)
  | inr (m, mid, unseen, outside, found, deeper, e) ↦
      let (ext, deps) =
        visit_all-AllIn (visit ms n) (visit-Extends ms n) (sorted m.dependencies) (enter id w) mid
          deeper in
      subst (λ x. Extends w x × (has_text id x.visited ≡ true)) (sym e)
        (
          leave-Extends ms id m w mid ext (sorted_back m.dependencies mid.visited deps) found unseen
              outside (ap (λ (x : Walk). x.visiting) (sym e) ∙ visit-visiting ms (suc n) id w w' h),
          has_text-last id mid.visited,
        )
]

start-IsWalk : IsWalk start
unfolding has_duplicates
start-IsWalk = record { seen = refl; respects = tt; once = refl }

module _ (ms order : List Migration) (ordered : ordered_migrations ms ≡ done order) where
  -- The order is that of a walk which has visited the ids of all the migrations.
  walked : (w : Walk) × (w.ordered ≡ order) × IsWalk w × AllIn (map id_of ms) w.visited
  unfolding ordered_migrations walk
  walked = elim (Bool-cases (has_duplicates (map id_of ms))) [
    | inl twice ↦ absurd (ground (arith, rw twice at ordered))
    | inr once ↦ elim (Bool-cases (any_missing (map id_of ms) ms)) [
      | inl missing ↦ absurd (ground (arith, rw (once, missing) at ordered))
      | inr all ↦
          let (w, done_walk, last) =
            >>=-eq-done (walk ms) (λ w. done w.ordered) (rw (once, all) at ordered) in
          let (ext, ids) =
            visit_all-AllIn (visit ms (suc (length ms))) (visit-Extends ms (suc (length ms)))
              (sorted (map id_of ms)) start w done_walk in
          (w, done-inj last, ext.keeps start-IsWalk, sorted_back (map id_of ms) w.visited ids)
    ]
  ]

  -- In the order that is returned, every migration stands after all its dependencies.
  pub ordered_migrations-Respects : Respects [] order
  ordered_migrations-Respects = let (w, e, k, _) = walked in subst (Respects []) e k.respects

  -- The order that is returned has every migration's id, and has no id twice.
  pub ordered_migrations_complete :
      AllIn (map id_of ms) (map id_of order) × (has_duplicates (map id_of order) ≡ false)
  ordered_migrations_complete =
      let (w, e, k, ids) = walked in
      let at : w.visited ≡ map id_of order = k.seen ∙ ap (map id_of) e in
      (subst (AllIn (map id_of ms)) at ids, subst (λ xs. has_duplicates xs ≡ false) at k.once)
