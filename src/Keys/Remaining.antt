-- ===== src/Keys/Remaining.antt =====
-- The usage of keys (repositories/encryption.py) counts every encrypted record once, so that what
-- services/encryption.py sums up is the number of records under other versions.
use ops_composer.Prelude.{
  ℕ, ◌+◌, ◌≤◌, true, false, not, List, [], ◌∷◌, ◌++◌, ◌≡◌, refl, sym, ◌∙◌, inl, inr, arith, ◌==◌,
  ==_refl, ==_iff, subst, ltb, map, length, All, All-map, map-All, All-both, rows_where,
  exists_where, order_by, length-rows_where-order_by, length-rows_where-append, exists_where-append,
  Bool-cases, if◌then◌else◌,
}
use ops_composer.Db.{Db}
use ops_composer.Domain.Encryption.{EncryptionUsage, total_count}
use ops_composer.Keys.Service.{remaining_of}
use ops_composer.Keys.Store.{
  of_credential, of_mfa, of_system, of_run_secret, versions_in, count_of, union, used_versions,
  usage_of, usages,
}

-- How many records are not under the version.
unfoldable pub left : ℕ → List ℕ → ℕ
unfolding rows_where
left target versions = length (rows_where (λ w. not (w == target)) versions)

-- The sum over versions of what is counted under each.
sum_over : ℕ → List ℕ → List ℕ → ℕ
unfolding count_of
sum_over target used [] = 0
sum_over target used (v ∷ vs) =
    (if v == target then 0 else count_of v used) + sum_over target used vs

total_count-usage_of :
    (db : Db) (v : ℕ) → total_count (usage_of db v) ≡ count_of v (used_versions db)
unfolding usage_of count_of
total_count-usage_of db v =
    let p = λ (w : ℕ). w == v in
    let c = versions_in of_credential db.credential_secret_envelopes in
    let m = versions_in of_mfa db.user_mfa_factors in
    let s = versions_in of_system db.system_secret_envelopes in
    let r = versions_in of_run_secret db.run_secret_inputs in
    omega (
      arith,
      length-rows_where-append p c (m ++ (s ++ r)),
      length-rows_where-append p m (s ++ r),
      length-rows_where-append p s r,
    )

remaining_of-sum_over :
    (db : Db) (target : ℕ) (vs : List ℕ)
    → remaining_of target (map (usage_of db) vs) ≡ sum_over target (used_versions db) vs
unfolding remaining_of sum_over usage_of
remaining_of-sum_over db target [] = refl
remaining_of-sum_over db target (v ∷ vs) =
    rw (← total_count-usage_of db v, remaining_of-sum_over db target vs) refl

-- The records, one after the other, instead of the versions.
sum_over_nil : (target : ℕ) (vs : List ℕ) → sum_over target [] vs ≡ 0
unfolding sum_over count_of rows_where
sum_over_nil target [] = refl
sum_over_nil target (v ∷ vs) = ground (arith, sum_over_nil target vs)

sum_over-cons :
    (target w : ℕ) (used vs : List ℕ)
    → sum_over target (w ∷ used) vs
      ≡ (if w == target then 0 else count_of w vs) + sum_over target used vs
unfolding sum_over count_of rows_where
sum_over-cons target w used [] = ground arith
sum_over-cons target w used (v ∷ vs) = ground (arith, sum_over-cons target w used vs)

sum_over-left :
    (target : ℕ) (vs used : List ℕ)
    → All (λ w. count_of w vs ≡ 1) used
    → sum_over target used vs ≡ left target used
unfolding left rows_where
sum_over-left target vs [] once = sum_over_nil target vs
sum_over-left target vs (w ∷ used) once =
    ground (arith, sum_over-cons target w used vs, sum_over-left target vs used once.1, once.0)

-- A union has each of its versions once.
exists_where-union :
    (v : ℕ) (vs : List ℕ) → exists_where (λ w. w == v) (union vs) ≡ exists_where (λ w. w == v) vs
unfolding union exists_where
exists_where-union v [] = refl
exists_where-union v (w ∷ vs) = elim (Bool-cases (exists_where (λ x. x == w) (union vs))) [
  | inr new ↦ rw (new, exists_where-union v vs) refl
  | inl old ↦ elim (Bool-cases (w == v)) [
    | inl e ↦
        let same : w ≡ v = (==_iff w v).0 e in
        let old_v : exists_where (λ x. x == v) (union vs) ≡ true =
          subst (λ y. exists_where (λ x. x == y) (union vs) ≡ true) same old in
        rw (old, e) old_v
    | inr e ↦ rw (old, e) (exists_where-union v vs)
  ]
]

count_of-union :
    (v : ℕ) (vs : List ℕ) → count_of v (union vs) ≡ (if exists_where (λ w. w == v) vs then 1 else 0)
unfolding union count_of exists_where rows_where
count_of-union v [] = refl
count_of-union v (w ∷ vs) = elim (Bool-cases (exists_where (λ x. x == w) (union vs))) [
  | inr new ↦ elim (Bool-cases (w == v)) [
    | inl e ↦
        let same : w ≡ v = (==_iff w v).0 e in
        let absent : exists_where (λ x. x == v) vs ≡ false =
          sym (exists_where-union v vs)
          ∙ subst (λ y. exists_where (λ x. x == y) (union vs) ≡ false) same new in
        rw (new, e) (ground (arith, count_of-union v vs, absent))
    | inr e ↦ rw (new, e) (count_of-union v vs)
  ]
  | inl old ↦ elim (Bool-cases (w == v)) [
    | inl e ↦
        let same : w ≡ v = (==_iff w v).0 e in
        let present : exists_where (λ x. x == v) vs ≡ true =
          sym (exists_where-union v vs)
          ∙ subst (λ y. exists_where (λ x. x == y) (union vs) ≡ true) same old in
        rw (old, e) (ground (arith, count_of-union v vs, present))
    | inr e ↦ rw (old, e) (count_of-union v vs)
  ]
]

All-exists_where : (vs : List ℕ) → All (λ w. exists_where (λ x. x == w) vs ≡ true) vs
unfolding exists_where
All-exists_where [] = tt
All-exists_where (v ∷ vs) = (
  rw (==_refl v) refl,
  All-map (λ w. exists_where (λ x. x == w) vs ≡ true)
      (λ w. exists_where (λ x. x == w) (v ∷ vs) ≡ true) vs (λ w h. ground (arith, h))
      (All-exists_where vs),
)

-- Every version in use is counted once among the versions of the answer.
counted_once :
    (keys used : List ℕ) → All (λ w. count_of w (order_by ltb (union (keys ++ used))) ≡ 1) used
unfolding count_of
counted_once keys used =
    All-map (λ w. exists_where (λ x. x == w) used ≡ true) _ used
      (λ w present.
        length-rows_where-order_by (λ x. x == w) ltb (union (keys ++ used))
        ∙ (count_of-union w (keys ++ used)
            ∙ (rw (exists_where-append (λ x. x == w) keys used, present) (ground arith))))
      (All-exists_where used)

-- The sum that a batch and a request report: the number of records under other versions.
pub remaining_of-usages :
    (target : ℕ) (db : Db) → remaining_of target (usages db) ≡ left target (used_versions db)
unfolding usages
remaining_of-usages target db =
    let keys = map (λ r. r.key_version) db.encryption_key_registry in
    let vs = order_by ltb (union (keys ++ used_versions db)) in
    remaining_of-sum_over db target vs
    ∙ sum_over-left target vs (used_versions db) (counted_once keys (used_versions db))

-- What holds of every version of the answer holds of every version in use.
of_member : (P : ℕ → Type 0) (vs : List ℕ) (w : ℕ) → 1 ≤ count_of w vs → All P vs → P w
unfolding count_of rows_where
of_member P [] w some_row h = absurd (omega (arith, some_row))
of_member P (v ∷ vs) w some_row h = elim (Bool-cases (v == w)) [
  | inl e ↦ subst P ((==_iff v w).0 e) h.0
  | inr e ↦ of_member P vs w (rw e at some_row) h.1
]

counted_some : (vs : List ℕ) → All (λ w. 1 ≤ count_of w vs) vs
unfolding count_of rows_where
counted_some [] = tt
counted_some (v ∷ vs) = (
  rw (==_refl v) (omega arith),
  All-map (λ w. 1 ≤ count_of w vs) (λ w. 1 ≤ count_of w (v ∷ vs)) vs (λ w h. ground (arith, h))
      (counted_some vs),
)

pub used-All :
    (P : EncryptionUsage → Type 0) (db : Db)
    → All P (usages db)
    → All (λ w. P (usage_of db w) × (1 ≤ total_count (usage_of db w))) (used_versions db)
unfolding usages
used-All P db h =
    let keys = map (λ r. r.key_version) db.encryption_key_registry in
    let used = used_versions db in
    let vs = order_by ltb (union (keys ++ used)) in
    All-map (λ w. (count_of w vs ≡ 1) × (1 ≤ count_of w used)) _ used
      (λ w both. (
        of_member (λ v. P (usage_of db v)) vs w (omega (arith, both.0))
            (map-All P (usage_of db) vs h),
        omega (arith, total_count-usage_of db w, both.1),
      ))
      (All-both _ _ used (counted_once keys used) (counted_some used))
