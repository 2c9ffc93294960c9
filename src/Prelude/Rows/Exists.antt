-- ===== src/Prelude/Rows/Exists.antt =====
-- What a DELETE or an UPDATE leaves of the rows that a test selects.
use mathlib.Core.Path.{◌≡◌, refl}
use mathlib.Core.Logic.{inl, inr}
use mathlib.Core.Bool.{Bool, true, false, ◌&&◌, ◌||◌}
use mathlib.Core.List.{List, [], ◌∷◌, ◌++◌, map}
use native.Mathlib.Omega.{arith}
use ops_composer.Prelude.Tests.{if◌then◌else◌, Bool-cases}
use ops_composer.Prelude.Rows.{All, rows_where, exists_where, delete_where, update_where}
use ops_composer.Prelude.Rows.Laws.{All-map}

module _ {R : Type 0} (p : R → Bool) where
  pub exists_where-delete_where :
      (q : R → Bool)
      → ((r : R) → p r ≡ true → q r ≡ true)
      → (rs : List R) → exists_where p (delete_where q rs) ≡ false
  unfolding exists_where delete_where
  exists_where-delete_where q inside [] = refl
  exists_where-delete_where q inside (r ∷ rs) = elim (Bool-cases (q r)) [
    | inl gone ↦ rw gone (exists_where-delete_where q inside rs)
    | inr stays ↦ elim (Bool-cases (p r)) [
      | inl e ↦ absurd (ground (arith, stays, inside r e))
      | inr outside ↦ rw (stays, outside) (exists_where-delete_where q inside rs)
    ]
  ]

  pub exists_where-update_where :
      (f : R → R)
      → ((r : R) → p (f r) ≡ false)
      → (rs : List R) → exists_where p (update_where p f rs) ≡ false
  unfolding exists_where update_where
  exists_where-update_where f ends [] = refl
  exists_where-update_where f ends (r ∷ rs) = elim (Bool-cases (p r)) [
    | inl e ↦ rw (e, ends r) (exists_where-update_where f ends rs)
    | inr e ↦ rw e (rw e (exists_where-update_where f ends rs))
  ]

  pub exists_where-append :
      (xs ys : List R) → exists_where p (xs ++ ys) ≡ (exists_where p xs || exists_where p ys)
  unfolding exists_where
  exists_where-append [] ys = refl
  exists_where-append (x ∷ xs) ys = ground (arith, exists_where-append xs ys)

  pub All-not_exists_where : (rs : List R) → All (λ r. p r ≡ false) rs → exists_where p rs ≡ false
  unfolding exists_where
  All-not_exists_where [] h = refl
  All-not_exists_where (r ∷ rs) h = rw h.0 (All-not_exists_where rs h.1)

  pub exists_where-map :
      {A : Type 0} (f : A → R) (xs : List A)
      → All (λ x. p (f x) ≡ false) xs
      → exists_where p (map f xs) ≡ false
  unfolding exists_where
  exists_where-map f [] h = refl
  exists_where-map f (x ∷ xs) h = rw h.0 (exists_where-map f xs h.1)

  pub exists_where-mapped :
      {A : Type 0} (f : A → R) (xs : List A)
      → exists_where (λ x. p (f x)) xs ≡ true
      → exists_where p (map f xs) ≡ true
  unfolding exists_where
  exists_where-mapped f [] h = h
  exists_where-mapped f (x ∷ xs) h = elim (Bool-cases (p (f x))) [
    | inl e ↦ rw e refl
    | inr e ↦ rw e (exists_where-mapped f xs (rw e at h))
  ]

  -- A change that the test does not see.
  pub exists_where-update_where_same :
      (q : R → Bool) (f : R → R)
      → ((r : R) → p (f r) ≡ p r)
      → (rs : List R) → exists_where p (update_where q f rs) ≡ exists_where p rs
  unfolding exists_where update_where
  exists_where-update_where_same q f same [] = refl
  exists_where-update_where_same q f same (r ∷ rs) = elim (Bool-cases (q r)) [
    | inl e ↦ rw (e, same r, exists_where-update_where_same q f same rs) refl
    | inr e ↦ rw (e, exists_where-update_where_same q f same rs) refl
  ]

  pub exists_where_mono :
      (q : R → Bool)
      → ((r : R) → p r ≡ true → q r ≡ true)
      → (rs : List R) → exists_where p rs ≡ true
      → exists_where q rs ≡ true
  unfolding exists_where
  exists_where_mono q inside [] h = h
  exists_where_mono q inside (r ∷ rs) h = elim (Bool-cases (p r)) [
    | inl e ↦ rw (inside r e) refl
    | inr e ↦ ground (arith, exists_where_mono q inside rs (rw e at h))
  ]

  pub not_exists_where-All : (rs : List R) → exists_where p rs ≡ false → All (λ r. p r ≡ false) rs
  unfolding exists_where
  not_exists_where-All [] h = tt
  not_exists_where-All (r ∷ rs) h = (ground (arith, h), not_exists_where-All rs (ground (arith, h)))

  -- An UPDATE after which no row passes the test, whether the row was changed or not.
  pub exists_where-update_where_none :
      (q : R → Bool) (f : R → R) (rs : List R)
      → All (λ r. p (if q r then f r else r) ≡ false) rs
      → exists_where p (update_where q f rs) ≡ false
  unfolding exists_where update_where
  exists_where-update_where_none q f [] h = refl
  exists_where-update_where_none q f (r ∷ rs) h = rw h.0 (exists_where-update_where_none q f rs h.1)

  pub exists_where-rows_where :
      (q : R → Bool) (rs : List R)
      → exists_where (λ r. p r && q r) rs ≡ true
      → exists_where p (rows_where q rs) ≡ true
  unfolding exists_where rows_where
  exists_where-rows_where q [] h = h
  exists_where-rows_where q (r ∷ rs) h = elim (Bool-cases (q r)) [
    | inl e ↦ elim (Bool-cases (p r)) [
      | inl k ↦ rw (e, k) refl
      | inr k ↦ rw (e, k) (exists_where-rows_where q rs (rw k at h))
    ]
    | inr e ↦ rw e (exists_where-rows_where q rs (ground (arith, e, h)))
  ]

module _ {R : Type 0} where
  -- A row that passes a test shows that some row does.
  pub All-exists_where :
      (rs : List R) → All (λ r. (p : R → Bool) → p r ≡ true → exists_where p rs ≡ true) rs
  unfolding exists_where
  All-exists_where [] = tt
  All-exists_where (r ∷ rs) = (
    λ p e. rw e refl,
    All-map _ _ rs (λ s later p e. ground (arith, later p e)) (All-exists_where rs),
  )

  pub All-any : (P : R → Type 0) → ((r : R) → P r) → (rs : List R) → All P rs
  All-any P h [] = tt
  All-any P h (r ∷ rs) = (h r, All-any P h rs)
