-- ===== src/Prelude/Rows/Laws.antt =====
-- Laws of the statements on tables: what they keep of every row, and what a lookup finds after them.
use Prim.Native.Nat.{suc}
use mathlib.Core.Path.{◌≡◌, refl, ap, subst}
use mathlib.Core.Logic.{inl, inr}
use mathlib.Core.Bool.{Bool, true, false}
use mathlib.Core.Option
use mathlib.Core.Option.{Option, none, some}
use mathlib.Core.List.{List, [], ◌∷◌, ◌++◌, map}
use native.Mathlib.Omega.{arith}
use ops_composer.Prelude.Tests.{if◌then◌else◌, Bool-cases}
use ops_composer.Prelude.Rows.{
  length, All, rows_where, delete_where, update_where, exists_where, first_where,
}

-- What holds of every row before holds of every row after a statement.
module _ {ℓ κ} {R : Type ℓ} (P : R → Type κ) where
  pub All-delete_where : (p : R → Bool) (rs : List R) → All P rs → All P (delete_where p rs)
  unfolding delete_where
  All-delete_where p [] h = h
  All-delete_where p (r ∷ rs) h = elim (Bool-cases (p r)) [
    | inl e ↦ rw e (All-delete_where p rs h.1)
    | inr e ↦ rw e (h.0, All-delete_where p rs h.1)
  ]

  pub All-append : (xs ys : List R) → All P xs → All P ys → All P (xs ++ ys)
  All-append [] ys hx hy = hy
  All-append (x ∷ xs) ys hx hy = (hx.0, All-append xs ys hx.1 hy)

-- `update_where` maps every row.
module _ {ℓ κ μ} {R : Type ℓ} (P : R → Type κ) (Q : R → Type μ) where
  pub All-update_where :
      (p : R → Bool) (f : R → R) (rs : List R)
      → ((r : R) → P r → Q (if p r then f r else r))
      → All P rs
      → All Q (update_where p f rs)
  unfolding update_where
  All-update_where p f [] step h = tt
  All-update_where p f (r ∷ rs) step h = (step r h.0, All-update_where p f rs step h.1)

  pub All-map : (rs : List R) → ((r : R) → P r → Q r) → All P rs → All Q rs
  All-map [] step h = tt
  All-map (r ∷ rs) step h = (step r h.0, All-map rs step h.1)

module _ {ℓ} {R : Type ℓ} where
  -- A test that the change does not touch finds the changed row.
  pub first_where-update_where :
      (q p : R → Bool) (f : R → R)
      → ((r : R) → q (f r) ≡ q r)
      → (rs : List R)
      → first_where q (update_where p f rs)
        ≡ Option.map (λ r. if p r then f r else r) (first_where q rs)
  unfolding first_where update_where
  first_where-update_where q p f same [] = refl
  first_where-update_where q p f same (r ∷ rs) = elim (Bool-cases (p r)) [
    | inl e ↦ elim (Bool-cases (q r)) [
      | inl found ↦ rw (e, same r, found) (rw e)
      | inr other ↦ rw (e, same r, other) (first_where-update_where q p f same rs)
    ]
    | inr e ↦ elim (Bool-cases (q r)) [
      | inl found ↦ rw (e, found) (rw e)
      | inr other ↦ rw (e, other) (first_where-update_where q p f same rs)
    ]
  ]

  pub first_where_holds :
      (q : R → Bool) (rs : List R) {r : R} → first_where q rs ≡ some r → q r ≡ true
  unfolding first_where
  first_where_holds q [] h = cc
  first_where_holds q (s ∷ rs) h = elim (Bool-cases (q s)) [
    | inl found ↦ ground (arith, found)
    | inr other ↦ first_where_holds q rs (rw other at h)
  ]

  pub first_where-delete_where :
      (q p : R → Bool) (rs : List R) {r : R}
      → first_where q rs ≡ some r
      → p r ≡ false
      → first_where q (delete_where p rs) ≡ some r
  unfolding first_where delete_where
  first_where-delete_where q p [] h kept = cc
  first_where-delete_where q p (s ∷ rs) h kept = elim (Bool-cases (q s)) [
    | inl found ↦ elim (Bool-cases (p s)) [
      | inl gone ↦ ground (arith, found, gone)
      | inr stays ↦ rw (stays, found, ← h, found)
    ]
    | inr other ↦ elim (Bool-cases (p s)) [
      | inl gone ↦ rw gone (first_where-delete_where q p rs (rw other at h) kept)
      | inr stays ↦ rw (stays, other) (first_where-delete_where q p rs (rw other at h) kept)
    ]
  ]

module _ {ℓ κ} {R : Type ℓ} (P : R → Type κ) (p : R → Bool) where
  -- What holds of every row that the test selects.
  pub rows_where-All : (rs : List R) → All P (rows_where p rs) → All (λ r. p r ≡ true → P r) rs
  unfolding rows_where
  rows_where-All [] h = tt
  rows_where-All (r ∷ rs) h = elim (Bool-cases (p r)) [
    | inl e ↦
        let both : P r × All P (rows_where p rs) = rw e at h in
        (λ _. both.0, rows_where-All rs both.1)
    | inr e ↦ (λ t. absurd (cc (e, t)), rows_where-All rs (rw e at h))
  ]

  pub All-rows_where : (rs : List R) → All (λ r. p r ≡ true → P r) rs → All P (rows_where p rs)
  unfolding rows_where
  All-rows_where [] h = tt
  All-rows_where (r ∷ rs) h = elim (Bool-cases (p r)) [
    | inl e ↦ rw e (h.0 e, All-rows_where rs h.1)
    | inr e ↦ rw e (All-rows_where rs h.1)
  ]

module _ {ℓ κ} {A : Type ℓ} {B : Type κ} where
  pub length-map : (f : A → B) (xs : List A) → length (map f xs) ≡ length xs
  length-map f [] = refl
  length-map f (x ∷ xs) = ap suc (length-map f xs)

module _ {ℓ κ μ} {R : Type ℓ} (P : R → Type κ) (Q : R → Type μ) where
  pub All-both : (rs : List R) → All P rs → All Q rs → All (λ r. P r × Q r) rs
  All-both [] h k = tt
  All-both (r ∷ rs) h k = ((h.0, k.0), All-both rs h.1 k.1)

module _ {ℓ κ μ} {A : Type ℓ} {B : Type κ} (P : B → Type μ) where
  pub map-All : (f : A → B) (xs : List A) → All P (map f xs) → All (λ a. P (f a)) xs
  map-All f [] h = tt
  map-All f (x ∷ xs) h = (h.0, map-All f xs h.1)

module _ {ℓ κ} {R : Type ℓ} (P : R → Type κ) where
  -- What holds of every row holds of the row that is found.
  pub All-first_where :
      (q : R → Bool) (rs : List R) {r : R} → first_where q rs ≡ some r → All P rs → P r
  unfolding first_where
  All-first_where q [] e h = cc
  All-first_where q (s ∷ rs) {r} e h = elim (Bool-cases (q s)) [
    | inl found ↦
        let row : some s ≡ some r = rw found at e in let same : s ≡ r = cc in subst P same h.0
    | inr other ↦ All-first_where q rs (rw other at e) h.1
  ]

module _ {ℓ} {R : Type ℓ} where
  pub first_where_of_exists :
      (q : R → Bool) (rs : List R)
      → exists_where q rs ≡ true
      → (r : R) × (first_where q rs ≡ some r)
  unfolding exists_where first_where
  first_where_of_exists q [] e = cc
  first_where_of_exists q (s ∷ rs) e = elim (Bool-cases (q s)) [
    | inl found ↦ (s, rw found)
    | inr other ↦ let (r, row) = first_where_of_exists q rs (rw other at e) in (r, rw other row)
  ]

  pub exists_of_first_where :
      (q : R → Bool) (rs : List R) {r : R} → first_where q rs ≡ some r → exists_where q rs ≡ true
  unfolding exists_where first_where
  exists_of_first_where q [] e = cc
  exists_of_first_where q (s ∷ rs) e = elim (Bool-cases (q s)) [
    | inl found ↦ rw found
    | inr other ↦ rw other (exists_of_first_where q rs (rw other at e))
  ]

  -- A row that is found and is selected is found among the selected.
  pub first_where-rows_where :
      (q p : R → Bool) (rs : List R) {r : R}
      → first_where q rs ≡ some r
      → p r ≡ true
      → first_where q (rows_where p rs) ≡ some r
  unfolding first_where rows_where
  first_where-rows_where q p [] e h = cc
  first_where-rows_where q p (s ∷ rs) {r} e h = elim (Bool-cases (q s)) [
    | inl found ↦
        let row : some s ≡ some r = rw found at e in
        let same : s ≡ r = cc in let chosen : p s ≡ true = rw same h in rw chosen (rw found row)
    | inr other ↦ elim (Bool-cases (p s)) [
      | inl kept ↦ rw (kept, other) (first_where-rows_where q p rs (rw other at e) h)
      | inr gone ↦ rw gone (first_where-rows_where q p rs (rw other at e) h)
    ]
  ]

  pub All-rows_where_self : (p : R → Bool) (rs : List R) → All (λ r. p r ≡ true) (rows_where p rs)
  unfolding rows_where
  All-rows_where_self p [] = tt
  All-rows_where_self p (r ∷ rs) = elim (Bool-cases (p r)) [
    | inl e ↦ rw e (e, All-rows_where_self p rs)
    | inr e ↦ rw e (All-rows_where_self p rs)
  ]

  pub first_where-append :
      (q : R → Bool) (xs ys : List R) {r : R}
      → first_where q xs ≡ some r
      → first_where q (xs ++ ys) ≡ some r
  unfolding first_where
  first_where-append q [] ys e = cc
  first_where-append q (x ∷ xs) ys e = elim (Bool-cases (q x)) [
    | inl found ↦ rw found (rw found at e)
    | inr other ↦ rw other (first_where-append q xs ys (rw other at e))
  ]

  pub first_where-append_none :
      (q : R → Bool) (xs ys : List R)
      → first_where q xs ≡ none
      → first_where q (xs ++ ys) ≡ first_where q ys
  unfolding first_where
  first_where-append_none q [] ys e = refl
  first_where-append_none q (x ∷ xs) ys e = elim (Bool-cases (q x)) [
    | inl found ↦ absurd (ground (arith, found))
    | inr other ↦ rw other (first_where-append_none q xs ys (rw other at e))
  ]

module _ {ℓ} {A : Type ℓ} where
  pub append_nil : (xs : List A) → xs ++ [] ≡ xs
  append_nil [] = refl
  append_nil (x ∷ xs) = ap (λ ys. x ∷ ys) (append_nil xs)

  pub append_assoc_one : (xs ys : List A) (x : A) → (xs ++ x ∷ []) ++ ys ≡ xs ++ x ∷ ys
  append_assoc_one [] ys x = refl
  append_assoc_one (y ∷ xs) ys x = ap (λ zs. y ∷ zs) (append_assoc_one xs ys x)
