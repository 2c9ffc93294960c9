-- ===== src/Prelude/Rows/Order.antt =====
-- Laws of ORDER BY.
use Prim.Native.Nat.{suc}
use mathlib.Core.Path.{◌≡◌, refl, ap, subst}
use mathlib.Core.Logic.{inl, inr}
use mathlib.Core.Bool.{Bool, true, false}
use mathlib.Core.Option.{some}
use mathlib.Core.List.{List, [], ◌∷◌}
use native.Mathlib.Omega.{arith}
use ops_composer.Prelude.Tests.{Bool-cases}
use ops_composer.Prelude.Rows.Laws.{All-map}
use ops_composer.Prelude.Rows.{length, All, rows_where, insert_by, order_by, first}

module _ {ℓ} {R : Type ℓ} where
  length-insert_by :
      (before : R → R → Bool) (r : R) (rs : List R)
      → length (insert_by before r rs) ≡ suc (length rs)
  unfolding insert_by
  length-insert_by before r [] = refl
  length-insert_by before r (s ∷ rs) = ground (arith, length-insert_by before r rs)

  pub length-order_by :
      (before : R → R → Bool) (rs : List R) → length (order_by before rs) ≡ length rs
  unfolding order_by
  length-order_by before [] = refl
  length-order_by before (r ∷ rs) =
      omega (arith, length-insert_by before r (order_by before rs), length-order_by before rs)

  -- Sorting keeps how many rows a test selects.
  length-rows_where-insert_by :
      (p : R → Bool) (before : R → R → Bool) (r : R) (rs : List R)
      → length (rows_where p (insert_by before r rs)) ≡ length (rows_where p (r ∷ rs))
  unfolding insert_by rows_where
  length-rows_where-insert_by p before r [] = refl
  length-rows_where-insert_by p before r (s ∷ rs) =
      ground (arith, length-rows_where-insert_by p before r rs)

  pub length-rows_where-order_by :
      (p : R → Bool) (before : R → R → Bool) (rs : List R)
      → length (rows_where p (order_by before rs)) ≡ length (rows_where p rs)
  unfolding order_by rows_where
  length-rows_where-order_by p before [] = refl
  length-rows_where-order_by p before (r ∷ rs) = ground (
    arith,
    length-rows_where-insert_by p before r (order_by before rs),
    length-rows_where-order_by p before rs,
  )

-- Sorting keeps what holds of every row, both ways.
module _ {ℓ κ} {R : Type ℓ} (P : R → Type κ) (before : R → R → Bool) where
  All-insert_by : (r : R) (rs : List R) → P r → All P rs → All P (insert_by before r rs)
  unfolding insert_by
  All-insert_by r [] hr h = (hr, tt)
  All-insert_by r (s ∷ rs) hr h = elim (Bool-cases (before s r)) [
    | inl e ↦ rw e (h.0, All-insert_by r rs hr h.1)
    | inr e ↦ rw e (hr, h)
  ]

  pub All-order_by : (rs : List R) → All P rs → All P (order_by before rs)
  unfolding order_by
  All-order_by [] h = tt
  All-order_by (r ∷ rs) h = All-insert_by r (order_by before rs) h.0 (All-order_by rs h.1)

  insert_by-All : (r : R) (rs : List R) → All P (insert_by before r rs) → P r × All P rs
  unfolding insert_by
  insert_by-All r [] h = h
  insert_by-All r (s ∷ rs) h = elim (Bool-cases (before s r)) [
    | inl e ↦
        let kept : P s × All P (insert_by before r rs) = rw e at h in
        let (hr, rest) = insert_by-All r rs kept.1 in (hr, (kept.0, rest))
    | inr e ↦ rw e at h
  ]

  pub order_by-All : (rs : List R) → All P (order_by before rs) → All P rs
  unfolding order_by
  order_by-All [] h = tt
  order_by-All (r ∷ rs) h =
      let (hr, rest) = insert_by-All r (order_by before rs) h in (hr, order_by-All rs rest)

-- With an order whose complement is transitive, no row comes before the first.
module _ {ℓ} {R : Type ℓ} (before : R → R → Bool) (irrefl : (r : R) → before r r ≡ false)
    (asym : (r s : R) → before r s ≡ true → before s r ≡ false)
    (trans : (r s t : R) → before r s ≡ false → before s t ≡ false → before r t ≡ false) where
  order_by-nil : (rs : List R) → order_by before rs ≡ [] → rs ≡ []
  order_by-nil [] e = refl
  order_by-nil (r ∷ rs) e =
      absurd (omega (arith, ap (length {ℓ}) e, length-order_by before (r ∷ rs)))

  -- the first row after one more row
  insert_by-least :
      (r : R) (rs sorted : List R)
      → (sorted ≡ [] → rs ≡ [])
      → ((m : R) → first sorted ≡ some m → All (λ s. before s m ≡ false) rs)
      → (h : R) → first (insert_by before r sorted) ≡ some h
      → All (λ s. before s h ≡ false) (r ∷ rs)
  unfolding insert_by
  insert_by-least r rs [] empty least h e =
      let same : r ≡ h = cc in
      rw (empty refl) (subst (λ x. All (λ s. before s x ≡ false) (r ∷ [])) same (irrefl r, tt))
  insert_by-least r rs (m ∷ ms) empty least h e = elim (Bool-cases (before m r)) [
    | inl older ↦
        let row : some m ≡ some h = rw older at e in
        let same : m ≡ h = cc in
        subst (λ x. All (λ s. before s x ≡ false) (r ∷ rs)) same (asym m r older, least m refl)
    | inr younger ↦
        let row : some r ≡ some h = rw younger at e in
        let same : r ≡ h = cc in
        subst (λ x. All (λ s. before s x ≡ false) (r ∷ rs)) same
          (
            irrefl r,
            All-map (λ s. before s m ≡ false) (λ s. before s r ≡ false) rs
                (λ s below. trans s m r below younger) (least m refl),
          )
  ]

  pub order_by-least :
      (rs : List R) (h : R) → first (order_by before rs) ≡ some h → All (λ s. before s h ≡ false) rs
  unfolding order_by
  order_by-least [] h e = cc
  order_by-least (r ∷ rs) h e =
      insert_by-least r rs (order_by before rs) (order_by-nil rs) (order_by-least rs) h e
