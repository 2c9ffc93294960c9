-- ===== src/Prelude/Rows.antt =====
-- Tables as lists of rows, and the statements that the repositories run on them: a WHERE clause is
-- a test, UPDATE keeps the rows' places, ORDER BY sorts by insertion.
pub mod Laws
pub mod Order
pub mod Exists
pub mod Parts
use Prim.Native.Nat.{ℕ, zero, suc}
use mathlib.Core.Path.{◌≡◌, refl, ap}
use mathlib.Core.Logic.{inl, inr}
use mathlib.Core.Bool.{Bool, true, false, ◌||◌}
use mathlib.Core.Option
use mathlib.Core.Option.{Option, none, some}
use mathlib.Core.List.{List, [], ◌∷◌, ◌++◌, map}
use native.Mathlib.Omega.{arith}
use ops_composer.Prelude.Tests.{if◌then◌else◌, Bool-cases}

module _ {ℓ} {A : Type ℓ} where
  abbrev pub length : List A → ℕ
  length [] = 0
  length (x ∷ xs) = suc (length xs)

  abbrev pub take : ℕ → List A → List A
  take zero xs = []
  take (suc n) [] = []
  take (suc n) (x ∷ xs) = x ∷ take n xs

  abbrev pub drop : ℕ → List A → List A
  drop zero xs = xs
  drop (suc n) [] = []
  drop (suc n) (x ∷ xs) = drop n xs

  -- A predicate of every row.
  abbrev pub All {κ} : (A → Type κ) → List A → Type κ
  All P [] = Unit
  All P (x ∷ xs) = P x × All P xs

module _ {ℓ} {R : Type ℓ} where
  -- SELECT … WHERE
  unfoldable pub rows_where : (R → Bool) → List R → List R
  rows_where p [] = []
  rows_where p (r ∷ rs) = let rest = rows_where p rs in if p r then r ∷ rest else rest

  -- DELETE … WHERE
  unfoldable pub delete_where : (R → Bool) → List R → List R
  delete_where p [] = []
  delete_where p (r ∷ rs) = let rest = delete_where p rs in if p r then rest else r ∷ rest

  -- UPDATE … SET … WHERE
  unfoldable pub update_where : (R → Bool) → (R → R) → List R → List R
  update_where p f [] = []
  update_where p f (r ∷ rs) = (if p r then f r else r) ∷ update_where p f rs

  -- EXISTS (SELECT 1 … WHERE)
  unfoldable pub exists_where : (R → Bool) → List R → Bool
  exists_where p [] = false
  exists_where p (r ∷ rs) = p r || exists_where p rs

  -- The first row of an answer, `fetch_one`.
  unfoldable pub first_where : (R → Bool) → List R → Option R
  first_where p [] = none
  first_where p (r ∷ rs) = if p r then some r else first_where p rs

  insert_by : (R → R → Bool) → R → List R → List R
  insert_by before r [] = r ∷ []
  insert_by before r (s ∷ rs) = if before s r then s ∷ insert_by before r rs else r ∷ s ∷ rs

  -- ORDER BY, by the test `before`
  unfoldable pub order_by : (R → R → Bool) → List R → List R
  unfolding insert_by
  order_by before [] = []
  order_by before (r ∷ rs) = insert_by before r (order_by before rs)

  abbrev pub first : List R → Option R
  first [] = none
  first (r ∷ rs) = some r
