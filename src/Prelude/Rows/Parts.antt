-- ===== src/Prelude/Rows/Parts.antt =====
-- Laws of LIMIT and OFFSET, `take` and `drop`, and of lengths.
use Prim.Native.Nat.{ℕ, zero, suc, ◌+◌, ◌≤◌}
use mathlib.Core.Path.{◌≡◌, refl, ap, ◌∙◌}
use mathlib.Core.Logic.{inl, inr}
use mathlib.Core.Bool.{Bool}
use mathlib.Core.List.{List, [], ◌∷◌, ◌++◌}
use native.Mathlib.Omega.{arith}
use ops_composer.Prelude.Rows.{length, take, drop, All, rows_where}
use ops_composer.Prelude.Tests.{Bool-cases}

module _ {ℓ} {A : Type ℓ} where
  pub length-append : (xs ys : List A) → length (xs ++ ys) ≡ length xs + length ys
  length-append [] ys = omega arith
  length-append (x ∷ xs) ys = omega (arith, length-append xs ys)

  pub rows_where-append :
      (p : A → Bool) (xs ys : List A) → rows_where p (xs ++ ys) ≡ rows_where p xs ++ rows_where p ys
  unfolding rows_where
  rows_where-append p [] ys = refl
  rows_where-append p (x ∷ xs) ys = elim (Bool-cases (p x)) [
    | inl e ↦ rw (e, rows_where-append p xs ys) refl
    | inr e ↦ rw (e, rows_where-append p xs ys) refl
  ]

  pub length-rows_where-append :
      (p : A → Bool) (xs ys : List A)
      → length (rows_where p (xs ++ ys)) ≡ length (rows_where p xs) + length (rows_where p ys)
  length-rows_where-append p xs ys =
      ap length (rows_where-append p xs ys) ∙ length-append (rows_where p xs) (rows_where p ys)

  pub take-append : (n : ℕ) (xs ys : List A) → length xs ≡ n → take n (xs ++ ys) ≡ xs
  take-append zero [] ys e = refl
  take-append zero (x ∷ xs) ys e = absurd (omega (arith, e))
  take-append (suc n) [] ys e = absurd (omega (arith, e))
  take-append (suc n) (x ∷ xs) ys e = ap (λ zs. x ∷ zs) (take-append n xs ys (omega (arith, e)))

  pub drop-append : (n : ℕ) (xs ys : List A) → length xs ≡ n → drop n (xs ++ ys) ≡ ys
  drop-append zero [] ys e = refl
  drop-append zero (x ∷ xs) ys e = absurd (omega (arith, e))
  drop-append (suc n) [] ys e = absurd (omega (arith, e))
  drop-append (suc n) (x ∷ xs) ys e = drop-append n xs ys (omega (arith, e))

  -- A list that is cut after n is as long as it was, or n long.
  pub length-take-drop : (n : ℕ) (xs : List A) → length (take n xs) + length (drop n xs) ≡ length xs
  length-take-drop zero xs = omega arith
  length-take-drop (suc n) [] = refl
  length-take-drop (suc n) (x ∷ xs) = omega (arith, length-take-drop n xs)

  pub length-take : (n : ℕ) (xs : List A) → length (take n xs) ≤ n
  length-take zero xs = omega arith
  length-take (suc n) [] = omega arith
  length-take (suc n) (x ∷ xs) = omega (arith, length-take n xs)

module _ {ℓ κ} {A : Type ℓ} (P : A → Type κ) where
  pub All-take : (n : ℕ) (xs : List A) → All P xs → All P (take n xs)
  All-take zero xs h = tt
  All-take (suc n) [] h = tt
  All-take (suc n) (x ∷ xs) h = (h.0, All-take n xs h.1)
