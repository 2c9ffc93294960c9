-- ===== src/Prelude/Texts.antt =====
-- Texts as keys: sets of texts as lists, and their order by code points, as Python's `sorted` has it.
use Prim.Native.String.{String, compare}
use mathlib.Core.Path.{◌≡◌, refl, ap}
use mathlib.Core.Logic.{inl, inr}
use mathlib.Core.Bool.{Bool, true, false, ◌||◌}
use mathlib.Core.List.{List, [], ◌∷◌, ◌++◌}
use native.Mathlib.Omega.{arith}
use text.Mathlib.Text.{◌==◌ as text_eq, is_lt}
use text.Mathlib.TextEquality.{eq_iff}
use ops_composer.Prelude.Tests.{Bool-cases}
use ops_composer.Prelude.Rows.{order_by, delete_where}

abbrev pub text_ltb : String → String → Bool
text_ltb a b = is_lt (compare a b)

unfoldable pub sorted : List String → List String
unfolding order_by
sorted = order_by text_ltb

-- `x in xs`
unfoldable pub has_text : String → List String → Bool
has_text x [] = false
has_text x (y ∷ ys) = text_eq y x || has_text x ys

-- `xs.remove(x)` of a set
unfoldable pub remove_text : String → List String → List String
unfolding delete_where
remove_text x = delete_where (λ y. text_eq y x)

pub text_refl : (s : String) → text_eq s s ≡ true
text_refl s = (eq_iff s s).1 refl

pub has_text-append :
    (x : String) (xs ys : List String) → has_text x (xs ++ ys) ≡ (has_text x xs || has_text x ys)
unfolding has_text
has_text-append x [] ys = refl
has_text-append x (y ∷ xs) ys = ground (arith, has_text-append x xs ys)

pub has_text-append_left :
    (x : String) (xs ys : List String) → has_text x xs ≡ true → has_text x (xs ++ ys) ≡ true
has_text-append_left x xs ys h = rw (has_text-append x xs ys, h)

-- Removing what was not there.
pub remove_text_absent :
    (x : String) (xs : List String) → has_text x xs ≡ false → remove_text x xs ≡ xs
unfolding has_text remove_text
remove_text_absent x [] h = refl
remove_text_absent x (y ∷ xs) h = elim (Bool-cases (text_eq y x)) [
  | inl e ↦ absurd (ground (arith, e, h))
  | inr e ↦ rw e (ap (λ ys. y ∷ ys) (remove_text_absent x xs (rw e at h)))
]

pub remove_text-cons :
    (x : String) (xs : List String) → has_text x xs ≡ false → remove_text x (x ∷ xs) ≡ xs
unfolding remove_text
remove_text-cons x xs h = rw (text_refl x) (remove_text_absent x xs h)

-- A repetition in a list.
unfoldable pub has_duplicates : List String → Bool
unfolding has_text
has_duplicates [] = false
has_duplicates (x ∷ xs) = has_text x xs || has_duplicates xs

-- A text at the end of a list.
pub has_duplicates-append :
    (x : String) (xs : List String)
    → has_duplicates (xs ++ x ∷ []) ≡ (has_duplicates xs || has_text x xs)
unfolding has_duplicates has_text
has_duplicates-append x [] = refl
has_duplicates-append x (y ∷ xs) =
    ground
      (arith, has_duplicates-append x xs, has_text-append y xs (x ∷ []), eq_iff x y, eq_iff y x)
