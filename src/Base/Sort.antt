-- ===== src/Base/Sort.antt =====
-- Python's `sorted`: stable, by a test "not after".
use Prim.Native.Nat.{suc}
use mathlib.Core.Path.{◌≡◌, refl, ap, ◌∙◌}
use mathlib.Core.Logic.{inl, inr}
use mathlib.Core.Bool.{Bool, ◌||◌}
use mathlib.Core.List.{List, [], ◌∷◌}
use native.Mathlib.Omega.{arith}
use se_1_rune_agent.Base.Tests.{if◌then◌else◌, Bool-cases}
use se_1_rune_agent.Base.Lists.{length, select, any, All}

module _ {ℓ} {A : Type ℓ} (le : A → A → Bool) where
  unfoldable pub insert_sorted : A → List A → List A
  insert_sorted x [] = x ∷ []
  insert_sorted x (y ∷ ys) = if le x y then x ∷ y ∷ ys else y ∷ insert_sorted x ys

  unfoldable pub sort_by : List A → List A
  unfolding insert_sorted
  sort_by [] = []
  sort_by (x ∷ xs) = insert_sorted x (sort_by xs)

  length-insert_sorted : (x : A) (ys : List A) → length (insert_sorted x ys) ≡ suc (length ys)
  unfolding insert_sorted
  length-insert_sorted x [] = refl
  length-insert_sorted x (y ∷ ys) = ground (arith, length-insert_sorted x ys)

  pub length-sort_by : (xs : List A) → length (sort_by xs) ≡ length xs
  unfolding sort_by
  length-sort_by [] = refl
  length-sort_by (x ∷ xs) = ground (arith, length-sort_by xs, length-insert_sorted x (sort_by xs))

  length-select-insert :
      (p : A → Bool) (x : A) (ys : List A)
      → length (select p (insert_sorted x ys)) ≡ length (select p (x ∷ ys))
  unfolding insert_sorted
  length-select-insert p x [] = refl
  length-select-insert p x (y ∷ ys) = ground (arith, length-select-insert p x ys)

  -- Sorting keeps the number of the elements that pass a test.
  pub length-select-sort_by :
      (p : A → Bool) (xs : List A) → length (select p (sort_by xs)) ≡ length (select p xs)
  unfolding sort_by
  length-select-sort_by p [] = refl
  length-select-sort_by p (x ∷ xs) =
      ground (arith, length-select-insert p x (sort_by xs), length-select-sort_by p xs)

  any-insert_sorted :
      (f : A → Bool) (x : A) (ys : List A) → any f (insert_sorted x ys) ≡ (f x || any f ys)
  unfolding insert_sorted
  any-insert_sorted f x [] = refl
  any-insert_sorted f x (y ∷ ys) = ground (arith, any-insert_sorted f x ys)

  pub any-sort_by : (f : A → Bool) (xs : List A) → any f (sort_by xs) ≡ any f xs
  unfolding sort_by
  any-sort_by f [] = refl
  any-sort_by f (x ∷ xs) =
      any-insert_sorted f x (sort_by xs) ∙ ap (λ b. f x || b) (any-sort_by f xs)

  All-insert_sorted {κ} :
      (P : A → Type κ) (x : A) (ys : List A) → P x → All P ys → All P (insert_sorted x ys)
  unfolding insert_sorted
  All-insert_sorted P x [] p h = (p, tt)
  All-insert_sorted P x (y ∷ ys) p h = elim (Bool-cases (le x y)) [
    | inl before ↦ rw before (p, h)
    | inr after ↦ rw after (h.0, All-insert_sorted P x ys p h.1)
  ]

  pub All-sort_by {κ} : (P : A → Type κ) (xs : List A) → All P xs → All P (sort_by xs)
  unfolding sort_by
  All-sort_by P [] h = tt
  All-sort_by P (x ∷ xs) h = All-insert_sorted P x (sort_by xs) h.0 (All-sort_by P xs h.1)
