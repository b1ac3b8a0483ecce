-- ===== src/Prelude/Sort.antt =====
-- `sort.Slice` with a strict comparison `less`: insertion sort, which is one of the results that
-- Go allows. A caller that starts from an arbitrary order of the elements reaches all of them.
use mathlib.Core.Path.{◌≡◌}
use mathlib.Core.Bool.{Bool, true, false}
use mathlib.Core.List.{List, [], ◌∷◌, Perm}
use mathlib.Core.List.Perm
use brain_blitz.Prelude.Tests.{if◌then◌else◌, Bool-cases}
use brain_blitz.Prelude.Lists.{All}
use mathlib.Core.Logic.{inl, inr}

module _ {ℓ} {A : Type ℓ} (less : A → A → Bool) where
  unfoldable pub insert_sorted : A → List A → List A
  insert_sorted a [] = a ∷ []
  insert_sorted a (x ∷ xs) =
      let rest = insert_sorted a xs in if less x a then x ∷ rest else a ∷ x ∷ xs

  unfoldable pub sort_slice : List A → List A
  unfolding insert_sorted
  sort_slice [] = []
  sort_slice (x ∷ xs) = insert_sorted x (sort_slice xs)

  pub insert_sorted-perm : (a : A) (xs : List A) → Perm (insert_sorted a xs) (a ∷ xs)
  unfolding insert_sorted
  insert_sorted-perm a [] = Perm.refl (a ∷ [])
  insert_sorted-perm a (x ∷ xs) = elim (Bool-cases (less x a)) [
    | inl e ↦ rw e (Perm.trans (Perm.cons x (insert_sorted-perm a xs)) (Perm.swap a x xs))
    | inr e ↦ rw e (Perm.refl (a ∷ x ∷ xs))
  ]

  pub sort_slice-perm : (xs : List A) → Perm (sort_slice xs) xs
  unfolding sort_slice
  sort_slice-perm [] = Perm.refl []
  sort_slice-perm (x ∷ xs) =
      Perm.trans (insert_sorted-perm x (sort_slice xs)) (Perm.cons x (sort_slice-perm xs))

  -- No later element is less than an earlier one.
  abbrev pub IsSorted : List A → Type ℓ
  IsSorted [] = Unit
  IsSorted (x ∷ xs) = All (λ y. less y x ≡ false) xs × IsSorted xs

  insert_sorted-All {κ} :
      (P : A → Type κ) (a : A) (xs : List A) → P a → All P xs → All P (insert_sorted a xs)
  unfolding insert_sorted
  insert_sorted-All P a [] pa h = (pa, tt)
  insert_sorted-All P a (x ∷ xs) pa h = elim (Bool-cases (less x a)) [
    | inl e ↦ rw e (h.0, insert_sorted-All P a xs pa h.1)
    | inr e ↦ rw e (pa, h)
  ]

  All-weaken :
      (trans : (x y z : A) → less y x ≡ false → less z y ≡ false → less z x ≡ false) (a x : A)
      (xs : List A)
      → less x a ≡ false
      → All (λ y. less y x ≡ false) xs
      → All (λ y. less y a ≡ false) xs
  All-weaken trans a x [] e h = tt
  All-weaken trans a x (y ∷ ys) e h = (trans a x y e h.0, All-weaken trans a x ys e h.1)

  insert_sorted-IsSorted :
      (asym : (x y : A) → less x y ≡ true → less y x ≡ false)
      (trans : (x y z : A) → less y x ≡ false → less z y ≡ false → less z x ≡ false) (a : A)
      (xs : List A)
      → IsSorted xs
      → IsSorted (insert_sorted a xs)
  unfolding insert_sorted
  insert_sorted-IsSorted asym trans a [] h = (tt, tt)
  insert_sorted-IsSorted asym trans a (x ∷ xs) h = elim (Bool-cases (less x a)) [
    | inl e ↦ rw e (
      insert_sorted-All (λ y. less y x ≡ false) a xs (asym x a e) h.0,
      insert_sorted-IsSorted asym trans a xs h.1,
    )
    | inr e ↦ rw e ((e, All-weaken trans a x xs e h.0), h)
  ]

  -- For a strict weak order the result is sorted.
  pub sort_slice-IsSorted :
      (asym : (x y : A) → less x y ≡ true → less y x ≡ false)
      (trans : (x y z : A) → less y x ≡ false → less z y ≡ false → less z x ≡ false) (xs : List A)
      → IsSorted (sort_slice xs)
  unfolding sort_slice
  sort_slice-IsSorted asym trans [] = tt
  sort_slice-IsSorted asym trans (x ∷ xs) =
      insert_sorted-IsSorted asym trans x (sort_slice xs) (sort_slice-IsSorted asym trans xs)

  pub sort_slice-All {κ} : (P : A → Type κ) (xs : List A) → All P xs → All P (sort_slice xs)
  unfolding sort_slice
  sort_slice-All P [] h = tt
  sort_slice-All P (x ∷ xs) h = insert_sorted-All P x (sort_slice xs) h.0 (sort_slice-All P xs h.1)
