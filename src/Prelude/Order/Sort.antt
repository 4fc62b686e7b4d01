-- ===== src/Prelude/Order/Sort.antt =====
-- Sorting by an order: `ORDER BY` and `sort.Slice`.
use mathlib.Core.List.{Perm}
use mathlib.Core.List.Perm
use coggo.Prelude.{
  ℕ, zero, suc, ◌≡◌, refl, ◌∙◌, ap, inl, inr, true, List, [], ◌∷◌, arith, length, take, All,
  All-take, Bool-cases, if◌then◌else◌,
}
use coggo.Prelude.Order.{Order}

module _ {ℓ} {A : Type ℓ} (o : Order A) where
  -- Insert before the first element that is not smaller.
  place : A → List A → List A
  place x [] = x ∷ []
  place x (y ∷ ys) = let rest = place x ys in if o.le x y then x ∷ y ∷ ys else y ∷ rest

  unfoldable pub sort : List A → List A
  unfolding place
  sort [] = []
  sort (x ∷ xs) = place x (sort xs)

  -- Each element is at most every later one.
  abbrev pub Sorted : List A → Type 0
  Sorted [] = Unit
  Sorted (x ∷ xs) = All (λ y. o.le x y ≡ true) xs × Sorted xs

  All-le_trans :
      (x y : A) (xs : List A)
      → o.le x y ≡ true
      → All (λ z. o.le y z ≡ true) xs
      → All (λ z. o.le x z ≡ true) xs
  All-le_trans x y [] h a = tt
  All-le_trans x y (z ∷ xs) h a = (o.trans x y z h a.0, All-le_trans x y xs h a.1)

  All-place {κ} : (P : A → Type κ) (x : A) (xs : List A) → P x → All P xs → All P (place x xs)
  unfolding place
  All-place P x [] h a = (h, tt)
  All-place P x (y ∷ ys) h a = elim (Bool-cases (o.le x y)) [
    | inl e ↦ rw e (h, a)
    | inr e ↦ rw e (a.0, All-place P x ys h a.1)
  ]

  -- What holds of every element holds of every element of the sorted list.
  pub All-sort {κ} : (P : A → Type κ) (xs : List A) → All P xs → All P (sort xs)
  unfolding sort
  All-sort P [] a = tt
  All-sort P (x ∷ xs) a = All-place P x (sort xs) a.0 (All-sort P xs a.1)

  place-Sorted : (x : A) (xs : List A) → Sorted xs → Sorted (place x xs)
  unfolding place
  place-Sorted x [] s = (tt, tt)
  place-Sorted x (y ∷ ys) s = elim (Bool-cases (o.le x y)) [
    | inl e ↦ rw e ((e, All-le_trans x y ys e s.0), s)
    | inr e ↦ rw e (
      All-place (λ z. o.le y z ≡ true) x ys (ground (arith, o.total x y)) s.0,
      place-Sorted x ys s.1,
    )
  ]

  pub sort-Sorted : (xs : List A) → Sorted (sort xs)
  unfolding sort
  sort-Sorted [] = tt
  sort-Sorted (x ∷ xs) = place-Sorted x (sort xs) (sort-Sorted xs)

  place_first : (x : A) (xs : List A) → All (λ y. o.le x y ≡ true) xs → place x xs ≡ x ∷ xs
  unfolding place
  place_first x [] a = refl
  place_first x (y ∷ ys) a = rw a.0

  -- A list that is in order already is left as it is.
  pub sort_of_Sorted : (xs : List A) → Sorted xs → sort xs ≡ xs
  unfolding sort
  sort_of_Sorted [] s = refl
  sort_of_Sorted (x ∷ xs) s = rw (sort_of_Sorted xs s.1) (place_first x xs s.0)

  place-perm : (x : A) (xs : List A) → Perm (place x xs) (x ∷ xs)
  unfolding place
  place-perm x [] = Perm.refl (x ∷ [])
  place-perm x (y ∷ ys) = elim (Bool-cases (o.le x y)) [
    | inl e ↦ rw e (Perm.refl (x ∷ y ∷ ys))
    | inr e ↦ rw e (Perm.trans (Perm.cons y (place-perm x ys)) (Perm.swap x y ys))
  ]

  pub sort-perm : (xs : List A) → Perm (sort xs) xs
  unfolding sort
  sort-perm [] = Perm.refl []
  sort-perm (x ∷ xs) = Perm.trans (place-perm x (sort xs)) (Perm.cons x (sort-perm xs))

  length-place : (x : A) (xs : List A) → length (place x xs) ≡ suc (length xs)
  unfolding place
  length-place x [] = refl
  length-place x (y ∷ ys) = ground (arith, length-place x ys)

  pub length-sort : (xs : List A) → length (sort xs) ≡ length xs
  unfolding sort
  length-sort [] = refl
  length-sort (x ∷ xs) = length-place x (sort xs) ∙ ap suc (length-sort xs)

  pub take-Sorted : (n : ℕ) (xs : List A) → Sorted xs → Sorted (take n xs)
  take-Sorted zero xs s = tt
  take-Sorted (suc n) [] s = tt
  take-Sorted (suc n) (x ∷ xs) s = (All-take (λ y. o.le x y ≡ true) n xs s.0, take-Sorted n xs s.1)
