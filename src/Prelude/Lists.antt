-- ===== src/Prelude/Lists.antt =====
-- Lists measured by native numbers, filtered and searched by Boolean tests.
use Prim.Native.Nat.{ℕ, zero, suc, ◌≤◌}
use mathlib.Core.Path.{◌≡◌, refl, ap, subst}
use mathlib.Core.Bool.{Bool, true, false, ◌||◌}
use mathlib.Core.Logic.{inl, inr}
use mathlib.Core.Option.{Option, none, some}
use mathlib.Core.List.{List, [], ◌∷◌, ◌++◌, map}
use native.Mathlib.Omega.{arith}
use coggo.Prelude.Tests.{if◌then◌else◌, is_some, Bool-cases}

module _ {ℓ} {A : Type ℓ} where
  abbrev pub length : List A → ℕ
  length [] = 0
  length (x ∷ xs) = suc (length xs)

  abbrev pub is_empty : List A → Bool
  is_empty [] = true
  is_empty (x ∷ xs) = false

  abbrev pub take : ℕ → List A → List A
  take zero xs = []
  take (suc n) [] = []
  take (suc n) (x ∷ xs) = x ∷ take n xs

  -- The elements that pass the test, in order.
  unfoldable pub filter : (A → Bool) → List A → List A
  filter p [] = []
  filter p (x ∷ xs) = let rest = filter p xs in if p x then x ∷ rest else rest

  -- The first element that passes the test.
  unfoldable pub find : (A → Bool) → List A → Option A
  find p [] = none
  find p (x ∷ xs) = let rest = find p xs in if p x then some x else rest

  abbrev pub any : (A → Bool) → List A → Bool
  any p [] = false
  any p (x ∷ xs) = let rest = any p xs in if p x then true else rest

  abbrev pub all : (A → Bool) → List A → Bool
  all p [] = true
  all p (x ∷ xs) = let rest = all p xs in if p x then rest else false

  -- Every element satisfies the predicate.
  abbrev pub All {κ} : (A → Type κ) → List A → Type κ
  All P [] = Unit
  All P (x ∷ xs) = P x × All P xs

module _ {ℓ} {A : Type ℓ} where
  pub length-take-le : (n : ℕ) (xs : List A) → length (take n xs) ≤ n
  length-take-le zero xs = omega arith
  length-take-le (suc n) [] = omega arith
  length-take-le (suc n) (x ∷ xs) = omega (arith, length-take-le n xs)

  pub All-take {κ} : (P : A → Type κ) (n : ℕ) (xs : List A) → All P xs → All P (take n xs)
  All-take P zero xs h = tt
  All-take P (suc n) [] h = tt
  All-take P (suc n) (x ∷ xs) h = (h.0, All-take P n xs h.1)

  pub All-filter : (p : A → Bool) (xs : List A) → All (λ x. p x ≡ true) (filter p xs)
  unfolding filter
  All-filter p [] = tt
  All-filter p (x ∷ xs) = elim (Bool-cases (p x)) [
    | inl e ↦ rw e (e, All-filter p xs)
    | inr e ↦ rw e (All-filter p xs)
  ]

  pub filter-append :
      (p : A → Bool) (xs ys : List A) → filter p (xs ++ ys) ≡ filter p xs ++ filter p ys
  unfolding filter
  filter-append p [] ys = refl
  filter-append p (x ∷ xs) ys = elim (Bool-cases (p x)) [
    | inl e ↦ rw e (ap (◌∷◌ x) (filter-append p xs ys))
    | inr e ↦ rw e (filter-append p xs ys)
  ]

  pub find-holds : (p : A → Bool) (xs : List A) (a : A) → find p xs ≡ some a → p a ≡ true
  unfolding find
  find-holds p [] a h = cc
  find-holds p (x ∷ xs) a h = elim (Bool-cases (p x)) [
    | inl e ↦ ground arith
    | inr e ↦ find-holds p xs a (ground arith)
  ]

  pub All-find {κ} :
      (P : A → Type κ) (p : A → Bool) (xs : List A) (a : A) → All P xs → find p xs ≡ some a → P a
  unfolding find
  All-find P p [] a h e = cc
  All-find P p (x ∷ xs) a h e = elim (Bool-cases (p x)) [
    | inl t ↦ subst P (ground arith) h.0
    | inr f ↦ All-find P p xs a h.1 (ground arith)
  ]

module _ {ℓ} {A : Type ℓ} where
  pub filter_none : (p : A → Bool) (xs : List A) → All (λ x. p x ≡ false) xs → filter p xs ≡ []
  unfolding filter
  filter_none p [] h = refl
  filter_none p (x ∷ xs) h = rw h.0 (filter_none p xs h.1)

  pub find-none : (p : A → Bool) (xs : List A) → All (λ x. p x ≡ false) xs → find p xs ≡ none
  unfolding find
  find-none p [] h = refl
  find-none p (x ∷ xs) h = rw h.0 (find-none p xs h.1)

  pub All-map {κ μ} :
      {B : Type κ} (P : B → Type μ) (f : A → B) (xs : List A)
      → All (λ x. P (f x)) xs
      → All P (map f xs)
  All-map P f [] h = tt
  All-map P f (x ∷ xs) h = (h.0, All-map P f xs h.1)

  pub All-mono {κ μ} :
      (P : A → Type κ) (Q : A → Type μ) (xs : List A) → ((x : A) → P x → Q x) → All P xs → All Q xs
  All-mono P Q [] f h = tt
  All-mono P Q (x ∷ xs) f h = (f x h.0, All-mono P Q xs f h.1)

  pub length-map {κ} : {B : Type κ} (f : A → B) (xs : List A) → length (map f xs) ≡ length xs
  length-map f [] = refl
  length-map f (x ∷ xs) = ap suc (length-map f xs)

  pub any-find : (p : A → Bool) (xs : List A) → any p xs ≡ is_some (find p xs)
  unfolding find
  any-find p [] = refl
  any-find p (x ∷ xs) = ground (arith, any-find p xs)

  pub take_of_length-le : (room : ℕ) (xs : List A) → length xs ≤ room → take room xs ≡ xs
  take_of_length-le zero [] short = refl
  take_of_length-le zero (x ∷ xs) short = absurd (omega arith)
  take_of_length-le (suc room) [] short = refl
  take_of_length-le (suc room) (x ∷ xs) short = ap (◌∷◌ x) (take_of_length-le room xs (omega arith))

  pub any-append : (p : A → Bool) (xs ys : List A) → any p (xs ++ ys) ≡ (any p xs || any p ys)
  any-append p [] ys = refl
  any-append p (x ∷ xs) ys = ground (arith, any-append p xs ys)
