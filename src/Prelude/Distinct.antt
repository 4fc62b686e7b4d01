-- ===== src/Prelude/Distinct.antt =====
-- Lists whose elements have different text keys, as the rows of a table with a primary key.
use coggo.Prelude.{
  String, ◌≡◌, Bool, false, not, List, [], ◌∷◌, ◌++◌, inl, inr, arith, ◌==◌, eq_iff, All, any, map,
  filter, Bool-cases,
}

module _ {ℓ} {A : Type ℓ} (key : A → String) where
  -- no element has the key
  abbrev pub Lacks : String → List A → Type 0
  Lacks k xs = All (λ x. (key x == k) ≡ false) xs

  abbrev pub Distinct : List A → Type 0
  Distinct [] = Unit
  Distinct (x ∷ xs) = Lacks (key x) xs × Distinct xs

  pub filter-Lacks : (p : A → Bool) (k : String) (xs : List A) → Lacks k xs → Lacks k (filter p xs)
  unfolding filter
  filter-Lacks p k [] h = tt
  filter-Lacks p k (x ∷ xs) h = elim (Bool-cases (p x)) [
    | inl e ↦ rw e (h.0, filter-Lacks p k xs h.1)
    | inr e ↦ rw e (filter-Lacks p k xs h.1)
  ]

  pub filter-Distinct : (p : A → Bool) (xs : List A) → Distinct xs → Distinct (filter p xs)
  unfolding filter
  filter-Distinct p [] h = tt
  filter-Distinct p (x ∷ xs) h = elim (Bool-cases (p x)) [
    | inl e ↦ rw e (filter-Lacks p (key x) xs h.0, filter-Distinct p xs h.1)
    | inr e ↦ rw e (filter-Distinct p xs h.1)
  ]

  Lacks-append :
      (k : String) (xs : List A) (y : A)
      → Lacks k xs
      → (key y == k) ≡ false
      → Lacks k (xs ++ y ∷ [])
  Lacks-append k [] y h e = (e, tt)
  Lacks-append k (x ∷ xs) y h e = (h.0, Lacks-append k xs y h.1 e)

  -- An element with a new key may be added at the end.
  pub append-Distinct :
      (xs : List A) (y : A) → Distinct xs → Lacks (key y) xs → Distinct (xs ++ y ∷ [])
  append-Distinct [] y d l = (tt, tt)
  append-Distinct (x ∷ xs) y d l = (
    Lacks-append (key x) xs y d.0
        (ground (arith, l.0, eq_iff (key x) (key y), eq_iff (key y) (key x))),
    append-Distinct xs y d.1 l.1,
  )

  pub any-Lacks : (k : String) (xs : List A) → any (λ x. key x == k) xs ≡ false → Lacks k xs
  any-Lacks k [] h = tt
  any-Lacks k (x ∷ xs) h = (ground arith, any-Lacks k xs (ground arith))

  -- once the elements with a key are dropped, none has it
  pub drop-Lacks : (k : String) (xs : List A) → Lacks k (filter (λ x. not (key x == k)) xs)
  unfolding filter
  drop-Lacks k [] = tt
  drop-Lacks k (x ∷ xs) = elim (Bool-cases (key x == k)) [
    | inl e ↦ rw e (drop-Lacks k xs)
    | inr e ↦ rw e (e, drop-Lacks k xs)
  ]

  map-Lacks :
      (f : A → A) (k : String) (xs : List A)
      → ((x : A) → key (f x) ≡ key x)
      → Lacks k xs
      → Lacks k (map f xs)
  map-Lacks f k [] h l = tt
  map-Lacks f k (x ∷ xs) h l = (rw (h x) l.0, map-Lacks f k xs h l.1)

  pub map-Distinct :
      (f : A → A) (xs : List A) → ((x : A) → key (f x) ≡ key x) → Distinct xs → Distinct (map f xs)
  map-Distinct f [] h d = tt
  map-Distinct f (x ∷ xs) h d = (rw (h x) (map-Lacks f (key x) xs h d.0), map-Distinct f xs h d.1)
