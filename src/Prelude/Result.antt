-- ===== src/Prelude/Result.antt =====
-- Go's `(value, error)`: a value, or an error with the text that it was built from.
use mathlib.Core.Path.{◌≡◌, refl}
use mathlib.Core.Bool.{Bool, true, false}
use mathlib.Core.List.{List, [], ◌∷◌, map}
use mathlib.Core.Option.{Option, none, some}
use Prim.Native.String.{String}

-- `errors.New(text)`, `fmt.Errorf(text, detail)`, and `fmt.Errorf(text: %w, cause)`.
pub data Error : Type 0 where
  message : String → Error
  about : String → String → Error
  wrap : String → Error → Error

pub data Result {ℓ} (A : Type ℓ) : Type ℓ where
  ok : A → Result A
  err : Error → Result A

infixl 5 ◌>>=◌
abbrev pub ◌>>=◌ {ℓ κ} : {R : Type ℓ} {S : Type κ} → Result R → (R → Result S) → Result S
ok value >>= next = next value
err failure >>= next = err failure

-- `if err != nil { return fmt.Errorf(text: %w, err) }`.
abbrev pub context {ℓ} : {A : Type ℓ} → String → Result A → Result A
context text (ok a) = ok a
context text (err e) = err (wrap text e)

abbrev pub or_else {ℓ} : {A : Type ℓ} → Option A → Error → Result A
or_else none e = err e
or_else (some a) e = ok a

abbrev pub is_ok {ℓ} : {A : Type ℓ} → Result A → Bool
is_ok (ok a) = true
is_ok (err e) = false

-- Reads each element, and stops at the first error.
unfoldable pub traverse {ℓ κ} :
    {A : Type ℓ} {B : Type κ} → (A → Result B) → List A → Result (List B)
traverse f [] = ok []
traverse f (x ∷ xs) = do y ← f x; ys ← traverse f xs; ok (y ∷ ys)

-- If each element reads, the whole list reads, as the list of what the elements read as.
pub traverse-map {ℓ κ} :
    {A : Type ℓ} {B : Type κ} (f : A → Result B) (g : A → B) (xs : List A)
    → ((x : A) → f x ≡ ok (g x))
    → traverse f xs ≡ ok (map g xs)
unfolding traverse
traverse-map f g [] h = refl
traverse-map f g (x ∷ xs) h = rw (h x, traverse-map f g xs h)
