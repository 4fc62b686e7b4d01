-- ===== src/Prelude/Order.antt =====
-- Total preorders by Boolean tests, the ways to build them that the queries use, and sorting.
pub mod Sort
use Prim.Native.Nat.{ℕ, ◌≤◌}
use Prim.Native.Char.{code}
use Prim.Native.String.{String}
use mathlib.Core.Path.{◌≡◌, refl}
use mathlib.Core.Logic.{◌⊎◌, inl, inr}
use mathlib.Core.Bool.{Bool, true, false}
use mathlib.Core.List.{List, [], ◌∷◌}
use native.Mathlib.Omega.{arith}
use coggo.Prelude.Tests.{ltb, leb, eqb, if◌then◌else◌}

pub record Order {ℓ} (A : Type ℓ) : Type ℓ where
  pub le : A → A → Bool
  pub total : (a b : A) → (le a b ≡ true) ⊎ (le b a ≡ true)
  pub trans : (a b c : A) → le a b ≡ true → le b c ≡ true → le a c ≡ true

pub leb_total : (a b : ℕ) → (leb a b ≡ true) ⊎ (leb b a ≡ true)
leb_total a b = ground arith

pub leb_trans : (a b c : ℕ) → leb a b ≡ true → leb b c ≡ true → leb a c ≡ true
leb_trans a b c h k = ground arith

abbrev pub numbers : Order ℕ
numbers = record { le = leb; total = leb_total; trans = leb_trans }

-- Bytewise order of texts, as `memcmp` and Go's `<` on strings have it.
abbrev pub lex_le : List ℕ → List ℕ → Bool
lex_le [] ys = true
lex_le (x ∷ xs) [] = false
lex_le (x ∷ xs) (y ∷ ys) =
    let rest = lex_le xs ys in if ltb x y then true else if eqb x y then rest else false

pub lex_le_total : (xs ys : List ℕ) → (lex_le xs ys ≡ true) ⊎ (lex_le ys xs ≡ true)
lex_le_total [] ys = inl refl
lex_le_total (x ∷ xs) [] = inr refl
lex_le_total (x ∷ xs) (y ∷ ys) = ground (arith, lex_le_total xs ys)

pub lex_le_trans :
    (xs ys zs : List ℕ) → lex_le xs ys ≡ true → lex_le ys zs ≡ true → lex_le xs zs ≡ true
lex_le_trans [] ys zs h k = refl
lex_le_trans (x ∷ xs) [] zs h k = cc
lex_le_trans (x ∷ xs) (y ∷ ys) [] h k = cc
lex_le_trans (x ∷ xs) (y ∷ ys) (z ∷ zs) h k = ground (arith, lex_le_trans xs ys zs)

abbrev pub lex : Order (List ℕ)
lex = record { le = lex_le; total = lex_le_total; trans = lex_le_trans }

module _ {ℓ κ} {A : Type ℓ} {B : Type κ} where
  -- Compare by a key.
  abbrev pub by_key : (A → B) → Order B → Order A
  by_key f o = record {
    le = λ a b. o.le (f a) (f b);
    total = λ a b. o.total (f a) (f b);
    trans = λ a b c. o.trans (f a) (f b) (f c);
  }

module _ {ℓ} {A : Type ℓ} where
  -- `DESC`.
  abbrev pub descending : Order A → Order A
  descending o = record {
    le = λ a b. o.le b a;
    total = λ a b. o.total b a;
    trans = λ a b c h k. o.trans c b a k h;
  }

  -- The second order decides where the first one ties.
  abbrev pub then_by_le : Order A → Order A → A → A → Bool
  then_by_le o p a b = if o.le b a then (if o.le a b then p.le a b else false) else true

  pub then_by_total :
      (o p : Order A) (a b : A) → (then_by_le o p a b ≡ true) ⊎ (then_by_le o p b a ≡ true)
  then_by_total o p a b = ground (arith, o.total a b, p.total a b)

  pub then_by_trans :
      (o p : Order A) (a b c : A)
      → then_by_le o p a b ≡ true
      → then_by_le o p b c ≡ true
      → then_by_le o p a c ≡ true
  then_by_trans o p a b c h k = ground (
    arith,
    o.total a b,
    o.total b c,
    o.total a c,
    o.trans a b c,
    o.trans b c a,
    o.trans c a b,
    o.trans c b a,
    p.trans a b c,
  )

  abbrev pub then_by : Order A → Order A → Order A
  then_by o p = record { le = then_by_le o p; total = then_by_total o p; trans = then_by_trans o p }

-- The code points of a text; their order is that of its UTF-8 bytes.
abbrev pub codes : String → List ℕ
codes String.[] = []
codes (String.◌∷◌ c s) = code c ∷ codes s

abbrev pub texts : Order String
texts = by_key codes lex
