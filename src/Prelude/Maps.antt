-- ===== src/Prelude/Maps.antt =====
-- Go's `map[string]V` as an association list. A key that is missing reads as `none`; an assignment
-- replaces the value in place or adds the key; `delete` drops the key.
use Prim.Native.String.{String}
use mathlib.Core.Path.{◌≡◌, refl, subst}
use mathlib.Core.Logic.{inl, inr}
use mathlib.Core.Option.{Option, none, some}
use mathlib.Core.List.{List, [], ◌∷◌}
use native.Mathlib.Omega.{arith}
use text.Mathlib.Text.{◌==◌}
use text.Mathlib.TextEquality.{eq_iff}
use coggo.Prelude.Tests.{if◌then◌else◌, Bool-cases}
use coggo.Prelude.Lists.{All}

abbrev pub Dict {ℓ} : Type ℓ → Type ℓ
Dict V = List (String × V)

module _ {ℓ} {V : Type ℓ} where
  unfoldable pub lookup : String → Dict V → Option V
  lookup k [] = none
  lookup k ((key, new) ∷ dict) = if key == k then some new else lookup k dict

  unfoldable pub insert : String → V → Dict V → Dict V
  insert k new [] = (k, new) ∷ []
  insert k new ((key, old) ∷ dict) =
      if key == k then (k, new) ∷ dict else (key, old) ∷ insert k new dict

  unfoldable pub delete : String → Dict V → Dict V
  delete k [] = []
  delete k ((key, new) ∷ dict) =
      let rest = delete k dict in if key == k then rest else (key, new) ∷ rest

  pub lookup-insert :
      (k key : String) (new : V) (dict : Dict V)
      → lookup key (insert k new dict) ≡ (if k == key then some new else lookup key dict)
  unfolding lookup insert
  lookup-insert k key new [] = refl
  lookup-insert k key new ((i, old) ∷ dict) =
      ground (arith, eq_iff k key, eq_iff i k, eq_iff i key, lookup-insert k key new dict)

  pub lookup-delete :
      (k key : String) (dict : Dict V)
      → lookup key (delete k dict) ≡ (if k == key then none else lookup key dict)
  unfolding lookup delete
  lookup-delete k key [] = ground arith
  lookup-delete k key ((i, new) ∷ dict) =
      ground (arith, lookup-delete k key dict, eq_iff i k, eq_iff i key, eq_iff k key)

module _ {ℓ κ} {V : Type ℓ} (P : V → Type κ) where
  abbrev pub Values : Dict V → Type κ
  Values = All (λ e. P e.1)

  pub Values-insert :
      (k : String) (v : V) (dict : Dict V) → P v → Values dict → Values (insert k v dict)
  unfolding insert
  Values-insert k v [] p h = (p, tt)
  Values-insert k v ((key, old) ∷ dict) p h = elim (Bool-cases (key == k)) [
    | inl e ↦ rw e (p, h.1)
    | inr e ↦ rw e (h.0, Values-insert k v dict p h.1)
  ]

  pub Values-delete : (k : String) (dict : Dict V) → Values dict → Values (delete k dict)
  unfolding delete
  Values-delete k [] h = tt
  Values-delete k ((key, old) ∷ dict) h = elim (Bool-cases (key == k)) [
    | inl e ↦ rw e (Values-delete k dict h.1)
    | inr e ↦ rw e (h.0, Values-delete k dict h.1)
  ]

  pub Values-lookup :
      (k : String) (v : V) (dict : Dict V) → Values dict → lookup k dict ≡ some v → P v
  unfolding lookup
  Values-lookup k v [] h e = cc
  Values-lookup k v ((key, old) ∷ dict) h e = elim (Bool-cases (key == k)) [
    | inl t ↦ subst P (ground arith) h.0
    | inr f ↦ Values-lookup k v dict h.1 (ground arith)
  ]

pub ruleset dict_laws = (lookup-insert, lookup-delete)
