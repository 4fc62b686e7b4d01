-- ===== src/Prelude/Texts.antt =====
-- Prefixes of texts, as `strings.HasPrefix` and a slice take them off, decimal digits, and
-- `strings.Split` at commas.
use Prim.Native.Nat.{ℕ, ◌+◌, ◌-◌, ◌*◌}
use Prim.Native.Char.{Char, code}
use Prim.Native.String.{String, ◌++◌}
use mathlib.Core.Path.{◌≡◌, refl}
use mathlib.Core.Bool.{true, ◌&&◌}
use mathlib.Core.Option.{Option, none, some}
use mathlib.Core.List.{List, [], ◌∷◌}
use native.Mathlib.Omega.{arith}
use text.Mathlib.TextLemmas.{nil-append, cons-append}
use coggo.Prelude.Tests.{leb, eqb, if◌then◌else◌}

-- what follows the prefix; `none` where the text does not begin with it
unfoldable pub cut_prefix : String → String → Option String
cut_prefix String.[] s = some s
cut_prefix (String.◌∷◌ p ps) String.[] = none
cut_prefix (String.◌∷◌ p ps) (String.◌∷◌ c s) =
    let rest = cut_prefix ps s in if eqb (code p) (code c) then rest else none

pub cut_prefix-append : (p s : String) → cut_prefix p (p ++ s) ≡ some s
unfolding cut_prefix
cut_prefix-append String.[] s = rw (nil-append s) refl
cut_prefix-append (String.◌∷◌ c p) s =
    let found : eqb (code c) (code c) ≡ true = ground arith in
    rw (cons-append c p s, found) (cut_prefix-append p s)

-- `none` where a character is no digit
unfoldable pub read_digits : ℕ → String → Option ℕ
read_digits n String.[] = some n
read_digits n (String.◌∷◌ c s) =
    let rest = read_digits (n * 10 + (code c - 48)) s in
    if leb 48 (code c) && leb (code c) 57 then rest else none

-- a character in front of the first piece
abbrev pub onto_first : Char → List String → List String
onto_first c [] = String.◌∷◌ c "" ∷ []
onto_first c (piece ∷ pieces) = String.◌∷◌ c piece ∷ pieces

-- the pieces between the commas
unfoldable pub split_commas : String → List String
split_commas String.[] = "" ∷ []
split_commas (String.◌∷◌ c s) =
    let rest = split_commas s in if eqb (code c) 44 then "" ∷ rest else onto_first c rest
