-- ===== src/Prelude/Integers.antt =====
-- `strconv.ParseInt(s, 10, 64)`, which `strconv.Atoi` is on 64 bits.
use Prim.Native.Char.{code}
use Prim.Native.Nat.{ℕ, ◌-◌, ◌^◌}
use Prim.Native.String.{String}
use mathlib.Core.Option.{Option, none, some}
use coggo.Prelude.Tests.{leb, eqb, if◌then◌else◌}
use coggo.Prelude.Texts.{read_digits}

-- a signed number, by its size
pub data Int64 : Type 0 where
  since before : ℕ → Int64

unfoldable pub read_number : String → Option ℕ
unfolding read_digits
read_number String.[] = none
read_number (String.◌∷◌ c s) = read_digits 0 (String.◌∷◌ c s)

abbrev pub up_to : ℕ → (ℕ → Int64) → Option ℕ → Option Int64
up_to bound sign none = none
up_to bound sign (some n) = if leb n bound then some (sign n) else none

-- A sign may lead; a number outside of the 64 bits is an error.
unfoldable pub parse_int : String → Option Int64
unfolding read_number
parse_int String.[] = none
parse_int (String.◌∷◌ c s) =
    if eqb (code c) 45
    then up_to (2 ^ 63) before (read_number s)
    else if eqb (code c) 43
    then up_to (2 ^ 63 - 1) since (read_number s)
    else up_to (2 ^ 63 - 1) since (read_digits 0 (String.◌∷◌ c s))
