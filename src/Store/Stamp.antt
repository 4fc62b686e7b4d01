-- ===== src/Store/Stamp.antt =====
-- `formatTime` and `parseTime` of internal/store/sqlite.go. RFC3339Nano text in UTC: the date and
-- the time of day in a fixed width, kept here as the number of seconds since Go's zero time; then,
-- if the fraction is not zero, a point and its digits without the trailing zeros; then `Z`.
pub mod Laws
use mathlib.Core.List.{reverse}
use coggo.Prelude.{
  ℕ, zero, suc, ◌+◌, ◌-◌, ◌*◌, ◌/◌, ◌%◌, ◌^◌, String, Bool, true, false, List, [], ◌∷◌, ◌++◌, map,
  length, eqb, if◌then◌else◌,
}
use coggo.Prelude.Order.{Order, lex, by_key}
use coggo.Prelude.Result.{Result, ok, err, message}
use coggo.Types.{Time, zero_time}

pub record Stamp : Type 0 where
  pub seconds : ℕ
  -- the digits behind the point, the most significant first
  pub fraction : List ℕ

-- the last `k` decimal digits of `n`, the least significant first
unfoldable pub low_digits : ℕ → ℕ → List ℕ
low_digits zero n = []
low_digits (suc k) n = n % 10 ∷ low_digits k (n / 10)

-- without the zeros in front
unfoldable pub strip : List ℕ → List ℕ
strip [] = []
strip (d ∷ ds) = let rest = strip ds in if eqb d 0 then rest else d ∷ ds

unfoldable pub format_time : Time → Stamp
format_time t = record {
  seconds = t / 1000000000;
  fraction = reverse (strip (low_digits 9 (t % 1000000000)));
}

-- A text in a time column: empty, of the form that `formatTime` writes, or neither.
pub data TimeText : Type 0 where
  blank : TimeText
  stamp : Stamp → TimeText
  unrecognised : String → TimeText

-- the number that decimal digits stand for
unfoldable pub horner : ℕ → List ℕ → ℕ
horner acc [] = acc
horner acc (d ∷ ds) = horner (acc * 10 + d) ds

-- nanoseconds of a fraction
unfoldable pub nanoseconds : List ℕ → ℕ
unfolding horner
nanoseconds ds = horner 0 ds * 10 ^ (9 - length ds)

unfoldable pub parse_time : TimeText → Result Time
unfolding nanoseconds
parse_time blank = ok zero_time
parse_time (stamp s) = ok (s.seconds * 1000000000 + nanoseconds s.fraction)
parse_time (unrecognised s) = err (message "unrecognised time format")

-- The bytes behind the fixed-width part.
abbrev pub tail_bytes : List ℕ → List ℕ
tail_bytes [] = b'Z' ∷ []
tail_bytes (d ∷ ds) = b'.' ∷ (map (λ x. x + 48) (d ∷ ds) ++ b'Z' ∷ [])

-- What the text of a stamp compares by, byte by byte; the fixed-width part compares as its number.
abbrev pub stamp_key : Stamp → List ℕ
stamp_key s = s.seconds ∷ tail_bytes s.fraction

-- Comparison of two texts in a time column, as SQLite compares TEXT.
abbrev pub stamps : Order Stamp
stamps = by_key stamp_key lex
