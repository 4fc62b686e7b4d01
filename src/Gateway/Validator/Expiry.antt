-- ===== src/Gateway/Validator/Expiry.antt =====
-- The expiry of cmd/coggo-oauth-gateway/google_validator.go: `time.Unix`. An instant is the number of nanoseconds since Go's zero time.
use coggo.Prelude.{ℕ, ◌+◌, ◌-◌, ◌*◌, ◌^◌, Option, none, some, ltb, leb, if◌then◌else◌}
use coggo.Prelude.Integers.{Int64, since, before}
use coggo.Types.{Time}

abbrev pub second : Time
second = 1_000_000_000

-- the seconds from Go's zero time to 1970
abbrev pub unix_to_internal : ℕ
unix_to_internal = 62_135_596_800

-- `time.Unix(n, 0)`; `none` is an instant before Go's zero time. A sum that does not fit in 64 bits
-- wraps round to one.
unfoldable pub unix : Int64 → Option Time
unix (since n) =
    if ltb (n + unix_to_internal) (2 ^ 63) then some ((n + unix_to_internal) * second) else none
unix (before n) = if leb n unix_to_internal then some ((unix_to_internal - n) * second) else none
