-- ===== src/Gateway/RateLimit.antt =====
-- cmd/coggo-oauth-gateway/ratelimit.go. The token bucket of golang.org/x/time/rate is a parameter:
-- its states, the state of a new one under the configured limits, and what `Allow` does at a moment.
pub mod Laws
use coggo.Prelude.{
  ℕ, ◌-◌, ◌*◌, String, ◌==◌, Bool, true, false, not, Option, none, some, List, [], ◌∷◌, filter, ltb,
  if◌then◌else◌, Dict, lookup, insert,
}
use coggo.Types.{Time}

pub record EmailBucket (L : Type 0) : Type 0 where
  pub lim : L
  pub last_seen : Time

-- the map of a `perEmailLimiter`
abbrev pub Buckets : Type 0 → Type 0
Buckets L = Dict (EmailBucket L)

-- the answers of the gateway's own handlers
pub data Answer (A : Type 0) : Type 0 where
  forwarded : A → Answer A
  answered : String → Answer A
  unauthorized : String → Answer A
  method_not_allowed internal_error too_many_requests : Answer A

abbrev pub idle_limit : Time
idle_limit = 600 * 1_000_000_000

module _ {L : Type 0} where
  -- `now.Sub(b.lastSeen) > 10*time.Minute`
  abbrev pub is_idle : Time → EmailBucket L → Bool
  is_idle now b = ltb idle_limit (now - b.last_seen)

  -- one round of `sweep`
  unfoldable pub sweep : Time → Buckets L → Buckets L
  unfolding filter
  sweep now buckets = filter (λ e. not (is_idle now e.1)) buckets

  abbrev pub limiter_of : L → Option (EmailBucket L) → L
  limiter_of new_limiter none = new_limiter
  limiter_of new_limiter (some b) = b.lim

abbrev pub limited : {A : Type 0} → Bool → A → Answer A
limited true a = forwarded a
limited false a = too_many_requests

module _ {L : Type 0} (new_limiter : L) (allow_at : Time → L → Bool × L) where
  unfoldable pub allow : (String → String) → Time → String → Buckets L → Bool × Buckets L
  allow lower now email buckets =
      let taken = allow_at now (limiter_of new_limiter (lookup (lower email) buckets)) in
      (taken.0, insert (lower email) (record { lim = taken.1; last_seen = now }) buckets)

  -- `Wrap`; the empty text stands for a request that no validator has seen.
  unfoldable pub wrap_per_email :
      {A : Type 0} → (String → String) → Time → String → A → Buckets L → Answer A × Buckets L
  unfolding allow
  wrap_per_email lower now email a buckets =
      if email == ""
      then (internal_error, buckets)
      else (limited (allow lower now email buckets).0 a, (allow lower now email buckets).1)
