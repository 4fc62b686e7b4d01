-- ===== src/Gateway/Validator.antt =====
-- cmd/coggo-oauth-gateway/google_validator.go. Google's tokeninfo endpoint is a parameter, its
-- reply, an error where the request fails or the body does not decode. SHA-256 and the two functions
-- of the package `strings` are parameters as well. Each `time.Now()` of a call is a reading.
pub mod Expiry
pub mod Laws
pub mod Interleavings
pub mod Caching
use coggo.Prelude.{
  ℕ, ◌+◌, ◌*◌, String, ◌==◌, Bool, true, false, not, ◌&&◌, Option, none, some, List, [], ◌∷◌, any,
  is_empty, map, filter, ltb, if◌then◌else◌, Dict, lookup, insert, delete,
}
use coggo.Prelude.Result.{Error, Result, ok, err, message, about, wrap}
use coggo.Types.{Time}
use coggo.Prelude.Integers.{parse_int}
use coggo.Gateway.Validator.Expiry.{unix, second}

pub record GoogleTokenInfo : Type 0 where
  pub aud : String
  pub sub : String
  pub email : String
  pub email_verified : String
  pub exp : String
  pub error : String
  pub error_description : String

pub record CachedUser : Type 0 where
  pub sub : String
  pub email : String
  pub expires_at : Time

pub record GoogleValidator : Type 0 where
  pub expected_audience : String
  -- the keys of a set; one that is there twice is there once
  pub allowed_emails : List String
  pub cache : Dict CachedUser

-- the moments at which one call reads the clock
pub record Readings : Type 0 where
  pub at_lookup : Time
  pub at_check : Time
  pub at_store : Time

-- the user, or the email that Google reported and the error
pub data Verdict : Type 0 where
  admitted : CachedUser → Verdict
  refused : String → Error → Verdict

abbrev pub max_cache_ttl : Time
max_cache_ttl = 300 * second

abbrev pub has_email : List String → String → Bool
has_email allowed email = any (λ a. a == email) allowed

-- whether the instant is over, for an expiry that may lie before the first instant
abbrev pub is_past : Time → Option Time → Bool
is_past now none = true
is_past now (some t) = ltb t now

abbrev pub earlier : Time → Time → Time
earlier t cap = if ltb cap t then cap else t

abbrev pub expiry_of : Option Time → Time
expiry_of none = 0
expiry_of (some t) = t

module _ (lower trim : String → String) where
  abbrev pub new_google_validator : String → List String → GoogleValidator
  new_google_validator audience emails = record {
    expected_audience = audience;
    allowed_emails = filter (λ e. not (e == "")) (map (λ e. lower (trim e)) emails);
    cache = [];
  }

abbrev pub unexpired : Time → String → Option Time → Result Time
unexpired now exp expiry =
    if is_past now expiry then err (about "token expired at" exp) else ok (expiry_of expiry)

abbrev pub check_exp : Time → String → Result Time
check_exp now exp = elim (parse_int exp) [
  | none ↦ err (about "invalid exp" exp)
  | some n ↦ unexpired now exp (unix n)
]

module _ (lower : String → String) where
  abbrev pub check_email : Time → GoogleValidator → GoogleTokenInfo → Result Time
  check_email now v info =
      if is_empty v.allowed_emails
      then err (message "no allowed emails configured (set OAUTH_ALLOWED_EMAILS)")
      else if info.email_verified == "true"
      then if has_email v.allowed_emails (lower info.email)
        then check_exp now info.exp
        else err (message "email not in allowlist")
      else err (message "email not verified")

  -- The checks on the reply, in the order of the code; the result is the expiry.
  unfoldable pub check_info : Time → GoogleValidator → GoogleTokenInfo → Result Time
  check_info now v info =
      if info.error == ""
      then if info.aud == v.expected_audience
        then check_email now v info
        else err (about "audience mismatch" info.aud)
      else err (wrap "google rejected token" (about info.error info.error_description))

-- An entry that is over goes with the stale ones.
abbrev pub hit_or :
    Time
    → Option CachedUser
    → GoogleValidator
    → GoogleValidator
    → Option CachedUser × GoogleValidator
hit_or now none v pruned = (none, pruned)
hit_or now (some u) v pruned = if ltb now u.expires_at then (some u, v) else (none, pruned)

module _ (hash : String → String) where
  -- the first critical section: a hit, or else the entry of the key goes
  unfoldable pub take_cached : Time → String → GoogleValidator → Option CachedUser × GoogleValidator
  take_cached now token v =
      hit_or now (lookup (hash token) v.cache) v (record v { cache = delete (hash token) v.cache })

  -- the second critical section
  unfoldable pub remember : String → CachedUser → GoogleValidator → GoogleValidator
  remember token u v = record v { cache = insert (hash token) u v.cache }

abbrev pub user_of : Time → GoogleTokenInfo → Time → CachedUser
user_of now info expiry = record {
  sub = info.sub;
  email = info.email;
  expires_at = earlier expiry (now + max_cache_ttl);
}

module _ (hash lower : String → String) where
  abbrev pub settle :
      Readings
      → String
      → GoogleTokenInfo
      → Result Time
      → GoogleValidator
      → Verdict × GoogleValidator
  settle r token info (err e) v = (refused info.email e, v)
  settle r token info (ok expiry) v =
      let u = user_of r.at_store info expiry in (admitted u, remember hash token u v)

  -- what follows a miss
  unfoldable pub introspect :
      Readings → Result GoogleTokenInfo → String → GoogleValidator → Verdict × GoogleValidator
  unfolding remember
  introspect r (err e) token v = (refused "" e, v)
  introspect r (ok info) token v = settle r token info (check_info lower r.at_check v info) v

  abbrev pub after_lookup :
      Readings
      → Result GoogleTokenInfo
      → String
      → Option CachedUser × GoogleValidator
      → Verdict × GoogleValidator
  after_lookup r reply token (some u, v) = (admitted u, v)
  after_lookup r reply token (none, v) = introspect r reply token v

  unfoldable pub validate :
      Readings → Result GoogleTokenInfo → String → GoogleValidator → Verdict × GoogleValidator
  unfolding take_cached introspect
  validate r reply token v = after_lookup r reply token (take_cached hash r.at_lookup token v)
