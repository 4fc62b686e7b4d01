-- ===== src/Gateway/Validator/Laws.antt =====
-- cmd/coggo-oauth-gateway/google_validator.go: whom `Validate` admits, and until when.
use coggo.Prelude.{
  ◌+◌, ◌≤◌, String, ◌≡◌, refl, subst, Bool, true, ◌&&◌, Option, none, some, List, ltb, leb, lookup,
  Values, Values-insert, Values-delete, Values-lookup, All-mono, arith, Bool-cases, inl, inr,
}
use coggo.Prelude.Result.{Result, ok, err}
use coggo.Types.{Time}
use coggo.Gateway.Validator.{
  GoogleTokenInfo, CachedUser, GoogleValidator, Readings, Verdict, admitted, refused, max_cache_ttl,
  has_email, check_info, hit_or, take_cached, remember, user_of, introspect, settle,
}

-- What the allowlist and the time limit ask of a user.
abbrev pub vetted : (String → String) → List String → Time → CachedUser → Bool
vetted lower allowed now u =
    has_email allowed (lower u.email) && leb u.expires_at (now + max_cache_ttl)

-- every entry of the cache belongs to an allowed email and ends within the time limit
abbrev pub IsVetted : (String → String) → Time → GoogleValidator → Type 0
IsVetted lower now v = Values (λ u. vetted lower v.allowed_emails now u ≡ true) v.cache

check_info-has_email :
    (lower : String → String) (now : Time) (v : GoogleValidator) (info : GoogleTokenInfo)
    (expiry : Time)
    → check_info lower now v info ≡ ok expiry
    → has_email v.allowed_emails (lower info.email) ≡ true
unfolding check_info
check_info-has_email lower now v info expiry h = ground arith

vetted_mono :
    (lower : String → String) (allowed : List String) (t t' : Time) (u : CachedUser)
    → t ≤ t'
    → vetted lower allowed t u ≡ true
    → vetted lower allowed t' u ≡ true
vetted_mono lower allowed t t' u l h = ground arith

pub IsVetted-mono :
    (lower : String → String) (t t' : Time) (v : GoogleValidator)
    → t ≤ t'
    → IsVetted lower t v
    → IsVetted lower t' v
IsVetted-mono lower t t' v l h =
    All-mono _ _ v.cache (λ e. vetted_mono lower v.allowed_emails t t' e.1 l) h

-- What one critical section leaves: a user that it gives is vetted, and so is the cache.
pub record Kept (lower : String → String) (t : Time) (v : GoogleValidator) (o : Option CachedUser)
    (v' : GoogleValidator) : Type 0 where
  pub emails : v'.allowed_emails ≡ v.allowed_emails
  pub cached : IsVetted lower t v'
  pub given : (u : CachedUser) → o ≡ some u → vetted lower v.allowed_emails t u ≡ true

hit_or-Kept :
    (lower : String → String) (t now : Time) (o : Option CachedUser) (v pruned : GoogleValidator)
    → pruned.allowed_emails ≡ v.allowed_emails
    → IsVetted lower t v
    → IsVetted lower t pruned
    → ((u : CachedUser) → o ≡ some u → vetted lower v.allowed_emails t u ≡ true)
    → Kept lower t v (hit_or now o v pruned).0 (hit_or now o v pruned).1
hit_or-Kept lower t now none v pruned e h p k = record { emails = e; cached = p; given = λ u f. cc }
hit_or-Kept lower t now (some u) v pruned e h p k = elim (Bool-cases (ltb now u.expires_at)) [
  | inl b ↦ rw b (record { emails = refl; cached = h; given = k })
  | inr b ↦ rw b (record { emails = e; cached = p; given = λ w f. cc })
]

-- the user of a verdict
abbrev pub user_in : Verdict → Option CachedUser
user_in (admitted u) = some u
user_in (refused email e) = none

module _ (hash lower : String → String) where
  pub take_cached-Kept :
      (t now : Time) (token : String) (v : GoogleValidator)
      → IsVetted lower t v
      → Kept lower t v (take_cached hash now token v).0 (take_cached hash now token v).1
  unfolding take_cached
  take_cached-Kept t now token v h =
      let P = λ (u : CachedUser). vetted lower v.allowed_emails t u ≡ true in
      hit_or-Kept lower t now (lookup (hash token) v.cache) v _ refl h
        (Values-delete P (hash token) v.cache h) (λ u e. Values-lookup P (hash token) u v.cache h e)

  settle-Kept :
      (t : Time) (r : Readings) (token : String) (info : GoogleTokenInfo) (c : Result Time)
      (v : GoogleValidator)
      → r.at_store ≤ t
      → ((expiry : Time) → c ≡ ok expiry → has_email v.allowed_emails (lower info.email) ≡ true)
      → IsVetted lower t v
      → Kept lower t v
          (user_in (settle hash lower r token info c v).0)
          (settle hash lower r token info c v).1
  unfolding remember
  settle-Kept t r token info (err e) v l k h = record {
    emails = refl;
    cached = h;
    given = λ u f. cc;
  }
  settle-Kept t r token info (ok expiry) v l k h =
      let P = λ (u : CachedUser). vetted lower v.allowed_emails t u ≡ true in
      let u = user_of r.at_store info expiry in
      let good : P u = ground (arith, k expiry refl) in
      record {
        emails = refl;
        cached = Values-insert P (hash token) u v.cache good h;
        given = λ w f. let same : u ≡ w = ground arith in subst P same good;
      }

  pub introspect-Kept :
      (t : Time) (r : Readings) (reply : Result GoogleTokenInfo) (token : String)
      (v : GoogleValidator)
      → r.at_store ≤ t
      → IsVetted lower t v
      → Kept lower t v
          (user_in (introspect hash lower r reply token v).0)
          (introspect hash lower r reply token v).1
  unfolding introspect
  introspect-Kept t r (err e) token v l h = record { emails = refl; cached = h; given = λ u f. cc }
  introspect-Kept t r (ok info) token v l h =
      settle-Kept t r token info (check_info lower r.at_check v info) v l
        (λ expiry e. check_info-has_email lower r.at_check v info expiry e) h
