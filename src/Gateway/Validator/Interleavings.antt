-- ===== src/Gateway/Validator/Interleavings.antt =====
-- cmd/coggo-oauth-gateway/google_validator.go under concurrent requests. The mutex of the cache is
-- held twice in a call of `Validate` and not in between, so that the calls interleave there.
use coggo.Prelude.{
  ◌≤◌, String, ◌≡◌, refl, ◌∙◌, true, Option, none, some, List, [], filter, arith, Option-cases, inl,
  inr,
}
use coggo.Prelude.Result.{Result}
use coggo.Types.{Time}
use coggo.Gateway.Validator.{
  GoogleTokenInfo, CachedUser, GoogleValidator, Readings, new_google_validator, take_cached,
  introspect, after_lookup, validate,
}
use coggo.Gateway.Validator.Laws.{
  vetted, IsVetted, IsVetted-mono, Kept, user_in, take_cached-Kept, introspect-Kept,
}

module _ (hash lower trim : String → String) where
  -- One call's part of the work, up to the moment `t`: its look into the cache, or what follows a
  -- miss. Each acts on the validator as the other calls left it.
  pub data Step (t : Time) : GoogleValidator → GoogleValidator → Type 0 where
    looked :
        (now : Time) (token : String) (v : GoogleValidator)
        → Step t v (take_cached hash now token v).1
    asked :
        (r : Readings) (reply : Result GoogleTokenInfo) (token : String) (v : GoogleValidator)
        → r.at_store ≤ t
        → Step t v (introspect hash lower r reply token v).1

  -- the validators that any interleaving leads to, up to the moment `t`
  pub data Reached (audience : String) (emails : List String) (t : Time)
      : GoogleValidator → Type 0 where
    opened : Reached audience emails t (new_google_validator lower trim audience emails)
    after :
        (v v' : GoogleValidator)
        → Reached audience emails t v
        → Step t v v'
        → Reached audience emails t v'

  Step-mono : (t t' : Time) (v v' : GoogleValidator) → t ≤ t' → Step t v v' → Step t' v v'
  Step-mono t t' _ _ l (looked now token v) = looked now token v
  Step-mono t t' _ _ l (asked r reply token v k) = asked r reply token v (omega arith)

  pub Reached-mono :
      (audience : String) (emails : List String) (t t' : Time) (v : GoogleValidator)
      → t ≤ t'
      → Reached audience emails t v
      → Reached audience emails t' v
  Reached-mono audience emails t t' _ l opened = opened
  Reached-mono audience emails t t' _ l (after v v' k e) =
      after v v' (Reached-mono audience emails t t' v l k) (Step-mono t t' v v' l e)

  after_lookup-Reached :
      (audience : String) (emails : List String) (t : Time) (r : Readings)
      (reply : Result GoogleTokenInfo) (token : String) (o : Option CachedUser)
      (v : GoogleValidator)
      → r.at_store ≤ t
      → Reached audience emails t v
      → Reached audience emails t (after_lookup hash lower r reply token (o, v)).1
  after_lookup-Reached audience emails t r reply token none v l k =
      after v _ k (asked r reply token v l)
  after_lookup-Reached audience emails t r reply token (some u) v l k = k

  -- A whole call is its two critical sections, one after the other.
  pub validate-Reached :
      (audience : String) (emails : List String) (t : Time) (r : Readings)
      (reply : Result GoogleTokenInfo) (token : String) (v : GoogleValidator)
      → r.at_store ≤ t
      → Reached audience emails t v
      → Reached audience emails t (validate hash lower r reply token v).1
  unfolding validate
  validate-Reached audience emails t r reply token v l k =
      let look = take_cached hash r.at_lookup token v in
      after_lookup-Reached audience emails t r reply token look.0 look.1 l
        (after v look.1 k (looked r.at_lookup token v))

  -- the emails that the configuration allows
  abbrev pub allowlist : List String → List String
  allowlist emails = (new_google_validator lower trim "" emails).allowed_emails

  pub record Sound (emails : List String) (t : Time) (v : GoogleValidator) : Type 0 where
    pub listed : v.allowed_emails ≡ allowlist emails
    pub cached : IsVetted lower t v

  Step-Sound :
      (emails : List String) (t : Time) (v v' : GoogleValidator)
      → Sound emails t v
      → Step t v v'
      → Sound emails t v'
  Step-Sound emails t _ _ s (looked now token v) =
      let k = take_cached-Kept hash lower t now token v s.cached in
      record { listed = k.emails ∙ s.listed; cached = k.cached }
  Step-Sound emails t _ _ s (asked r reply token v l) =
      let k = introspect-Kept hash lower t r reply token v l s.cached in
      record { listed = k.emails ∙ s.listed; cached = k.cached }

  pub Reached-Sound :
      (audience : String) (emails : List String) (t : Time) (v : GoogleValidator)
      → Reached audience emails t v
      → Sound emails t v
  Reached-Sound audience emails t _ opened = record { listed = refl; cached = tt }
  Reached-Sound audience emails t _ (after v v' s e) =
      Step-Sound emails t v v' (Reached-Sound audience emails t v s) e

  after_lookup-vetted :
      (allowed : List String) (t : Time) (r : Readings) (reply : Result GoogleTokenInfo)
      (token : String) (v : GoogleValidator) (u : CachedUser) (o : Option CachedUser)
      (w : GoogleValidator)
      → v.allowed_emails ≡ allowed
      → r.at_store ≤ t
      → Kept lower t v o w
      → user_in (after_lookup hash lower r reply token (o, w)).0 ≡ some u
      → vetted lower allowed t u ≡ true
  after_lookup-vetted allowed t r reply token v u none w a l k e =
      let j = introspect-Kept hash lower t r reply token w l k.cached in
      rw (← a, ← k.emails) (j.given u e)
  after_lookup-vetted allowed t r reply token v u (some h) w a l k e = rw (← a) (k.given u e)

  -- Whatever calls of `Validate` went before, and however they interleaved: the email of a user
  -- that a call admits is on the configured list, and the user's entry ends within five minutes.
  pub validate-vetted :
      (audience : String) (emails : List String) (t : Time) (r : Readings)
      (reply : Result GoogleTokenInfo) (token : String) (v : GoogleValidator) (u : CachedUser)
      → Reached audience emails t v
      → t ≤ r.at_store
      → user_in (validate hash lower r reply token v).0 ≡ some u
      → vetted lower (allowlist emails) r.at_store u ≡ true
  unfolding validate
  validate-vetted audience emails t r reply token v u h l e =
      let s = Reached-Sound audience emails t v h in
      let vetted_now = IsVetted-mono lower t r.at_store v l s.cached in
      after_lookup-vetted (allowlist emails) r.at_store r reply token v u _ _ s.listed (omega arith)
        (take_cached-Kept hash lower r.at_store r.at_lookup token v vetted_now) e

  -- A configuration without emails admits nobody.
  pub validate-no_emails :
      (audience : String) (t : Time) (r : Readings) (reply : Result GoogleTokenInfo)
      (token : String) (v : GoogleValidator)
      → Reached audience [] t v
      → t ≤ r.at_store
      → user_in (validate hash lower r reply token v).0 ≡ none
  unfolding filter
  validate-no_emails audience t r reply token v h l =
      elim (Option-cases (user_in (validate hash lower r reply token v).0)) [
        | inl e ↦ e
        | inr c ↦ let nobody = validate-vetted audience [] t r reply token v c.0 h l c.1 in cc
      ]
