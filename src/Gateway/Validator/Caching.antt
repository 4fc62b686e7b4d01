-- ===== src/Gateway/Validator/Caching.antt =====
-- cmd/coggo-oauth-gateway/google_validator.go: when `Validate` asks Google, and when the cache
-- answers.
use coggo.Prelude.{
  ◌+◌, ◌≤◌, ◌<◌, String, ◌≡◌, refl, ap, subst, ◌∙◌, true, false, Option, none, some, List, ltb,
  arith, Bool-cases, inl, inr, lookup, lookup-insert, eq_refl, Values-lookup, delete,
}
use coggo.Prelude.Result.{Result, ok, err}
use coggo.Types.{Time}
use coggo.Gateway.Validator.{
  GoogleTokenInfo, CachedUser, GoogleValidator, Readings, admitted, max_cache_ttl, hit_or,
  take_cached, remember, introspect, check_info, settle, user_of, after_lookup, validate,
}
use coggo.Gateway.Validator.Laws.{vetted}
use coggo.Gateway.Validator.Interleavings.{Reached, Reached-Sound}

hit_or-over :
    (now : Time) (o : Option CachedUser) (v pruned : GoogleValidator)
    → ((u : CachedUser) → o ≡ some u → u.expires_at ≤ now)
    → hit_or now o v pruned ≡ (none, pruned)
hit_or-over now none v pruned h = refl
hit_or-over now (some u) v pruned h =
    let over : ltb now u.expires_at ≡ false = ground (arith, h u refl) in rw over refl

user_of_admitted : (w u : CachedUser) → admitted w ≡ admitted u → w ≡ u
user_of_admitted w u h = ground arith

module _ (hash lower : String → String) where
  settle-verdict :
      (r : Readings) (token : String) (info : GoogleTokenInfo) (c : Result Time)
      (v w : GoogleValidator)
      → (settle hash lower r token info c v).0 ≡ (settle hash lower r token info c w).0
  settle-verdict r token info (ok expiry) v w = refl
  settle-verdict r token info (err e) v w = refl

  -- The verdict on a reply does not read the cache.
  introspect-pruned :
      (r : Readings) (reply : Result GoogleTokenInfo) (token : String) (v : GoogleValidator)
      → (introspect hash lower r reply token (record v { cache = delete (hash token) v.cache })).0
        ≡ (introspect hash lower r reply token v).0
  unfolding introspect check_info
  introspect-pruned r (err e) token v = refl
  introspect-pruned r (ok info) token v =
      settle-verdict r token info (check_info lower r.at_check v info) _ v

  settle-cache :
      (r : Readings) (token : String) (info : GoogleTokenInfo) (c : Result Time)
      (v : GoogleValidator) (u : CachedUser)
      → (settle hash lower r token info c v).0 ≡ admitted u
      → lookup (hash token) (settle hash lower r token info c v).1.cache ≡ some u
  unfolding remember
  settle-cache r token info (ok expiry) v u h =
      let w = user_of r.at_store info expiry in
      let same : w ≡ u = ground arith in
      rw (lookup-insert (hash token) (hash token) w v.cache, eq_refl (hash token)) (ap some same)
  settle-cache r token info (err e) v u h = cc

  introspect-cache :
      (r : Readings) (reply : Result GoogleTokenInfo) (token : String) (v : GoogleValidator)
      (u : CachedUser)
      → (introspect hash lower r reply token v).0 ≡ admitted u
      → lookup (hash token) (introspect hash lower r reply token v).1.cache ≡ some u
  unfolding introspect
  introspect-cache r (err e) token v u h = cc
  introspect-cache r (ok info) token v u h =
      settle-cache r token info (check_info lower r.at_check v info) v u h

  -- The cache holds whom a call admitted: the entry that it hit, or the one that it made.
  after_lookup-cache :
      (r : Readings) (reply : Result GoogleTokenInfo) (token : String) (v : GoogleValidator)
      (o : Option CachedUser) (pruned : GoogleValidator) (u : CachedUser)
      → lookup (hash token) v.cache ≡ o
      → (after_lookup hash lower r reply token (hit_or r.at_lookup o v pruned)).0 ≡ admitted u
      → lookup
          (hash token)
          (after_lookup hash lower r reply token (hit_or r.at_lookup o v pruned)).1.cache
        ≡ some u
  after_lookup-cache r reply token v none pruned u e h = introspect-cache r reply token pruned u h
  after_lookup-cache r reply token v (some w) pruned u e h =
      elim (Bool-cases (ltb r.at_lookup w.expires_at)) [
        | inl b ↦
            let given : hit_or r.at_lookup (some w) v pruned ≡ (some w, v) = rw b refl in
            let same : admitted w ≡ admitted u =
              subst (λ p. (after_lookup hash lower r reply token p).0 ≡ admitted u) given h in
            rw b (e ∙ ap some (user_of_admitted w u same))
        | inr b ↦
            let gone : hit_or r.at_lookup (some w) v pruned ≡ (none, pruned) = rw b refl in
            rw b (
              introspect-cache r reply token pruned u
                (subst (λ p. (after_lookup hash lower r reply token p).0 ≡ admitted u) gone h))
      ]

  validate-hit :
      (r : Readings) (reply : Result GoogleTokenInfo) (token : String) (v : GoogleValidator)
      (u : CachedUser)
      → lookup (hash token) v.cache ≡ some u
      → r.at_lookup < u.expires_at
      → validate hash lower r reply token v ≡ (admitted u, v)
  unfolding validate take_cached
  validate-hit r reply token v u h l =
      let fresh : ltb r.at_lookup u.expires_at ≡ true = ground arith in rw (h, fresh) refl

  -- A user whom a call admitted is admitted again while the entry lasts, whatever Google replies.
  pub validate-validate :
      (r r' : Readings) (reply reply' : Result GoogleTokenInfo) (token : String)
      (v : GoogleValidator) (u : CachedUser)
      → (validate hash lower r reply token v).0 ≡ admitted u
      → r'.at_lookup < u.expires_at
      → validate hash lower r' reply' token (validate hash lower r reply token v).1
        ≡ (admitted u, (validate hash lower r reply token v).1)
  unfolding validate take_cached
  validate-validate r r' reply reply' token v u e l =
      validate-hit r' reply' token _ u
        (after_lookup-cache r reply token v (lookup (hash token) v.cache) _ u refl e) l

  -- Five minutes after the last moment that the cache has seen, a call decides by Google's reply
  -- alone: no entry that an interleaving left is in force.
  pub validate-introspect :
      (trim : String → String) (audience : String) (emails : List String) (t : Time) (r : Readings)
      (reply : Result GoogleTokenInfo) (token : String) (v : GoogleValidator)
      → Reached hash lower trim audience emails t v
      → t + max_cache_ttl ≤ r.at_lookup
      → (validate hash lower r reply token v).0 ≡ (introspect hash lower r reply token v).0
  unfolding validate take_cached
  validate-introspect trim audience emails t r reply token v h l =
      let s = Reached-Sound hash lower trim audience emails t v h in
      let P = λ (u : CachedUser). vetted lower v.allowed_emails t u ≡ true in
      let over =
        hit_or-over r.at_lookup (lookup (hash token) v.cache) v
          (record v { cache = delete (hash token) v.cache })
          (λ u e. ground (arith, Values-lookup P (hash token) u v.cache s.cached e)) in
      rw over (introspect-pruned r reply token v)
