-- ===== src/Gateway/Serve/Laws.antt =====
-- cmd/coggo-oauth-gateway/main.go: which requests the chain lets through to coggo.
use Prim.Native.String.{◌++◌}
use coggo.Prelude.{
  ap, ◌≤◌, String, ◌==◌, ◌≡◌, ◌≢◌, ◌⊎◌, refl, sym, Bool, true, false, some, List, if◌then◌else◌,
  arith, inl, inr,
}
use coggo.Prelude.Result.{Result}
use coggo.Types.{Time}
use coggo.Gateway.Validator.{
  GoogleTokenInfo, CachedUser, GoogleValidator, Verdict, admitted, refused, validate,
}
use coggo.Gateway.Validator.Laws.{vetted, user_in}
use coggo.Gateway.Validator.Interleavings.{Reached, allowlist, validate-vetted}
use coggo.Gateway.RateLimit.{
  Answer, forwarded, answered, unauthorized, internal_error, Buckets, allow, limited,
  wrap_per_email,
}
use coggo.Gateway.Serve.{
  HttpRequest, Gateway, Moments, Setup, bearer_token, rewritten, limit_user, handle_mcp,
  handle_healthz, route_request, behind_limiter, serve,
}

-- which of two answers a test gave
test_answer :
    {A S : Type 0} (b : Bool) (p q : Answer A × S) (a : Answer A)
    → (if b then p else q).0 ≡ a
    → ((b ≡ true) × (p.0 ≡ a)) ⊎ ((b ≡ false) × (q.0 ≡ a))
test_answer true p q a h = inl (refl, h)
test_answer false p q a h = inr (refl, h)

healthz_forwarded : (r out : HttpRequest) → handle_healthz r ≢ forwarded out
healthz_forwarded r out h = ground arith

module _ {L : Type 0} (s : Setup L) where
  -- what lets a request through to coggo, and what coggo gets
  pub record Passed (trim : String → String) (emails : List String) (m : Moments)
      (reply : Result GoogleTokenInfo) (r : HttpRequest) (v : GoogleValidator) (buckets : Buckets L)
      (out : HttpRequest) : Type 0 where
    pub user : CachedUser
    pub validated :
        user_in (validate s.hash s.lower m.readings reply (bearer_token r) v).0 ≡ some user
    pub bearer : (bearer_token r == "") ≡ false
    pub token_sent : out.authorization ≡ "Bearer " ++ s.coggo_token
    pub rest_kept : (out.method ≡ r.method) × (out.path ≡ r.path) × (out.body ≡ r.body)
    pub listed :
        vetted s.lower (allowlist s.hash s.lower trim emails) m.readings.at_store user ≡ true
    pub within_rate :
        (allow s.new_limiter s.allow_at s.lower m.at_limit user.email buckets).0 ≡ true

  limited_forwarded :
      (b : Bool) (a out : HttpRequest) → limited b a ≡ forwarded out → (b ≡ true) × (a ≡ out)
  limited_forwarded true a out h = (refl, ground arith)
  limited_forwarded false a out h = cc

  wrap_forwarded :
      (now : Time) (email : String) (a out : HttpRequest) (buckets : Buckets L)
      → (wrap_per_email s.new_limiter s.allow_at s.lower now email a buckets).0 ≡ forwarded out
      → ((allow s.new_limiter s.allow_at s.lower now email buckets).0 ≡ true) × (a ≡ out)
  unfolding wrap_per_email
  wrap_forwarded now email a out buckets h =
      let step = allow s.new_limiter s.allow_at s.lower now email buckets in
      elim (test_answer (email == "") (internal_error, buckets) (limited step.0 a, step.1) _ h) [
        | inl none_seen ↦ ground (arith, none_seen.1)
        | inr seen ↦ limited_forwarded step.0 a out seen.1
      ]

  -- what the proxy sends on, field by field
  sent_on :
      (r out : HttpRequest)
      → rewritten s.coggo_token r ≡ out
      → (out.authorization ≡ "Bearer " ++ s.coggo_token)
        × ((out.method ≡ r.method) × (out.path ≡ r.path) × (out.body ≡ r.body))
  sent_on r out h = (
    sym (ap (λ (q : HttpRequest). q.authorization) h),
    (
      sym (ap (λ (q : HttpRequest). q.method) h),
      sym (ap (λ (q : HttpRequest). q.path) h),
      sym (ap (λ (q : HttpRequest). q.body) h),
    ),
  )

  limit_user_forwarded :
      (trim : String → String) (emails : List String) (m : Moments) (reply : Result GoogleTokenInfo)
      (r : HttpRequest) (o : Verdict × GoogleValidator) (g : Gateway L) (out : HttpRequest)
      → validate s.hash s.lower m.readings reply (bearer_token r) g.validator ≡ o
      → (bearer_token r == "") ≡ false
      → ((u : CachedUser)
          → user_in o.0 ≡ some u
          → vetted s.lower (allowlist s.hash s.lower trim emails) m.readings.at_store u ≡ true)
      → (limit_user s m r o g).0 ≡ forwarded out
      → Passed trim emails m reply r g.validator g.buckets out
  limit_user_forwarded trim emails m reply r (admitted u, v) g out run there k h =
      let w = wrap_forwarded m.at_limit u.email (rewritten s.coggo_token r) out g.buckets h in
      let sent = sent_on r out w.1 in
      record {
        user = u;
        validated = ap (λ (x : Verdict × GoogleValidator). user_in x.0) run;
        bearer = there;
        token_sent = sent.0;
        rest_kept = sent.1;
        listed = k u refl;
        within_rate = w.0;
      }
  limit_user_forwarded trim emails m reply r (refused email e, v) g out run there k h = cc

  handle_mcp_forwarded :
      (trim : String → String) (audience : String) (emails : List String) (t : Time) (m : Moments)
      (reply : Result GoogleTokenInfo) (r : HttpRequest) (g : Gateway L) (out : HttpRequest)
      → Reached s.hash s.lower trim audience emails t g.validator
      → t ≤ m.readings.at_store
      → (handle_mcp s m reply r g).0 ≡ forwarded out
      → Passed trim emails m reply r g.validator g.buckets out
  unfolding handle_mcp
  handle_mcp_forwarded trim audience emails t m reply r g out k l h =
      let o = validate s.hash s.lower m.readings reply (bearer_token r) g.validator in
      elim (test_answer (bearer_token r == "") (unauthorized "missing access token", g)
        (limit_user s m r o g) _ h) [
          | inl missing ↦ ground (arith, missing.1)
          | inr there ↦
              limit_user_forwarded trim emails m reply r o g out refl there.0
                (λ u e.
                  validate-vetted s.hash s.lower trim audience emails t m.readings reply
                    (bearer_token r) g.validator u k l e)
                there.1
        ]

  route_forwarded :
      (trim : String → String) (audience : String) (emails : List String) (t : Time) (m : Moments)
      (reply : Result GoogleTokenInfo) (r : HttpRequest) (g : Gateway L) (out : HttpRequest)
      → Reached s.hash s.lower trim audience emails t g.validator
      → t ≤ m.readings.at_store
      → (route_request s m reply r g).0 ≡ forwarded out
      → Passed trim emails m reply r g.validator g.buckets out
  route_forwarded trim audience emails t m reply r g out k l h =
      let mcp = handle_mcp s m reply r g in
      let rest = if r.path == "/mcp" then mcp else (answered (s.oauth_endpoint r), g) in
      elim (test_answer (r.path == "/healthz") (handle_healthz r, g) rest _ h) [
        | inl health ↦ absurd (healthz_forwarded r out health.1)
        | inr other ↦
            elim (test_answer (r.path == "/mcp") mcp (answered (s.oauth_endpoint r), g) _ other.1) [
              | inl found ↦ handle_mcp_forwarded trim audience emails t m reply r g out k l found.1
              | inr oauth ↦ ground (arith, oauth.1)
            ]
      ]

  behind_limiter_forwarded :
      (trim : String → String) (audience : String) (emails : List String) (t : Time) (b : Bool × L)
      (m : Moments) (reply : Result GoogleTokenInfo) (r : HttpRequest) (g : Gateway L)
      (out : HttpRequest)
      → Reached s.hash s.lower trim audience emails t g.validator
      → t ≤ m.readings.at_store
      → (behind_limiter s b m reply r g).0 ≡ forwarded out
      → Passed trim emails m reply r g.validator g.buckets out
  behind_limiter_forwarded trim audience emails t (true, lim) m reply r g out k l h =
      route_forwarded trim audience emails t m reply r (record g { global = lim }) out k l h
  behind_limiter_forwarded trim audience emails t (false, lim) m reply r g out k l h = cc

  -- A request that reaches coggo carries coggo's token in place of its own and is else as it came, and
  -- `Validate` gave for its token a user whose email is on the configured list and within its rate,
  -- whatever calls of `Validate` went before.
  pub serve_forwarded :
      (trim : String → String) (audience : String) (emails : List String) (t : Time) (m : Moments)
      (reply : Result GoogleTokenInfo) (r : HttpRequest) (g : Gateway L) (out : HttpRequest)
      → Reached s.hash s.lower trim audience emails t g.validator
      → t ≤ m.readings.at_store
      → (serve s m reply r g).0 ≡ forwarded out
      → Passed trim emails m reply r g.validator g.buckets out
  unfolding serve
  serve_forwarded trim audience emails t m reply r g out k l h =
      behind_limiter_forwarded trim audience emails t (s.allow_at m.at_entry g.global) m reply r g
        out k l h
