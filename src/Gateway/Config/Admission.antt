-- ===== src/Gateway/Config/Admission.antt =====
-- cmd/coggo-oauth-gateway/main.go: whom the gateway of a configuration that loads lets through.
use Prim.Native.String.{◌++◌}
use coggo.Prelude.{
  some, ◌+◌, ◌≤◌, String, ◌==◌, ◌≡◌, ◌≢◌, refl, sym, subst, true, false, ◌&&◌, List, filter, leb,
  arith, [],
}
use coggo.Prelude.Result.{Result, ok}
use coggo.Types.{Time}
use coggo.Gateway.Validator.{
  GoogleTokenInfo, GoogleValidator, CachedUser, max_cache_ttl, has_email, validate,
}
use coggo.Gateway.Validator.Laws.{user_in}
use coggo.Gateway.Validator.Interleavings.{allowlist}
use coggo.Gateway.RateLimit.{forwarded, Buckets, allow}
use coggo.Gateway.Serve.{HttpRequest, Gateway, Moments, bearer_token, serve}
use coggo.Gateway.Serve.Laws.{serve_forwarded}
use coggo.Gateway.Serve.Reached.{IsReached}
use coggo.Gateway.Config.{Config, Platform, split_csv, read_config, load_config, setup_of}
use coggo.Gateway.Config.Laws.{with_upstream_ok, required_ok}

has_email_of :
    (allowed : List String) (email : String) (e b : Time)
    → (has_email allowed email && leb e b) ≡ true
    → has_email allowed email ≡ true
has_email_of allowed email e b h = ground arith

module _ {F L : Type 0} (o : Platform F L) where
  -- the emails that the environment allows, as the validator compares them
  abbrev pub listed_emails : (String → String) → List String
  listed_emails env =
      allowlist o.hash o.lower o.trim (split_csv o.trim (env "OAUTH_ALLOWED_EMAILS"))

  -- what the environment says of a request that reaches coggo
  pub record Admitted (env : String → String) (c : Config F) (m : Moments)
      (reply : Result GoogleTokenInfo) (r : HttpRequest) (v : GoogleValidator) (buckets : Buckets L)
      (out : HttpRequest) : Type 0 where
    pub bearer : (bearer_token r == "") ≡ false
    pub token_sent : out.authorization ≡ "Bearer " ++ env "COGGO_TOKEN"
    pub rest_kept : (out.method ≡ r.method) × (out.path ≡ r.path) × (out.body ≡ r.body)
    pub with_token : (env "COGGO_TOKEN" == "") ≡ false
    pub user : CachedUser
    pub validated :
        user_in (validate o.hash o.lower m.readings reply (bearer_token r) v).0 ≡ some user
    pub listed : has_email (listed_emails env) (o.lower user.email) ≡ true
    pub within_rate :
        (allow
          (o.new_limiter (o.per_minute c.per_email_rpm) c.per_email_burst)
          o.allow_at
          o.lower
          m.at_limit
          user.email
          buckets).0
        ≡ true

  read_config_forwarded :
      (env : String → String) (v : String) (t : Time) (m : Moments) (reply : Result GoogleTokenInfo)
      (r : HttpRequest) (g : Gateway L) (out : HttpRequest)
      → (env "COGGO_TOKEN" == "") ≡ false
      → IsReached
          (setup_of o (read_config o env v))
          o.trim
          (env "GOOGLE_CLIENT_ID")
          (split_csv o.trim (env "OAUTH_ALLOWED_EMAILS"))
          t
          g
      → t ≤ m.readings.at_store
      → (serve (setup_of o (read_config o env v)) m reply r g).0 ≡ forwarded out
      → Admitted env (read_config o env v) m reply r g.validator g.buckets out
  read_config_forwarded env v t m reply r g out e k l h =
      let p =
        serve_forwarded (setup_of o (read_config o env v)) o.trim (env "GOOGLE_CLIENT_ID")
          (split_csv o.trim (env "OAUTH_ALLOWED_EMAILS")) t m reply r g out k l h in
      record {
        bearer = p.bearer;
        token_sent = p.token_sent;
        rest_kept = p.rest_kept;
        with_token = e;
        user = p.user;
        validated = p.validated;
        listed =
            has_email_of (listed_emails env) (o.lower p.user.email) p.user.expires_at
              (m.readings.at_store + max_cache_ttl) p.listed;
        within_rate = p.within_rate;
      }

  pub serve-load_config :
      (env : String → String) (c : Config F) (t : Time) (m : Moments)
      (reply : Result GoogleTokenInfo) (r : HttpRequest) (g : Gateway L) (out : HttpRequest)
      → load_config o env ≡ ok c
      → IsReached (setup_of o c) o.trim c.google_client_id c.allowed_emails t g
      → t ≤ m.readings.at_store
      → (serve (setup_of o c) m reply r g).0 ≡ forwarded out
      → Admitted env c m reply r g.validator g.buckets out
  unfolding load_config
  serve-load_config env c t m reply r g out f k l h =
      let w = with_upstream_ok o env _ c f in
      let q = required_ok o (read_config o env w.0) c w.2 in
      subst (λ d. Admitted env d m reply r g.validator g.buckets out) q.0
        (read_config_forwarded env w.0 t m reply r g out q.1
          (subst (λ d. IsReached (setup_of o d) o.trim d.google_client_id d.allowed_emails t g)
            (sym q.0) k)
          l (subst (λ d. (serve (setup_of o d) m reply r g).0 ≡ forwarded out) (sym q.0) h))

  -- Where the configuration loads without `OAUTH_ALLOWED_EMAILS`, the gateway forwards no request.
  pub serve-no_emails :
      (env : String → String) (c : Config F) (t : Time) (m : Moments)
      (reply : Result GoogleTokenInfo) (r : HttpRequest) (g : Gateway L) (out : HttpRequest)
      → env "OAUTH_ALLOWED_EMAILS" ≡ ""
      → load_config o env ≡ ok c
      → IsReached (setup_of o c) o.trim c.google_client_id c.allowed_emails t g
      → t ≤ m.readings.at_store
      → (serve (setup_of o c) m reply r g).0 ≢ forwarded out
  unfolding filter split_csv
  serve-no_emails env c t m reply r g out none_set f k l h =
      let a = serve-load_config env c t m reply r g out f k l h in
      let nobody : listed_emails env ≡ [] = rw none_set refl in
      let listed : has_email [] (o.lower a.user.email) ≡ true =
        subst (λ l. has_email l (o.lower a.user.email) ≡ true) nobody a.listed in
      cc
