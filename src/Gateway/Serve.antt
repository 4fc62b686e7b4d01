-- ===== src/Gateway/Serve.antt =====
-- The chain of handlers that `run` of cmd/coggo-oauth-gateway/main.go builds: the global limiter,
-- the routes, and on /mcp the validator, the limiter of the email and the proxy.
pub mod Laws
pub mod Reached
use Prim.Native.String.{◌++◌}
use coggo.Prelude.{
  ℕ, String, ◌==◌, Bool, true, false, ◌||◌, not, Option, none, some, List, [], filter,
  if◌then◌else◌,
}
use coggo.Prelude.Texts.{cut_prefix}
use coggo.Prelude.Result.{Result, ok, err, message, about}
use coggo.Types.{Time}
use coggo.Gateway.Validator.{
  GoogleTokenInfo, CachedUser, GoogleValidator, Readings, Verdict, admitted, refused, validate,
}
use coggo.Gateway.RateLimit.{
  Answer, forwarded, answered, unauthorized, method_not_allowed, internal_error, too_many_requests,
  Buckets, allow, wrap_per_email,
}

-- what the handlers read of a request; the empty text is a header that is not there
pub record HttpRequest : Type 0 where
  pub method : String
  pub path : String
  pub authorization : String
  pub body : String

pub record Gateway (L : Type 0) : Type 0 where
  pub global : L
  pub validator : GoogleValidator
  pub buckets : Buckets L

-- when the limiters read the clock, and the validator
pub record Moments : Type 0 where
  pub at_entry : Time
  pub readings : Readings
  pub at_limit : Time

-- Without `Bearer `, or with nothing after it, there is no token.
abbrev pub token_or_empty : Option String → String
token_or_empty none = ""
token_or_empty (some token) = token

unfoldable pub bearer_token : HttpRequest → String
bearer_token r = token_or_empty (cut_prefix "Bearer " r.authorization)

abbrev pub handle_healthz : {A : Type 0} → HttpRequest → Answer A
handle_healthz r =
    if (r.method == "GET") || (r.method == "HEAD") then answered "ok\n" else method_not_allowed

-- what `Rewrite` of the proxy sends on
abbrev pub rewritten : String → HttpRequest → HttpRequest
rewritten coggo_token r = record r { authorization = "Bearer " ++ coggo_token }

-- The settings that the handlers of the gateway share, and the code outside of the repository: the
-- token buckets, SHA-256, `strings.ToLower`, and the endpoints of the OAuth server.
pub record Setup (L : Type 0) : Type 0 where
  pub coggo_token : String
  pub new_limiter : L
  pub allow_at : Time → L → Bool × L
  pub hash : String → String
  pub lower : String → String
  pub oauth_endpoint : HttpRequest → String

module _ {L : Type 0} (s : Setup L) where
  abbrev pub limit_user :
      Moments → HttpRequest → Verdict × GoogleValidator → Gateway L → Answer HttpRequest × Gateway L
  limit_user m r (refused email e, v) g =
      (unauthorized "authentication failed", record g { validator = v })
  limit_user m r (admitted u, v) g =
      let out =
        wrap_per_email s.new_limiter s.allow_at s.lower m.at_limit u.email
          (rewritten s.coggo_token r) g.buckets in
      (out.0, record g { validator = v; buckets = out.1 })

  -- `WrapHandler` around the limiter and the proxy
  unfoldable pub handle_mcp :
      Moments → Result GoogleTokenInfo → HttpRequest → Gateway L → Answer HttpRequest × Gateway L
  unfolding bearer_token wrap_per_email validate
  handle_mcp m reply r g =
      if bearer_token r == ""
      then (unauthorized "missing access token", g)
      else limit_user m r (validate s.hash s.lower m.readings reply (bearer_token r) g.validator) g

  abbrev pub route_request :
      Moments → Result GoogleTokenInfo → HttpRequest → Gateway L → Answer HttpRequest × Gateway L
  route_request m reply r g =
      if r.path == "/healthz"
      then (handle_healthz r, g)
      else if r.path == "/mcp"
      then handle_mcp m reply r g
      else (answered (s.oauth_endpoint r), g)

  abbrev pub behind_limiter :
      Bool × L
      → Moments
      → Result GoogleTokenInfo
      → HttpRequest
      → Gateway L
      → Answer HttpRequest × Gateway L
  behind_limiter (false, lim) m reply r g = (too_many_requests, record g { global = lim })
  behind_limiter (true, lim) m reply r g = route_request m reply r (record g { global = lim })

  unfoldable pub serve :
      Moments → Result GoogleTokenInfo → HttpRequest → Gateway L → Answer HttpRequest × Gateway L
  unfolding handle_mcp
  serve m reply r g = behind_limiter (s.allow_at m.at_entry g.global) m reply r g
