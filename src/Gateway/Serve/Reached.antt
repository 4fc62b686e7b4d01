-- ===== src/Gateway/Serve/Reached.antt =====
-- cmd/coggo-oauth-gateway/main.go: the validator that the requests of the chain leave behind.
use coggo.Prelude.{◌≤◌, String, ◌==◌, Bool, true, false, List, if◌then◌else◌}
use coggo.Prelude.Result.{Result}
use coggo.Types.{Time}
use coggo.Gateway.Validator.{GoogleTokenInfo, GoogleValidator, Verdict, admitted, refused, validate}
use coggo.Gateway.Validator.Interleavings.{Reached, Reached-mono, validate-Reached}
use coggo.Gateway.RateLimit.{Answer, answered, unauthorized}
use coggo.Gateway.Serve.{
  HttpRequest, Gateway, Moments, Setup, bearer_token, limit_user, handle_mcp, handle_healthz,
  behind_limiter, serve,
}

-- what holds of both answers of a test holds of the one it gives
either_answer :
    {A S : Type 0} (P : S → Type 0) (b : Bool) (p q : A × S)
    → P p.1
    → P q.1
    → P (if b then p else q).1
either_answer P true p q h k = h
either_answer P false p q h k = k

module _ {L : Type 0} (s : Setup L) (trim : String → String) (audience : String)
    (emails : List String) where
  -- the validator of the gateway is one that interleaved calls lead to
  abbrev pub IsReached : Time → Gateway L → Type 0
  IsReached t g = Reached s.hash s.lower trim audience emails t g.validator

  limit_user-Reached :
      (t : Time) (m : Moments) (r : HttpRequest) (o : Verdict) (v : GoogleValidator) (g : Gateway L)
      → Reached s.hash s.lower trim audience emails t v
      → IsReached t (limit_user s m r (o, v) g).1
  limit_user-Reached t m r (admitted u) v g k = k
  limit_user-Reached t m r (refused email e) v g k = k

  handle_mcp-Reached :
      (t : Time) (m : Moments) (reply : Result GoogleTokenInfo) (r : HttpRequest) (g : Gateway L)
      → m.readings.at_store ≤ t
      → IsReached t g
      → IsReached t (handle_mcp s m reply r g).1
  unfolding handle_mcp
  handle_mcp-Reached t m reply r g l k =
      let o = validate s.hash s.lower m.readings reply (bearer_token r) g.validator in
      either_answer (IsReached t) (bearer_token r == "") (unauthorized "missing access token", g)
        (limit_user s m r o g) k
        (limit_user-Reached t m r o.0 o.1 g (
          validate-Reached s.hash s.lower trim audience emails t m.readings reply (bearer_token r)
            g.validator l k))

  behind_limiter-Reached :
      (t : Time) (b : Bool × L) (m : Moments) (reply : Result GoogleTokenInfo) (r : HttpRequest)
      (g : Gateway L)
      → m.readings.at_store ≤ t
      → IsReached t g
      → IsReached t (behind_limiter s b m reply r g).1
  behind_limiter-Reached t (false, lim) m reply r g l k = k
  behind_limiter-Reached t (true, lim) m reply r g l k =
      let g' = record g { global = lim } in
      let oauth : Answer HttpRequest × Gateway L = (answered (s.oauth_endpoint r), g') in
      either_answer (IsReached t) (r.path == "/healthz") (handle_healthz r, g')
        (if r.path == "/mcp" then handle_mcp s m reply r g' else oauth) k
        (either_answer (IsReached t) (r.path == "/mcp") (handle_mcp s m reply r g') oauth
          (handle_mcp-Reached t m reply r g' l k) k)

  -- A request leaves a validator that interleaved calls lead to, up to the moment of the request.
  pub serve-Reached :
      (t t' : Time) (m : Moments) (reply : Result GoogleTokenInfo) (r : HttpRequest) (g : Gateway L)
      → t ≤ t'
      → m.readings.at_store ≤ t'
      → IsReached t g
      → IsReached t' (serve s m reply r g).1
  unfolding serve
  serve-Reached t t' m reply r g l k h =
      behind_limiter-Reached t' (s.allow_at m.at_entry g.global) m reply r g k
        (Reached-mono s.hash s.lower trim audience emails t t' g.validator l h)
