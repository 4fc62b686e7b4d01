-- ===== src/Gateway/Upstream.antt =====
-- The gateway of cmd/coggo-oauth-gateway and the MCP server of internal/mcp behind it: whose token the
-- server sees.
use Prim.Native.String.{◌++◌}
use coggo.Prelude.{◌≤◌, String, ◌≡◌, ap, ◌∙◌, subst, some}
use coggo.Prelude.Texts.{cut_prefix-append}
use coggo.Prelude.Result.{Result, ok}
use coggo.Types.{Time}
use coggo.Gateway.Validator.{GoogleTokenInfo}
use coggo.Gateway.RateLimit.{forwarded}
use coggo.Gateway.Serve.{HttpRequest, Gateway, Moments, serve}
use coggo.Gateway.Serve.Reached.{IsReached}
use coggo.Gateway.Config.{Config, Platform, load_config, setup_of}
use coggo.Gateway.Config.Admission.{serve-load_config}
use coggo.Peer.Registry.{Registry}
use coggo.Auth.Tokens.{TokenStore}
use coggo.Mcp.Authorize.{Grant, authorize_for_peer}
use coggo.Mcp.Authorize.Laws.{Rests, authorize_for_peer_sound}
use coggo.Mcp.Session.{Server, trimmed_of, inject_auth}

bearer_secret :
    (trim : String → String) (server : Server) (token : String)
    → (inject_auth trim server ("Bearer " ++ token)).secret ≡ trim token
unfolding inject_auth
bearer_secret trim server token =
    ap (λ o. trim (trimmed_of ("Bearer " ++ token) o)) (cut_prefix-append "Bearer " token)

module _ {F L : Type 0} (o : Platform F L) where
  -- Where the gateway's configuration loads, each request that it forwards has the token of the
  -- environment for its secret in the MCP server, whatever token the client sent.
  inject_auth-serve :
      (env : String → String) (c : Config F) (t : Time) (m : Moments)
      (reply : Result GoogleTokenInfo) (r : HttpRequest) (g : Gateway L) (out : HttpRequest)
      (server : Server)
      → load_config o env ≡ ok c
      → IsReached (setup_of o c) o.trim c.google_client_id c.allowed_emails t g
      → t ≤ m.readings.at_store
      → (serve (setup_of o c) m reply r g).0 ≡ forwarded out
      → (inject_auth o.trim server out.authorization).secret ≡ o.trim (env "COGGO_TOKEN")
  inject_auth-serve env c t m reply r g out server f k l h =
      let a = serve-load_config o env c t m reply r g out f k l h in
      ap (λ h. (inject_auth o.trim server h).secret) a.token_sent
      ∙ bearer_secret o.trim server (env "COGGO_TOKEN")

  -- Where the gateway's configuration loads and a request that it forwards is let in to a peer by the
  -- MCP server, the grant rests on the token of the environment: the first of the server's tokens with
  -- its hash is the one of the grant and covers the peer, whatever token the client sent. Interleaved
  -- calls of `Validate` before the one of this request led to the gateway's validator.
  pub authorize_for_peer-serve :
      (env : String → String) (c : Config F) (t : Time) (m : Moments)
      (reply : Result GoogleTokenInfo) (r : HttpRequest) (g : Gateway L) (out : HttpRequest)
      (server : Server) (hash : String → String) (key : String) (grant : Grant)
      → load_config o env ≡ ok c
      → IsReached (setup_of o c) o.trim c.google_client_id c.allowed_emails t g
      → t ≤ m.readings.at_store
      → (serve (setup_of o c) m reply r g).0 ≡ forwarded out
      → authorize_for_peer hash server.registry server.auth
          (inject_auth o.trim server out.authorization).secret
          key
        ≡ ok grant
      → (reg : Registry) × (auth : TokenStore) × (server.registry ≡ some reg)
        × ((server.auth ≡ some auth) × Rests hash (o.trim (env "COGGO_TOKEN")) key reg auth grant)
  authorize_for_peer-serve env c t m reply r g out server hash key grant f k l h e =
      authorize_for_peer_sound hash server.registry server.auth (o.trim (env "COGGO_TOKEN")) key
        grant
        (subst (λ secret. authorize_for_peer hash server.registry server.auth secret key ≡ ok grant)
          (inject_auth-serve env c t m reply r g out server f k l h) e)
