-- ===== src/Mcp/Authorize.antt =====
-- `authorizeForPeer` and `clientIDFromToken` of internal/mcp/auth.go. The token, the registry and the
-- token store are what the request's context holds; `none` is a nil pointer.
pub mod Laws
use coggo.Prelude.{String, ◌==◌, Option, none, some, if◌then◌else◌}
use coggo.Prelude.Result.{Result, ok, err, message, about, wrap}
use coggo.Types.{Peer, Token}
use coggo.Peer.Registry.{Registry, resolve}
use coggo.Auth.Tokens.{TokenStore, verify}

pub record Grant : Type 0 where
  pub did : String
  pub peer : Peer
  pub token : Token

module _ (hash : String → String) where
  abbrev pub granted : Peer → Result Token → Result Grant
  granted p (ok t) = ok (record { did = p.did; peer = p; token = t })
  granted p (err e) = err (wrap "unauthorized" e)

  abbrev pub checked : String → String → Result Peer → TokenStore → Result Grant
  checked secret key (err e) auth = err (about "unknown peer" key)
  checked secret key (ok p) auth =
      if secret == ""
      then err (message "unauthorized: missing bearer token")
      else granted p (verify hash secret p.name auth)

  unfoldable pub authorize_for_peer :
      Option Registry → Option TokenStore → String → String → Result Grant
  authorize_for_peer none auth secret key = err (message "server misconfigured")
  authorize_for_peer (some reg) none secret key = err (message "server misconfigured")
  authorize_for_peer (some reg) (some auth) secret key =
      if key == ""
      then err (message "peer is required")
      else checked secret key (resolve key reg) auth

unfoldable pub client_id_from_token : Option Token → String
client_id_from_token none = "mcp"
client_id_from_token (some t) = if t.label == "" then "mcp" else t.label
