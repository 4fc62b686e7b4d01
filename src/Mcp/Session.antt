-- ===== src/Mcp/Session.antt =====
-- `injectAuth` of internal/mcp/auth.go: what the context of a request to the MCP server holds.
-- `strings.TrimSpace` is a parameter.
use coggo.Prelude.{String, Option, none, some}
use coggo.Prelude.Texts.{cut_prefix}
use coggo.Peer.Registry.{Registry}
use coggo.Auth.Tokens.{TokenStore}
use coggo.Federation.Router.{Handlers}
use coggo.Mcp.Tools.Calls.{ToolContext}

pub record Server : Type 0 where
  pub registry : Option Registry
  pub auth : Option TokenStore
  pub router : Handlers

-- `strings.TrimPrefix` leaves a text without the prefix as it is.
abbrev pub trimmed_of : String → Option String → String
trimmed_of s none = s
trimmed_of s (some rest) = rest

unfoldable pub inject_auth : (String → String) → Server → String → ToolContext
unfolding cut_prefix
inject_auth trim server authorization = record {
  registry = server.registry;
  auth = server.auth;
  secret = trim (trimmed_of authorization (cut_prefix "Bearer " authorization));
  handlers = server.router;
}
