-- ===== src/Mcp/Tools/Authorized.antt =====
-- The twelve tools of internal/mcp/tools.go: what stands behind each federation call.
use coggo.Prelude.{String, ◌≡◌, Bool, Option, some, List}
use coggo.Prelude.Result.{Error, Result, ok, err}
use coggo.Types.{Time, EntityQuery}
use coggo.Store.Rows.{Sqlite}
use coggo.Federation.Message.{query, entity_query}
use coggo.Federation.Handler.Base.{World, Env}
use coggo.Mcp.Authorize.{Grant}
use coggo.Mcp.Tools.Args.{ArgReader}
use coggo.Mcp.Tools.Calls.{ToolContext, authorize}
use coggo.Mcp.Tools.{route_federation}
use coggo.Mcp.Tools.CrossPeer.{PeerAnswer, failed, peer_answer}

module _ (reader : ArgReader) (hash : String → String) (ctx : ToolContext) (sqlite : Sqlite)
    (is_rfc3339 : String → Bool) (env : Env) (now : Time) where
  -- What asking one peer of several comes to: without an authorization its error and no call; with one,
  -- what the router answers to a query of entities for the DID that was authorized.
  pub data IsAsked (q : EntityQuery) (fields : List String) (name : String) (w : World)
      : Option PeerAnswer × World → Type 0 where
    refused :
        (e : Error)
        → authorize reader hash ctx name ≡ err e
        → IsAsked q fields name w (some (failed e), w)
    asked :
        (g : Grant)
        → authorize reader hash ctx name ≡ ok g
        → IsAsked q fields name w (
            peer_answer fields (
              route_federation reader hash ctx sqlite is_rfc3339 env now g.did query
                (entity_query (some q))
                w))
