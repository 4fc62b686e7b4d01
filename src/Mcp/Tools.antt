-- ===== src/Mcp/Tools.antt =====
-- The tool handlers of internal/mcp/tools.go. The accessors of mcp-go's `CallToolRequest` are
-- parameters. A result holds the payload of the reply and the fields that `projectJSON` keeps of it,
-- or an error's text by what it was built from.
pub mod Args
pub mod Calls
pub mod Prepared
pub mod Laws
pub mod CrossPeer
pub mod Authorized
use coggo.Prelude.{
  ℕ, zero, String, Bool, Option, none, some, List, [], ◌∷◌, true, false, if◌then◌else◌,
}
use coggo.Prelude.Result.{Error, Result, ok, err, message, about, or_else, ◌>>=◌}
use coggo.Types.{Time, Token}
use coggo.Types.Json.{Fields, get}
use coggo.Store.Rows.{Sqlite}
use coggo.Store.Entities.{or_empty}
use coggo.Peer.Registry.{Registry}
use coggo.Auth.Tokens.{TokenStore}
use coggo.Federation.Message.{
  FederationMessage, MessageType, query, write, error, Inbound, Outbound, Body, Request, Outcome,
  returns, panics, entity_get, entity_query, entity_create, entity_update, relation_create,
  relation_query, type_list, type_describe, type_define, semantic_search, time_travel,
}
use coggo.Federation.Handler.Base.{World, Env}
use coggo.Federation.Router.{Handlers, route}
use coggo.Mcp.Authorize.{Grant, authorize_for_peer, client_id_from_token}
use coggo.Mcp.Tools.Args.{
  ArgReader, object_arg, array_arg, bool_arg, decode_entity_query, decode_fields, get_fields_arg,
}
use coggo.Mcp.Tools.Calls.{
  ToolCall, ToolContext, authorize, handle_entity_get, handle_entity_query, handle_relation_query,
  handle_semantic_search, handle_time_travel, handle_type_list, handle_type_describe,
  handle_entity_create, handle_entity_update, handle_relation_create, handle_type_define,
}

-- the tools, less coggo_cross_peer_query
pub data Tool : Type 0 where
  tool_entity_get tool_entity_query tool_relation_query tool_semantic_search : Tool
  tool_time_travel tool_type_list tool_type_describe : Tool
  tool_entity_create tool_entity_update tool_relation_create tool_type_define : Tool

-- `NewToolResultText`, `NewToolResultError` of an error, and of the payload of an error reply; and a
-- handler that panics.
pub data ToolResult : Type 0 where
  text : Body → List String → ToolResult
  tool_error : Error → ToolResult
  error_payload : Body → ToolResult
  crashed : ToolResult

-- the message of `routeFederation`
abbrev pub federation_message : Time → String → MessageType → Request → Inbound
federation_message now did type request = record {
  version = "0.1";
  source_did = "did:mcp:client";
  target_did = did;
  type = type;
  payload = some request;
  auth_token = "";
  message_id = "";
  timestamp = now;
}

abbrev pub is_error : MessageType → Bool
is_error error = true
is_error _ = false

-- The router's error goes before an error reply.
abbrev pub answer : List String → Outcome × World → ToolResult × World
answer fields (panics, w) = (crashed, w)
answer fields (returns m (some e), w) = (tool_error e, w)
answer fields (returns m none, w) =
    (if is_error m.type then error_payload m.payload else text m.payload fields, w)

module _ (reader : ArgReader) (hash : String → String) (ctx : ToolContext) where
  unfoldable pub prepare : Tool → Fields → Result ToolCall
  prepare tool_entity_get args = handle_entity_get reader hash ctx args
  prepare tool_entity_query args = handle_entity_query reader hash ctx args
  prepare tool_relation_query args = handle_relation_query reader hash ctx args
  prepare tool_semantic_search args = handle_semantic_search reader hash ctx args
  prepare tool_time_travel args = handle_time_travel reader hash ctx args
  prepare tool_type_list args = handle_type_list reader hash ctx args
  prepare tool_type_describe args = handle_type_describe reader hash ctx args
  prepare tool_entity_create args = handle_entity_create reader hash ctx args
  prepare tool_entity_update args = handle_entity_update reader hash ctx args
  prepare tool_relation_create args = handle_relation_create reader hash ctx args
  prepare tool_type_define args = handle_type_define reader hash ctx args

  module _ (sqlite : Sqlite) (is_rfc3339 : String → Bool) (env : Env) where
    abbrev pub route_federation : Time → String → MessageType → Request → World → Outcome × World
    route_federation now did type request w =
        route sqlite is_rfc3339 env ctx.handlers (federation_message now did type request) w

    abbrev pub perform_call : Time → Result ToolCall → World → ToolResult × World
    perform_call now (err e) w = (tool_error e, w)
    perform_call now (ok c) w = answer c.fields (route_federation now c.did c.type c.request w)

    unfoldable pub call_tool : Time → Tool → Fields → World → ToolResult × World
    unfolding prepare route
    call_tool now tool args w = perform_call now (prepare tool args) w
