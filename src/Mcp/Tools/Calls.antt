-- ===== src/Mcp/Tools/Calls.antt =====
-- The tool handlers of internal/mcp/tools.go up to their federation call: the arguments in the order
-- of the code, and the authorization among them.
use coggo.Prelude.{String, Option, some, List, [], false}
use coggo.Prelude.Result.{Result, ok, message, about, or_else, ◌>>=◌}
use coggo.Types.Json.{Fields, get}
use coggo.Store.Entities.{or_empty}
use coggo.Peer.Registry.{Registry}
use coggo.Auth.Tokens.{TokenStore}
use coggo.Federation.Message.{
  MessageType, query, write, Request, entity_get, entity_query, entity_create, entity_update,
  relation_create, relation_query, type_list, type_describe, type_define, semantic_search,
  time_travel,
}
use coggo.Federation.Router.{Handlers}
use coggo.Mcp.Authorize.{Grant, authorize_for_peer, client_id_from_token}
use coggo.Mcp.Tools.Args.{
  ArgReader, object_arg, array_arg, bool_arg, decode_entity_query, decode_fields, get_fields_arg,
}

-- A federation call that a tool decided on.
pub record ToolCall : Type 0 where
  pub did : String
  pub type : MessageType
  pub request : Request
  pub fields : List String

-- what the request's context holds, and the server's own router where that has none
pub record ToolContext : Type 0 where
  pub registry : Option Registry
  pub auth : Option TokenStore
  pub secret : String
  pub handlers : Handlers

abbrev pub query_call : Fields → Grant → Request → Result ToolCall
query_call args g request =
    ok (record { did = g.did; type = query; request = request; fields = get_fields_arg args })

abbrev pub write_call : Grant → Request → Result ToolCall
write_call g request = ok (record { did = g.did; type = write; request = request; fields = [] })

abbrev pub client_id : Grant → String
client_id g = client_id_from_token (some g.token)

module _ (reader : ArgReader) (hash : String → String) (ctx : ToolContext) where
  abbrev pub authorize : String → Result Grant
  authorize key = authorize_for_peer hash ctx.registry ctx.auth ctx.secret key

  abbrev pub handle_entity_get : Fields → Result ToolCall
  handle_entity_get args = do
    key ← reader.require_string args "peer"
    id ← reader.require_string args "id"
    g ← authorize key
    query_call args g (entity_get (some id))

  abbrev pub handle_entity_query : Fields → Result ToolCall
  handle_entity_query args = do
    key ← reader.require_string args "peer"
    type ← reader.require_string args "type"
    g ← authorize key
    query_call args g (
        entity_query (
          some (record {
            type = type;
            filters = or_empty (object_arg (get "filters" args));
            limit = reader.get_int args "limit" 0;
            include_archived = bool_arg (get "include_archived" args);
          })))

  abbrev pub handle_relation_query : Fields → Result ToolCall
  handle_relation_query args = do
    key ← reader.require_string args "peer"
    g ← authorize key
    query_call args g (
        relation_query (
          some (record {
            from = reader.get_string args "from" "";
            to = reader.get_string args "to" "";
            type = reader.get_string args "type" "";
            limit = reader.get_int args "limit" 0;
          })))

  abbrev pub handle_semantic_search : Fields → Result ToolCall
  handle_semantic_search args = do
    key ← reader.require_string args "peer"
    words ← reader.require_string args "query"
    g ← authorize key
    query_call args g (
        semantic_search (
          some (record {
            query = words;
            vector = [];
            type_filter = reader.get_string args "type_filter" "";
            limit = reader.get_int args "limit" 10;
          })))

  abbrev pub handle_time_travel : Fields → Result ToolCall
  handle_time_travel args = do
    key ← reader.require_string args "peer"
    moment ← reader.require_string args "as_of"
    as_of ← or_else (reader.parse_rfc3339 moment) (about "as_of must be RFC3339" moment)
    g ← authorize key
    m ← or_else (object_arg (get "query" args)) (message "query is required")
    q ← decode_entity_query m
    query_call args g (time_travel (some (record { query = q; as_of = as_of })))

  abbrev pub handle_type_list : Fields → Result ToolCall
  handle_type_list args = do
    key ← reader.require_string args "peer"
    g ← authorize key
    query_call args g type_list

  abbrev pub handle_type_describe : Fields → Result ToolCall
  handle_type_describe args = do
    key ← reader.require_string args "peer"
    name ← reader.require_string args "type_name"
    g ← authorize key
    query_call args g (
        type_describe
          (some (record { name = name; is_relationship = bool_arg (get "is_relationship" args) })))

  abbrev pub handle_entity_create : Fields → Result ToolCall
  handle_entity_create args = do
    key ← reader.require_string args "peer"
    type ← reader.require_string args "type"
    g ← authorize key
    fields ← or_else (object_arg (get "fields" args)) (message "fields is required")
    write_call g (
        entity_create
          (some (record { type = type; fields = some fields; author = ""; client = client_id g })))

  abbrev pub handle_entity_update : Fields → Result ToolCall
  handle_entity_update args = do
    key ← reader.require_string args "peer"
    id ← reader.require_string args "id"
    g ← authorize key
    fields ← or_else (object_arg (get "fields" args)) (message "fields is required")
    write_call g (
        entity_update
          (some (record { id = id; fields = some fields; author = ""; client = client_id g })))

  abbrev pub handle_relation_create : Fields → Result ToolCall
  handle_relation_create args = do
    key ← reader.require_string args "peer"
    from ← reader.require_string args "from"
    to ← reader.require_string args "to"
    type ← reader.require_string args "type"
    g ← authorize key
    write_call g (
        relation_create (
          some (record {
            from = from;
            to = to;
            type = type;
            fields = object_arg (get "data" args);
            author = "";
            client = client_id g;
          })))

  abbrev pub handle_type_define : Fields → Result ToolCall
  handle_type_define args = do
    key ← reader.require_string args "peer"
    name ← reader.require_string args "name"
    description ← reader.require_string args "description"
    g ← authorize key
    raw ← or_else (array_arg (get "fields" args)) (message "fields must be an array")
    fields ← decode_fields raw
    write_call g (
        type_define (
          some (record {
            name = name;
            description = description;
            fields = fields;
            is_relationship = bool_arg (get "is_relationship" args);
            directional = false;
            author = "";
            client = client_id g;
          })))
