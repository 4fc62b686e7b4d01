-- ===== src/Mcp/Tools/Prepared.antt =====
-- The tool handlers of internal/mcp/tools.go: what stands behind a
-- federation call.
use coggo.Prelude.{String, ◌≡◌, refl, subst, Bool, true, false, some, arith, if◌then◌else◌}
use coggo.Prelude.Result.{Error, Result, ok, err, message, about, or_else, ◌>>=◌}
use coggo.Types.Json.{Fields, get}
use coggo.Federation.Message.{MessageType, query, write}
use coggo.Federation.Handler.Laws.{is_read}
use coggo.Mcp.Authorize.{Grant}
use coggo.Mcp.Tools.Args.{ArgReader, object_arg, array_arg, decode_entity_query, decode_fields}
use coggo.Mcp.Tools.Calls.{ToolCall, ToolContext, authorize}
use coggo.Mcp.Tools.{
  Tool, tool_entity_get, tool_entity_query, tool_relation_query, tool_semantic_search,
  tool_time_travel, tool_type_list, tool_type_describe, tool_entity_create, tool_entity_update,
  tool_relation_create, tool_type_define, prepare,
}

-- the tools that README.md lists as reads
abbrev pub reads : Tool → Bool
reads tool_entity_create = false
reads tool_entity_update = false
reads tool_relation_create = false
reads tool_type_define = false
reads _ = true

abbrev kind_of : Tool → MessageType
kind_of tool = if reads tool then query else write

module _ (reader : ArgReader) (hash : String → String) (ctx : ToolContext) where
  -- what stands behind the federation call of a tool
  pub record Permitted (tool : Tool) (args : Fields) (c : ToolCall) : Type 0 where
    pub key : String
    pub grant : Grant
    pub named : reader.require_string args "peer" ≡ ok key
    pub authorized : authorize reader hash ctx key ≡ ok grant
    pub same_did : c.did ≡ grant.did
    pub kind : c.type ≡ kind_of tool
    pub read_only : is_read (some c.request) ≡ reads tool

  -- an error, or a call that is permitted
  data Sound (tool : Tool) (args : Fields) : Result ToolCall → Type 0 where
    refused : (e : Error) → Sound tool args (err e)
    permitted : (c : ToolCall) → Permitted tool args c → Sound tool args (ok c)

  after :
      {A : Type 0} (tool : Tool) (args : Fields) (r : Result A) (next : A → Result ToolCall)
      → ((a : A) → r ≡ ok a → Sound tool args (next a))
      → Sound tool args (r >>= next)
  after tool args (ok a) next h = h a refl
  after tool args (err e) next h = refused e

  call_of :
      {tool : Tool} {args : Fields} (key : String) (g : Grant) (c : ToolCall)
      → reader.require_string args "peer" ≡ ok key
      → authorize reader hash ctx key ≡ ok g
      → c.did ≡ g.did
      → c.type ≡ kind_of tool
      → is_read (some c.request) ≡ reads tool
      → Sound tool args (ok c)
  call_of key g c k e d t r = permitted c (record {
    key = key;
    grant = g;
    named = k;
    authorized = e;
    same_did = d;
    kind = t;
    read_only = r;
  })

  prepare-Sound :
      (tool : Tool) (args : Fields) → Sound tool args (prepare reader hash ctx tool args)
  unfolding prepare
  prepare-Sound tool_entity_get args =
      after tool_entity_get args (reader.require_string args "peer") _ λ key k.
        after tool_entity_get args (reader.require_string args "id") _ λ id _.
          after tool_entity_get args (authorize reader hash ctx key) _
            λ g e. call_of key g _ k e refl refl refl
  prepare-Sound tool_entity_query args =
      after tool_entity_query args (reader.require_string args "peer") _ λ key k.
        after tool_entity_query args (reader.require_string args "type") _ λ type _.
          after tool_entity_query args (authorize reader hash ctx key) _
            λ g e. call_of key g _ k e refl refl refl
  prepare-Sound tool_relation_query args =
      after tool_relation_query args (reader.require_string args "peer") _ λ key k.
        after tool_relation_query args (authorize reader hash ctx key) _
          λ g e. call_of key g _ k e refl refl refl
  prepare-Sound tool_semantic_search args =
      after tool_semantic_search args (reader.require_string args "peer") _ λ key k.
        after tool_semantic_search args (reader.require_string args "query") _ λ words _.
          after tool_semantic_search args (authorize reader hash ctx key) _
            λ g e. call_of key g _ k e refl refl refl
  prepare-Sound tool_time_travel args =
      after tool_time_travel args (reader.require_string args "peer") _ λ key k.
        after tool_time_travel args (reader.require_string args "as_of") _ λ as_of _.
          after tool_time_travel args
            (or_else (reader.parse_rfc3339 as_of) (about "as_of must be RFC3339" as_of)) _
            λ moment _. after tool_time_travel args (authorize reader hash ctx key) _ λ g e.
              after tool_time_travel args
                (or_else (object_arg (get "query" args)) (message "query is required")) _
                λ m _.
                  after tool_time_travel args (decode_entity_query m) _
                    λ q _. call_of key g _ k e refl refl refl
  prepare-Sound tool_type_list args =
      after tool_type_list args (reader.require_string args "peer") _ λ key k.
        after tool_type_list args (authorize reader hash ctx key) _
          λ g e. call_of key g _ k e refl refl refl
  prepare-Sound tool_type_describe args =
      after tool_type_describe args (reader.require_string args "peer") _ λ key k.
        after tool_type_describe args (reader.require_string args "type_name") _ λ type_name _.
          after tool_type_describe args (authorize reader hash ctx key) _
            λ g e. call_of key g _ k e refl refl refl
  prepare-Sound tool_entity_create args =
      after tool_entity_create args (reader.require_string args "peer") _ λ key k.
        after tool_entity_create args (reader.require_string args "type") _ λ type _.
          after tool_entity_create args (authorize reader hash ctx key) _ λ g e.
            after tool_entity_create args
              (or_else (object_arg (get "fields" args)) (message "fields is required")) _
              λ o _. call_of key g _ k e refl refl refl
  prepare-Sound tool_entity_update args =
      after tool_entity_update args (reader.require_string args "peer") _ λ key k.
        after tool_entity_update args (reader.require_string args "id") _ λ id _.
          after tool_entity_update args (authorize reader hash ctx key) _ λ g e.
            after tool_entity_update args
              (or_else (object_arg (get "fields" args)) (message "fields is required")) _
              λ o _. call_of key g _ k e refl refl refl
  prepare-Sound tool_relation_create args =
      after tool_relation_create args (reader.require_string args "peer") _ λ key k.
        after tool_relation_create args (reader.require_string args "from") _ λ from _.
          after tool_relation_create args (reader.require_string args "to") _ λ to _.
            after tool_relation_create args (reader.require_string args "type") _ λ type _.
              after tool_relation_create args (authorize reader hash ctx key) _
                λ g e. call_of key g _ k e refl refl refl
  prepare-Sound tool_type_define args =
      after tool_type_define args (reader.require_string args "peer") _ λ key k.
        after tool_type_define args (reader.require_string args "name") _ λ name _.
          after tool_type_define args (reader.require_string args "description") _ λ description _.
            after tool_type_define args (authorize reader hash ctx key) _ λ g e.
              after tool_type_define args
                (or_else (array_arg (get "fields" args)) (message "fields must be an array")) _
                λ raw _.
                  after tool_type_define args (decode_fields raw) _
                    λ fields _. call_of key g _ k e refl refl refl

  Permitted-call :
      (tool : Tool) (args : Fields) (r : Result ToolCall) (c : ToolCall)
      → Sound tool args r
      → r ≡ ok c
      → Permitted tool args c
  Permitted-call tool args _ c (refused e) h = cc
  Permitted-call tool args _ c (permitted d p) h =
      let same : d ≡ c = ground arith in subst (Permitted tool args) same p

  -- None of the tools that ask one peer, which are all but `coggo_cross_peer_query`, makes a federation
  -- call without an authorization: the call goes to the DID that
  -- authorizeForPeer gave for the tool's peer argument, as a query with a reading request for the
  -- tools that read, and as a write with a writing request for the others.
  pub prepare_sound :
      (tool : Tool) (args : Fields) (c : ToolCall)
      → prepare reader hash ctx tool args ≡ ok c
      → Permitted tool args c
  prepare_sound tool args c h =
      Permitted-call tool args (prepare reader hash ctx tool args) c (prepare-Sound tool args) h
