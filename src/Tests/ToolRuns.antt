-- ===== src/Tests/ToolRuns.antt =====
-- Runs of the tools of internal/mcp/tools.go.
use coggo.Prelude.{
  String, ◌≡◌, refl, sym, ap, subst, ◌∙◌, true, ◌==◌, Option, none, some, [], ◌∷◌, lookup, insert,
  find, if◌then◌else◌, eq_iff, arith,
}
use coggo.Prelude.Result.{Result, ok, err, about}
use coggo.Types.Json.{Value, Fields, str, arr, obj, nil, cons, field, end, get}
use coggo.Store.Entities.{get_entity}
use coggo.Peer.Registry.{Registry, empty_registry, add, by_name_of, load, resolve, by_did_of}
use coggo.Auth.Tokens.{verify, token_covers_peer}
use coggo.Federation.Handler.Isolation.{Apart}
use coggo.Federation.Router.{StoreHandler, Handlers}
use coggo.Mcp.Authorize.{Grant, authorize_for_peer}
use coggo.Mcp.Tools.Args.{ArgReader}
use coggo.Mcp.Tools.Calls.{ToolContext, authorize}
use coggo.Mcp.Tools.{call_tool, tool_entity_get, tool_entity_create}
use coggo.Mcp.Tools.Laws.{call_tool-reads, call_tool-others}
use coggo.Mcp.Tools.CrossPeer.{cross_peer_query, read_cross_query}
use coggo.Mcp.Tools.CrossPeer.Laws.{collected, cross_peer_query-collected}
use coggo.Tests.Data.{me, alice, hash, token, sqlite, rfc3339, world, env, title}

abbrev text_of : String → Option Value → Result String
text_of key (some (str s)) = ok s
text_of key _ = err (about "required argument not found" key)

abbrev text_or : String → Option Value → String
text_or default (some (str s)) = s
text_or default _ = default

abbrev reader : ArgReader
reader = record {
  require_string = λ args key. text_of key (get key args);
  get_string = λ args key default. text_or default (get key args);
  get_int = λ args key default. default;
  parse_rfc3339 = λ s. if s == "2024-01-01T00:00:00Z" then some 7 else none;
}

abbrev registry : Registry
registry = (add 7 true alice empty_registry).1

abbrev handlers : Handlers
handlers = (me, record { peer_did = me }) ∷ []

abbrev context : ToolContext
context = record {
  registry = some registry;
  auth = some (record { tokens = token ∷ []; disk = token ∷ [] });
  secret = "s1";
  handlers = handlers;
}

abbrev arguments : Fields
arguments =
    field "peer" (str "alice")
      (field "id" (str "e1") (field "type" (str "Note") (field "fields" (obj title) end)))

abbrev grant : Grant
grant = record { did = me; peer = alice; token = token }

let_in : authorize reader hash context "alice" ≡ ok grant
unfolding authorize_for_peer resolve by_name_of by_did_of verify find token_covers_peer lookup
    insert load add
let_in = refl

call_tool-reads_example :
    (call_tool reader hash context sqlite rfc3339 env 9 tool_entity_get arguments world).1 ≡ world
call_tool-reads_example =
    call_tool-reads reader hash context sqlite rfc3339 env 9 tool_entity_get arguments world refl

abbrev you : String
you = "did:key:you"

apart : Apart env me you world
unfolding get_entity find
apart = record { other = refl; new = refl; distinct = (tt, tt) }

own_handler : (d : String) (h : StoreHandler) → lookup d handlers ≡ some h → h.peer_did ≡ d
unfolding lookup
own_handler d h e = ground (arith, eq_iff me d)

Apart-granted :
    (key : String) (g : Grant)
    → reader.require_string arguments "peer" ≡ ok key
    → authorize reader hash context key ≡ ok g
    → Apart env g.did you world
unfolding get
Apart-granted key g named granted =
    let alice_named : "alice" ≡ key = ground arith in
    let same : ok grant ≡ ok g =
      sym let_in ∙ ap (λ k. authorize reader hash context k) alice_named ∙ granted in
    let same_did : me ≡ g.did = ground arith in subst (λ d. Apart env d you world) same_did apart

call_tool-others_example :
    (get_entity you "e1"
        (call_tool reader hash context sqlite rfc3339 env 9 tool_entity_create arguments world).1.db
      ≡ get_entity you "e1" world.db)
    × (get_entity you "e1"
          (cross_peer_query reader hash context sqlite rfc3339 env 9 arguments world).1.db
        ≡ get_entity you "e1" world.db)
call_tool-others_example =
    call_tool-others reader hash context sqlite rfc3339 env you "e1" 9 tool_entity_create arguments
      world own_handler Apart-granted

abbrev cross_arguments : Fields
cross_arguments =
    field "query" (obj (field "type" (str "Note") end))
      (field "peers" (arr (cons (str "alice") (cons (str "bob") nil))) end)

cross_peer_query-collected_example :
    cross_peer_query reader hash context sqlite rfc3339 env 9 cross_arguments world ≡ (
      collected reader hash context sqlite rfc3339 env 9
          (read_cross_query reader cross_arguments)
          world,
      world,
    )
cross_peer_query-collected_example =
    cross_peer_query-collected reader hash context sqlite rfc3339 env 9 cross_arguments world
