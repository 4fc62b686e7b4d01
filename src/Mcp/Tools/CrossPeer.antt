-- ===== src/Mcp/Tools/CrossPeer.antt =====
-- `handleCrossPeerQuery` of internal/mcp/tools.go.
pub mod Laws
use coggo.Prelude.{
  ℕ, zero, suc, String, ◌==◌, Bool, true, false, Option, none, some, List, [], ◌∷◌, eqb,
  if◌then◌else◌,
}
use coggo.Prelude.Result.{Error, Result, ok, err, message, or_else, ◌>>=◌}
use coggo.Types.{Time, EntityQuery}
use coggo.Types.Json.{Value, str, Values, nil, cons, Fields, get}
use coggo.Store.Rows.{Sqlite}
use coggo.Federation.Message.{Body, query, entity_query, Outcome, returns, panics}
use coggo.Federation.Handler.Base.{World, Env}
use coggo.Federation.Router.{route}
use coggo.Mcp.Authorize.{Grant}
use coggo.Mcp.Tools.Args.{ArgReader, object_arg, array_arg, decode_entity_query, get_fields_arg}
use coggo.Mcp.Tools.Calls.{ToolContext, authorize}
use coggo.Mcp.Tools.{is_error, route_federation}

-- What one peer gave: its entities with the fields to keep of them, an error, or the payload of an
-- error reply.
pub data PeerAnswer : Type 0 where
  found : Body → List String → PeerAnswer
  failed : Error → PeerAnswer
  failed_payload : Body → PeerAnswer

pub record PeerResult : Type 0 where
  pub peer : String
  pub answer : PeerAnswer

-- the results of all peers; an error that drops them; or a panic
pub data Gathered : Type 0 where
  gathered : List PeerResult → Gathered
  stopped : Error → Gathered
  panicked : Gathered

-- The arguments, once they are read.
pub record CrossQuery : Type 0 where
  pub query : EntityQuery
  pub peers : Values
  pub fields : List String

abbrev pub non_empty : Option Values → Result Values
non_empty none = err (message "peers is required (non-empty array)")
non_empty (some nil) = err (message "peers is required (non-empty array)")
non_empty (some (cons v vs)) = ok (cons v vs)

abbrev pub limited_to : ℕ → EntityQuery → EntityQuery
limited_to n q = if eqb n 0 then q else record q { limit = n }

unfoldable pub read_cross_query : ArgReader → Fields → Result CrossQuery
read_cross_query reader args = do
  m ← or_else (object_arg (get "query" args)) (message "query is required")
  q ← decode_entity_query m
  peers ← non_empty (array_arg (get "peers" args))
  ok (record {
    query = limited_to (reader.get_int args "limit_per_peer" 0) q;
    peers = peers;
    fields = get_fields_arg args;
  })

-- the result of a peer goes before those of the peers after it
abbrev pub gather : String → PeerAnswer → Gathered × World → Gathered × World
gather name a (gathered rs, w) = (gathered (record { peer = name; answer = a } ∷ rs), w)
gather name a (stopped e, w) = (stopped e, w)
gather name a (panicked, w) = (panicked, w)

-- `none` where the handler panics
abbrev pub peer_answer : List String → Outcome × World → Option PeerAnswer × World
peer_answer fields (panics, w) = (none, w)
peer_answer fields (returns m (some e), w) = (some (failed e), w)
peer_answer fields (returns m none, w) =
    (some (if is_error m.type then failed_payload m.payload else found m.payload fields), w)

abbrev pub then_gather :
    String → Option PeerAnswer × World → (World → Gathered × World) → Gathered × World
then_gather name (none, w) rest = (panicked, w)
then_gather name (some a, w) rest = gather name a (rest w)

module _ (reader : ArgReader) (hash : String → String) (ctx : ToolContext) (sqlite : Sqlite)
    (is_rfc3339 : String → Bool) (env : Env) (now : Time) where
  abbrev pub ask_granted :
      EntityQuery → List String → Result Grant → World → Option PeerAnswer × World
  ask_granted q fields (err e) w = (some (failed e), w)
  ask_granted q fields (ok g) w = peer_answer fields (
      route_federation reader hash ctx sqlite is_rfc3339 env now g.did query (entity_query (some q))
        w)

  -- the body of the loop
  unfoldable pub ask_peer : EntityQuery → List String → String → World → Option PeerAnswer × World
  unfolding route
  ask_peer q fields name w = ask_granted q fields (authorize reader hash ctx name) w

  unfoldable pub ask_peers : EntityQuery → List String → Values → World → Gathered × World
  unfolding ask_peer
  ask_peers q fields nil w = (gathered [], w)
  ask_peers q fields (cons (str name) vs) w =
      then_gather name (ask_peer q fields name w) (ask_peers q fields vs)
  ask_peers q fields (cons _ vs) w = (stopped (message "peers entries must be strings"), w)

  abbrev pub ask_all : Result CrossQuery → World → Gathered × World
  ask_all (err e) w = (stopped e, w)
  ask_all (ok c) w = ask_peers c.query c.fields c.peers w

  unfoldable pub cross_peer_query : Fields → World → Gathered × World
  unfolding read_cross_query ask_peers
  cross_peer_query args w = ask_all (read_cross_query reader args) w
