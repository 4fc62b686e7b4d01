-- ===== src/Cli/Calls.antt =====
-- `FedCall` of internal/cli/runtime.go and the helpers over it. A helper reads its result from the
-- reply's payload; the handlers answer each operation with the payload of its kind.
pub mod Laws
use coggo.Prelude.{
  String, ◌==◌, Bool, true, false, Option, none, some, List, [], ◌∷◌, if◌then◌else◌,
}
use coggo.Prelude.Result.{Error, Result, ok, err, message, about}
use coggo.Types.{Time, Entity, Relation, FieldDef, EntityQuery}
use coggo.Types.Json.{Fields}
use coggo.Types.Decode.{blank_entity}
use coggo.Store.Rows.{Sqlite}
use coggo.Federation.Message.{
  MessageType, query, write, error, Inbound, Body, entity, entities, relation, failure, Request,
  Outcome, returns, panics, entity_get, entity_query, entity_create, entity_update, relation_create,
  type_define,
}
use coggo.Federation.Handler.Base.{World, Env, bad_json}
use coggo.Federation.Router.{Handlers, route}

-- what a call gives back, or that the handler panics
pub data Called {ℓ} (A : Type ℓ) : Type ℓ where
  returned : Result A → Called A
  crashed : Called A

abbrev pub message_type : String → Option MessageType
message_type t = if t == "query" then some query else if t == "write" then some write else none

abbrev pub cli_message : Time → String → String → MessageType → Request → Inbound
cli_message now id peer type request = record {
  version = "v0.1";
  source_did = "cli";
  target_did = peer;
  type = type;
  payload = some request;
  auth_token = "";
  message_id = id;
  timestamp = now;
}

-- the text under `error`, where it is there and not empty
abbrev pub error_of : Body → Error
error_of (failure (message s)) = if s == "" then message "federation error response" else message s
error_of (failure e) = e
error_of _ = message "federation error response"

abbrev pub payload_of : MessageType → Body → Result Body
payload_of error b = err (error_of b)
payload_of _ b = ok b

abbrev pub answer_of : Outcome × World → Called Body × World
answer_of (panics, w) = (crashed, w)
answer_of (returns m (some e), w) = (returned (err e), w)
answer_of (returns m none, w) = (returned (payload_of m.type m.payload), w)

abbrev pub then_read {ℓ} : {A : Type ℓ} → (Body → Result A) → Called Body × World → Called A × World
then_read read (crashed, w) = (crashed, w)
then_read read (returned (err e), w) = (returned (err e), w)
then_read read (returned (ok b), w) = (returned (read b), w)

-- `null` leaves the zero entity.
abbrev pub entity_of : Body → Result Entity
entity_of (entity (some e)) = ok e
entity_of (entity none) = ok blank_entity
entity_of _ = err bad_json

abbrev pub entities_of : Body → Result (List Entity)
entities_of (entities es) = ok es
entities_of _ = err bad_json

abbrev pub relation_of : Body → Result Relation
relation_of (relation r) = ok r
relation_of _ = err bad_json

abbrev pub nothing_of : Body → Result (Unit {0})
nothing_of b = ok tt

-- The router and what its handlers share; the clock and the id of the message are `now` and `id`.
module _ (sqlite : Sqlite) (is_rfc3339 : String → Bool) (env : Env) (now : Time) (id : String)
    (handlers : Handlers) where
  abbrev pub fed_call_as :
      Option MessageType → String → String → Request → World → Called Body × World
  fed_call_as none peer t request w = (returned (err (about "fed: unknown msg type" t)), w)
  fed_call_as (some type) peer t request w =
      answer_of (route sqlite is_rfc3339 env handlers (cli_message now id peer type request) w)

  unfoldable pub fed_call : String → String → Request → World → Called Body × World
  unfolding route
  fed_call peer t request w = fed_call_as (message_type t) peer t request w

  unfoldable pub create_entity : String → String → Fields → String → World → Called Entity × World
  unfolding fed_call
  create_entity peer type fields client w = then_read entity_of (
      fed_call peer "write"
        (entity_create
          (some (record { type = type; fields = some fields; author = peer; client = client })))
        w)

  unfoldable pub update_entity : String → String → Fields → String → World → Called Entity × World
  unfolding fed_call
  update_entity peer entity_id fields client w = then_read entity_of (
      fed_call peer "write"
        (entity_update
          (some (record { id = entity_id; fields = some fields; author = peer; client = client })))
        w)

  unfoldable pub query_entities_of : String → EntityQuery → World → Called (List Entity) × World
  unfolding fed_call
  query_entities_of peer q w =
      then_read entities_of (fed_call peer "query" (entity_query (some q)) w)

  unfoldable pub get_entity_of : String → String → World → Called Entity × World
  unfolding fed_call
  get_entity_of peer entity_id w =
      then_read entity_of (fed_call peer "query" (entity_get (some entity_id)) w)

  unfoldable pub define_type :
      String
      → String
      → String
      → List FieldDef
      → Bool
      → Bool
      → String
      → World
      → Called (Unit {0}) × World
  unfolding fed_call
  define_type peer name description fields is_rel directional client w = then_read nothing_of (
      fed_call peer "write"
        (type_define (
          some (record {
            name = name;
            description = description;
            fields = fields;
            is_relationship = is_rel;
            directional = directional;
            author = peer;
            client = client;
          })))
        w)

  unfoldable pub create_relation :
      String → String → String → String → Option Fields → String → World → Called Relation × World
  unfolding fed_call
  create_relation peer from to type fields client w = then_read relation_of (
      fed_call peer "write"
        (relation_create (
          some (record {
            from = from;
            to = to;
            type = type;
            fields = fields;
            author = peer;
            client = client;
          })))
        w)
