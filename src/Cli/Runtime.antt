-- ===== src/Cli/Runtime.antt =====
-- `Runtime`, `Setup`, `AddPeerToRuntime` and the helpers of internal/cli/runtime.go.
pub mod Definitions
pub mod InForce
pub mod Laws
pub mod AddPeer
pub mod Live
use coggo.Prelude.{ℕ, zero, suc, String, ◌==◌, Option, none, some, List, [], ◌∷◌, if◌then◌else◌}
use coggo.Prelude.Result.{Error, Result, ok, err, message, about, wrap, context, ◌>>=◌}
use coggo.Types.{
  Time, Event, EventType, Entity, entity_type_defined, relationship_type_defined, Payload,
  of_entity_type, of_relation_type, EntityTypeDefinition, RelationshipTypeDefinition, Peer,
}
use coggo.Types.Json.{Fields}
use coggo.Types.Encode.{entity_type_object, relation_type_object}
use coggo.Store.Rows.{Db, Sqlite}
use coggo.Store.Events.{append_event}
use coggo.Store.Entities.{upsert_entity}
use coggo.Schema.Resolver.{Resolver, new_resolver, register_entity_type, register_relation_type}
use coggo.Schema.Seed.{seed, seed_entity_types, seed_relationship_types}
use coggo.Auth.Tokens.{TokenStore}
use coggo.Peer.Registry.{Registry, list_all, resolve}
use coggo.Federation.Router.{Handlers, register_peer}
use coggo.Cli.Runtime.Definitions.{rehydrate}

pub record Runtime : Type 0 where
  pub registry : Registry
  pub db : Db
  pub auth : TokenStore
  pub handlers : Handlers
  pub resolver : Resolver

abbrev pub serving : Peer → Resolver → Result Handlers → Result (Handlers × Resolver)
serving p r (ok handlers) = ok (handlers, r)
serving p r (err e) = err (wrap "cli setup: register" (wrap p.name e))

-- the body of the loop of `Setup`
unfoldable pub setup_peer : Sqlite → Db → Peer → Handlers → Resolver → Result (Handlers × Resolver)
unfolding seed rehydrate
setup_peer sqlite db p handlers r =
    serving p (rehydrate sqlite db p.did (seed p.did r))
      (register_peer p.did (some (record { peer_did = p.did })) handlers)

unfoldable pub setup_peers :
    Sqlite → Db → List Peer → Handlers → Resolver → Result (Handlers × Resolver)
unfolding setup_peer
setup_peers sqlite db [] handlers r = ok (handlers, r)
setup_peers sqlite db (p ∷ ps) handlers r =
    setup_peer sqlite db p handlers r >>= λ s. setup_peers sqlite db ps s.0 s.1

abbrev pub wired : Registry → Db → TokenStore → Handlers × Resolver → Runtime
wired reg db auth s = record {
  registry = reg;
  db = db;
  auth = auth;
  handlers = s.0;
  resolver = s.1;
}

-- The registry, the database and the tokens are what `Open`, `New` with `Init`, and `Open` give.
unfoldable pub setup : Sqlite → Result Registry → Result Db → Result TokenStore → Result Runtime
unfolding setup_peers
setup sqlite registry store tokens = do
  reg ← context "cli setup: peer registry" registry
  db ← context "cli setup: store" store
  auth ← context "cli setup: auth" tokens
  s ← setup_peers sqlite db (list_all reg) [] new_resolver
  ok (wired reg db auth s)

-- The clock and the identifiers that the storing of one definition draws.
pub record Draw : Type 0 where
  pub now : Time
  pub event_id : String
  pub record_id : String
  pub store_ulid : String

abbrev pub definition_event : Draw → String → EventType → Payload → String → Event
definition_event draw peer type payload client = record {
  id = draw.event_id;
  peer_did = peer;
  type = type;
  payload = payload;
  timestamp = draw.now;
  author_did = peer;
  client_id = client;
  signature = [];
}

abbrev pub definition_record : Draw → String → String → Fields → String → Entity
definition_record draw peer type fields client = record {
  id = draw.record_id;
  type = type;
  peer_did = peer;
  created_at = draw.now;
  created_by_did = peer;
  created_by_client = client;
  updated_at = draw.now;
  archived_at = none;
  fields = some fields;
  embedding_id = none;
}

abbrev pub without_value : Result Entity × Db → Result (Unit {0}) × Db
without_value (ok e, db) = (ok tt, db)
without_value (err e, db) = (err e, db)

abbrev pub then_upsert : Draw → Entity → Result Event × Db → Result (Unit {0}) × Db
then_upsert draw e (err f, db) = (err f, db)
then_upsert draw e (ok ev, db) = without_value (upsert_entity draw.now (some e) db)

unfoldable pub persist_entity_type_def :
    Draw → String → EntityTypeDefinition → String → Db → Result (Unit {0}) × Db
persist_entity_type_def draw peer def client db =
    then_upsert draw
      (definition_record draw peer "EntityTypeDefinition" (entity_type_object def) client)
      (append_event draw.now draw.store_ulid
        (some (definition_event draw peer entity_type_defined (of_entity_type def) client)) db)

unfoldable pub persist_rel_type_def :
    Draw → String → RelationshipTypeDefinition → String → Db → Result (Unit {0}) × Db
persist_rel_type_def draw peer def client db =
    then_upsert draw
      (definition_record draw peer "RelationshipTypeDefinition" (relation_type_object def) client)
      (append_event draw.now draw.store_ulid
        (some (definition_event draw peer relationship_type_defined (of_relation_type def) client))
        db)

-- What one step of a loop leaves; an error ends the loop.
abbrev pub next_step :
    Result (Unit {0}) × Db
    → Runtime
    → (Runtime → Result (Unit {0}) × Runtime)
    → Result (Unit {0}) × Runtime
next_step (ok u, db) rt next = next (record rt { db = db })
next_step (err e, db) rt next = (err e, record rt { db = db })

abbrev pub served : Result Handlers → Runtime → Result (Unit {0}) × Runtime
served (ok handlers) rt = (ok tt, record rt { handlers = handlers })
served (err e) rt = (err e, rt)

abbrev pub then_serve : Peer → Result (Unit {0}) × Runtime → Result (Unit {0}) × Runtime
then_serve p (err e, rt) = (err e, rt)
then_serve p (ok u, rt) =
    served (register_peer p.did (some (record { peer_did = p.did })) rt.handlers) rt

module _ (draws : ℕ → Draw) (p : Peer) (client : String) where
  unfoldable pub add_types : ℕ → List EntityTypeDefinition → Runtime → Result (Unit {0}) × Runtime
  unfolding persist_entity_type_def
  add_types n [] rt = (ok tt, rt)
  add_types n (d ∷ ds) rt =
      next_step (persist_entity_type_def (draws n) p.did d client rt.db)
        (record rt { resolver = register_entity_type p.did d rt.resolver }) (add_types (suc n) ds)

  unfoldable pub add_relation_types :
      ℕ → List RelationshipTypeDefinition → Runtime → Result (Unit {0}) × Runtime
  unfolding persist_rel_type_def
  add_relation_types n [] rt = (ok tt, rt)
  add_relation_types n (d ∷ ds) rt =
      next_step (persist_rel_type_def (draws n) p.did d client rt.db)
        (record rt { resolver = register_relation_type p.did d rt.resolver })
        (add_relation_types (suc n) ds)

  abbrev pub then_relations : Result (Unit {0}) × Runtime → Result (Unit {0}) × Runtime
  then_relations (err e, rt) = (err e, rt)
  then_relations (ok u, rt) = add_relation_types 6 (seed_relationship_types p.did) rt

  unfoldable pub add_peer_to_runtime : Runtime → Result (Unit {0}) × Runtime
  unfolding add_types add_relation_types
  add_peer_to_runtime rt = then_serve p (then_relations (add_types 0 (seed_entity_types p.did) rt))

-- the names that `resolvePeer` tries
unfoldable pub first_resolved : List String → Registry → Option Peer
unfolding resolve
first_resolved [] reg = none
first_resolved (n ∷ ns) reg =
    let rest = first_resolved ns reg in
    if n == "" then rest else elim (resolve n reg) [ ok p ↦ some p | err e ↦ rest ]

abbrev pub first_peer : List Peer → Result Peer
first_peer [] = err (message "no peers; run `coggo init` first")
first_peer (p ∷ ps) = ok p

unfoldable pub resolve_peer : Registry → String → String → Result Peer
unfolding first_resolved
resolve_peer reg name fallback = elim (first_resolved (name ∷ fallback ∷ []) reg) [
  | some p ↦ ok p
  | none ↦ first_peer (list_all reg)
]
