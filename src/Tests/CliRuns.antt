-- ===== src/Tests/CliRuns.antt =====
-- Runs of internal/cli/runtime.go.
use Prim.Native.String.{◌++◌}
use coggo.Prelude.{
  ℕ, zero, suc, String, ◌≡◌, refl, true, some, [], ◌∷◌, lookup, insert, All, filter,
}
use coggo.Prelude.Result.{ok, traverse}
use coggo.Types.{Entity, EntityTypeDefinition}
use coggo.Types.Encode.{entity_type_object, field_defs_value}
use coggo.Types.Struct.{read_entity_type, read_field_defs, read_field_def}
use coggo.Types.Json.{get}
use coggo.Store.Stamp.{format_time, parse_time, strip, low_digits}
use coggo.Store.Rows.{Db, fresh}
use coggo.Store.Entities.{
  entity_row, query_entities, get_entity, scan_entity, passes, upsert_entity,
}
use coggo.Store.Events.{append_event, insert_event}
use coggo.Prelude.Order.Sort.{sort}
use coggo.Schema.Resolver.{
  Resolver, new_resolver, entity_type, resolve, register, register_entity_type,
  register_relation_type,
}
use coggo.Schema.Seed.{seed, register_entity_types, register_relation_types}
use coggo.Auth.Tokens.{TokenStore}
use coggo.Peer.Registry.{Registry, empty_registry, add, list_all, loaded, load}
use coggo.Federation.Router.{Handlers, register_peer}
use coggo.Cli.Runtime.Live.{AreApart, setup-succeeds}
use coggo.Cli.Runtime.Definitions.{
  stored_types, rehydrate, rehydrate_types, rehydrate_relations, entity_to_entity_type_def,
}
use coggo.Cli.Runtime.{
  Runtime, setup, setup_peer, setup_peers, Draw, add_peer_to_runtime, add_types, add_relation_types,
  persist_entity_type_def, persist_rel_type_def,
}
use coggo.Cli.Runtime.InForce.{last_named, in_force, setup_peer-in_force}
use coggo.Cli.Runtime.Laws.{IsOwn, IsServed, setup-IsOwn}
use coggo.Cli.Calls.{returned, get_entity_of}
use coggo.Cli.Calls.Laws.{or_blank, get_entity_of-get_entity}
use coggo.Tests.Data.{sqlite, rfc3339, me, alice, note, note_type, world, env}

-- a definition of Note as `type.define` stored it
abbrev definition : String → ℕ → EntityTypeDefinition → Entity
definition id at d = record note {
  id = id;
  type = "EntityTypeDefinition";
  created_at = at;
  updated_at = at;
  fields = some (entity_type_object d);
}

abbrev first_note : EntityTypeDefinition
first_note = record note_type { description = "first" }

abbrev second_note : EntityTypeDefinition
second_note = record note_type { description = "second" }

abbrev defined_twice : Db
defined_twice = record (fresh 3) {
  entities =
      entity_row (definition "d1" 3000000000 first_note)
      ∷ entity_row (definition "d2" 5000000000 second_note)
      ∷ [];
}

-- the newest first
stored :
    query_entities sqlite me (stored_types "EntityTypeDefinition") defined_twice
    ≡ ok (definition "d2" 5000000000 second_note ∷ definition "d1" 3000000000 first_note ∷ [])
unfolding query_entities filter sort traverse scan_entity passes format_time parse_time strip
    low_digits
stored = refl

abbrev one_peer : Handlers × Resolver
one_peer =
    ((me, record { peer_did = me }) ∷ [], rehydrate sqlite defined_twice me (seed me new_resolver))

set_up : setup_peer sqlite defined_twice alice [] new_resolver ≡ ok one_peer
unfolding setup_peer register_peer lookup insert
set_up = refl

setup_peer-in_force_example :
    entity_type me "Note" one_peer.1
    ≡ in_force
        (last_named "Note"
          (definition "d2" 5000000000 second_note ∷ definition "d1" 3000000000 first_note ∷ []))
        (entity_type me "Note" (seed me new_resolver))
setup_peer-in_force_example =
    setup_peer-in_force sqlite defined_twice alice [] new_resolver "Note"
      (definition "d2" 5000000000 second_note ∷ definition "d1" 3000000000 first_note ∷ []) one_peer
      stored set_up

-- The definition that was replaced is in force again.
first_in_force : entity_type me "Note" one_peer.1 ≡ ok first_note
unfolding entity_type resolve seed rehydrate rehydrate_types rehydrate_relations
    entity_to_entity_type_def register_entity_types register_relation_types register_entity_type
    register_relation_type register query_entities filter sort traverse scan_entity passes
    read_entity_type read_field_defs read_field_def get lookup insert entity_type_object
    field_defs_value format_time parse_time
first_in_force = refl

abbrev registry : Registry
registry = (add 7 true alice empty_registry).1

abbrev no_tokens : TokenStore
no_tokens = record { tokens = []; disk = [] }

abbrev pub runtime : Runtime
runtime = record {
  registry = registry;
  db = defined_twice;
  auth = no_tokens;
  handlers = one_peer.0;
  resolver = one_peer.1;
}

all_set_up : setup sqlite (ok registry) (ok defined_twice) (ok no_tokens) ≡ ok runtime
unfolding setup setup_peers setup_peer register_peer lookup insert list_all sort loaded load add
all_set_up = refl

setup-IsOwn_example : IsOwn runtime.handlers × All (IsServed runtime.handlers) (list_all registry)
setup-IsOwn_example =
    setup-IsOwn sqlite (ok registry) (ok defined_twice) (ok no_tokens) runtime all_set_up

abbrev two_peers : Registry
two_peers = (add 8 true (record alice { name = "bob"; did = "did:key:bob" }) registry).1

two_apart : AreApart (list_all two_peers)
unfolding list_all sort loaded load add lookup insert
two_apart = (refl, (refl, tt), (refl, tt, tt))

setup-succeeds_example :
    (rt : Runtime) × (setup sqlite (ok two_peers) (ok defined_twice) (ok no_tokens) ≡ ok rt)
setup-succeeds_example = setup-succeeds sqlite two_peers defined_twice no_tokens two_apart

-- an id for each seed type
abbrev numbered : ℕ → String
numbered zero = "a"
numbered (suc n) = "a" ++ numbered n

abbrev draws : ℕ → Draw
draws n = record { now = 9; event_id = numbered n; record_id = numbered n; store_ulid = "s" }

abbrev blank : Runtime
blank = record {
  registry = registry;
  db = fresh 3;
  auth = no_tokens;
  handlers = [];
  resolver = new_resolver;
}

abbrev with_alice : Runtime
with_alice = (add_peer_to_runtime draws alice "cli" blank).1

alice_added : add_peer_to_runtime draws alice "cli" blank ≡ (ok tt, with_alice)
unfolding add_peer_to_runtime add_types add_relation_types persist_entity_type_def
    persist_rel_type_def append_event insert_event upsert_entity register_peer lookup insert
alice_added = refl

get_entity_of-get_entity_example :
    get_entity_of sqlite rfc3339 env 9 "m1" one_peer.0 me "e9" world
    ≡ (returned (or_blank (get_entity me "e9" world.db)), world)
unfolding lookup
get_entity_of-get_entity_example =
    get_entity_of-get_entity sqlite rfc3339 env 9 "m1" one_peer.0 me "e9" world refl
