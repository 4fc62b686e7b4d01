-- ===== src/Cli/Commands.antt =====
-- The commands of internal/cli/entities.go, relations.go and types.go that write, after their `Setup`.
-- The peer name is the one that the flags give; the lines of the input are as in Prompts, and each
-- federation call draws its own clock and identifiers.
pub mod Laws
use coggo.Prelude.{
  ℕ, suc, String, ◌==◌, Bool, true, false, ◌||◌, Option, none, some, List, [], ◌∷◌, length,
  if◌then◌else◌,
}
use coggo.Prelude.Result.{Error, Result, ok, err, message, about, wrap}
use coggo.Types.{
  Time, Entity, Relation, FieldDef, EntityTypeDefinition, RelationshipTypeDefinition, Peer,
}
use coggo.Types.Json.{Fields, end, field}
use coggo.Store.Rows.{Sqlite}
use coggo.Schema.Resolver.{entity_type, relation_type}
use coggo.Peer.Registry.{Registry, resolve, list_all}
use coggo.Federation.Handler.Base.{World, Env}
use coggo.Cli.Runtime.{Runtime, resolve_peer}
use coggo.Cli.Calls.{
  Called, returned, crashed, create_entity, update_entity, get_entity_of, define_type,
  create_relation,
}
use coggo.Cli.Prompts.{
  Console, Input, ask, ask_yn, new_fields, update_fields, relation_fields, read_fields,
}

-- what one federation call draws
pub record CallDraw : Type 0 where
  pub env : Env
  pub now : Time
  pub id : String

-- a command's error, and the store that it leaves
abbrev pub Ended : Type 0
Ended = Called (Unit {0}) × World

abbrev pub failed : Error → World → Ended
failed e w = (returned (err e), w)

abbrev pub done : World → Ended
done w = (returned (ok tt), w)

abbrev pub ended : {A : Type 0} → Called A × World → Ended
ended (crashed, w) = (crashed, w)
ended (returned (err e), w) = failed e w
ended (returned (ok a), w) = done w

abbrev pub ended_as : {A : Type 0} → String → Called A × World → Ended
ended_as text (crashed, w) = (crashed, w)
ended_as text (returned (err e), w) = failed (wrap text e) w
ended_as text (returned (ok a), w) = done w

-- a relation that fails is only reported
abbrev pub reported : Called Relation × World → Ended
reported (crashed, w) = (crashed, w)
reported (returned r, w) = done w

abbrev pub world_of : Runtime → World
world_of rt = record { db = rt.db; resolver = some rt.resolver }

module _ (console : Console) (sqlite : Sqlite) (is_rfc3339 : String → Bool) (rt : Runtime)
    (first second : CallDraw) where
  abbrev pub relate_if : Bool → String → Entity → String → String → World → Ended
  relate_if false did e to type w = done w
  relate_if true did e to type w =
      if (to == "") || (type == "")
      then done w
      else reported (
          create_relation sqlite is_rfc3339 second.env second.now second.id rt.handlers did e.id to
            type none "cli" w)

  abbrev pub offer_relation : String → Input → Called Entity × World → Ended
  offer_relation did lines (crashed, w) = (crashed, w)
  offer_relation did lines (returned (err e), w) = failed (wrap "entity new" e) w
  offer_relation did lines (returned (ok e), w) =
      let add = ask_yn console false lines in
      let to = ask console "" add.1 in
      let type = ask console "depends_on" to.1 in relate_if add.0 did e to.0 type.0 w

  abbrev pub create_with_fields : String → String → Result (Fields × Input) → World → Ended
  create_with_fields did type (err e) w = failed e w
  create_with_fields did type (ok (fs, lines)) w =
      offer_relation did lines (
        create_entity sqlite is_rfc3339 first.env first.now first.id rt.handlers did type fs "cli"
          w)

  abbrev pub new_of_type : Input → String → String → Result EntityTypeDefinition → World → Ended
  new_of_type lines did type (err e) w = failed (about "entity new: type not defined" type) w
  new_of_type lines did type (ok def) w =
      create_with_fields did type (new_fields console def.fields lines end) w

  abbrev pub new_in_peer : Input → String → Result Peer → World → Ended
  new_in_peer lines type (err e) w = failed e w
  new_in_peer lines type (ok p) w =
      new_of_type lines p.did type (entity_type p.did type rt.resolver) w

  -- `runEntityNew`, which the alias commands call with their peer as the fallback
  unfoldable pub run_entity_new : String → String → String → Input → Ended
  unfolding entity_type resolve_peer new_fields create_entity create_relation ask ask_yn
  run_entity_new peer_name fallback type lines =
      new_in_peer lines type (resolve_peer rt.registry peer_name fallback) (world_of rt)

  unfoldable pub entity_new : String → String → Input → Ended
  unfolding run_entity_new
  entity_new peer_name type lines =
      if type == ""
      then failed (message "entity new: type required") (world_of rt)
      else run_entity_new peer_name "" type lines

  abbrev pub send_updates : String → String → Result (Fields × Input) → World → Ended
  send_updates did id (err e) w = failed e w
  send_updates did id (ok (end, lines)) w = done w
  send_updates did id (ok (field k v fs, lines)) w = ended (
      update_entity sqlite is_rfc3339 second.env second.now second.id rt.handlers did id
        (field k v fs) "cli" w)

  abbrev pub update_as :
      Input → String → String → Entity → Result EntityTypeDefinition → World → Ended
  update_as lines did id cur (err e) w = failed e w
  update_as lines did id cur (ok def) w =
      send_updates did id (update_fields console cur.fields def.fields lines end) w

  abbrev pub update_current : Input → String → String → Called Entity × World → Ended
  update_current lines did id (crashed, w) = (crashed, w)
  update_current lines did id (returned (err e), w) = failed e w
  update_current lines did id (returned (ok cur), w) =
      update_as lines did id cur (entity_type did cur.type rt.resolver) w

  abbrev pub update_in_peer : Input → String → Result Peer → World → Ended
  update_in_peer lines id (err e) w = failed e w
  update_in_peer lines id (ok p) w =
      update_current lines p.did id
        (get_entity_of sqlite is_rfc3339 first.env first.now first.id rt.handlers p.did id w)

  unfoldable pub entity_update : String → String → Input → Ended
  unfolding entity_type resolve update_fields update_entity get_entity_of
  entity_update peer_name id lines =
      if id == ""
      then failed (message "entity update: id required") (world_of rt)
      else if peer_name == ""
      then failed (message "entity update: --peer required") (world_of rt)
      else update_in_peer lines id (resolve peer_name rt.registry) (world_of rt)

  abbrev pub relate_fields :
      String → String → String → String → Result (Fields × Input) → World → Ended
  relate_fields did from to type (err e) w = failed e w
  relate_fields did from to type (ok (fs, lines)) w = ended (
      create_relation sqlite is_rfc3339 first.env first.now first.id rt.handlers did from to type
        (some fs) "cli" w)

  abbrev pub relate_as :
      Input → String → String → String → String → Result RelationshipTypeDefinition → World → Ended
  relate_as lines did from to type (err e) w = failed e w
  relate_as lines did from to type (ok def) w =
      relate_fields did from to type (relation_fields console def.fields lines end) w

  abbrev pub relate_in_peer : Input → Result Peer → World → Ended
  relate_in_peer lines (err e) w = failed e w
  relate_in_peer lines (ok p) w =
      let from = ask console "" lines in
      let to = ask console "" from.1 in
      let type = ask console "depends_on" to.1 in
      if (from.0 == "") || ((to.0 == "") || (type.0 == ""))
      then failed (message "relation new: from/to/type required") w
      else relate_as type.1 p.did from.0 to.0 type.0 (relation_type p.did type.0 rt.resolver) w

  unfoldable pub relation_new : String → Input → Ended
  unfolding relation_type resolve_peer relation_fields create_relation ask
  relation_new peer_name lines =
      relate_in_peer lines (resolve_peer rt.registry peer_name "") (world_of rt)

  abbrev pub define_with :
      String → String → String → Bool → Bool → Option (List FieldDef × Input) → World → Ended
  define_with did name description is_rel directional none w = (crashed, w)
  define_with did name description is_rel directional (some (fields, lines)) w =
      ended_as "type add" (
        define_type sqlite is_rfc3339 first.env first.now first.id rt.handlers did name description
          fields is_rel directional "cli" w)

  -- The fuel of the loop is a turn more than the lines that are left.
  abbrev pub define_in_peer : Input → Result Peer → World → Ended
  define_in_peer lines (err e) w = failed e w
  define_in_peer lines (ok p) w =
      let name = ask console "" lines in
      let description = ask console "" name.1 in
      let is_rel = ask_yn console false description.1 in
      let directional = if is_rel.0 then ask_yn console true is_rel.1 else (false, is_rel.1) in
      if name.0 == ""
      then failed (message "type add: name required") w
      else define_with p.did name.0 description.0 is_rel.0 directional.0
          (read_fields console (suc (length directional.1)) directional.1) w

  abbrev pub type_add_among : String → Input → List Peer → Ended
  type_add_among root_peer lines [] =
      failed (message "type add: no peers; run `coggo init` first") (world_of rt)
  type_add_among root_peer lines (p ∷ ps) =
      let peer = ask console (if root_peer == "" then p.name else root_peer) lines in
      define_in_peer peer.1 (resolve peer.0 rt.registry) (world_of rt)

  unfoldable pub type_add : String → Input → Ended
  unfolding resolve list_all read_fields define_type ask ask_yn
  type_add root_peer lines = type_add_among root_peer lines (list_all rt.registry)
