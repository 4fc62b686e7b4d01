-- ===== src/Cli/Runtime/InForce.antt =====
-- Which type definition is in force after `Setup` of internal/cli/runtime.go.
use coggo.Prelude.{
  String, ◌≡◌, refl, ◌∙◌, sym, ap, ◌==◌, Option, none, some, List, [], ◌∷◌, inl, inr, arith,
  eq_refl, Bool-cases, if◌then◌else◌,
}
use coggo.Prelude.Result.{Result, ok, err}
use coggo.Types.{Entity, EntityTypeDefinition, RelationshipTypeDefinition, Peer}
use coggo.Store.Rows.{Db, Sqlite}
use coggo.Store.Entities.{query_entities}
use coggo.Schema.Resolver.{Resolver, register_relation_type, entity_type}
use coggo.Schema.Seed.{seed}
use coggo.Schema.Seed.Laws.{entity_type-register}
use coggo.Federation.Router.{Handlers, register_peer}
use coggo.Cli.Runtime.Definitions.{
  entity_to_entity_type_def, entity_to_rel_type_def, register_type_if, register_relation_if,
  rehydrate_types, rehydrate_relations, stored_types, rehydrated_types, rehydrated_relations,
  rehydrate,
}
use coggo.Cli.Runtime.{serving, setup_peer}

-- the definition, where it has the name
abbrev pub if_named : String → Option EntityTypeDefinition → Option EntityTypeDefinition
if_named n none = none
if_named n (some d) = if d.name == n then some d else none

abbrev pub later_or :
    Option EntityTypeDefinition → Option EntityTypeDefinition → Option EntityTypeDefinition
later_or (some d) earlier = some d
later_or none earlier = earlier

-- Of the stored definitions with the name, the one that comes last.
unfoldable pub last_named : String → List Entity → Option EntityTypeDefinition
last_named n [] = none
last_named n (e ∷ es) = later_or (last_named n es) (if_named n (entity_to_entity_type_def e))

abbrev pub in_force :
    Option EntityTypeDefinition → Result EntityTypeDefinition → Result EntityTypeDefinition
in_force (some d) before = ok d
in_force none before = before

in_force-later_or :
    (later earlier : Option EntityTypeDefinition) (before : Result EntityTypeDefinition)
    → in_force later (in_force earlier before) ≡ in_force (later_or later earlier) before
in_force-later_or (some d) earlier before = refl
in_force-later_or none earlier before = refl

module _ (peer n : String) where
  register_type_if-in_force :
      (o : Option EntityTypeDefinition) (r : Resolver)
      → entity_type peer n (register_type_if peer o r)
        ≡ in_force (if_named n o) (entity_type peer n r)
  register_type_if-in_force none r = refl
  register_type_if-in_force (some d) r =
      entity_type-register peer n peer d r ∙ elim (Bool-cases (d.name == n)) [
        | inl e ↦ rw (eq_refl peer, e) refl
        | inr e ↦ rw (eq_refl peer, e) refl
      ]

  rehydrate_types-in_force :
      (es : List Entity) (r : Resolver)
      → entity_type peer n (rehydrate_types peer es r)
        ≡ in_force (last_named n es) (entity_type peer n r)
  unfolding rehydrate_types last_named
  rehydrate_types-in_force [] r = refl
  rehydrate_types-in_force (e ∷ es) r =
      let o = entity_to_entity_type_def e in
      rehydrate_types-in_force es (register_type_if peer o r)
      ∙ ap (in_force (last_named n es)) (register_type_if-in_force o r)
      ∙ in_force-later_or (last_named n es) (if_named n o) (entity_type peer n r)

  register_relation_if-entity_type :
      (o : Option RelationshipTypeDefinition) (r : Resolver)
      → entity_type peer n (register_relation_if peer o r) ≡ entity_type peer n r
  unfolding entity_type register_relation_type
  register_relation_if-entity_type none r = refl
  register_relation_if-entity_type (some d) r = refl

  rehydrate_relations-entity_type :
      (es : List Entity) (r : Resolver)
      → entity_type peer n (rehydrate_relations peer es r) ≡ entity_type peer n r
  unfolding rehydrate_relations
  rehydrate_relations-entity_type [] r = refl
  rehydrate_relations-entity_type (e ∷ es) r =
      rehydrate_relations-entity_type es (register_relation_if peer (entity_to_rel_type_def e) r)
      ∙ register_relation_if-entity_type (entity_to_rel_type_def e) r

  rehydrated_relations-entity_type :
      (q : Result (List Entity)) (r : Resolver)
      → entity_type peer n (rehydrated_relations peer q r) ≡ entity_type peer n r
  rehydrated_relations-entity_type (ok es) r = rehydrate_relations-entity_type es r
  rehydrated_relations-entity_type (err e) r = refl

serving-resolver :
    (p : Peer) (r : Resolver) (o : Result Handlers) (s : Handlers × Resolver)
    → serving p r o ≡ ok s
    → r ≡ s.1
serving-resolver p r (ok handlers) s h = ground arith
serving-resolver p r (err e) s h = cc

-- After `Setup` of a peer, the definition in force under a name is the last one of that name in what
-- QueryEntities gives, which has the newest first; without one it is what the seeding left.
pub setup_peer-in_force :
    (sqlite : Sqlite) (db : Db) (p : Peer) (handlers : Handlers) (r : Resolver) (n : String)
    (es : List Entity) (s : Handlers × Resolver)
    → query_entities sqlite p.did (stored_types "EntityTypeDefinition") db ≡ ok es
    → setup_peer sqlite db p handlers r ≡ ok s
    → entity_type p.did n s.1 ≡ in_force (last_named n es) (entity_type p.did n (seed p.did r))
unfolding setup_peer rehydrate
setup_peer-in_force sqlite db p handlers r n es s q h =
    let relations = query_entities sqlite p.did (stored_types "RelationshipTypeDefinition") db in
    let o = register_peer p.did (some (record { peer_did = p.did })) handlers in
    let same = serving-resolver p (rehydrate sqlite db p.did (seed p.did r)) o s h in
    ap (entity_type p.did n) (sym same)
    ∙ rehydrated_relations-entity_type p.did n relations _
    ∙ ap (λ x. entity_type p.did n (rehydrated_types p.did x (seed p.did r))) q
    ∙ rehydrate_types-in_force p.did n es (seed p.did r)
