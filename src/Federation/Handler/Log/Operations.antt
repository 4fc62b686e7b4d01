-- ===== src/Federation/Handler/Log/Operations.antt =====
-- What each write operation leaves in the log.
use coggo.Prelude.{
  String, refl, inl, inr, Bool, Option, none, some, List, Bool-cases, if◌then◌else◌,
}
use coggo.Prelude.Result.{Result, ok, err}
use coggo.Types.{
  Entity, entity_created, entity_updated, entity_archived, relation_created, relation_dissolved,
  entity_type_defined, relationship_type_defined, EntityTypeDefinition, RelationshipTypeDefinition,
}
use coggo.Types.Json.{Fields}
use coggo.Store.Entities.{get_entity}
use coggo.Schema.Resolver.{Resolver, entity_type, relation_type}
use coggo.Schema.Validate.{ValidationIssue, validate_entity, has_errors}
use coggo.Federation.Message.{
  Inbound, EntityCreateArgs, RelationCreateArgs, EntityUpdateArgs, IdArgs, TypeDefineArgs,
}
use coggo.Federation.Handler.Base.{World, Env}
use coggo.Federation.Handler.EntityOps.{
  create, accept, validated, create_with, op_entity_create, update_found, op_entity_update,
  op_entity_archive,
}
use coggo.Federation.Handler.RelationOps.{
  relate, resolved, relate_with, op_relation_create, op_relation_dissolve,
}
use coggo.Federation.Handler.TypeOps.{op_type_define}
use coggo.Federation.Handler.Log.{
  Logged, log_then-Logged, upsert_entity-events, archive_entity-events, upsert_relation-events,
  dissolve_relation-events,
}

module _ (env : Env) (peer : String) (msg : Inbound) where
  create-Logged :
      (a : EntityCreateArgs) (fields : Option Fields) (w : World)
      → Logged peer entity_created w (create env peer msg a fields w)
  unfolding create
  create-Logged a fields w =
      log_then-Logged env peer msg _ _ _ _ _ w (upsert_entity-events env.now _)

  module _ (is_rfc3339 : String → Bool) where
    pub op_entity_create-Logged :
        (a : Option EntityCreateArgs) (w : World)
        → Logged peer entity_created w (op_entity_create env peer msg is_rfc3339 a w)
    unfolding op_entity_create
    op_entity_create-Logged none w = inl (refl, refl)
    op_entity_create-Logged (some a) w = by_resolver w.resolver
      where
        accept-Logged :
            (issues : List ValidationIssue) (fields : Option Fields)
            → Logged peer entity_created w (accept env peer msg is_rfc3339 a (issues, fields) w)
        accept-Logged issues fields = elim (Bool-cases (has_errors issues)) [
          | inl bad ↦ rw bad (inl (refl, refl))
          | inr good ↦ rw good (create-Logged a fields w)
        ]

        by_definition :
            (def : Result EntityTypeDefinition)
            → Logged peer entity_created w (validated env peer msg is_rfc3339 a def w)
        by_definition (err e) = inl (refl, refl)
        by_definition (ok def) =
            accept-Logged (validate_entity is_rfc3339 (some def) a.fields).0
              (validate_entity is_rfc3339 (some def) a.fields).1

        by_resolver :
            (r : Option Resolver)
            → Logged peer entity_created w (create_with env peer msg is_rfc3339 a r w)
        by_resolver none = create-Logged a a.fields w
        by_resolver (some r) = by_definition (entity_type peer a.type r)

  pub op_entity_update-Logged :
      (a : Option EntityUpdateArgs) (w : World)
      → Logged peer entity_updated w (op_entity_update env peer msg a w)
  unfolding op_entity_update
  op_entity_update-Logged none w = inl (refl, refl)
  op_entity_update-Logged (some a) w = found (get_entity peer a.id w.db)
    where
      found :
          (e : Result (Option Entity))
          → Logged peer entity_updated w (update_found env peer msg a e w)
      found (err e) = inl (refl, refl)
      found (ok none) = inl (refl, refl)
      found (ok (some cur)) =
          log_then-Logged env peer msg _ _ _ _ _ w (upsert_entity-events env.now _)

  pub op_entity_archive-Logged :
      (a : Option IdArgs) (w : World)
      → Logged peer entity_archived w (op_entity_archive env peer msg a w)
  unfolding op_entity_archive
  op_entity_archive-Logged none w = inl (refl, refl)
  op_entity_archive-Logged (some a) w =
      log_then-Logged env peer msg _ _ _ _ _ w (archive_entity-events env.now peer a.id env.now)

  relate-Logged :
      (a : RelationCreateArgs) (w : World)
      → Logged peer relation_created w (relate env peer msg a w)
  unfolding relate
  relate-Logged a w = log_then-Logged env peer msg _ _ _ _ _ w (upsert_relation-events env.now _)

  pub op_relation_create-Logged :
      (a : Option RelationCreateArgs) (w : World)
      → Logged peer relation_created w (op_relation_create env peer msg a w)
  unfolding op_relation_create
  op_relation_create-Logged none w = inl (refl, refl)
  op_relation_create-Logged (some a) w = by_resolver w.resolver
    where
      by_definition :
          (def : Result RelationshipTypeDefinition)
          → Logged peer relation_created w (resolved env peer msg a def w)
      by_definition (err e) = inl (refl, refl)
      by_definition (ok def) = relate-Logged a w

      by_resolver :
          (r : Option Resolver) → Logged peer relation_created w (relate_with env peer msg a r w)
      by_resolver none = relate-Logged a w
      by_resolver (some r) = by_definition (relation_type peer a.type r)

  pub op_relation_dissolve-Logged :
      (a : Option IdArgs) (w : World)
      → Logged peer relation_dissolved w (op_relation_dissolve env peer msg a w)
  unfolding op_relation_dissolve
  op_relation_dissolve-Logged none w = inl (refl, refl)
  op_relation_dissolve-Logged (some a) w =
      log_then-Logged env peer msg _ _ _ _ _ w (dissolve_relation-events peer a.id)

  pub op_type_define-Logged :
      (a : TypeDefineArgs) (w : World)
      → Logged peer
          (if a.is_relationship then relationship_type_defined else entity_type_defined)
          w
          (op_type_define env peer msg (some a) w)
  unfolding op_type_define
  op_type_define-Logged a w = elim (Bool-cases a.is_relationship) [
    | inl related ↦
        rw related (log_then-Logged env peer msg _ _ _ _ _ _ (upsert_entity-events env.now _))
    | inr plain ↦
        rw plain (log_then-Logged env peer msg _ _ _ _ _ _ (upsert_entity-events env.now _))
  ]
