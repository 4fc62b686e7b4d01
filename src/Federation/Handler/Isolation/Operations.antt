-- ===== src/Federation/Handler/Isolation/Operations.antt =====
-- What each write operation leaves of another peer's entities.
use coggo.Prelude.{
  ◌∙◌, ap, ◌==◌, eq_iff, String, ◌≡◌, refl, inl, inr, Bool, false, Option, none, some, List, arith,
  Bool-cases,
}
use coggo.Prelude.Result.{Result, ok, err}
use coggo.Types.{Entity, EntityTypeDefinition, RelationshipTypeDefinition}
use coggo.Types.Json.{Fields}
use coggo.Store.Rows.{Db}
use coggo.Store.Entities.{get_entity}
use coggo.Schema.Resolver.{Resolver, entity_type, relation_type}
use coggo.Schema.Validate.{ValidationIssue, validate_entity, has_errors}
use coggo.Federation.Message.{
  Inbound, EntityCreateArgs, RelationCreateArgs, EntityUpdateArgs, IdArgs, TypeDefineArgs,
}
use coggo.Federation.Handler.Base.{World, Env}
use coggo.Federation.Handler.EntityOps.{
  created_entity, updated_entity, create, accept, validated, create_with, op_entity_create,
  update_found, op_entity_update, op_entity_archive,
}
use coggo.Federation.Handler.RelationOps.{
  relate, resolved, relate_with, op_relation_create, op_relation_dissolve,
}
use coggo.Federation.Handler.TypeOps.{op_type_define}
use coggo.Store.Rows.{EventRow}
use coggo.Store.Entities.{upsert_entity}
use coggo.Store.Entities.Isolation.{archive_entity-others, get_entity-others}
use coggo.Federation.Handler.Isolation.{
  Kept, Apart, log_then-Kept, upsert_entity-others, upsert_relation-others,
  dissolve_relation-others,
}

module _ (env : Env) (peer : String) (msg : Inbound) (p i : String) where
  turned : (q : String) → (p == q) ≡ false → (q == p) ≡ false
  turned q h = ground (arith, h, eq_iff p q, eq_iff q p)

  -- the rows of the log do not matter to a read
  stored-Kept :
      (e : Entity) (db : Db)
      → (p == e.peer_did) ≡ false
      → get_entity p e.id db ≡ ok none
      → (rows : List EventRow)
      → get_entity p i (upsert_entity env.now (some e) (record db { events = rows })).1
        ≡ get_entity p i db
  unfolding get_entity
  stored-Kept e db other free rows =
      upsert_entity-others env.now e (record db { events = rows }) p i (turned e.peer_did other)
        free

  create-Kept :
      (a : EntityCreateArgs) (fields : Option Fields) (w : World)
      → Apart env peer p w
      → Kept env peer msg p i w (create env peer msg a fields w)
  unfolding create
  create-Kept a fields w h =
      log_then-Kept env peer msg p i _ _ _ _ _ w
        (stored-Kept (created_entity env peer msg a fields) w.db h.other h.new)

  module _ (is_rfc3339 : String → Bool) where
    pub op_entity_create-Kept :
        (a : Option EntityCreateArgs) (w : World)
        → Apart env peer p w
        → Kept env peer msg p i w (op_entity_create env peer msg is_rfc3339 a w)
    unfolding op_entity_create
    op_entity_create-Kept none w h = refl
    op_entity_create-Kept (some a) w h = by_resolver w.resolver
      where
        by_issues :
            (issues : List ValidationIssue) (fields : Option Fields)
            → Kept env peer msg p i w (accept env peer msg is_rfc3339 a (issues, fields) w)
        by_issues issues fields = elim (Bool-cases (has_errors issues)) [
          | inl bad ↦ rw bad
          | inr good ↦ rw good (create-Kept a fields w h)
        ]

        by_definition :
            (def : Result EntityTypeDefinition)
            → Kept env peer msg p i w (validated env peer msg is_rfc3339 a def w)
        by_definition (err e) = refl
        by_definition (ok def) =
            by_issues (validate_entity is_rfc3339 (some def) a.fields).0
              (validate_entity is_rfc3339 (some def) a.fields).1

        by_resolver :
            (r : Option Resolver)
            → Kept env peer msg p i w (create_with env peer msg is_rfc3339 a r w)
        by_resolver none = create-Kept a a.fields w h
        by_resolver (some r) = by_definition (entity_type peer a.type r)

  pub op_entity_update-Kept :
      (a : EntityUpdateArgs) (w : World)
      → Apart env peer p w
      → Kept env peer msg p i w (op_entity_update env peer msg (some a) w)
  unfolding op_entity_update
  op_entity_update-Kept a w h = found (get_entity peer a.id w.db) refl
    where
      found :
          (e : Result (Option Entity))
          → get_entity peer a.id w.db ≡ e
          → Kept env peer msg p i w (update_found env peer msg a e w)
      found (err e) at = refl
      found (ok none) at = refl
      found (ok (some cur)) at =
          let (owned, (named, free)) =
            get_entity-others peer a.id p w.db cur h.distinct h.other at in
          log_then-Kept env peer msg p i _ _ _ _ _ w (
            stored-Kept (updated_entity env peer msg a cur) w.db (ap (◌==◌ p) owned ∙ h.other)
              (ap (λ k. get_entity p k w.db) named ∙ free))

  pub op_entity_archive-Kept :
      (a : IdArgs) (w : World)
      → Apart env peer p w
      → Kept env peer msg p i w (op_entity_archive env peer msg (some a) w)
  unfolding op_entity_archive
  op_entity_archive-Kept a w h = log_then-Kept env peer msg p i _ _ _ _ _ w (λ rows.
      archive_entity-others env.now peer a.id env.now (record w.db { events = rows }) p i h.other
      ∙ unfold get_entity in refl)

  relate-Kept :
      (a : RelationCreateArgs) (w : World) → Kept env peer msg p i w (relate env peer msg a w)
  unfolding relate
  relate-Kept a w = log_then-Kept env peer msg p i _ _ _ _ _ w (λ rows.
      upsert_relation-others env.now _ (record w.db { events = rows }) p i
      ∙ unfold get_entity in refl)

  pub op_relation_create-Kept :
      (a : Option RelationCreateArgs) (w : World)
      → Kept env peer msg p i w (op_relation_create env peer msg a w)
  unfolding op_relation_create
  op_relation_create-Kept none w = refl
  op_relation_create-Kept (some a) w = by_resolver w.resolver
    where
      by_definition :
          (def : Result RelationshipTypeDefinition)
          → Kept env peer msg p i w (resolved env peer msg a def w)
      by_definition (err e) = refl
      by_definition (ok def) = relate-Kept a w

      by_resolver : (r : Option Resolver) → Kept env peer msg p i w (relate_with env peer msg a r w)
      by_resolver none = relate-Kept a w
      by_resolver (some r) = by_definition (relation_type peer a.type r)

  pub op_relation_dissolve-Kept :
      (a : IdArgs) (w : World)
      → Kept env peer msg p i w (op_relation_dissolve env peer msg (some a) w)
  unfolding op_relation_dissolve
  op_relation_dissolve-Kept a w = log_then-Kept env peer msg p i _ _ _ _ _ w (λ rows.
      dissolve_relation-others peer a.id (record w.db { events = rows }) p i
      ∙ unfold get_entity in refl)

  pub op_type_define-Kept :
      (a : TypeDefineArgs) (w : World)
      → Apart env peer p w
      → Kept env peer msg p i w (op_type_define env peer msg (some a) w)
  unfolding op_type_define
  op_type_define-Kept a w h = elim (Bool-cases a.is_relationship) [
    | inl related ↦
        rw related (log_then-Kept env peer msg p i _ _ _ _ _ _ (stored-Kept _ w.db h.other h.new))
    | inr plain ↦
        rw plain (log_then-Kept env peer msg p i _ _ _ _ _ _ (stored-Kept _ w.db h.other h.new))
  ]
