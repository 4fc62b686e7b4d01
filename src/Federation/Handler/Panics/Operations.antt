-- ===== src/Federation/Handler/Panics/Operations.antt =====
-- The operations of internal/federation/handler.go: which of them end in a nil dereference.
use coggo.Prelude.{
  String, ◌≡◌, refl, inl, inr, Bool, false, Option, none, some, List, arith, Bool-cases,
}
use coggo.Prelude.Result.{Result, ok, err}
use coggo.Types.{Entity, Event, EntityTypeDefinition, RelationshipTypeDefinition, EntityQuery}
use coggo.Types.Json.{Fields}
use coggo.Store.Rows.{Sqlite, Db}
use coggo.Store.Events.{append_event}
use coggo.Store.Entities.{get_entity}
use coggo.Schema.Resolver.{Resolver, entity_type, relation_type}
use coggo.Schema.Validate.{ValidationIssue, validate_entity, has_errors}
use coggo.Federation.Message.{
  Inbound, Body, EntityCreateArgs, RelationCreateArgs, EntityUpdateArgs, TypeDefineArgs,
  TypeDescribeArgs, SemanticArgs, TimeTravelArgs, RelationQueryArgs,
}
use coggo.Federation.Handler.Base.{World, Env, log_then, finish, after_append}
use coggo.Federation.Handler.EntityOps.{
  create, accept, validated, create_with, op_entity_create, update_found, op_entity_update,
  op_entity_get, op_entity_query,
}
use coggo.Federation.Handler.RelationOps.{
  relate, resolved, relate_with, op_relation_create, op_relation_query,
}
use coggo.Federation.Handler.TypeOps.{op_type_define, op_type_describe}
use coggo.Federation.Handler.SearchOps.{op_semantic_search, op_time_travel}
use coggo.Federation.Handler.Panics.{is_missing, is_panic}

module _ (env : Env) (peer : String) (msg : Inbound) where
  finish-panics :
      {A : Type 0} (text : String) (body : A → Body) (w : World) (out : Result A × Db)
      → is_panic (finish env peer msg text body w out).0 ≡ false
  finish-panics text body w (ok a, db) = refl
  finish-panics text body w (err e, db) = refl

  after_append-panics :
      {A : Type 0} (append_text text : String) (next : Db → Result A × Db) (body : A → Body)
      (w : World) (out : Result Event × Db)
      → is_panic (after_append env peer msg append_text text body next w out).0 ≡ false
  after_append-panics append_text text next body w (ok x, db) =
      finish-panics text body (record w { db = db }) (next db)
  after_append-panics append_text text next body w (err x, db) = refl

  pub log_then-panics :
      {A : Type 0} (append_text text : String) (ev : Event) (next : Db → Result A × Db)
      (body : A → Body) (w : World)
      → is_panic (log_then env peer msg append_text text ev next body w).0 ≡ false
  unfolding log_then
  log_then-panics append_text text ev next body w =
      after_append-panics append_text text next body w
        (append_event env.now env.store_ulid (some ev) w.db)

  create-panics :
      (a : EntityCreateArgs) (fields : Option Fields) (w : World)
      → is_panic (create env peer msg a fields w).0 ≡ false
  unfolding create
  create-panics a fields w = log_then-panics _ _ _ _ _ w

  module _ (is_rfc3339 : String → Bool) where
    pub op_entity_create-panics :
        (a : Option EntityCreateArgs) (w : World)
        → is_panic (op_entity_create env peer msg is_rfc3339 a w).0 ≡ false
    unfolding op_entity_create
    op_entity_create-panics none w = refl
    op_entity_create-panics (some a) w = by_resolver w.resolver
      where
        by_issues :
            (issues : List ValidationIssue) (fields : Option Fields)
            → is_panic (accept env peer msg is_rfc3339 a (issues, fields) w).0 ≡ false
        by_issues issues fields = elim (Bool-cases (has_errors issues)) [
          | inl bad ↦ rw bad
          | inr good ↦ rw good (create-panics a fields w)
        ]

        by_definition :
            (def : Result EntityTypeDefinition)
            → is_panic (validated env peer msg is_rfc3339 a def w).0 ≡ false
        by_definition (err e) = refl
        by_definition (ok def) =
            by_issues (validate_entity is_rfc3339 (some def) a.fields).0
              (validate_entity is_rfc3339 (some def) a.fields).1

        by_resolver :
            (r : Option Resolver) → is_panic (create_with env peer msg is_rfc3339 a r w).0 ≡ false
        by_resolver none = create-panics a a.fields w
        by_resolver (some r) = by_definition (entity_type peer a.type r)

  pub op_entity_update-panics :
      (a : EntityUpdateArgs) (w : World)
      → is_panic (op_entity_update env peer msg (some a) w).0
        ≡ is_missing (get_entity peer a.id w.db)
  unfolding op_entity_update
  op_entity_update-panics a w = found (get_entity peer a.id w.db)
    where
      found :
          (e : Result (Option Entity)) → is_panic (update_found env peer msg a e w).0 ≡ is_missing e
      found (err e) = refl
      found (ok none) = refl
      found (ok (some cur)) = log_then-panics _ _ _ _ _ w

  pub op_relation_create-panics :
      (a : Option RelationCreateArgs) (w : World)
      → is_panic (op_relation_create env peer msg a w).0 ≡ false
  unfolding op_relation_create relate
  op_relation_create-panics none w = refl
  op_relation_create-panics (some a) w = by_resolver w.resolver
    where
      by_definition :
          (def : Result RelationshipTypeDefinition)
          → is_panic (resolved env peer msg a def w).0 ≡ false
      by_definition (err e) = refl
      by_definition (ok def) = log_then-panics _ _ _ _ _ w

      by_resolver : (r : Option Resolver) → is_panic (relate_with env peer msg a r w).0 ≡ false
      by_resolver none = log_then-panics _ _ _ _ _ w
      by_resolver (some r) = by_definition (relation_type peer a.type r)

  pub op_type_define-panics :
      (a : TypeDefineArgs) (w : World) → is_panic (op_type_define env peer msg (some a) w).0 ≡ false
  unfolding op_type_define
  op_type_define-panics a w = elim (Bool-cases a.is_relationship) [
    | inl related ↦ rw related (log_then-panics _ _ _ _ _ _)
    | inr plain ↦ rw plain (log_then-panics _ _ _ _ _ _)
  ]

  pub op_type_describe-panics :
      (a : TypeDescribeArgs) (w : World)
      → is_panic (op_type_describe env peer msg (some a) w).0 ≡ false
  unfolding op_type_describe
  op_type_describe-panics a w = ground arith

  pub op_entity_get-panics :
      (id : String) (w : World) → is_panic (op_entity_get env peer msg (some id) w).0 ≡ false
  unfolding op_entity_get
  op_entity_get-panics id w = ground arith

  pub op_time_travel-panics :
      (a : TimeTravelArgs) (w : World) → is_panic (op_time_travel env peer msg (some a) w).0 ≡ false
  unfolding op_time_travel
  op_time_travel-panics a w = ground arith

  pub op_relation_query-panics :
      (a : RelationQueryArgs) (w : World)
      → is_panic (op_relation_query env peer msg (some a) w).0 ≡ false
  unfolding op_relation_query
  op_relation_query-panics a w = ground arith

  module _ (sqlite : Sqlite) where
    pub op_entity_query-panics :
        (a : EntityQuery) (w : World)
        → is_panic (op_entity_query env peer msg sqlite (some a) w).0 ≡ false
    unfolding op_entity_query
    op_entity_query-panics a w = ground arith

    pub op_semantic_search-panics :
        (a : SemanticArgs) (w : World)
        → is_panic (op_semantic_search env peer msg sqlite (some a) w).0 ≡ false
    unfolding op_semantic_search
    op_semantic_search-panics a w = ground arith
