-- ===== src/Federation/Handler/Created.antt =====
-- Reads after `opEntityCreate` of internal/federation/handler.go.
use coggo.Prelude.{
  subst, String, ◌≡◌, refl, ◌∙◌, sym, ap, inl, inr, Bool, true, false, ◌==◌, Option, none, some,
  List, arith, Bool-cases, if◌then◌else◌,
}
use coggo.Prelude.Result.{Result, ok, err}
use coggo.Types.{Time, is_zero, Entity, EntityTypeDefinition}
use coggo.Types.Json.{merged, Fields, Value, get}
use coggo.Store.Entities.{or_empty, get_entity, filled_entity}
use coggo.Store.Entities.Read.{stored}
use coggo.Schema.Resolver.{Resolver, entity_type}
use coggo.Schema.Validate.{ValidationIssue, validate_entity, has_errors}
use coggo.Schema.Validate.Laws.{fields-keep}
use coggo.Federation.Message.{Inbound, Outcome, EntityCreateArgs}
use coggo.Federation.Handler.Base.{World, Env, author_of, client_of}
use coggo.Federation.Handler.EntityOps.{
  create, created_entity, accept, validated, create_with, op_entity_create,
}
use coggo.Federation.Handler.Log.{is_done}
use coggo.Federation.Handler.Stored.{log_then-get_entity}

validated_fields-keep :
    (is_rfc3339 : String → Bool) (def : EntityTypeDefinition) (fs : Option Fields) (k : String)
    (v : Value)
    → get k (or_empty fs) ≡ some v
    → get k (or_empty (validate_entity is_rfc3339 (some def) fs).1) ≡ some v
unfolding validate_entity
validated_fields-keep is_rfc3339 def none k v h = h
validated_fields-keep is_rfc3339 def (some fs) k v h = fields-keep is_rfc3339 def.fields fs k v h

module _ (env : Env) (peer : String) (msg : Inbound) where
  -- An entity that has what a creation asks for: the values of the request, its type and author, and
  -- the time of the call.
  pub record IsCreated (a : EntityCreateArgs) (k : String) (e : Entity) : Type 0 where
    pub id : e.id ≡ env.record_id
    pub owner : e.peer_did ≡ peer
    pub type : e.type ≡ a.type
    pub value :
        get k (or_empty e.fields) ≡ merged (get k (or_empty a.fields)) (get k (or_empty e.fields))
    pub creator : e.created_by_did ≡ author_of env peer msg a.author
    pub client : e.created_by_client ≡ client_of env peer msg a.client
    pub created_at : e.created_at ≡ env.now
    pub updated_at : e.updated_at ≡ env.now
    pub live : e.archived_at ≡ none

  -- every later read finds the entity, and else what was there
  abbrev pub Created :
      EntityCreateArgs → World → Outcome × World → String → String → String → Type 0
  Created a w out k p i =
      (e : Entity) × IsCreated a k e
      × (get_entity p i out.1.db ≡ (
          if env.record_id == i
          then (if peer == p then ok (some e) else ok none)
          else get_entity p i w.db))

  same_time : (b : Bool) (t : Time) → (if b then t else t) ≡ t
  same_time true t = refl
  same_time false t = refl

  module _ (named : (env.record_id == "") ≡ false) (owned : (peer == "") ≡ false)
      (k p i : String) where
    create-Created :
        (a : EntityCreateArgs) (fields : Option Fields) (w : World)
        → get k (or_empty fields) ≡ merged (get k (or_empty a.fields)) (get k (or_empty fields))
        → is_done (create env peer msg a fields w).0 ≡ true
        → Created a w (create env peer msg a fields w) k p i
    unfolding create
    create-Created a fields w value done = (
      stored (filled_entity env.now (created_entity env peer msg a fields)),
      record {
        id = refl;
        owner = refl;
        type = refl;
        value = value;
        creator = refl;
        client = refl;
        created_at = same_time (is_zero env.now) env.now;
        updated_at = same_time (is_zero env.now) env.now;
        live = refl;
      },
      log_then-get_entity env peer msg "entity.create: append event" "entity.create: upsert" _ _
          (created_entity env peer msg a fields) w p i named owned done,
    )

    value_kept :
        (given after : Option Value)
        → ((v : Value) → given ≡ some v → after ≡ some v)
        → after ≡ merged given after
    value_kept none after h = refl
    value_kept (some v) after h = h v refl

    module _ (is_rfc3339 : String → Bool) where
      accept-Created :
          (a : EntityCreateArgs) (issues : List ValidationIssue) (fields : Option Fields)
          (w : World)
          → get k (or_empty fields) ≡ merged (get k (or_empty a.fields)) (get k (or_empty fields))
          → is_done (accept env peer msg is_rfc3339 a (issues, fields) w).0 ≡ true
          → Created a w (accept env peer msg is_rfc3339 a (issues, fields) w) k p i
      accept-Created a issues fields w value done = elim (Bool-cases (has_errors issues)) [
        | inl bad ↦ absurd (ground (arith, bad, done))
        | inr good ↦
            let run : accept env peer msg is_rfc3339 a (issues, fields) w
                ≡ create env peer msg a fields w =
              rw good in
            subst (λ o. Created a w o k p i) (sym run)
              (create-Created a fields w value
                (sym (ap (λ (o : Outcome × World). is_done o.0) run) ∙ done))
      ]

      create_with-Created :
          (a : EntityCreateArgs) (r : Option Resolver) (w : World)
          → is_done (create_with env peer msg is_rfc3339 a r w).0 ≡ true
          → Created a w (create_with env peer msg is_rfc3339 a r w) k p i
      create_with-Created a none w done =
          create-Created a a.fields w
            (value_kept (get k (or_empty a.fields)) (get k (or_empty a.fields)) (λ v h. h)) done
      create_with-Created a (some r) w done = by_definition (entity_type peer a.type r) done
        where
          by_definition :
              (def : Result EntityTypeDefinition)
              → is_done (validated env peer msg is_rfc3339 a def w).0 ≡ true
              → Created a w (validated env peer msg is_rfc3339 a def w) k p i
          by_definition (err e) bad = absurd (ground arith)
          by_definition (ok def) good =
              accept-Created a (validate_entity is_rfc3339 (some def) a.fields).0
                (validate_entity is_rfc3339 (some def) a.fields).1 w
                (value_kept (get k (or_empty a.fields)) _
                  (λ v h. validated_fields-keep is_rfc3339 def a.fields k v h))
                good

      -- After an `entity.create` that is done, with or without a resolver, of a record id and a peer
      -- that are not empty: the peer reads the new entity, which has the request's value at each key
      -- that the request has, its type and its author, and the time of the call, and is not archived;
      -- no other peer reads the id, and every other id reads as it was.
      pub get_entity-op_entity_create :
          (a : EntityCreateArgs) (w : World)
          → is_done (op_entity_create env peer msg is_rfc3339 (some a) w).0 ≡ true
          → Created a w (op_entity_create env peer msg is_rfc3339 (some a) w) k p i
      unfolding op_entity_create
      get_entity-op_entity_create a w done = create_with-Created a w.resolver w done
