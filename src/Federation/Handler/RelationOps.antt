-- ===== src/Federation/Handler/RelationOps.antt =====
-- The relation operations of internal/federation/handler.go.
use coggo.Prelude.{String, Option, none, some, List}
use coggo.Prelude.Result.{Result, ok, err, wrap}
use coggo.Types.{
  Relation, RelationshipTypeDefinition, relation_created, relation_dissolved, of_relation,
  of_dissolve,
}
use coggo.Store.Relations.{upsert_relation, dissolve_relation, query_relations}
use coggo.Schema.Resolver.{Resolver, relation_type}
use coggo.Federation.Message.{
  Inbound, relation, relations, dissolved, Outcome, RelationCreateArgs, RelationQueryArgs, IdArgs,
}
use coggo.Federation.Handler.Base.{
  World, Env, bad_json, author_of, client_of, respond, error_resp, event_of, log_then,
}

module _ (env : Env) (peer : String) (msg : Inbound) where
  abbrev pub created_relation : RelationCreateArgs → Relation
  created_relation a = record {
    id = env.record_id;
    from = a.from;
    to = a.to;
    type = a.type;
    peer_did = peer;
    created_at = env.now;
    created_by_did = author_of env peer msg a.author;
    created_by_client = client_of env peer msg a.client;
    fields = a.fields;
  }

  unfoldable pub relate : RelationCreateArgs → World → Outcome × World
  relate a w =
      let r = created_relation a in
      log_then env peer msg "relation.create: append" "relation.create"
        (event_of env peer msg relation_created (of_relation r) r.created_by_did
          r.created_by_client)
        (upsert_relation env.now (some r)) relation w

  abbrev pub resolved :
      RelationCreateArgs → Result RelationshipTypeDefinition → World → Outcome × World
  resolved a (err e) w = (error_resp env peer msg (wrap "relation.create" e), w)
  resolved a (ok def) w = relate a w

  abbrev pub relate_with : RelationCreateArgs → Option Resolver → World → Outcome × World
  relate_with a none w = relate a w
  relate_with a (some r) w = resolved a (relation_type peer a.type r) w

  unfoldable pub op_relation_create : Option RelationCreateArgs → World → Outcome × World
  unfolding relate
  op_relation_create none w = (error_resp env peer msg (wrap "relation.create" bad_json), w)
  op_relation_create (some a) w = relate_with a w.resolver w

  abbrev queried : Result (List Relation) → Outcome
  queried (ok rs) = respond env peer msg (relations rs)
  queried (err e) = error_resp env peer msg (wrap "relation.query" e)

  unfoldable pub op_relation_query : Option RelationQueryArgs → World → Outcome × World
  op_relation_query none w = (error_resp env peer msg (wrap "relation.query" bad_json), w)
  op_relation_query (some a) w = (queried (query_relations peer a.from a.to a.type a.limit w.db), w)

  unfoldable pub op_relation_dissolve : Option IdArgs → World → Outcome × World
  op_relation_dissolve none w = (error_resp env peer msg (wrap "relation.dissolve" bad_json), w)
  op_relation_dissolve (some a) w =
      log_then env peer msg "relation.dissolve: append" "relation.dissolve"
        (event_of env peer msg relation_dissolved (of_dissolve a.id env.now)
          (author_of env peer msg a.author) (client_of env peer msg a.client))
        (dissolve_relation peer a.id) (λ _. dissolved a.id env.now) w
