-- ===== src/Cli/Runtime/AddPeer.antt =====
-- What `AddPeerToRuntime` of internal/cli/runtime.go leaves where it succeeds.
use coggo.Prelude.{
  ℕ, suc, String, ◌≡◌, refl, ◌∙◌, sym, ap, none, some, List, [], ◌∷◌, arith, lookup, insert,
}
use coggo.Prelude.Result.{Result, ok, err}
use coggo.Types.{Peer, EntityTypeDefinition, RelationshipTypeDefinition}
use coggo.Store.Rows.{Db}
use coggo.Schema.Resolver.{register_entity_type, register_relation_type}
use coggo.Schema.Seed.{
  seed, seed_entity_types, seed_relationship_types, register_entity_types, register_relation_types,
}
use coggo.Federation.Router.{Handlers, register_peer}
use coggo.Federation.Router.Laws.{register_peer-ok}
use coggo.Cli.Runtime.{
  Runtime, Draw, persist_entity_type_def, persist_rel_type_def, next_step, add_types,
  add_relation_types, served, then_serve, then_relations, add_peer_to_runtime,
}

-- the loops go on only after a step that succeeds
next_step-ok :
    (o : Result (Unit {0}) × Db) (rt rt' : Runtime) (next : Runtime → Result (Unit {0}) × Runtime)
    → next_step o rt next ≡ (ok tt, rt')
    → next (record rt { db = o.1 }) ≡ (ok tt, rt')
next_step-ok (ok u, db) rt rt' next h = h
next_step-ok (err e, db) rt rt' next h = cc

served-ok :
    (o : Result Handlers) (rt rt' : Runtime)
    → served o rt ≡ (ok tt, rt')
    → (o ≡ ok rt'.handlers) × (rt'.resolver ≡ rt.resolver)
served-ok (ok handlers) rt rt' h = ground arith
served-ok (err e) rt rt' h = cc

module _ (draws : ℕ → Draw) (p : Peer) (client : String) where
  add_types-resolver :
      (n : ℕ) (ds : List EntityTypeDefinition) (rt rt' : Runtime)
      → add_types draws p client n ds rt ≡ (ok tt, rt')
      → (rt'.resolver ≡ register_entity_types p.did ds rt.resolver) × (rt'.handlers ≡ rt.handlers)
  unfolding add_types register_entity_types
  add_types-resolver n [] rt rt' h = ground arith
  add_types-resolver n (d ∷ ds) rt rt' h = add_types-resolver (suc n) ds _ rt' (
      next_step-ok (persist_entity_type_def (draws n) p.did d client rt.db)
        (record rt { resolver = register_entity_type p.did d rt.resolver }) rt'
        (add_types draws p client (suc n) ds) h)

  add_relation_types-resolver :
      (n : ℕ) (ds : List RelationshipTypeDefinition) (rt rt' : Runtime)
      → add_relation_types draws p client n ds rt ≡ (ok tt, rt')
      → (rt'.resolver ≡ register_relation_types p.did ds rt.resolver) × (rt'.handlers ≡ rt.handlers)
  unfolding add_relation_types register_relation_types
  add_relation_types-resolver n [] rt rt' h = ground arith
  add_relation_types-resolver n (d ∷ ds) rt rt' h = add_relation_types-resolver (suc n) ds _ rt' (
      next_step-ok (persist_rel_type_def (draws n) p.did d client rt.db)
        (record rt { resolver = register_relation_type p.did d rt.resolver }) rt'
        (add_relation_types draws p client (suc n) ds) h)

  then_relations-ok :
      (o : Result (Unit {0}) × Runtime) (rt' : Runtime)
      → then_relations draws p client o ≡ (ok tt, rt')
      → (o.0 ≡ ok tt)
        × (rt'.resolver
            ≡ register_relation_types p.did (seed_relationship_types p.did) o.1.resolver)
        × (rt'.handlers ≡ o.1.handlers)
  then_relations-ok (err e, rt) rt' h = cc
  then_relations-ok (ok u, rt) rt' h =
      let r = add_relation_types-resolver 6 (seed_relationship_types p.did) rt rt' h in
      (refl, r.0, r.1)

  then_serve-ok :
      (o : Result (Unit {0}) × Runtime) (rt' : Runtime)
      → then_serve p o ≡ (ok tt, rt')
      → (o.0 ≡ ok tt)
        × (register_peer p.did (some (record { peer_did = p.did })) o.1.handlers ≡ ok rt'.handlers)
        × (rt'.resolver ≡ o.1.resolver)
  then_serve-ok (err e, rt) rt' h = cc
  then_serve-ok (ok u, rt) rt' h =
      let s =
        served-ok (register_peer p.did (some (record { peer_did = p.did })) rt.handlers) rt rt' h in
      (refl, s.0, s.1)

  -- Where the registration, the events and the records of all nine seed types succeed, the resolver
  -- has the seed types as `Setup` registers them, and the router a handler that serves the peer, whose
  -- DID no handler stood under before.
  pub add_peer_to_runtime-seed :
      (rt rt' : Runtime)
      → add_peer_to_runtime draws p client rt ≡ (ok tt, rt')
      → (rt'.resolver ≡ seed p.did rt.resolver)
        × (rt'.handlers ≡ insert p.did (record { peer_did = p.did }) rt.handlers)
        × (lookup p.did rt.handlers ≡ none)
  unfolding add_peer_to_runtime seed
  add_peer_to_runtime-seed rt rt' h =
      let types = add_types draws p client 0 (seed_entity_types p.did) rt in
      let relations = then_relations draws p client types in
      let last = then_serve-ok relations rt' h in
      let middle = then_relations-ok types relations.1 (ap (λ r. (r, relations.1)) last.0) in
      let first =
        add_types-resolver 0 (seed_entity_types p.did) rt types.1
          (ap (λ r. (r, types.1)) middle.0) in
      let same = middle.2 ∙ first.1 in
      let added =
        register_peer-ok p.did (record { peer_did = p.did }) relations.1.handlers rt'.handlers
          last.1 in
      (
        last.2
            ∙ middle.1
            ∙ ap (register_relation_types p.did (seed_relationship_types p.did)) first.0,
        sym added.0 ∙ ap (insert p.did (record { peer_did = p.did })) same,
        ap (lookup p.did) (sym same) ∙ added.1,
      )
