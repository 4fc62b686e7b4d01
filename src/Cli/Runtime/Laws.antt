-- ===== src/Cli/Runtime/Laws.antt =====
-- The handlers and the types that `Setup` and `AddPeerToRuntime` of internal/cli/runtime.go leave.
use coggo.Prelude.{
  String, ◌≡◌, refl, ◌∙◌, sym, ap, subst, ◌==◌, none, some, List, [], ◌∷◌, inl, inr, arith, eq_iff,
  eq_refl, Bool-cases, lookup, insert, lookup-insert, All,
}
use coggo.Prelude.Result.{Result, ok, err, ◌>>=◌}
use coggo.Types.{Peer}
use coggo.Store.Rows.{Db, Sqlite}
use coggo.Schema.Resolver.{Resolver, new_resolver}
use coggo.Schema.Seed.{seed}
use coggo.Auth.Tokens.{TokenStore}
use coggo.Peer.Registry.{Registry, list_all}
use coggo.Federation.Router.{StoreHandler, Handlers, register_peer}
use coggo.Federation.Router.Laws.{register_peer-ok}
use coggo.Cli.Runtime.Definitions.{rehydrate}
use coggo.Cli.Runtime.{Runtime, serving, setup_peer, setup_peers, wired, setup}

-- Each handler serves the DID that it stands under.
abbrev pub IsOwn : Handlers → Type 0
IsOwn handlers = All (λ e. e.1.peer_did ≡ e.0) handlers

abbrev own : String → StoreHandler
own did = record { peer_did = did }

insert-IsOwn :
    (did : String) (handlers : Handlers) → IsOwn handlers → IsOwn (insert did (own did) handlers)
unfolding insert
insert-IsOwn did [] h = (refl, tt)
insert-IsOwn did ((d, g) ∷ handlers) h = elim (Bool-cases (d == did)) [
  | inl e ↦ rw e (refl, h.1)
  | inr e ↦ rw e (h.0, insert-IsOwn did handlers h.1)
]

-- a handler that such a map gives for a DID serves it
pub lookup-IsOwn :
    (handlers : Handlers) (d : String) (g : StoreHandler)
    → IsOwn handlers
    → lookup d handlers ≡ some g
    → g.peer_did ≡ d
unfolding lookup
lookup-IsOwn [] d g h e = cc
lookup-IsOwn ((k, f) ∷ handlers) d g h e = elim (Bool-cases (k == d)) [
  | inl t ↦
      let found : f ≡ g = ground arith in
      let key : k ≡ d = ground (arith, eq_iff k d) in rw (← found) (h.0 ∙ key)
  | inr t ↦ lookup-IsOwn handlers d g h.1 (ground arith)
]

-- the peers' handlers are there
abbrev pub IsServed : Handlers → Peer → Type 0
IsServed handlers p = lookup p.did handlers ≡ some (own p.did)

serving-handlers :
    (p : Peer) (r : Resolver) (o : Result Handlers) (s : Handlers × Resolver)
    → serving p r o ≡ ok s
    → o ≡ ok s.0
serving-handlers p r (ok handlers) s h = ground arith
serving-handlers p r (err e) s h = cc

setup_peer-handlers :
    (sqlite : Sqlite) (db : Db) (p : Peer) (handlers : Handlers) (r : Resolver)
    (s : Handlers × Resolver)
    → setup_peer sqlite db p handlers r ≡ ok s
    → (insert p.did (own p.did) handlers ≡ s.0) × (lookup p.did handlers ≡ none)
unfolding setup_peer
setup_peer-handlers sqlite db p handlers r s h = register_peer-ok p.did (own p.did) handlers s.0 (
    serving-handlers p (rehydrate sqlite db p.did (seed p.did r))
      (register_peer p.did (some (own p.did)) handlers) s h)

bind-ok :
    {A B : Type 0} (r : Result A) (f : A → Result B) (b : B)
    → (r >>= f) ≡ ok b
    → (a : A) × (r ≡ ok a) × (f a ≡ ok b)
bind-ok (ok a) f b h = (a, refl, h)
bind-ok (err e) f b h = cc

-- What the loop of `Setup` leaves: own handlers, one for each peer, and those that were there.
record SetUp (before : Handlers) (ps : List Peer) (after : Handlers) : Type 0 where
  all_own : IsOwn after
  all_served : All (IsServed after) ps
  kept : (d : String) (g : StoreHandler) → lookup d before ≡ some g → lookup d after ≡ some g

added-own :
    (did : String) (handlers after : Handlers)
    → insert did (own did) handlers ≡ after
    → lookup did after ≡ some (own did)
added-own did handlers after e =
    ap (lookup did) (sym e) ∙ lookup-insert did did (own did) handlers ∙ rw (eq_refl did) refl

added-kept :
    (did : String) (handlers after : Handlers) (d : String) (g : StoreHandler)
    → insert did (own did) handlers ≡ after
    → lookup did handlers ≡ none
    → lookup d handlers ≡ some g
    → lookup d after ≡ some g
added-kept did handlers after d g e free h = elim (Bool-cases (did == d)) [
  | inl t ↦
      let same : did ≡ d = ground (arith, eq_iff did d) in
      let taken : none ≡ some g = sym free ∙ ap (λ k. lookup k handlers) same ∙ h in cc
  | inr t ↦ ap (lookup d) (sym e) ∙ lookup-insert did d (own did) handlers ∙ rw t h
]

setup_peers-SetUp :
    (sqlite : Sqlite) (db : Db) (ps : List Peer) (handlers : Handlers) (r : Resolver)
    (s : Handlers × Resolver)
    → IsOwn handlers
    → setup_peers sqlite db ps handlers r ≡ ok s
    → SetUp handlers ps s.0
unfolding setup_peers
setup_peers-SetUp sqlite db [] handlers r s o h =
    let same : handlers ≡ s.0 = ground arith in
    rw (← same) (record { all_own = o; all_served = tt; kept = λ d g e. e })
setup_peers-SetUp sqlite db (p ∷ ps) handlers r s o h =
    let step =
      bind-ok (setup_peer sqlite db p handlers r) (λ t. setup_peers sqlite db ps t.0 t.1) s h in
    let mid = step.0.0 in
    let added = setup_peer-handlers sqlite db p handlers r step.0 step.1 in
    let rest =
      setup_peers-SetUp sqlite db ps mid step.0.1 s
        (subst IsOwn added.0 (insert-IsOwn p.did handlers o)) step.2 in
    record {
      all_own = rest.all_own;
      all_served =
          (rest.kept p.did (own p.did) (added-own p.did handlers mid added.0), rest.all_served);
      kept = λ d g e. rest.kept d g (added-kept p.did handlers mid d g added.0 added.1 e);
    }

-- After a `Setup` that succeeds, each handler of the router serves the DID that it stands under, and
-- each peer of the registry has its handler.
pub setup-IsOwn :
    (sqlite : Sqlite) (registry : Result Registry) (store : Result Db) (tokens : Result TokenStore)
    (rt : Runtime)
    → setup sqlite registry store tokens ≡ ok rt
    → IsOwn rt.handlers × All (IsServed rt.handlers) (list_all rt.registry)
unfolding setup
setup-IsOwn sqlite (err e) store tokens rt h = cc
setup-IsOwn sqlite (ok reg) (err e) tokens rt h = cc
setup-IsOwn sqlite (ok reg) (ok db) (err e) rt h = cc
setup-IsOwn sqlite (ok reg) (ok db) (ok auth) rt h =
    let peers = list_all reg in
    let step =
      bind-ok (setup_peers sqlite db peers [] new_resolver) (λ s. ok (wired reg db auth s)) rt h in
    let up = setup_peers-SetUp sqlite db peers [] new_resolver step.0 tt step.1 in
    let same : wired reg db auth step.0 ≡ rt = ground (arith, step.2) in
    subst (λ (t : Runtime). IsOwn t.handlers × All (IsServed t.handlers) (list_all t.registry)) same
      (up.all_own, up.all_served)
