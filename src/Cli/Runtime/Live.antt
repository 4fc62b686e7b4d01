-- ===== src/Cli/Runtime/Live.antt =====
-- internal/cli/runtime.go: when `Setup` succeeds.
use coggo.Prelude.{
  String, ◌≡◌, refl, ◌∙◌, ◌==◌, false, none, some, List, [], ◌∷◌, lookup, insert, lookup-insert,
  All,
}
use coggo.Prelude.Result.{ok}
use coggo.Types.{Peer}
use coggo.Store.Rows.{Db, Sqlite}
use coggo.Schema.Resolver.{Resolver, new_resolver}
use coggo.Auth.Tokens.{TokenStore}
use coggo.Peer.Registry.{Registry, list_all}
use coggo.Schema.Seed.{seed}
use coggo.Federation.Router.{StoreHandler, Handlers, register_peer}
use coggo.Cli.Runtime.Definitions.{rehydrate}
use coggo.Cli.Runtime.{Runtime, setup_peer, setup_peers, wired, setup}

-- each peer has a DID, and no two the same
abbrev pub AreApart : List Peer → Type 0
AreApart [] = Unit
AreApart (p ∷ ps) = ((p.did == "") ≡ false) × All (λ q. (p.did == q.did) ≡ false) ps × AreApart ps

abbrev IsFree : Handlers → Peer → Type 0
IsFree handlers p = lookup p.did handlers ≡ none

register_peer-free :
    (did : String) (h : StoreHandler) (handlers : Handlers)
    → (did == "") ≡ false
    → lookup did handlers ≡ none
    → register_peer did (some h) handlers ≡ ok (insert did h handlers)
unfolding register_peer
register_peer-free did h handlers e free = rw (e, free) refl

insert-IsFree :
    (did : String) (h : StoreHandler) (handlers : Handlers) (ps : List Peer)
    → All (λ q. (did == q.did) ≡ false) ps
    → All (IsFree handlers) ps
    → All (IsFree (insert did h handlers)) ps
insert-IsFree did h handlers [] apart free = tt
insert-IsFree did h handlers (q ∷ ps) apart free = (
  lookup-insert did q.did h handlers ∙ rw (apart.0) free.0,
  insert-IsFree did h handlers ps apart.1 free.1,
)

setup_peer-free :
    (sqlite : Sqlite) (db : Db) (p : Peer) (handlers : Handlers) (r : Resolver)
    → (p.did == "") ≡ false
    → IsFree handlers p
    → setup_peer sqlite db p handlers r
      ≡ ok (
        insert p.did (record { peer_did = p.did }) handlers,
        rehydrate sqlite db p.did (seed p.did r),
      )
unfolding setup_peer
setup_peer-free sqlite db p handlers r e free =
    rw (register_peer-free p.did (record { peer_did = p.did }) handlers e free) refl

setup_peers-free :
    (sqlite : Sqlite) (db : Db) (ps : List Peer) (handlers : Handlers) (r : Resolver)
    → AreApart ps
    → All (IsFree handlers) ps
    → (s : Handlers × Resolver) × (setup_peers sqlite db ps handlers r ≡ ok s)
unfolding setup_peers
setup_peers-free sqlite db [] handlers r apart free = ((handlers, r), refl)
setup_peers-free sqlite db (p ∷ ps) handlers r apart free =
    let after = insert p.did (record { peer_did = p.did }) handlers in
    let rest =
      setup_peers-free sqlite db ps after (rehydrate sqlite db p.did (seed p.did r)) apart.2
        (insert-IsFree p.did (record { peer_did = p.did }) handlers ps apart.1 free.1) in
    (rest.0, rw (setup_peer-free sqlite db p handlers r apart.0 free.0) rest.1)

all-IsFree : (ps : List Peer) → All (IsFree []) ps
unfolding lookup
all-IsFree [] = tt
all-IsFree (p ∷ ps) = (refl, all-IsFree ps)

-- Where the files and the database open and each peer of the registry has a DID of its own, `Setup`
-- succeeds, whatever definitions the store holds.
pub setup-succeeds :
    (sqlite : Sqlite) (reg : Registry) (db : Db) (auth : TokenStore)
    → AreApart (list_all reg)
    → (rt : Runtime) × (setup sqlite (ok reg) (ok db) (ok auth) ≡ ok rt)
unfolding setup
setup-succeeds sqlite reg db auth apart =
    let s =
      setup_peers-free sqlite db (list_all reg) [] new_resolver apart (all-IsFree (list_all reg)) in
    (wired reg db auth s.0, rw s.1 refl)
