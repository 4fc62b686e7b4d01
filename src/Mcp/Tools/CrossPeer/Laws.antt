-- ===== src/Mcp/Tools/CrossPeer/Laws.antt =====
-- `handleCrossPeerQuery` of internal/mcp/tools.go: each peer's part of the answer.
use coggo.Prelude.{String, ◌≡◌, refl, ◌∙◌, ap, Bool, Option, none, some, List, [], ◌∷◌}
use coggo.Prelude.Result.{Result, ok, err, message}
use coggo.Types.{Time, EntityQuery}
use coggo.Types.Json.{null, bool, num, str, arr, obj, Values, nil, cons, Fields}
use coggo.Store.Rows.{Sqlite}
use coggo.Federation.Message.{query, entity_query, Outcome, returns, panics}
use coggo.Federation.Handler.Base.{World, Env}
use coggo.Federation.Router.Effects.{route-read}
use coggo.Mcp.Authorize.{Grant}
use coggo.Mcp.Tools.Args.{ArgReader}
use coggo.Mcp.Tools.Calls.{ToolContext, authorize}
use coggo.Mcp.Tools.{federation_message, route_federation}
use coggo.Mcp.Tools.CrossPeer.{
  PeerAnswer, Gathered, gathered, stopped, panicked, CrossQuery, read_cross_query, peer_answer,
  ask_granted, ask_peer, then_gather, ask_peers, ask_all, cross_peer_query,
}

peer_answer-world : (fields : List String) (o : Outcome × World) → (peer_answer fields o).1 ≡ o.1
peer_answer-world fields (panics, w) = refl
peer_answer-world fields (returns m (some e), w) = refl
peer_answer-world fields (returns m none, w) = refl

-- one peer's answer before the results of the peers after it
abbrev pub before : String → Option PeerAnswer → Gathered → Gathered
before name none g = panicked
before name (some a) (gathered rs) = gathered (record { peer = name; answer = a } ∷ rs)
before name (some a) (stopped e) = stopped e
before name (some a) panicked = panicked

-- The answers of peers that are asked independently of each other, in the order of the list.
unfoldable pub collect : (String → Option PeerAnswer) → Values → Gathered
collect alone nil = gathered []
collect alone (cons (str name) vs) = before name (alone name) (collect alone vs)
collect alone (cons _ vs) = stopped (message "peers entries must be strings")

then_gather-before :
    (name : String) (o : Option PeerAnswer × World) (rest : World → Gathered × World) (g : Gathered)
    (w : World)
    → o.1 ≡ w
    → rest w ≡ (g, w)
    → then_gather name o rest ≡ (before name o.0 g, w)
then_gather-before name (none, v) rest g w e h = ap (λ u. (panicked, u)) e
then_gather-before name (some a, v) rest (gathered rs) w e h = rw (e, h) refl
then_gather-before name (some a, v) rest (stopped x) w e h = rw (e, h) refl
then_gather-before name (some a, v) rest panicked w e h = rw (e, h) refl

module _ (reader : ArgReader) (hash : String → String) (ctx : ToolContext) (sqlite : Sqlite)
    (is_rfc3339 : String → Bool) (env : Env) (now : Time) where
  ask_granted-world :
      (q : EntityQuery) (fields : List String) (g : Result Grant) (w : World)
      → (ask_granted reader hash ctx sqlite is_rfc3339 env now q fields g w).1 ≡ w
  ask_granted-world q fields (err e) w = refl
  ask_granted-world q fields (ok g) w =
      peer_answer-world fields (
        route_federation reader hash ctx sqlite is_rfc3339 env now g.did query
          (entity_query (some q)) w)
      ∙ route-read sqlite is_rfc3339 env ctx.handlers
          (federation_message now g.did query (entity_query (some q))) w refl

  -- what a peer answers in the world that the call begins in
  abbrev pub alone : EntityQuery → List String → World → String → Option PeerAnswer
  alone q fields w name = (ask_peer reader hash ctx sqlite is_rfc3339 env now q fields name w).0

  ask_peers-collect :
      (q : EntityQuery) (fields : List String) (vs : Values) (w : World)
      → ask_peers reader hash ctx sqlite is_rfc3339 env now q fields vs w
        ≡ (collect (alone q fields w) vs, w)
  unfolding ask_peers collect ask_peer
  ask_peers-collect q fields nil w = refl
  ask_peers-collect q fields (cons (str name) vs) w =
      then_gather-before name (ask_peer reader hash ctx sqlite is_rfc3339 env now q fields name w)
        (ask_peers reader hash ctx sqlite is_rfc3339 env now q fields vs)
        (collect (alone q fields w) vs) w
        (ask_granted-world q fields (authorize reader hash ctx name) w)
        (ask_peers-collect q fields vs w)
  ask_peers-collect q fields (cons null vs) w = refl
  ask_peers-collect q fields (cons (bool b) vs) w = refl
  ask_peers-collect q fields (cons (num n) vs) w = refl
  ask_peers-collect q fields (cons (arr xs) vs) w = refl
  ask_peers-collect q fields (cons (obj fs) vs) w = refl

  abbrev pub collected : Result CrossQuery → World → Gathered
  collected (err e) w = stopped e
  collected (ok c) w = collect (alone c.query c.fields w) c.peers

  ask_all-collected :
      (r : Result CrossQuery) (w : World)
      → ask_all reader hash ctx sqlite is_rfc3339 env now r w ≡ (collected r w, w)
  ask_all-collected (err e) w = refl
  ask_all-collected (ok c) w = ask_peers-collect c.query c.fields c.peers w

  -- A query over several peers leaves the entities, the relations, the log and the type definitions as
  -- they were, and gives each peer's answer as that peer gives it alone, in the order of the list: an
  -- error of one peer touches no other's answer. When the caller's token was last used, which `Verify`
  -- writes for itself, is apart from these.
  pub cross_peer_query-collected :
      (args : Fields) (w : World)
      → cross_peer_query reader hash ctx sqlite is_rfc3339 env now args w
        ≡ (collected (read_cross_query reader args) w, w)
  unfolding cross_peer_query
  cross_peer_query-collected args w = ask_all-collected (read_cross_query reader args) w
