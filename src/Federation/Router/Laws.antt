-- ===== src/Federation/Router/Laws.antt =====
-- `Route` of internal/federation/router.go after `RegisterPeer`.
use coggo.Prelude.{
  String, ◌≡◌, ◌∙◌, sym, ap, inl, inr, Bool, ◌==◌, none, some, arith, Bool-cases, Option-cases,
  if◌then◌else◌, lookup, insert, lookup-insert,
}
use coggo.Prelude.Result.{ok}
use coggo.Store.Rows.{Sqlite}
use coggo.Federation.Message.{Inbound}
use coggo.Federation.Handler.Base.{World, Env}
use coggo.Federation.Router.{StoreHandler, Handlers, register_peer, deliver, deliver_to, route}

-- A registration that succeeds is of a name that is not empty and not taken, and adds the handler.
pub register_peer-ok :
    (did : String) (h : StoreHandler) (handlers after : Handlers)
    → register_peer did (some h) handlers ≡ ok after
    → (insert did h handlers ≡ after) × (lookup did handlers ≡ none)
unfolding register_peer
register_peer-ok did h handlers after done = elim (Bool-cases (did == "")) [
  | inl bare ↦ absurd (ground (arith, bare, done))
  | inr named ↦ elim (Option-cases (lookup did handlers)) [
    | inl free ↦ (ground (arith, named, free, done), free)
    | inr (g, taken) ↦ absurd (ground (arith, named, taken, done))
  ]
]

module _ (sqlite : Sqlite) (is_rfc3339 : String → Bool) (env : Env) where
  -- After a peer is registered, each message to its DID goes to the new handler, and each message to
  -- any other DID is answered as before, in the same world.
  pub route-register_peer :
      (did : String) (h : StoreHandler) (handlers after : Handlers) (msg : Inbound) (w : World)
      → register_peer did (some h) handlers ≡ ok after
      → route sqlite is_rfc3339 env after msg w ≡ (
          if did == msg.target_did
          then deliver sqlite is_rfc3339 env msg.type h.peer_did msg w
          else route sqlite is_rfc3339 env handlers msg w)
  unfolding route
  route-register_peer did h handlers after msg w done =
      let (added, free) = register_peer-ok did h handlers after done in
      ap (λ o. deliver_to sqlite is_rfc3339 env o msg w)
        (sym (ap (lookup msg.target_did) added) ∙ lookup-insert did msg.target_did h handlers)
      ∙ elim (Bool-cases (did == msg.target_did)) [ inl mine ↦ rw mine | inr other ↦ rw other ]
