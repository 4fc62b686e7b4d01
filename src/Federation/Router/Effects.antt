-- ===== src/Federation/Router/Effects.antt =====
-- What `Route` of internal/federation/router.go leaves behind.
use coggo.Prelude.{String, ◌≡◌, refl, ◌∙◌, ap, sym, subst, Bool, true, Option, none, some, lookup}
use coggo.Store.Rows.{Sqlite}
use coggo.Store.Entities.{get_entity}
use coggo.Federation.Message.{
  MessageType, query, write, response, error, ping, other_message, Inbound, Outcome, returns,
  panics,
}
use coggo.Federation.Handler.Base.{World, Env}
use coggo.Federation.Handler.SearchOps.{handle_ping}
use coggo.Federation.Handler.Laws.{is_read, handle-read}
use coggo.Federation.Handler.Isolation.{Apart}
use coggo.Federation.Handler.Isolation.Requests.{handle-others}
use coggo.Federation.Router.{StoreHandler, Handlers, settled, deliver, deliver_to, route}

settled-world : (env : Env) (msg : Inbound) (o : Outcome × World) → (settled env msg o).1 ≡ o.1
settled-world env msg (returns m none, w) = refl
settled-world env msg (returns m (some e), w) = refl
settled-world env msg (panics, w) = refl

module _ (sqlite : Sqlite) (is_rfc3339 : String → Bool) (env : Env) where
  deliver-read :
      (t : MessageType) (peer : String) (msg : Inbound) (w : World)
      → is_read msg.payload ≡ true
      → (deliver sqlite is_rfc3339 env t peer msg w).1 ≡ w
  unfolding handle_ping
  deliver-read query peer msg w h =
      settled-world env msg _ ∙ (handle-read sqlite is_rfc3339 env peer msg w h).0
  deliver-read write peer msg w h =
      settled-world env msg _ ∙ (handle-read sqlite is_rfc3339 env peer msg w h).1
  deliver-read ping peer msg w h = settled-world env msg (handle_ping env peer msg w)
  deliver-read response peer msg w h = refl
  deliver-read error peer msg w h = refl
  deliver-read (other_message s) peer msg w h = refl

  deliver_to-read :
      (o : Option StoreHandler) (msg : Inbound) (w : World)
      → is_read msg.payload ≡ true
      → (deliver_to sqlite is_rfc3339 env o msg w).1 ≡ w
  deliver_to-read none msg w h = refl
  deliver_to-read (some g) msg w h = deliver-read msg.type g.peer_did msg w h

  -- A message that reads leaves the store and the resolver as they were, whatever its type and target.
  pub route-read :
      (handlers : Handlers) (msg : Inbound) (w : World)
      → is_read msg.payload ≡ true
      → (route sqlite is_rfc3339 env handlers msg w).1 ≡ w
  unfolding route
  route-read handlers msg w h = deliver_to-read (lookup msg.target_did handlers) msg w h

  deliver-others :
      (t : MessageType) (peer p i : String) (msg : Inbound) (w : World)
      → Apart env peer p w
      → get_entity p i (deliver sqlite is_rfc3339 env t peer msg w).1.db ≡ get_entity p i w.db
  unfolding handle_ping
  deliver-others query peer p i msg w h =
      ap (λ (v : World). get_entity p i v.db) (settled-world env msg _)
      ∙ (handle-others sqlite is_rfc3339 env peer p i msg w h).0
  deliver-others write peer p i msg w h =
      ap (λ (v : World). get_entity p i v.db) (settled-world env msg _)
      ∙ (handle-others sqlite is_rfc3339 env peer p i msg w h).1
  deliver-others ping peer p i msg w h =
      ap (λ (v : World). get_entity p i v.db) (settled-world env msg (handle_ping env peer msg w))
  deliver-others response peer p i msg w h = refl
  deliver-others error peer p i msg w h = refl
  deliver-others (other_message s) peer p i msg w h = refl

  deliver_to-others :
      (o : Option StoreHandler) (did p i : String) (msg : Inbound) (w : World)
      → ((h : StoreHandler) → o ≡ some h → h.peer_did ≡ did)
      → Apart env did p w
      → get_entity p i (deliver_to sqlite is_rfc3339 env o msg w).1.db ≡ get_entity p i w.db
  deliver_to-others none did p i msg w own h = refl
  deliver_to-others (some g) did p i msg w own h =
      deliver-others msg.type g.peer_did p i msg w
        (subst (λ d. Apart env d p w) (sym (own g refl)) h)

  -- A message changes no entity that a peer other than its target reads, where the handler under the
  -- target's DID serves the target.
  pub route-others :
      (handlers : Handlers) (p i : String) (msg : Inbound) (w : World)
      → ((h : StoreHandler) → lookup msg.target_did handlers ≡ some h → h.peer_did ≡ msg.target_did)
      → Apart env msg.target_did p w
      → get_entity p i (route sqlite is_rfc3339 env handlers msg w).1.db ≡ get_entity p i w.db
  unfolding route
  route-others handlers p i msg w own h =
      deliver_to-others (lookup msg.target_did handlers) msg.target_did p i msg w own h
