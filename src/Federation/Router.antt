-- ===== src/Federation/Router.antt =====
-- internal/federation/router.go. A handler is known by the peer that it serves; all handlers share
-- one store and one resolver.
pub mod Laws
pub mod Effects
use coggo.Prelude.{
  String, ◌==◌, Bool, Option, none, some, map, List, if◌then◌else◌, Dict, lookup, insert,
}
use coggo.Prelude.Order.{texts}
use coggo.Prelude.Order.Sort.{sort}
use coggo.Prelude.Result.{Error, Result, ok, err, message, about}
use coggo.Store.Rows.{Sqlite}
use coggo.Federation.Message.{
  MessageType, query, write, ping, error, FederationMessage, Inbound, Outbound, failure, Outcome,
  returns, panics,
}
use coggo.Federation.Handler.Base.{World, Env}
use coggo.Federation.Handler.SearchOps.{handle_ping}
use coggo.Federation.Handler.Dispatch.{handle_query, handle_write}

-- `StoreHandler`, less the store and the resolver that it shares.
pub record StoreHandler : Type 0 where
  pub peer_did : String

abbrev pub Handlers : Type 0
Handlers = Dict StoreHandler

-- `none` is a nil handler.
unfoldable pub register_peer : String → Option StoreHandler → Handlers → Result Handlers
register_peer did none handlers =
    if did == ""
    then err (message "federation: empty DID")
    else err (about "federation: nil handler for" did)
register_peer did (some h) handlers =
    if did == "" then err (message "federation: empty DID") else elim (lookup did handlers) [
      | some _ ↦ err (about "federation: peer already registered" did)
      | none ↦ ok (insert did h handlers)
    ]

unfoldable pub list_peers : Handlers → List String
list_peers handlers = sort texts (map (λ e. e.0) handlers)

-- A mirror of the inbound message that carries the error.
abbrev pub error_reply : Env → Inbound → Error → Outbound
error_reply env msg e = record {
  version = msg.version;
  source_did = msg.target_did;
  target_did = msg.source_did;
  type = error;
  payload = failure e;
  auth_token = "";
  message_id = env.message_id;
  timestamp = env.sent_at;
}

-- A handler's error replaces its reply.
abbrev pub settled : Env → Inbound → Outcome × World → Outcome × World
settled env msg (returns m none, w) = (returns m none, w)
settled env msg (returns m (some e), w) = (returns (error_reply env msg e) (some e), w)
settled env msg (panics, w) = (panics, w)

module _ (sqlite : Sqlite) (is_rfc3339 : String → Bool) (env : Env) where
  abbrev pub deliver : MessageType → String → Inbound → World → Outcome × World
  deliver query peer msg w = settled env msg (handle_query sqlite is_rfc3339 env peer msg w)
  deliver write peer msg w = settled env msg (handle_write sqlite is_rfc3339 env peer msg w)
  deliver ping peer msg w = settled env msg (handle_ping env peer msg w)
  deliver _ peer msg w =
      let e = message "federation: unsupported message type" in
      (returns (error_reply env msg e) (some e), w)

  abbrev pub deliver_to : Option StoreHandler → Inbound → World → Outcome × World
  deliver_to none msg w =
      let e = about "federation: no handler for target DID" msg.target_did in
      (returns (error_reply env msg e) (some e), w)
  deliver_to (some h) msg w = deliver msg.type h.peer_did msg w

  unfoldable pub route : Handlers → Inbound → World → Outcome × World
  unfolding handle_query handle_write
  route handlers msg w = deliver_to (lookup msg.target_did handlers) msg w
