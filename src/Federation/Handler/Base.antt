-- ===== src/Federation/Handler/Base.antt =====
-- `StoreHandler` of internal/federation/handler.go: what it holds, what its environment gives to a
-- call, and how it replies.
use coggo.Prelude.{String, ◌==◌, Option, none, some, List, [], ◌∷◌, if◌then◌else◌}
use coggo.Prelude.Result.{Error, Result, ok, err, message, wrap}
use coggo.Types.{Time, Event, EventType, Payload}
use coggo.Store.Rows.{Db}
use coggo.Store.Events.{append_event}
use coggo.Schema.Resolver.{Resolver}
use coggo.Federation.Message.{Inbound, Outbound, Body, failure, response, error, Outcome, returns}

-- What the handlers of all peers share: the store, and the resolver, which may be nil.
pub record World : Type 0 where
  pub db : Db
  pub resolver : Option Resolver

-- The clock and the identifiers that one call draws.
pub record Env : Type 0 where
  pub now : Time
  -- `newID()` for the record, and for the event
  pub record_id : String
  pub event_id : String
  -- the store's own `newULID()`, for an event that comes with no id
  pub store_ulid : String
  -- `newMessageID()` and the time of the reply
  pub message_id : String
  pub sent_at : Time

-- the error of `json.Unmarshal`
abbrev pub bad_json : Error
bad_json = message "json: cannot unmarshal"

-- the first value that is not empty
unfoldable pub fallback : List String → String
fallback [] = ""
fallback (v ∷ vs) = let rest = fallback vs in if v == "" then rest else v

module _ (env : Env) (peer : String) (msg : Inbound) where
  abbrev pub author_of : String → String
  author_of author = fallback (author ∷ msg.source_did ∷ peer ∷ [])

  abbrev pub client_of : String → String
  client_of client = fallback (client ∷ "federation" ∷ "" ∷ [])

  abbrev pub reply : Body → Outbound
  reply body = record {
    version = msg.version;
    source_did = peer;
    target_did = msg.source_did;
    type = response;
    payload = body;
    auth_token = "";
    message_id = env.message_id;
    timestamp = env.sent_at;
  }

  abbrev pub respond : Body → Outcome
  respond body = returns (reply body) none

  abbrev pub error_resp : Error → Outcome
  error_resp e = returns (record (reply (failure e)) { type = error }) (some e)

  -- the event that a write appends
  abbrev pub event_of : EventType → Payload → String → String → Event
  event_of type payload author client = record {
    id = env.event_id;
    peer_did = peer;
    type = type;
    payload = payload;
    timestamp = env.now;
    author_did = author;
    client_id = client;
    signature = [];
  }

  abbrev pub finish {ℓ} :
      {A : Type ℓ} → String → (A → Body) → World → Result A × Db → Outcome × World
  finish text body w (ok a, db) = (respond (body a), record w { db = db })
  finish text body w (err e, db) = (error_resp (wrap text e), record w { db = db })

  abbrev pub after_append :
      {A : Type 0}
      → String
      → String
      → (A → Body)
      → (Db → Result A × Db)
      → World
      → Result Event × Db
      → Outcome × World
  after_append append_text text body next w (ok ev, db) =
      finish text body (record w { db = db }) (next db)
  after_append append_text text body next w (err e, db) =
      (error_resp (wrap append_text e), record w { db = db })

  -- `AppendEvent`, and if that succeeds the write to the projection; then the reply.
  unfoldable pub log_then :
      {A : Type 0}
      → String
      → String
      → Event
      → (Db → Result A × Db)
      → (A → Body)
      → World
      → Outcome × World
  log_then append_text text ev next body w =
      after_append append_text text body next w (append_event env.now env.store_ulid (some ev) w.db)
