-- ===== src/Cli/Calls/Laws.antt =====
-- What the helpers over `FedCall` of internal/cli/runtime.go give.
use coggo.Prelude.{String, ◌≡◌, refl, ◌∙◌, ap, Bool, Option, none, some, lookup}
use coggo.Prelude.Result.{Result, ok, err, wrap}
use coggo.Types.{Time, Entity}
use coggo.Types.Decode.{blank_entity}
use coggo.Store.Rows.{Sqlite}
use coggo.Store.Entities.{get_entity}
use coggo.Federation.Message.{query, entity_get}
use coggo.Federation.Handler.Base.{World, Env}
use coggo.Federation.Handler.EntityOps.{op_entity_get, got}
use coggo.Federation.Handler.Dispatch.{handle_query, dispatch}
use coggo.Federation.Router.{Handlers, settled, deliver_to, route}
use coggo.Cli.Calls.{
  returned, cli_message, answer_of, then_read, entity_of, fed_call, get_entity_of,
}

-- an entity that is not there reads as the zero entity, without an error
abbrev pub or_blank : Result (Option Entity) → Result Entity
or_blank (ok (some e)) = ok e
or_blank (ok none) = ok blank_entity
or_blank (err e) = err (wrap "entity.get" e)

module _ (sqlite : Sqlite) (is_rfc3339 : String → Bool) (env : Env) (now : Time) (id : String)
    (handlers : Handlers) where
  read_got :
      (peer entity_id : String) (r : Result (Option Entity)) (w : World)
      → then_read entity_of (
          answer_of (
            settled env
              (cli_message now id peer query (entity_get (some entity_id)))
              (got env peer (cli_message now id peer query (entity_get (some entity_id))) r, w)))
        ≡ (returned (or_blank r), w)
  read_got peer entity_id (ok (some e)) w = refl
  read_got peer entity_id (ok none) w = refl
  read_got peer entity_id (err e) w = refl

  -- GetEntity of the command line gives a peer that is served what the store has for it, and changes
  -- nothing; for an id that the peer does not have it gives the zero entity, and no error.
  pub get_entity_of-get_entity :
      (peer entity_id : String) (w : World)
      → lookup peer handlers ≡ some (record { peer_did = peer })
      → get_entity_of sqlite is_rfc3339 env now id handlers peer entity_id w
        ≡ (returned (or_blank (get_entity peer entity_id w.db)), w)
  unfolding get_entity_of fed_call route handle_query dispatch op_entity_get
  get_entity_of-get_entity peer entity_id w h =
      ap
        (λ o. then_read entity_of (
          answer_of (
            deliver_to sqlite is_rfc3339 env o
              (cli_message now id peer query (entity_get (some entity_id))) w)))
        h
      ∙ read_got peer entity_id (get_entity peer entity_id w.db) w
