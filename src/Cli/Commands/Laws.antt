-- ===== src/Cli/Commands/Laws.antt =====
-- internal/cli/entities.go: what the commands leave in the store.
use coggo.Prelude.{String, ◌==◌, ◌≡◌, refl, ap, ◌∙◌, Bool, none, some, Bool-cases, inl, inr}
use coggo.Prelude.Result.{Result, ok, err}
use coggo.Types.{Entity, EntityTypeDefinition, Peer}
use coggo.Types.Json.{end}
use coggo.Store.Rows.{Sqlite}
use coggo.Schema.Resolver.{entity_type}
use coggo.Federation.Message.{query, entity_get, Body, Outcome, returns, panics}
use coggo.Federation.Handler.Base.{World}
use coggo.Federation.Router.Effects.{route-read}
use coggo.Peer.Registry.{resolve}
use coggo.Cli.Runtime.{Runtime}
use coggo.Cli.Calls.{
  Called, returned, crashed, cli_message, answer_of, then_read, entity_of, fed_call, get_entity_of,
}
use coggo.Cli.Prompts.{Console, Input}
use coggo.Cli.Prompts.Laws.{AreBlank, update_fields-blank}
use coggo.Cli.Commands.{
  CallDraw, send_updates, update_as, update_current, update_in_peer, entity_update, world_of,
}

answer_of-world : (o : Outcome × World) → (answer_of o).1 ≡ o.1
answer_of-world (panics, w) = refl
answer_of-world (returns m none, w) = refl
answer_of-world (returns m (some e), w) = refl

then_read-world :
    {A : Type 0} (read : Body → Result A) (c : Called Body × World) → (then_read read c).1 ≡ c.1
then_read-world read (crashed, w) = refl
then_read-world read (returned (err e), w) = refl
then_read-world read (returned (ok b), w) = refl

module _ (console : Console) (sqlite : Sqlite) (is_rfc3339 : String → Bool) (rt : Runtime)
    (first second : CallDraw) where
  get_entity_of-world :
      (did id : String) (w : World)
      → (get_entity_of sqlite is_rfc3339 first.env first.now first.id rt.handlers did id w).1 ≡ w
  unfolding get_entity_of fed_call
  get_entity_of-world did id w =
      then_read-world entity_of _
      ∙ answer_of-world _
      ∙ route-read sqlite is_rfc3339 first.env rt.handlers
          (cli_message first.now first.id did query (entity_get (some id))) w refl

  update_as-blank :
      (lines : Input) (did id : String) (cur : Entity) (def : Result EntityTypeDefinition)
      (w : World)
      → AreBlank console lines
      → (update_as console sqlite is_rfc3339 rt first second lines did id cur def w).1 ≡ w
  update_as-blank lines did id cur (err e) w h = refl
  update_as-blank lines did id cur (ok def) w h =
      let u = update_fields-blank console cur.fields def.fields lines end h in
      ap (λ r. (send_updates console sqlite is_rfc3339 rt first second did id r w).1) u.1

  update_current-blank :
      (lines : Input) (did id : String) (c : Called Entity × World) (w : World)
      → AreBlank console lines
      → c.1 ≡ w
      → (update_current console sqlite is_rfc3339 rt first second lines did id c).1 ≡ w
  update_current-blank lines did id (crashed, v) w h e = e
  update_current-blank lines did id (returned (err f), v) w h e = e
  update_current-blank lines did id (returned (ok cur), v) w h e =
      update_as-blank lines did id cur (entity_type did cur.type rt.resolver) v h ∙ e

  update_in_peer-blank :
      (lines : Input) (id : String) (p : Result Peer) (w : World)
      → AreBlank console lines
      → (update_in_peer console sqlite is_rfc3339 rt first second lines id p w).1 ≡ w
  update_in_peer-blank lines id (err e) w h = refl
  update_in_peer-blank lines id (ok p) w h =
      update_current-blank lines p.did id _ w h (get_entity_of-world p.did id w)

  -- `entity update` with a blank line for each answer, or with no input, changes nothing in the store,
  -- whatever its arguments.
  pub entity_update-blank :
      (peer_name id : String) (lines : Input)
      → AreBlank console lines
      → (entity_update console sqlite is_rfc3339 rt first second peer_name id lines).1 ≡ world_of rt
  unfolding entity_update
  entity_update-blank peer_name id lines h = elim (Bool-cases (id == "")) [
    | inl e ↦ rw e refl
    | inr e ↦ elim (Bool-cases (peer_name == "")) [
      | inl f ↦ rw (e, f) refl
      | inr f ↦
          rw (e, f) (update_in_peer-blank lines id (resolve peer_name rt.registry) (world_of rt) h)
    ]
  ]
