-- ===== src/Cli/Init.antt =====
-- `actionInit` of internal/cli/init.go after its `Setup`, up to the writing of the configuration. What
-- is only printed is left out; the answer about tool config files changes only what is printed.
use Prim.Native.String.{◌++◌}
use coggo.Prelude.{
  String, Bool, true, false, Option, none, some, List, [], ◌∷◌, is_some, if◌then◌else◌,
}
use coggo.Prelude.Result.{Result, ok, err}
use coggo.Types.{PeerSettings}
use coggo.Types.Json.{Fields, end, field, str}
use coggo.Store.Rows.{Sqlite}
use coggo.Peer.Registry.{Registry, by_name_of, update_settings}
use coggo.Federation.Handler.Base.{World}
use coggo.Cli.Runtime.{Runtime}
use coggo.Cli.Calls.{Called, returned, crashed, create_entity}
use coggo.Cli.Prompts.{Console, Input, ask, ask_yn}
use coggo.Cli.Commands.{CallDraw, world_of}
use coggo.Cli.Admin.{PeerDraw, StepTexts, Run, enroll}

abbrev pub default_peers : List (String × String)
default_peers =
    ("personal", "Life domains (health, finance, music, social)")
    ∷ ("business", "Work and projects")
    ∷ ("coggo", "Coggo's own state and self-knowledge")
    ∷ []

abbrev pub init_texts : String → StepTexts
init_texts name = record {
  made = "init: new peer " ++ name;
  added = "init: register " ++ name;
  wired = "init: wire " ++ name;
}

-- the lines that are left, and the runtime
abbrev pub Asked : Type 0
Asked = Option (Result Input × Runtime)

abbrev pub then_ask : (Input → Runtime → Asked) → Input → Run → Asked
then_ask next lines none = none
then_ask next lines (some (err e, rt)) = some (err e, rt)
then_ask next lines (some (ok u, rt)) = next lines rt

module _ (console : Console) (draw : String → PeerDraw) where
  -- The loop over the default peers; one that is there is skipped without a question.
  unfoldable pub init_peers : List (String × String) → Input → Runtime → Asked
  unfolding by_name_of ask_yn enroll
  init_peers [] lines rt = some (ok lines, rt)
  init_peers ((name, description) ∷ specs) lines rt =
      let answer = ask_yn console true lines in
      let skip = init_peers specs lines rt in
      let decline = init_peers specs answer.1 rt in
      let make =
        then_ask (λ ls r. init_peers specs ls r) answer.1
          (enroll (init_texts name) (draw name) "cli-init" name description rt) in
      if is_some (by_name_of name rt.registry) then skip else if answer.0 then make else decline

abbrev pub setting_fields : String → String → Fields
setting_fields key value =
    field "key" (str key) (field "value" (str value) (field "scope" (str "global") end))

module _ (sqlite : Sqlite) (is_rfc3339 : String → Bool) (calls : String → CallDraw) where
  abbrev pub after_setting : {A : Type 0} → Runtime → Called A × World → Option Runtime
  after_setting rt (crashed, w) = none
  after_setting rt (returned r, w) = some (record rt { db = w.db })

  -- An error of one setting is dropped.
  unfoldable pub save_settings : String → List (String × String) → Runtime → Option Runtime
  unfolding create_entity
  save_settings did [] rt = some rt
  save_settings did ((key, value) ∷ settings) rt =
      elim (after_setting rt (
        create_entity sqlite is_rfc3339 (calls key).env (calls key).now (calls key).id rt.handlers
          did "Setting" (setting_fields key value) "cli-init" (world_of rt))) [
            | none ↦ none
            | some rt' ↦ save_settings did settings rt'
          ]

abbrev pub chosen : String → String → PeerSettings
chosen briefing_time capture = record {
  default_clarification_threshold = "";
  briefing_frequency = "on_demand";
  briefing_time = briefing_time;
  capture_confirmation = capture;
}

-- A name that no peer has is passed over, and an error of the registry is dropped.
unfoldable pub settle_peers : (String → Bool) → PeerSettings → List String → Registry → Registry
unfolding by_name_of update_settings
settle_peers flushed settings [] reg = reg
settle_peers flushed settings (name ∷ names) reg =
    let next =
      if is_some (by_name_of name reg)
      then (update_settings (flushed name) name settings reg).1
      else reg in
    settle_peers flushed settings names next

module _ (console : Console) (sqlite : Sqlite) (is_rfc3339 : String → Bool)
    (draw : String → PeerDraw) (calls : String → CallDraw) (flushed : String → Bool)
    (saved : Result (Unit {0})) where
  abbrev pub with_settled : PeerSettings → Option Runtime → Run
  with_settled settings none = none
  with_settled settings (some rt) = some (
    saved,
    record rt {
      registry = settle_peers flushed settings ("personal" ∷ "business" ∷ "coggo" ∷ []) rt.registry;
    },
  )

  abbrev pub save_under : Option String → List (String × String) → Runtime → Option Runtime
  save_under none settings rt = some rt
  save_under (some did) settings rt = save_settings sqlite is_rfc3339 calls did settings rt

  abbrev pub coggo_did : Registry → Option String
  coggo_did reg = elim (by_name_of "coggo" reg) [ none ↦ none | some p ↦ some p.did ]

  abbrev pub ask_settings : Asked → Run
  ask_settings none = none
  ask_settings (some (err e, rt)) = some (err e, rt)
  ask_settings (some (ok lines, rt)) =
      let time = ask console "on-demand" lines in
      let peer = ask console "business" time.1 in
      let capture = ask console "log_and_tell" peer.1 in
      with_settled (chosen time.0 capture.0) (
        save_under (coggo_did rt.registry)
          (("briefing_time", time.0)
            ∷ ("default_peer", peer.0)
            ∷ ("capture_confirmation", capture.0)
            ∷ [])
          rt)

  -- `saved` is the result of writing a configuration that is missing.
  unfoldable pub init : Input → Runtime → Run
  unfolding init_peers save_settings settle_peers by_name_of ask ask_yn
  init lines rt =
      ask_settings (init_peers console draw default_peers (ask_yn console false lines).1 rt)
