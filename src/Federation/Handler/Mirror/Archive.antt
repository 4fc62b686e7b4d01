-- ===== src/Federation/Handler/Mirror/Archive.antt =====
-- `opEntityArchive` of internal/federation/handler.go beside the fold of the log.
use mathlib.Core.Option
use coggo.Prelude.{
  String, ◌==◌, ◌≡◌, refl, ◌∙◌, sym, ap, subst, inl, inr, false, Option, none, some, List, arith,
  Bool-cases, Option-cases, if◌then◌else◌, eq_iff, eq_refl, find, lookup, insert, lookup-insert,
}
use coggo.Prelude.Result.{ok}
use coggo.Types.{is_zero, Entity, Event, entity_archived, of_archive}
use coggo.Types.Decode.{unmarshal_archive}
use coggo.Store.Rows.{Db, EventRow}
use coggo.Store.Events.{filled_event}
use coggo.Store.Events.Laws.{logged}
use coggo.Store.Entities.{is_entity, get_entity, archive_entity}
use coggo.Store.Entities.Read.{row_entity, get_entity-find}
use coggo.Store.Entities.Laws.{archived_at_time, archive_entity_lem, archive_entity-missing}
use coggo.Store.Entities.Isolation.{get_entity-key}
use coggo.Store.TimeTravel.{State, apply}
use coggo.Federation.Message.{Inbound, IdArgs}
use coggo.Federation.Handler.Base.{World, Env, event_of, author_of, client_of}
use coggo.Federation.Handler.EntityOps.{op_entity_archive}
use coggo.Federation.Handler.Log.{archive_entity-events}
use coggo.Federation.Handler.Mirror.{
  shown, read_shown, Agrees, AllComplete, IsMirrored, log_then-IsMirrored,
}
use coggo.Federation.Handler.Mirror.Operations.{Mirrors, shown_in}

shown_nothing : (o : Option Entity) → ok none ≡ ok (Option.map shown o) → o ≡ none
shown_nothing none h = refl
shown_nothing (some e) h = absurd (ground arith)

eq_flip : (s t : String) → (s == t) ≡ (t == s)
eq_flip s t = ground (arith, eq_iff s t, eq_iff t s)

module _ (env : Env) (peer : String) (msg : Inbound) (owned : (peer == "") ≡ false)
    (timed : is_zero env.now ≡ false) (a : IdArgs) where
  -- the event of an archiving, as the log has it
  abbrev archive_event : Event
  archive_event = logged (
      filled_event env.now env.store_ulid (
        event_of env peer msg entity_archived (of_archive a.id env.now)
          (author_of env peer msg a.author) (client_of env peer msg a.client)))

  apply-missing : (st : State) → lookup a.id st ≡ none → apply st archive_event ≡ st
  unfolding apply unmarshal_archive
  apply-missing st none_there = rw none_there refl

  apply-archived :
      (st : State) (c : Entity)
      → lookup a.id st ≡ some c
      → apply st archive_event ≡ insert a.id (record c { archived_at = some env.now }) st
  unfolding apply unmarshal_archive
  apply-archived st c found = rw (found, timed) refl

  module _ (db : Db) (rows : List EventRow) where
    missing-Agrees :
        (st : State)
        → get_entity peer a.id db ≡ ok none
        → Agrees peer db st
        → Agrees peer
            (archive_entity env.now peer a.id env.now (record db { events = rows })).1
            (apply st archive_event)
    missing-Agrees st missing agrees i =
        let same =
          archive_entity-missing env.now peer a.id env.now (record db { events = rows })
            (unfold get_entity in missing) in
        let not_there : lookup a.id st ≡ none =
          shown_nothing (lookup a.id st) (sym (ap read_shown missing) ∙ agrees a.id) in
        let rest : get_entity peer i (record db { events = rows }) ≡ get_entity peer i db =
          unfold get_entity in refl in
        ap (λ d. read_shown (get_entity peer i d)) same.1
        ∙ ap read_shown rest
        ∙ agrees i
        ∙ ap (λ s. ok (Option.map shown (lookup i s))) (sym (apply-missing st not_there))

    module _ (e : Entity) (named : (a.id == "") ≡ false)
        (there : get_entity peer a.id db ≡ ok (some e)) where
      archived_as :
          (i : String)
          → get_entity peer i
              (archive_entity env.now peer a.id env.now (record db { events = rows })).1
            ≡ (if a.id == i then ok (some (archived_at_time env.now e)) else get_entity peer i db)
      archived_as i =
          let there' : get_entity peer a.id (record db { events = rows }) ≡ ok (some e) =
            unfold get_entity in there in
          let rest : get_entity peer i (record db { events = rows }) ≡ get_entity peer i db =
            unfold get_entity in refl in
          (archive_entity_lem env.now peer a.id env.now (record db { events = rows }) peer i e owned
            named there').1
          ∙ rw (eq_refl peer, timed, eq_flip i a.id, rest) refl

      archived-Agrees :
          (st : State)
          → Agrees peer db st
          → Agrees peer
              (archive_entity env.now peer a.id env.now (record db { events = rows })).1
              (apply st archive_event)
      archived-Agrees st agrees i =
          let (c, found, alike) =
            shown_in (lookup a.id st) e (sym (ap read_shown there) ∙ agrees a.id) in
          let now_there : lookup i (apply st archive_event) ≡ (
              if a.id == i then some (record c { archived_at = some env.now }) else lookup i st) =
            ap (lookup i) (apply-archived st c found)
            ∙ lookup-insert a.id i (record c { archived_at = some env.now }) st in
          elim (Bool-cases (a.id == i)) [
            | inl it ↦
                rw (archived_as i, now_there, it)
                  (ap (λ (s : Entity). ok (some (record s { archived_at = some env.now })))
                    (sym alike))
            | inr other ↦ rw (archived_as i, now_there, other) (agrees i)
          ]

      archived-AllComplete :
          AllComplete peer db
          → AllComplete peer
              (archive_entity env.now peer a.id env.now (record db { events = rows })).1
      archived-AllComplete complete i x found = elim (Bool-cases (a.id == i)) [
        | inl it ↦
            let same : ok (some (archived_at_time env.now e)) ≡ ok (some x) =
              sym (archived_as i ∙ rw it refl) ∙ found in
            let it_is : archived_at_time env.now e ≡ x = ground arith in
            subst (λ (y : Entity). (is_zero y.created_at ≡ false) × ((y.id == "") ≡ false)) it_is
              (complete a.id e there)
        | inr other ↦
            let same : get_entity peer i db ≡ ok (some x) =
              sym (archived_as i ∙ rw other refl) ∙ found in
            complete i x same
      ]

  -- `archive_entity` and the fold of its event, whether the entity is there or not
  archive_entity-Agrees :
      (db : Db) (rows : List EventRow)
      → AllComplete peer db
      → ((st : State)
          → Agrees peer db st
          → Agrees peer
              (archive_entity env.now peer a.id env.now (record db { events = rows })).1
              (apply st archive_event))
        × AllComplete peer
            (archive_entity env.now peer a.id env.now (record db { events = rows })).1
  archive_entity-Agrees db rows complete =
      elim (Option-cases (Option.map row_entity (find (is_entity peer a.id) db.entities))) [
        | inl e ↦
            let missing : get_entity peer a.id db ≡ ok none =
              get_entity-find peer a.id db ∙ ap ok e in
            let missing' : get_entity peer a.id (record db { events = rows }) ≡ ok none =
              unfold get_entity in missing in
            let same =
              archive_entity-missing env.now peer a.id env.now (record db { events = rows })
                missing' in
            (
              λ st. missing-Agrees db rows st missing,
              subst (AllComplete peer) (sym same.1) (unfold get_entity in complete),
            )
        | inr (x, e) ↦
            let there : get_entity peer a.id db ≡ ok (some x) =
              get_entity-find peer a.id db ∙ ap ok e in
            let (_, key) = get_entity-key peer a.id db x there in
            let named : (a.id == "") ≡ false =
              subst (λ k. (k == "") ≡ false) key (complete a.id x there).1 in
            (
              archived-Agrees db rows x named there,
              archived-AllComplete db rows x named there complete,
            )
      ]

  pub op_entity_archive-IsMirrored :
      (w : World) → IsMirrored peer w.db → Mirrors peer (op_entity_archive env peer msg (some a) w)
  unfolding op_entity_archive
  op_entity_archive-IsMirrored w h =
      log_then-IsMirrored env peer msg _ _ _ _ _ w (eq_refl peer)
        (archive_entity-events env.now peer a.id env.now)
        (archive_entity-Agrees w.db _ h.complete).0
        (λ c. (archive_entity-Agrees w.db _ h.complete).1) h
