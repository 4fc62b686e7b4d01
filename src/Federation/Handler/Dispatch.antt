-- ===== src/Federation/Handler/Dispatch.antt =====
-- `dispatch`, `HandleQuery` and `HandleWrite` of internal/federation/handler.go. The operation alone
-- selects the code: `write` reaches only the text of an error.
use coggo.Prelude.{String, Bool, true, false, Option, none, some, if◌then◌else◌}
use coggo.Prelude.Result.{about, wrap}
use coggo.Store.Rows.{Sqlite}
use coggo.Federation.Message.{
  Inbound, Request, entity_get, entity_query, entity_create, entity_update, entity_archive,
  relation_create, relation_query, relation_dissolve, type_list, type_describe, type_define,
  semantic_search, time_travel, unknown_op, Outcome,
}
use coggo.Federation.Handler.Base.{World, Env, bad_json, error_resp}
use coggo.Federation.Handler.EntityOps.{
  op_entity_get, op_entity_query, op_entity_create, op_entity_update, op_entity_archive,
}
use coggo.Federation.Handler.RelationOps.{
  op_relation_create, op_relation_query, op_relation_dissolve,
}
use coggo.Federation.Handler.TypeOps.{op_type_list, op_type_describe, op_type_define}
use coggo.Federation.Handler.SearchOps.{op_semantic_search, op_time_travel}

module _ (sqlite : Sqlite) (is_rfc3339 : String → Bool) (env : Env) (peer : String) where
  abbrev pub perform : Inbound → Bool → Option Request → World → Outcome × World
  perform msg write none w =
      (error_resp env peer msg (wrap "federation: bad payload envelope" bad_json), w)
  perform msg write (some (entity_get a)) w = op_entity_get env peer msg a w
  perform msg write (some (entity_query a)) w = op_entity_query env peer msg sqlite a w
  perform msg write (some (entity_create a)) w = op_entity_create env peer msg is_rfc3339 a w
  perform msg write (some (entity_update a)) w = op_entity_update env peer msg a w
  perform msg write (some (entity_archive a)) w = op_entity_archive env peer msg a w
  perform msg write (some (relation_create a)) w = op_relation_create env peer msg a w
  perform msg write (some (relation_query a)) w = op_relation_query env peer msg a w
  perform msg write (some (relation_dissolve a)) w = op_relation_dissolve env peer msg a w
  perform msg write (some type_list) w = op_type_list env peer msg w
  perform msg write (some (type_describe a)) w = op_type_describe env peer msg a w
  perform msg write (some (type_define a)) w = op_type_define env peer msg a w
  perform msg write (some (semantic_search a)) w = op_semantic_search env peer msg sqlite a w
  perform msg write (some (time_travel a)) w = op_time_travel env peer msg a w
  perform msg write (some (unknown_op op)) w = (
    error_resp env peer msg (
        about
          (if write
            then "federation: unknown op (write=true)"
            else "federation: unknown op (write=false)")
          op),
    w,
  )

  unfoldable pub dispatch : Inbound → Bool → World → Outcome × World
  dispatch msg write w = perform msg write msg.payload w

  unfoldable pub handle_query : Inbound → World → Outcome × World
  unfolding dispatch
  handle_query msg w = dispatch msg false w

  unfoldable pub handle_write : Inbound → World → Outcome × World
  unfolding dispatch
  handle_write msg w = dispatch msg true w
