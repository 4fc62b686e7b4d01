-- ===== src/Federation/Handler/SearchOps.antt =====
-- `opSemanticSearch`, `opTimeTravel` and `HandlePing` of internal/federation/handler.go.
use coggo.Prelude.{String, Option, none, some, List, is_empty, if◌then◌else◌}
use coggo.Prelude.Result.{Result, ok, err, wrap}
use coggo.Types.{Entity}
use coggo.Store.Rows.{Sqlite}
use coggo.Store.Search.{SemanticHit, semantic_search, substring_search}
use coggo.Store.TimeTravel.{time_travel_entities}
use coggo.Federation.Message.{Inbound, pong, entities, hits, Outcome, SemanticArgs, TimeTravelArgs}
use coggo.Federation.Handler.Base.{World, Env, bad_json, respond, error_resp}

module _ (env : Env) (peer : String) (msg : Inbound) where
  unfoldable pub handle_ping : World → Outcome × World
  handle_ping w = (respond env peer msg (pong peer), w)

  abbrev found : Result (List SemanticHit) → Outcome
  found (ok hs) = respond env peer msg (hits hs)
  found (err e) = error_resp env peer msg (wrap "semantic.search" e)

  -- Without a vector the search is for a substring.
  unfoldable pub op_semantic_search : Sqlite → Option SemanticArgs → World → Outcome × World
  op_semantic_search sqlite none w = (error_resp env peer msg (wrap "semantic.search" bad_json), w)
  op_semantic_search sqlite (some a) w = (
    found (
        if is_empty a.vector
        then substring_search sqlite peer a.query a.type_filter a.limit w.db
        else semantic_search sqlite peer a.vector a.type_filter a.limit w.db),
    w,
  )

  abbrev travelled : Result (List Entity) → Outcome
  travelled (ok es) = respond env peer msg (entities es)
  travelled (err e) = error_resp env peer msg (wrap "time.travel" e)

  unfoldable pub op_time_travel : Option TimeTravelArgs → World → Outcome × World
  op_time_travel none w = (error_resp env peer msg (wrap "time.travel" bad_json), w)
  op_time_travel (some a) w = (travelled (time_travel_entities peer a.query a.as_of w.db), w)
