-- ===== src/Mcp/Tools/Laws.antt =====
-- The tool handlers of internal/mcp/tools.go: what a call of a
-- tool leaves.
use coggo.Prelude.{String, ◌≡◌, refl, ◌∙◌, sym, ap, subst, Bool, true, none, some, List, lookup}
use coggo.Prelude.Result.{Result, ok, err}
use coggo.Types.{Time}
use coggo.Types.Json.{Fields}
use coggo.Store.Rows.{Sqlite}
use coggo.Store.Entities.{get_entity}
use coggo.Federation.Message.{Outcome, returns, panics}
use coggo.Federation.Handler.Base.{World, Env}
use coggo.Federation.Handler.Laws.{is_read}
use coggo.Federation.Handler.Isolation.{Apart}
use coggo.Federation.Router.{StoreHandler}
use coggo.Federation.Router.Effects.{route-read, route-others}
use coggo.Mcp.Authorize.{Grant}
use coggo.Mcp.Tools.CrossPeer.{Gathered, cross_peer_query}
use coggo.Mcp.Tools.CrossPeer.Laws.{cross_peer_query-collected}
use coggo.Mcp.Tools.Args.{ArgReader}
use coggo.Mcp.Tools.Prepared.{reads, prepare_sound}
use coggo.Mcp.Tools.Calls.{ToolCall, ToolContext, authorize}
use coggo.Mcp.Tools.{
  Tool, prepare, federation_message, answer, route_federation, perform_call, call_tool,
}

module _ (reader : ArgReader) (hash : String → String) (ctx : ToolContext) (sqlite : Sqlite)
    (is_rfc3339 : String → Bool) (env : Env) where
  answer-world : (fields : List String) (o : Outcome × World) → (answer fields o).1 ≡ o.1
  answer-world fields (panics, w) = refl
  answer-world fields (returns m (some e), w) = refl
  answer-world fields (returns m none, w) = refl

  perform_call-world :
      (now : Time) (c : ToolCall) (w : World)
      → (perform_call reader hash ctx sqlite is_rfc3339 env now (ok c) w).1
        ≡ (route_federation reader hash ctx sqlite is_rfc3339 env now c.did c.type c.request w).1
  perform_call-world now c w = answer-world c.fields _

  perform_call-reads :
      (now : Time) (r : Result ToolCall) (w : World)
      → ((c : ToolCall) → r ≡ ok c → is_read (some c.request) ≡ true)
      → (perform_call reader hash ctx sqlite is_rfc3339 env now r w).1 ≡ w
  perform_call-reads now (err e) w h = refl
  perform_call-reads now (ok c) w h =
      perform_call-world now c w
      ∙ route-read sqlite is_rfc3339 env ctx.handlers
          (federation_message now c.did c.type c.request) w (h c refl)

  -- Each of the tools of one peer that read leaves the entities, the relations, the log and the type
  -- definitions as they were, whatever its arguments and whoever calls it. When the caller's token was
  -- last used, which `Verify` writes for itself, is apart from these.
  pub call_tool-reads :
      (now : Time) (tool : Tool) (args : Fields) (w : World)
      → reads tool ≡ true
      → (call_tool reader hash ctx sqlite is_rfc3339 env now tool args w).1 ≡ w
  unfolding call_tool
  call_tool-reads now tool args w h =
      perform_call-reads now (prepare reader hash ctx tool args) w
        λ c e. (prepare_sound reader hash ctx tool args c e).read_only ∙ h

  perform_call-others :
      (p i : String) (now : Time) (r : Result ToolCall) (w : World)
      → ((d : String) (h : StoreHandler) → lookup d ctx.handlers ≡ some h → h.peer_did ≡ d)
      → ((c : ToolCall) → r ≡ ok c → Apart env c.did p w)
      → get_entity p i (perform_call reader hash ctx sqlite is_rfc3339 env now r w).1.db
        ≡ get_entity p i w.db
  perform_call-others p i now (err e) w own h = refl
  perform_call-others p i now (ok c) w own h =
      ap (λ (v : World). get_entity p i v.db) (perform_call-world now c w)
      ∙ route-others sqlite is_rfc3339 env ctx.handlers p i
          (federation_message now c.did c.type c.request) w (own c.did) (h c refl)

  -- Where each handler of the router serves the DID that it stands under: a tool changes no entity
  -- that a peer reads to whom authorizeForPeer does not let it, where entity ids are all different and
  -- the record id that the call draws is not one of the other peer's; and a query over several peers
  -- changes no entity at all.
  pub call_tool-others :
      (p i : String) (now : Time) (tool : Tool) (args : Fields) (w : World)
      → ((d : String) (h : StoreHandler) → lookup d ctx.handlers ≡ some h → h.peer_did ≡ d)
      → ((key : String) (g : Grant)
          → reader.require_string args "peer" ≡ ok key
          → authorize reader hash ctx key ≡ ok g
          → Apart env g.did p w)
      → (get_entity p i (call_tool reader hash ctx sqlite is_rfc3339 env now tool args w).1.db
          ≡ get_entity p i w.db)
        × (get_entity p i (cross_peer_query reader hash ctx sqlite is_rfc3339 env now args w).1.db
            ≡ get_entity p i w.db)
  unfolding call_tool
  call_tool-others p i now tool args w own apart = (
    perform_call-others p i now (prepare reader hash ctx tool args) w own λ c e.
        let q = prepare_sound reader hash ctx tool args c e in
        subst (λ d. Apart env d p w) (sym q.same_did) (apart q.key q.grant q.named q.authorized),
    ap (λ (o : Gathered × World). get_entity p i o.1.db)
        (cross_peer_query-collected reader hash ctx sqlite is_rfc3339 env now args w),
  )
