-- ===== src/Cli/Admin.antt =====
-- The commands of internal/cli/peers.go and tokens.go that write, after their `Setup`, with what they
-- leave in the runtime. What is only printed is left out.
pub mod Names
pub mod Scopes
use coggo.Prelude.{
  ℕ, String, ◌==◌, Bool, true, false, not, Option, none, some, List, [], ◌∷◌, find, is_empty,
  is_some, if◌then◌else◌,
}
use coggo.Prelude.Result.{Error, Result, ok, err, message, about, wrap, context}
use coggo.Types.{Time, Peer}
use coggo.Auth.Tokens.{TokenStore, issue, revoke}
use coggo.Peer.Did.{Keys, new_peer}
use coggo.Peer.Registry.{Registry, by_name_of, add, rename}
use coggo.Cli.Runtime.{Runtime, Draw, add_peer_to_runtime}
use coggo.Cli.Prompts.{Console, Input, ask}

-- what adding one peer draws: the time, the keys, whether the flush of the registry succeeds, and
-- what the stored definitions draw
pub record PeerDraw : Type 0 where
  pub now : Time
  pub keys : Option Keys
  pub flushed : Bool
  pub draws : ℕ → Draw

-- a command's error, and what it leaves; `none` where base58 does not return
abbrev pub Run : Type 0
Run = Option (Result (Unit {0}) × Runtime)

-- what each of the three steps puts in front of its error
pub record StepTexts : Type 0 where
  pub made : String
  pub added : String
  pub wired : String

abbrev pub wired_as : String → Result (Unit {0}) × Runtime → Result (Unit {0}) × Runtime
wired_as text (r, rt) = (context text r, rt)

abbrev pub after_add :
    StepTexts
    → PeerDraw
    → String
    → Peer
    → Result (Unit {0}) × Registry
    → Runtime
    → Result (Unit {0}) × Runtime
after_add t d client p (err e, reg) rt = (err (wrap t.added e), record rt { registry = reg })
after_add t d client p (ok u, reg) rt =
    wired_as t.wired (add_peer_to_runtime d.draws p client (record rt { registry = reg }))

abbrev pub enrolled : StepTexts → PeerDraw → String → Option (Result Peer) → Runtime → Run
enrolled t d client none rt = none
enrolled t d client (some (err e)) rt = some (err (wrap t.made e), rt)
enrolled t d client (some (ok p)) rt =
    some (after_add t d client p (add d.now d.flushed p rt.registry) rt)

-- `NewPeer`, `Add` and `AddPeerToRuntime`, as `peer add` and `init` call them
unfoldable pub enroll : StepTexts → PeerDraw → String → String → String → Runtime → Run
unfolding new_peer add add_peer_to_runtime
enroll t d client name description rt = enrolled t d client (new_peer d.keys name description) rt

abbrev pub peer_add_texts : StepTexts
peer_add_texts = record { made = "peer add"; added = "peer add"; wired = "peer add: wire" }

unfoldable pub peer_add : Console → PeerDraw → String → Input → Runtime → Run
unfolding enroll ask
peer_add console d name lines rt =
    if name == ""
    then some (err (message "peer add: name required"), rt)
    else enroll peer_add_texts d "cli" name (ask console "" lines).0 rt

abbrev pub with_registry : Runtime → Result (Unit {0}) × Registry → Result (Unit {0}) × Runtime
with_registry rt (r, reg) = (r, record rt { registry = reg })

-- the arguments after the command
unfoldable pub peer_rename : Bool → List String → Runtime → Result (Unit {0}) × Runtime
unfolding rename
peer_rename flushed (old_name ∷ new_name ∷ rest) rt =
    with_registry rt (rename flushed old_name new_name rt.registry)
peer_rename flushed _ rt = (err (message "peer rename: <old> <new> required"), rt)

-- the first name that no peer has
abbrev pub missing_peer : Registry → List String → Option String
missing_peer reg names = find (λ name. not (is_some (by_name_of name reg))) names

abbrev pub scoped : Bool → List String → Registry → Result (List String)
scoped true names reg = ok ("*" ∷ [])
scoped false names reg =
    if is_empty names
    then err (message "token create: provide --peer <name> (repeatable) or --all")
    else elim (missing_peer reg names) [
      | none ↦ ok names
      | some name ↦ err (about "token create: no peer named" name)
    ]

abbrev pub with_tokens :
    Runtime → Result (String × String) × TokenStore → Result (String × String) × Runtime
with_tokens rt (r, auth) = (r, record rt { auth = auth })

module _ (hash : String → String) (now : Time) (id : String) (secret : Option String)
    (flushed : Bool) (label : String) where
  abbrev pub issue_scoped : Result (List String) → Runtime → Result (String × String) × Runtime
  issue_scoped (err e) rt = (err e, rt)
  issue_scoped (ok peers) rt = with_tokens rt (issue hash now id secret flushed peers label rt.auth)

  -- the id and the secret that are printed
  unfoldable pub token_create : Bool → List String → Runtime → Result (String × String) × Runtime
  unfolding by_name_of find issue
  token_create every names rt = issue_scoped (scoped every names rt.registry) rt

abbrev pub after_revoke : Runtime → Result (Unit {0}) × TokenStore → Result (Unit {0}) × Runtime
after_revoke rt (r, auth) = (r, record rt { auth = auth })

unfoldable pub token_revoke : Bool → String → Runtime → Result (Unit {0}) × Runtime
unfolding revoke
token_revoke flushed id rt =
    if id == ""
    then (err (message "token revoke: id required"), rt)
    else after_revoke rt (revoke flushed id rt.auth)
