-- ===== src/Tests/AdminRuns.antt =====
-- Runs of the commands on peers and tokens of internal/cli.
use coggo.Prelude.{
  ◌≡◌, refl, ◌⊎◌, true, false, ◌||◌, some, [], ◌∷◌, any, All, find, is_some, ◌==◌, lookup, insert,
  delete,
}
use coggo.Prelude.Result.{ok, is_ok}
use coggo.Types.{Peer, Token}
use coggo.Auth.Tokens.{TokenStore, token_covers_peer, issue, verify}
use coggo.Peer.Registry.{
  Registry, empty_registry, add, by_name_of, rename, load, store, dated, update_settings,
}
use coggo.Peer.Registry.Reached.{start, added}
use coggo.Mcp.Authorize.{authorize_for_peer}
use coggo.Cli.Runtime.{Runtime}
use coggo.Cli.Admin.{token_create}
use coggo.Cli.Admin.Scopes.{verify-token_create}
use coggo.Cli.Admin.Names.{authorize_for_peer-rename}
use coggo.Peer.Did.{default_settings}
use coggo.Cli.Init.{settle_peers, chosen}
use coggo.Tests.Data.{alice, hash, token}
use coggo.Tests.CliRuns.{runtime}

abbrev issued : Token
issued = record {
  id = "t9";
  secret_hash = "s9";
  peers = "alice" ∷ [];
  label = "phone";
  created_at = 5;
  last_used_at = 0;
}

abbrev with_issued : Runtime
with_issued = record runtime { auth = record { tokens = issued ∷ []; disk = issued ∷ [] } }

token_created :
    token_create hash 5 "t9" (some "s9") true "phone" false ("alice" ∷ []) runtime
    ≡ (ok ("t9", "s9"), with_issued)
unfolding token_create issue by_name_of find lookup load add insert
token_created = refl

verify-token_create_example :
    (is_ok (verify hash "s9" "alice" with_issued.auth)
      ≡ (false || any (λ p. (p == "*") || (p == "alice")) ("alice" ∷ [])))
    × ((false ≡ true) ⊎ All (λ n. is_some (by_name_of n runtime.registry) ≡ true) ("alice" ∷ []))
verify-token_create_example =
    verify-token_create hash 5 "t9" "s9" true "phone" false ("alice" ∷ []) runtime with_issued
      ("t9", "s9") "alice" tt token_created

abbrev before : Registry
before = (add 7 true alice empty_registry).1

abbrev renamed : Registry
renamed = (rename true "alice" "ann" before).1

abbrev newcomer : Peer
newcomer = record alice { did = "did:key:bob" }

abbrev after : Registry
after = (add 8 true newcomer renamed).1

abbrev held : TokenStore
held = record { tokens = token ∷ []; disk = token ∷ [] }

good_for_alice : verify hash "s1" "alice" held ≡ ok token
unfolding verify find token_covers_peer
good_for_alice = refl

taken_over : add 8 true newcomer renamed ≡ (ok tt, after)
unfolding add rename lookup insert delete load store
taken_over = refl

authorize_for_peer-rename_example :
    (authorize_for_peer hash (some after) (some held) "s1" "alice"
      ≡ ok (record { did = "did:key:bob"; peer = dated 8 newcomer; token = token }))
    × (is_ok (authorize_for_peer hash (some after) (some held) "s1" "ann")
        ≡ token_covers_peer token "ann")
unfolding by_name_of add lookup insert load
authorize_for_peer-rename_example =
    authorize_for_peer-rename hash held "s1" "alice" "ann" token true true 8 (dated 7 alice)
      newcomer after (added 7 true alice start) refl refl refl refl refl good_for_alice refl
      taken_over

-- Running `init` on a peer that is there empties its threshold for questions.
threshold_emptied :
    by_name_of "business" (
      settle_peers
        (λ n. true)
        (chosen "morning" "log_silently")
        ("business" ∷ [])
        (add 7 true
          (record alice { name = "business"; settings = default_settings })
          empty_registry).1)
    ≡ some
        (record (dated 7 alice) { name = "business"; settings = chosen "morning" "log_silently" })
unfolding settle_peers update_settings by_name_of add lookup insert load store
threshold_emptied = refl
