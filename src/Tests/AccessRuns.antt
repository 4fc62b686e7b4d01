-- ===== src/Tests/AccessRuns.antt =====
-- The theorems of the tokens, the peers and the authorization at concrete inputs.
use coggo.Prelude.{◌≡◌, refl, true, false, none, some, [], ◌∷◌, find, lookup, insert}
use coggo.Prelude.Result.{ok}
use coggo.Auth.Tokens.{TokenStore, reopen, revoke, covering, verify, token_covers_peer}
use coggo.Auth.Tokens.Laws.{verify-revoke, reopen-revoke}
use coggo.Peer.Registry.{
  Registry, empty_registry, add, rename, by_name_of, by_did_of, load, resolve,
}
use coggo.Peer.Registry.Reached.{start, added, by_did_of-by_name_of}
use coggo.Peer.Registry.Laws.{rename-seen}
use coggo.Mcp.Authorize.{Grant, authorize_for_peer}
use coggo.Mcp.Authorize.Laws.{Rests, authorize_for_peer_sound}
use coggo.Tests.Data.{me, alice, hash, token}

abbrev no_tokens : TokenStore
no_tokens = record { tokens = []; disk = [] }

abbrev one_token : TokenStore
one_token = record { tokens = token ∷ []; disk = token ∷ [] }

verify-revoke_example :
    verify hash "s1" "alice" (revoke true "t1" one_token).1 ≡ covering hash none "alice"
verify-revoke_example =
    verify-revoke hash true token one_token "s1" "alice"
      (record { hashes = (tt, tt); ids = (tt, tt) }) (unfold find in refl)

reopen-revoke_example :
    verify hash "s1" "alice" (reopen (revoke false "t1" one_token).1)
    ≡ verify hash "s1" "alice" (reopen one_token)
reopen-revoke_example = reopen-revoke hash false "t1" "s1" "alice" one_token

-- a registry with one peer
abbrev registry : Registry
registry = (add 7 true alice empty_registry).1

found_by_name : by_name_of "alice" registry ≡ some alice
unfolding by_name_of add lookup insert load
found_by_name = refl

found_by_did : by_did_of me registry ≡ some alice
unfolding by_did_of add lookup insert load
found_by_did = refl

free_name : by_name_of "bob" registry ≡ none
unfolding by_name_of add lookup insert load
free_name = refl

by_did_of-by_name_of_example : (alice.name ≡ "alice") × (by_did_of me registry ≡ some alice)
by_did_of-by_name_of_example =
    by_did_of-by_name_of "alice" alice (added 7 true alice start) found_by_name

rename-seen_example :
    (by_name_of "bob" (rename true "alice" "bob" registry).1 ≡ some (record alice { name = "bob" }))
    × (by_did_of me (rename true "alice" "bob" registry).1 ≡ some (record alice { name = "bob" }))
rename-seen_example =
    rename-seen true "alice" "bob" "bob" me alice (added 7 true alice start) found_by_name free_name

abbrev grant : Grant
grant = record { did = me; peer = alice; token = token }

let_in : authorize_for_peer hash (some registry) (some one_token) "s1" "alice" ≡ ok grant
unfolding authorize_for_peer resolve by_name_of add lookup insert load verify find token_covers_peer
let_in = refl

authorize_for_peer_sound_example :
    (r : Registry) × (a : TokenStore) × (some registry ≡ some r)
    × ((some one_token ≡ some a) × Rests hash "s1" "alice" r a grant)
authorize_for_peer_sound_example =
    authorize_for_peer_sound hash (some registry) (some one_token) "s1" "alice" grant let_in
