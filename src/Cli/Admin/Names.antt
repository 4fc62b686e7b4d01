-- ===== src/Cli/Admin/Names.antt =====
-- internal/cli/peers.go and internal/mcp/auth.go: what a rename does to the tokens that name the peer.
use coggo.Prelude.{
  String, ◌==◌, ◌≡◌, refl, ◌∙◌, sym, subst, Bool, false, none, some, find, eq_refl, Bool-cases, inl,
  inr,
}
use coggo.Prelude.Result.{ok, is_ok}
use coggo.Types.{Time, Token, Peer}
use coggo.Auth.Tokens.{TokenStore, token_covers_peer, verify}
use coggo.Auth.Tokens.Laws.{verify_sound}
use coggo.Peer.Registry.{Registry, by_name_of, add, dated, rename, resolve}
use coggo.Peer.Registry.Reached.{Reached}
use coggo.Peer.Registry.Laws.{rename-seen}
use coggo.Peer.Registry.Added.{add-by_name, add-by_name_other}
use coggo.Mcp.Authorize.{authorize_for_peer}

resolve-by_name :
    (key : String) (p : Peer) (r : Registry) → by_name_of key r ≡ some p → resolve key r ≡ ok p
unfolding resolve
resolve-by_name key p r e = rw (resolve, e) refl

module _ (hash : String → String) (reg : Registry) (auth : TokenStore) (secret : String) (q : Peer)
    (t : Token) (named : (q.name == "") ≡ false) (given : (secret == "") ≡ false)
    (found : by_name_of q.name reg ≡ some q) where
  granted_by_name :
      verify hash secret q.name auth ≡ ok t
      → authorize_for_peer hash (some reg) (some auth) secret q.name
        ≡ ok (record { did = q.did; peer = q; token = t })
  unfolding authorize_for_peer
  granted_by_name good = rw (named, resolve-by_name q.name q reg found, given, good) refl

  granted_if_covered :
      find (λ u. u.secret_hash == hash secret) auth.tokens ≡ some t
      → is_ok (authorize_for_peer hash (some reg) (some auth) secret q.name)
        ≡ token_covers_peer t q.name
  unfolding authorize_for_peer verify
  granted_if_covered first = elim (Bool-cases (token_covers_peer t q.name)) [
    | inl e ↦ rw (named, resolve-by_name q.name q reg found, given, first, e) refl
    | inr e ↦ rw (named, resolve-by_name q.name q reg found, given, first, e) refl
  ]

-- In a registry that `Open` of a file in which no name and no DID comes twice, `Add`, `Rename` and
-- `UpdateSettings` lead to, for names and a secret that are not empty: where a peer is renamed to a free
-- name and another peer then takes the old name, a secret that was good for the old name lets its holder
-- in to the new peer under that name, and in to the renamed one exactly if its token covers the new name.
pub authorize_for_peer-rename :
    (hash : String → String) (auth : TokenStore) (secret old_name new_name : String) (t : Token)
    (flushed flushed' : Bool) (now : Time) (p q : Peer) {r : Registry} (r' : Registry)
    → Reached r
    → by_name_of old_name r ≡ some p
    → by_name_of new_name r ≡ none
    → (old_name == "") ≡ false
    → (new_name == "") ≡ false
    → (secret == "") ≡ false
    → verify hash secret old_name auth ≡ ok t
    → q.name ≡ old_name
    → add now flushed' q (rename flushed old_name new_name r).1 ≡ (ok tt, r')
    → (authorize_for_peer hash (some r') (some auth) secret old_name
        ≡ ok (record { did = q.did; peer = dated now q; token = t }))
      × (is_ok (authorize_for_peer hash (some r') (some auth) secret new_name)
          ≡ token_covers_peer t new_name)
authorize_for_peer-rename hash auth secret old_name new_name t flushed flushed' now p q {r} r'
      reached there free named named' given good same h =
    let moved_to : by_name_of new_name (rename flushed old_name new_name r).1
        ≡ some (record p { name = new_name }) =
      (rename-seen flushed old_name new_name new_name "" p reached there free).0
      ∙ rw (eq_refl new_name) refl in
    (
      subst
          (λ n.
            authorize_for_peer hash (some r') (some auth) secret n
            ≡ ok (record { did = q.did; peer = dated now q; token = t }))
          same
          (granted_by_name hash r' auth secret (dated now q) t
            (subst (λ n. (n == "") ≡ false) (sym same) named) given
            (add-by_name now flushed' q (rename flushed old_name new_name r).1 r' h)
            (subst (λ n. verify hash secret n auth ≡ ok t) (sym same) good)),
      granted_if_covered hash r' auth secret (record p { name = new_name }) t named' given
          (add-by_name_other now flushed' q (record p { name = new_name }) new_name
            (rename flushed old_name new_name r).1 r' h moved_to)
          (verify_sound hash secret old_name auth t good).0,
    )
