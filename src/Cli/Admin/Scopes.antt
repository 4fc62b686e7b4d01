-- ===== src/Cli/Admin/Scopes.antt =====
-- internal/cli/tokens.go: for which peers the secret of `token create` is good.
use coggo.Prelude.{
  String, ◌≡◌, refl, ◌∙◌, ap, subst, ◌⊎◌, inl, inr, Bool, true, false, ◌||◌, not, none, some, List,
  [], ◌∷◌, any, All, find, is_empty, is_some, arith, ◌==◌, eq_refl, Bool-cases, Option-cases,
}
use coggo.Prelude.Result.{Result, ok, err, is_ok}
use coggo.Prelude.Distinct.{Lacks}
use coggo.Types.{Time, Token}
use coggo.Auth.Tokens.{TokenStore, token_covers_peer, new_token, covering, issue, verify}
use coggo.Auth.Tokens.Laws.{verify-issue}
use coggo.Peer.Registry.{Registry, by_name_of}
use coggo.Cli.Runtime.{Runtime}
use coggo.Cli.Admin.{missing_peer, scoped, with_tokens, issue_scoped, token_create}

find-none-All :
    {A : Type 0} (p : A → Bool) (xs : List A)
    → find (λ x. not (p x)) xs ≡ none
    → All (λ x. p x ≡ true) xs
unfolding find
find-none-All p [] h = tt
find-none-All p (x ∷ xs) h = elim (Bool-cases (p x)) [
  | inl e ↦ (e, find-none-All p xs (ground arith))
  | inr e ↦ absurd (ground arith)
]

scoped-ok :
    (every : Bool) (names peers : List String) (reg : Registry)
    → scoped every names reg ≡ ok peers
    → ((every ≡ true) × (peers ≡ "*" ∷ []))
      ⊎ ((every ≡ false)
          × (peers ≡ names)
          × (is_empty names ≡ false)
          × All (λ n. is_some (by_name_of n reg) ≡ true) names)
scoped-ok true names peers reg h = inl (refl, ground arith)
scoped-ok false [] peers reg h = cc
scoped-ok false (n ∷ names) peers reg h = elim (Option-cases (missing_peer reg (n ∷ names))) [
  | inl e ↦
      inr (refl, ground arith, refl, find-none-All (λ k. is_some (by_name_of k reg)) (n ∷ names) e)
  | inr (k, e) ↦ absurd (ground (arith, e))
]

module _ (hash : String → String) (now : Time) (id secret : String) (flushed : Bool)
    (label : String) where
  issue-verdict :
      (peers : List String) (s : TokenStore) (peer : String)
      → is_empty peers ≡ false
      → Lacks (λ (t : Token). t.secret_hash) (hash secret) s.tokens
      → is_ok (verify hash secret peer (issue hash now id (some secret) flushed peers label s).1)
        ≡ any (λ p. (p == "*") || (p == peer)) peers
  unfolding token_covers_peer
  issue-verdict peers s peer given lacks =
      ap is_ok (
        verify-issue hash now id secret flushed peers label s secret peer given lacks
        ∙ rw (eq_refl (hash secret)) refl)
      ∙ verdict (any (λ p. (p == "*") || (p == peer)) peers) refl
    where
      verdict :
          (b : Bool)
          → any (λ p. (p == "*") || (p == peer)) peers ≡ b
          → is_ok (covering hash (some (new_token hash now id secret peers label)) peer)
            ≡ any (λ p. (p == "*") || (p == peer)) peers
      verdict true e = rw e refl
      verdict false e = rw e refl

  -- The auth store that the command leaves, for the peers that it settled on.
  with_tokens-auth :
      (rt rt' : Runtime) (i : String × String) (o : Result (String × String) × TokenStore)
      → with_tokens rt o ≡ (ok i, rt')
      → o.1 ≡ rt'.auth
  with_tokens-auth rt rt' i (r, auth) h =
      ap (λ (x : Result (String × String) × Runtime). x.1.auth) h

  settled_peers :
      (r : Result (List String)) (rt rt' : Runtime) (i : String × String)
      → issue_scoped hash now id (some secret) flushed label r rt ≡ (ok i, rt')
      → (peers : List String) × (r ≡ ok peers)
        × ((issue hash now id (some secret) flushed peers label rt.auth).1 ≡ rt'.auth)
  settled_peers (err e) rt rt' i h = absurd (ground arith)
  settled_peers (ok peers) rt rt' i h = (
    peers,
    refl,
    with_tokens-auth rt rt' i (issue hash now id (some secret) flushed peers label rt.auth) h,
  )

  -- After a `token create` that succeeds with a secret whose hash is new, `Verify` takes the secret for
  -- every peer with `--all`, and else exactly for the names that were given, each of which a peer of the
  -- registry has; a name `*` among them stands for every peer.
  pub verify-token_create :
      (every : Bool) (names : List String) (rt rt' : Runtime) (i : String × String) (peer : String)
      → Lacks (λ (t : Token). t.secret_hash) (hash secret) rt.auth.tokens
      → token_create hash now id (some secret) flushed label every names rt ≡ (ok i, rt')
      → (is_ok (verify hash secret peer rt'.auth)
          ≡ (every || any (λ p. (p == "*") || (p == peer)) names))
        × ((every ≡ true) ⊎ All (λ n. is_some (by_name_of n rt.registry) ≡ true) names)
  unfolding token_create
  verify-token_create every names rt rt' i peer lacks h =
      let s = settled_peers (scoped every names rt.registry) rt rt' i h in
      elim (scoped-ok every names s.0 rt.registry s.1) [
        | inl (all, same) ↦ (
          subst
              (λ a.
                is_ok (verify hash secret peer a)
                ≡ (every || any (λ p. (p == "*") || (p == peer)) names))
              s.2 (rw (all, same) (issue-verdict ("*" ∷ []) rt.auth peer refl lacks)),
          inl all,
        )
        | inr (some_only, same, given, known) ↦ (
          subst
              (λ a.
                is_ok (verify hash secret peer a)
                ≡ (every || any (λ p. (p == "*") || (p == peer)) names))
              s.2 (rw (some_only, same) (issue-verdict names rt.auth peer given lacks)),
          inr known,
        )
      ]
