-- ===== src/Auth/Tokens/Laws.antt =====
-- What `Verify` of internal/auth/tokens.go answers after `Issue`, `Revoke`, `touch` and a restart.
use coggo.Prelude.{
  String, ◌≡◌, refl, ◌∙◌, sym, ap, subst, Bool, true, false, ◌&&◌, none, some, List, [], ◌∷◌, ◌++◌,
  inl, inr, arith, ◌==◌, eq_iff, find, find-holds, find-none, any-find, All-find, is_empty,
  Bool-cases, Option-cases, if◌then◌else◌,
}
use coggo.Prelude.Result.{ok, is_ok}
use coggo.Prelude.Distinct.{Lacks, Distinct}
use coggo.Types.{Time, Token}
use coggo.Auth.Tokens.{
  TokenStore, reopen, token_covers_peer, remove_token, touch_first, revoke, touch, new_token,
  with_token, issue, covering, verify, flush_locked, has_token,
}

-- the hashes and the ids are all different, as the random source makes them
pub record IsSound (s : TokenStore) : Type 0 where
  pub hashes : Distinct (λ (t : Token). t.secret_hash) s.tokens
  pub ids : Distinct (λ (t : Token). t.id) s.tokens

module _ (hash : String → String) where
  covered-missing : (peer : String) (t : Token) → covering hash none peer ≡ ok t → ⊥
  covered-missing peer t h = cc

  covered :
      (peer : String) (u t : Token)
      → covering hash (some u) peer ≡ ok t
      → (u ≡ t) × (token_covers_peer t peer ≡ true)
  covered peer u t h = elim (Bool-cases (token_covers_peer u peer)) [
    | inl e ↦
        let same : u ≡ t = ground (arith, e) in
        (same, subst (λ v. token_covers_peer v peer ≡ true) same e)
    | inr e ↦ absurd (ground arith)
  ]

  -- A token that `Verify` gives is in the store's order the first with the secret's hash, and it
  -- covers the peer.
  pub verify_sound :
      (secret peer : String) (s : TokenStore) (t : Token)
      → verify hash secret peer s ≡ ok t
      → (find (λ u. u.secret_hash == hash secret) s.tokens ≡ some t)
        × ((t.secret_hash ≡ hash secret) × (token_covers_peer t peer ≡ true))
  unfolding verify
  verify_sound secret peer s t h =
      elim (Option-cases (find (λ u. u.secret_hash == hash secret) s.tokens)) [
        | inl e ↦ absurd (covered-missing peer t (sym (ap (λ o. covering hash o peer) e) ∙ h))
        | inr (u, e) ↦
            let (same, covers) = covered peer u t (sym (ap (λ o. covering hash o peer) e) ∙ h) in
            let first = e ∙ ap some same in
            (
              first,
              (
                (eq_iff t.secret_hash (hash secret)).0
                    (find-holds (λ u. u.secret_hash == hash secret) s.tokens t first),
                covers,
              ),
            )
      ]

  -- A search by hash finds the new token where no other has its hash, and else what it found.
  find-added :
      (h k : String) (t : Token) (ts : List Token)
      → t.secret_hash ≡ h
      → Lacks (λ (u : Token). u.secret_hash) h ts
      → find (λ u. u.secret_hash == k) (ts ++ t ∷ [])
        ≡ (if h == k then some t else find (λ u. u.secret_hash == k) ts)
  unfolding find
  find-added h k t [] e l = rw e
  find-added h k t (u ∷ ts) e l = ground (
    arith,
    find-added h k t ts e l.1,
    l.0,
    eq_iff u.secret_hash k,
    eq_iff h k,
    eq_iff u.secret_hash h,
  )

  flush_locked-tokens :
      (flushed : Bool) (s : TokenStore) → (flush_locked flushed s).tokens ≡ s.tokens
  flush_locked-tokens true s = refl
  flush_locked-tokens false s = refl

  -- After a token is made with a secret whose hash no token has, `Verify` decides by the new token
  -- for a secret with that hash, and as before for every other, whether the file was written or not.
  pub verify-issue :
      (now : Time) (id secret : String) (flushed : Bool) (peers : List String) (label : String)
      (s : TokenStore) (other peer : String)
      → is_empty peers ≡ false
      → Lacks (λ (t : Token). t.secret_hash) (hash secret) s.tokens
      → verify hash other peer (issue hash now id (some secret) flushed peers label s).1 ≡ (
          if hash secret == hash other
          then covering hash (some (new_token hash now id secret peers label)) peer
          else verify hash other peer s)
  unfolding verify issue
  verify-issue now id secret flushed peers label s other peer given lacks =
      let t : Token = new_token hash now id secret peers label in
      rw
        (
          given,
          flush_locked-tokens flushed (with_token hash t s),
          find-added (hash secret) (hash other) t s.tokens refl lacks,
        )
        (ground arith)

  -- Once the token with the id is dropped, a search by its hash finds nothing.
  find-removed :
      (k : String) (t : Token) (ts : List Token)
      → Distinct (λ (u : Token). u.secret_hash) ts
      → find (λ u. u.id == t.id) ts ≡ some t
      → find (λ u. u.secret_hash == k) (remove_token t.id ts)
        ≡ (if t.secret_hash == k then none else find (λ u. u.secret_hash == k) ts)
  unfolding find remove_token
  find-removed k t [] d held = absurd (ground arith)
  find-removed k t (u ∷ ts) d held = elim (Bool-cases (u.id == t.id)) [
    | inl e ↦ elim (Bool-cases (t.secret_hash == k)) [
      | inl same ↦
          rw (e, same)
            (find-none (λ w. w.secret_hash == k) ts
              (subst (λ h. Lacks (λ (w : Token). w.secret_hash) h ts)
                (ap (λ (w : Token). w.secret_hash) (first e) ∙ (eq_iff t.secret_hash k).0 same)
                d.0))
      | inr other ↦ rw (e, other, ap (λ (w : Token). w.secret_hash == k) (first e) ∙ other)
    ]
    | inr e ↦
        let rest : find (λ w. w.id == t.id) ts ≡ some t = ground (arith, e, held) in
        let apart =
          All-find (λ (w : Token). (w.secret_hash == u.secret_hash) ≡ false) (λ w. w.id == t.id) ts
            t d.0 rest in
        ground (
          arith,
          e,
          apart,
          find-removed k t ts d.1 rest,
          eq_iff t.secret_hash k,
          eq_iff u.secret_hash k,
          eq_iff t.secret_hash u.secret_hash,
        )
  ]
    where
      first : (u.id == t.id) ≡ true → u ≡ t
      first e = ground (arith, e, held)

  -- After `Revoke` of a token that the store holds, where hashes and ids are all different, `Verify`
  -- knows no secret with that token's hash any more and decides as before for every other, whether
  -- the file was written or not.
  pub verify-revoke :
      (flushed : Bool) (t : Token) (s : TokenStore) (secret peer : String)
      → IsSound s
      → find (λ u. u.id == t.id) s.tokens ≡ some t
      → verify hash secret peer (revoke flushed t.id s).1 ≡ (
          if t.secret_hash == hash secret
          then covering hash none peer
          else verify hash secret peer s)
  unfolding verify revoke
  verify-revoke flushed t s secret peer sound held =
      rw
        (
          any-find (λ u. u.id == t.id) s.tokens,
          held,
          flush_locked-tokens flushed (record s { tokens = remove_token t.id s.tokens }),
          find-removed (hash secret) t s.tokens sound.hashes held,
        )
        (ground arith)

  -- What the program knows after a restart is what the file has: a token revoked while the file could
  -- not be written is back, with the answers that `Verify` gave from the file before.
  pub reopen-revoke :
      (flushed : Bool) (id secret peer : String) (s : TokenStore)
      → verify hash secret peer (reopen (revoke flushed id s).1) ≡ (
          if flushed && has_token id s.tokens
          then verify hash secret peer (revoke flushed id s).1
          else verify hash secret peer (reopen s))
  unfolding revoke reopen
  reopen-revoke true id secret peer s = ground arith
  reopen-revoke false id secret peer s = ground arith

  touched-covering :
      (now : Time) (id k peer : String) (ts : List Token)
      → is_ok (covering hash (find (λ u. u.secret_hash == k) (touch_first now id ts)) peer)
        ≡ is_ok (covering hash (find (λ u. u.secret_hash == k) ts) peer)
  unfolding find touch_first token_covers_peer
  touched-covering now id k peer [] = refl
  touched-covering now id k peer (u ∷ ts) = ground (arith, touched-covering now id k peer ts)

  -- The date of a use, which `Verify` sets on its own thread, changes no decision: a secret is let in
  -- to a peer after any `touch` exactly if it was before.
  pub verify-touch :
      (now : Time) (flushed : Bool) (id secret peer : String) (s : TokenStore)
      → is_ok (verify hash secret peer (touch now flushed id s)) ≡ is_ok (verify hash secret peer s)
  unfolding verify touch
  verify-touch now flushed id secret peer s = elim (Bool-cases (has_token id s.tokens)) [
    | inl e ↦
        rw (e, flush_locked-tokens flushed (record s { tokens = touch_first now id s.tokens }))
          (touched-covering now id (hash secret) peer s.tokens)
    | inr e ↦ rw e
  ]
