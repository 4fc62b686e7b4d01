-- ===== src/Mcp/Authorize/Laws.antt =====
-- Whom `authorizeForPeer` of internal/mcp/auth.go lets in.
use coggo.Prelude.{
  String, ◌≡◌, refl, ◌∙◌, sym, ap, inl, inr, true, false, ◌==◌, ◌||◌, any, find, Option, none, some,
  arith, Bool-cases,
}
use coggo.Prelude.Result.{Result, ok, err}
use coggo.Types.{Peer, Token}
use coggo.Peer.Registry.{Registry, resolve}
use coggo.Auth.Tokens.{TokenStore, token_covers_peer, verify}
use coggo.Auth.Tokens.Laws.{verify_sound}
use coggo.Mcp.Authorize.{Grant, granted, checked, authorize_for_peer}

module _ (hash : String → String) where
  -- what a grant rests on
  pub record Rests (secret key : String) (reg : Registry) (auth : TokenStore) (g : Grant)
      : Type 0 where
    pub keyed : (key == "") ≡ false
    pub secret_given : (secret == "") ≡ false
    pub peer_known : resolve key reg ≡ ok g.peer
    pub same_did : g.did ≡ g.peer.did
    pub held : find (λ t. t.secret_hash == hash secret) auth.tokens ≡ some g.token
    pub hashed : g.token.secret_hash ≡ hash secret
    pub covering : any (λ p. (p == "*") || (p == g.peer.name)) g.token.peers ≡ true

  granted_sound :
      (p : Peer) (t : Result Token) (g : Grant)
      → granted hash p t ≡ ok g
      → (t ≡ ok g.token) × ((g.peer ≡ p) × (g.did ≡ p.did))
  granted_sound p (err e) g h = absurd (ground arith)
  granted_sound p (ok t) g h =
      let same : record { did = p.did; peer = p; token = t } ≡ g = ground arith in
      (
        ap (λ (x : Grant). ok x.token) same,
        (sym (ap (λ (x : Grant). x.peer) same), sym (ap (λ (x : Grant). x.did) same)),
      )

  checked_sound :
      (secret key : String) (p : Result Peer) (reg : Registry) (auth : TokenStore) (g : Grant)
      → (key == "") ≡ false
      → resolve key reg ≡ p
      → checked hash secret key p auth ≡ ok g
      → Rests secret key reg auth g
  checked_sound secret key (err e) reg auth g keyed found h = absurd (ground arith)
  checked_sound secret key (ok p) reg auth g keyed found h = elim (Bool-cases (secret == "")) [
    | inl bare ↦ absurd (ground (arith, bare, h))
    | inr given ↦
        let (right, (whom, did)) =
          granted_sound p (verify hash secret p.name auth) g (ground (arith, given, h)) in
        let (first, (hashed, covers)) = verify_sound hash secret p.name auth g.token right in
        record {
          keyed = keyed;
          secret_given = given;
          peer_known = found ∙ ap ok (sym whom);
          same_did = did ∙ ap (λ (q : Peer). q.did) (sym whom);
          held = first;
          hashed = hashed;
          covering =
              ap (λ (q : Peer). any (λ p. (p == "*") || (p == q.name)) g.token.peers) whom
              ∙ (unfold token_covers_peer in covers);
        }
  ]

  -- A call that is let in named a peer and brought a secret, neither of them empty; the server had its
  -- registry and its token store; the registry resolves the name to the peer of the grant, whose DID
  -- the grant has; and the token of the grant is the first of the store with the secret's hash, and names
  -- that peer or `*`.
  pub authorize_for_peer_sound :
      (registry : Option Registry) (auth : Option TokenStore) (secret key : String) (g : Grant)
      → authorize_for_peer hash registry auth secret key ≡ ok g
      → (r : Registry) × (a : TokenStore) × (registry ≡ some r)
        × ((auth ≡ some a) × Rests secret key r a g)
  unfolding authorize_for_peer
  authorize_for_peer_sound none auth secret key g h = absurd (ground arith)
  authorize_for_peer_sound (some r) none secret key g h = absurd (ground arith)
  authorize_for_peer_sound (some r) (some a) secret key g h = elim (Bool-cases (key == "")) [
    | inl bare ↦ absurd (ground (arith, bare, h))
    | inr keyed ↦ (
      r,
      a,
      refl,
      (refl, checked_sound secret key (resolve key r) r a g keyed refl (ground (arith, keyed, h))),
    )
  ]
