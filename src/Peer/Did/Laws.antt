-- ===== src/Peer/Did/Laws.antt =====
-- internal/peer/did.go: the keys that a DID carries.
use Prim.Native.String.{◌++◌}
use coggo.Prelude.{
  ℕ, suc, ◌<◌, String, ◌≡◌, refl, ◌∙◌, true, false, Option, none, some, List, [], ◌∷◌, length, eqb,
  ltb, All, arith, Bool-cases, Option-cases, inl, inr, subst,
}
use coggo.Prelude.Texts.{cut_prefix, cut_prefix-append}
use coggo.Prelude.Result.{Result, ok, err, context, ◌>>=◌}
use coggo.Types.{Peer}
use coggo.Peer.Base58.{base58_decode}
use coggo.Peer.Base58.Laws.{base58_decode-base58_encode}
use coggo.Peer.Did.{
  Keys, multicodec, new_did, decode_public_key, new_peer, peer_with, did_key_prefix, unpacked,
  sized, without_multicodec, decode_multibase,
}

decode_public_key-text :
    (text : String)
    → decode_public_key (did_key_prefix ++ "z" ++ text)
      ≡ (context "did:key: base58" (base58_decode text) >>= unpacked)
unfolding decode_public_key
decode_public_key-text text =
    rw
      (cut_prefix-append did_key_prefix ("z" ++ text), decode_multibase, cut_prefix-append "z" text)
      refl

unpacked-multicodec : (key : List ℕ) → length key ≡ 32 → unpacked (multicodec key) ≡ ok key
unpacked-multicodec key size =
    let long : ltb (suc (suc (length key))) 34 ≡ false = ground arith in
    let exact : eqb (length key) 32 ≡ true = ground arith in rw (long, exact) refl

-- `NewPeer` returns a peer whose DID decodes to the public key of the peer, for a key of 32 bytes.
pub decode_public_key-new_peer :
    (keys : Keys) (name description : String)
    → length keys.public ≡ 32
    → All (λ b. b < 256) keys.public
    → (p : Peer) × (new_peer (some keys) name description ≡ some (ok p))
      × (decode_public_key p.did ≡ ok keys.public)
unfolding new_peer new_did
decode_public_key-new_peer keys name description size bytes =
    let h =
      base58_decode-base58_encode (multicodec keys.public) (omega arith, (omega arith, bytes)) in
    (
      peer_with name description (record { did = did_key_prefix ++ "z" ++ h.0; keys = keys }),
      rw h.1 refl,
      decode_public_key-text h.0 ∙ rw h.2 (unpacked-multicodec keys.public size),
    )

sized_length : (raw key : List ℕ) → sized raw ≡ ok key → length key ≡ 32
sized_length raw key h = elim (Bool-cases (eqb (length raw) 32)) [
  | inl e ↦ let same : raw ≡ key = ground arith in rw (← same) (ground arith)
  | inr e ↦ ground arith
]

without_multicodec-length : (raw key : List ℕ) → without_multicodec raw ≡ ok key → length key ≡ 32
without_multicodec-length [] key h = cc
without_multicodec-length (a ∷ []) key h = cc
without_multicodec-length (a ∷ b ∷ raw) key h = elim (Bool-cases (eqb a 237)) [
  | inl e ↦ elim (Bool-cases (eqb b 1)) [
    | inl f ↦ sized_length raw key (subst (λ r. r ≡ ok key) (ground arith) h)
    | inr f ↦ ground arith
  ]
  | inr e ↦ ground arith
]

unpacked-length : (raw key : List ℕ) → unpacked raw ≡ ok key → length key ≡ 32
unpacked-length raw key h = elim (Bool-cases (ltb (length raw) 34)) [
  | inl e ↦ ground arith
  | inr e ↦ without_multicodec-length raw key (ground arith)
]

bound_length :
    (r : Result (List ℕ)) (key : List ℕ)
    → (context "did:key: base58" r >>= unpacked) ≡ ok key
    → length key ≡ 32
bound_length (ok raw) key h = unpacked-length raw key h
bound_length (err e) key h = cc

-- the texts that pass both prefixes
multibase_length :
    (o : Option String) (key : List ℕ) → decode_multibase o ≡ ok key → length key ≡ 32
multibase_length none key h = cc
multibase_length (some body) key h = elim (Option-cases (cut_prefix "z" body)) [
  | inl e ↦ ground arith
  | inr c ↦ bound_length (base58_decode c.0) key (ground arith)
]

-- A text that decodes holds a key of 32 bytes.
pub length-decode_public_key :
    (did : String) (key : List ℕ) → decode_public_key did ≡ ok key → length key ≡ 32
unfolding decode_public_key
length-decode_public_key did key h = multibase_length (cut_prefix did_key_prefix did) key h
