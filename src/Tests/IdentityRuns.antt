-- ===== src/Tests/IdentityRuns.antt =====
-- Runs of the identities of internal/peer/did.go.
use coggo.Prelude.{ℕ, ◌≡◌, refl, List, [], ◌∷◌, ◌++◌, some, String}
use coggo.Prelude.Result.{ok, err, message}
use coggo.Types.{Peer}
use coggo.Peer.Base58.{
  base58_encode, base58_decode, symbol_at, index_byte, leading_zeros, leading_ones, set_bytes,
  bytes_loop, encode_loop, after_ones, decode_loop, zeros_then,
}
use coggo.Peer.Base58.Bytes.{All-below_256}
use coggo.Peer.Base58.Laws.{base58_decode-base58_encode}
use coggo.Prelude.Texts.{cut_prefix}
use coggo.Peer.Did.{Keys, decode_public_key, new_peer}
use coggo.Peer.Did.Laws.{decode_public_key-new_peer}

abbrev eight : List ℕ
eight = 61 ∷ 64 ∷ 23 ∷ 199 ∷ 0 ∷ 255 ∷ 7 ∷ 16 ∷ []

abbrev test_keys : Keys
test_keys = record { public = eight ++ eight ++ eight ++ eight; private = 1 ∷ 2 ∷ [] }

hello_text : base58_encode (0 ∷ 0 ∷ 104 ∷ 105 ∷ []) ≡ some "118wr"
unfolding base58_encode set_bytes encode_loop after_ones leading_zeros symbol_at
hello_text = refl

base58_decode-base58_encode_example :
    (s : String) × (base58_encode (0 ∷ 0 ∷ 104 ∷ 105 ∷ []) ≡ some s)
    × (base58_decode s ≡ ok (0 ∷ 0 ∷ 104 ∷ 105 ∷ []))
base58_decode-base58_encode_example =
    base58_decode-base58_encode (0 ∷ 0 ∷ 104 ∷ 105 ∷ [])
      (All-below_256 (0 ∷ 0 ∷ 104 ∷ 105 ∷ []) refl)

decode_public_key-new_peer_example :
    (p : Peer) × (new_peer (some test_keys) "alice" "" ≡ some (ok p))
    × (decode_public_key p.did ≡ ok test_keys.public)
decode_public_key-new_peer_example =
    decode_public_key-new_peer test_keys "alice" "" refl (All-below_256 test_keys.public refl)

abbrev test_did : String
test_did = "did:key:z6MkiaMbhfSGPpcT7xaNwMNDSaC5F44xLJU4Wm6kxkfraZnf"

-- The literal `z6Mk` comes of the encoding.
made_did : decode_public_key test_did ≡ ok test_keys.public
unfolding decode_public_key cut_prefix base58_decode leading_ones decode_loop index_byte bytes_loop
    zeros_then
made_did = refl

wrong_method : decode_public_key "did:web:a" ≡ err (message "not a did:key")
unfolding decode_public_key cut_prefix
wrong_method = refl
