-- ===== src/Peer/Did.antt =====
-- internal/peer/did.go: did:key identities. `ed25519.GenerateKey` is a parameter, the keys that it
-- gives; `none` where the random source fails.
pub mod Laws
use Prim.Native.String.{◌++◌}
use coggo.Prelude.{
  ℕ, zero, suc, String, ◌==◌, Bool, true, false, Option, none, some, List, [], ◌∷◌, length, eqb,
  ltb, if◌then◌else◌,
}
use coggo.Prelude.Texts.{cut_prefix}
use coggo.Prelude.Result.{Result, ok, err, message, wrap, context, ◌>>=◌}
use coggo.Types.{Peer, PeerSettings, zero_time}
use coggo.Peer.Base58.{base58_encode, base58_decode}

pub record Keys : Type 0 where
  pub public : List ℕ
  pub private : List ℕ

pub record Identity : Type 0 where
  pub did : String
  pub keys : Keys

abbrev pub did_key_prefix : String
did_key_prefix = "did:key:"

-- `ed25519.PublicKeySize`
abbrev pub public_key_size : ℕ
public_key_size = 32

-- the two bytes of `ed25519MulticodecPrefix`, before the key
abbrev pub multicodec : List ℕ → List ℕ
multicodec pub_key = 237 ∷ 1 ∷ pub_key

abbrev pub identified : Keys → Option String → Option (Result Identity)
identified keys none = none
identified keys (some body) =
    some (ok (record { did = did_key_prefix ++ "z" ++ body; keys = keys }))

-- `none` where `base58Encode` does not return.
unfoldable pub new_did : Option Keys → Option (Result Identity)
new_did none = some (err (wrap "ed25519" (message "random source")))
new_did (some keys) = identified keys (base58_encode (multicodec keys.public))

abbrev pub sized : List ℕ → Result (List ℕ)
sized key =
    if eqb (length key) public_key_size
    then ok key
    else err (message "did:key: expected 32-byte ed25519 pubkey")

abbrev pub without_multicodec : List ℕ → Result (List ℕ)
without_multicodec (a ∷ b ∷ key) =
    if eqb a 237
    then if eqb b 1 then sized key else err (message "did:key: not an ed25519-pub multicodec")
    else err (message "did:key: not an ed25519-pub multicodec")
without_multicodec _ = err (message "did:key: payload too short")

abbrev pub unpacked : List ℕ → Result (List ℕ)
unpacked raw =
    if ltb (length raw) 34
    then err (message "did:key: payload too short")
    else without_multicodec raw

-- the text after `did:key:`
abbrev pub decode_multibase : Option String → Result (List ℕ)
decode_multibase none = err (message "not a did:key")
decode_multibase (some body) = elim (cut_prefix "z" body) [
  | none ↦ err (message "did:key: only multibase base58btc ('z') supported")
  | some text ↦ context "did:key: base58" (base58_decode text) >>= unpacked
]

unfoldable pub decode_public_key : String → Result (List ℕ)
unfolding cut_prefix
decode_public_key did = decode_multibase (cut_prefix did_key_prefix did)

abbrev pub default_settings : PeerSettings
default_settings = record {
  default_clarification_threshold = "ask_when_ambiguous";
  briefing_frequency = "on_demand";
  briefing_time = "";
  capture_confirmation = "log_and_tell";
}

abbrev pub peer_with : String → String → Identity → Peer
peer_with name description identity = record {
  did = identity.did;
  name = name;
  description = description;
  private_key = identity.keys.private;
  public_key = identity.keys.public;
  created_at = zero_time;
  settings = default_settings;
}

abbrev pub made_peer : String → String → Option (Result Identity) → Option (Result Peer)
made_peer name description none = none
made_peer name description (some (err e)) = some (err e)
made_peer name description (some (ok identity)) = some (ok (peer_with name description identity))

unfoldable pub new_peer : Option Keys → String → String → Option (Result Peer)
unfolding new_did
new_peer generated name description = made_peer name description (new_did generated)
