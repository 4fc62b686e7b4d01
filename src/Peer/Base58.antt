-- ===== src/Peer/Base58.antt =====
-- `base58Encode` and `base58Decode` of internal/peer/did.go. Bytes are numbers below 256, a
-- `big.Int` is a number, and `set_bytes` and `bytes` are its methods `SetBytes` and `Bytes`.
pub mod Bytes
pub mod Laws
use Prim.Native.Char.{Char, code}
use coggo.Prelude.{
  ℕ, zero, suc, ◌+◌, ◌*◌, ◌/◌, ◌%◌, String, Bool, true, false, Option, none, some, List, [], ◌∷◌,
  ◌++◌, eqb, if◌then◌else◌,
}
use coggo.Prelude.Result.{Result, ok, err, message}

abbrev pub base58_alphabet : String
base58_alphabet = "123456789ABCDEFGHJKLMNPQRSTUVWXYZabcdefghijkmnopqrstuvwxyz"

-- `base58Alphabet[i]`; `none` is an index out of range
unfoldable pub symbol_at : ℕ → String → Option Char
symbol_at i String.[] = none
symbol_at zero (String.◌∷◌ c s) = some c
symbol_at (suc i) (String.◌∷◌ c s) = symbol_at i s

abbrev pub one_further : Option ℕ → Option ℕ
one_further none = none
one_further (some i) = some (suc i)

-- `strings.IndexByte`
unfoldable pub index_byte : String → ℕ → Option ℕ
index_byte String.[] k = none
index_byte (String.◌∷◌ c s) k =
    let later = one_further (index_byte s k) in if eqb (code c) k then some 0 else later

-- how many zero bytes lead
unfoldable pub leading_zeros : List ℕ → ℕ
leading_zeros [] = 0
leading_zeros (zero ∷ bs) = suc (leading_zeros bs)
leading_zeros (suc b ∷ bs) = 0

-- how many times the digit zero, `1`, leads
unfoldable pub leading_ones : String → ℕ
leading_ones String.[] = 0
leading_ones (String.◌∷◌ c s) =
    let rest = suc (leading_ones s) in if eqb (code c) 49 then rest else 0

unfoldable pub set_bytes : ℕ → List ℕ → ℕ
set_bytes x [] = x
set_bytes x (b ∷ bs) = set_bytes (x * 256 + b) bs

-- The least number of bytes, the highest first. A number is its own bound on the rounds.
unfoldable pub bytes_loop : ℕ → ℕ → List ℕ → List ℕ
bytes_loop zero x out = out
bytes_loop (suc rounds) x out = elim (eqb x 0) [
  | true ↦ out
  | false ↦ bytes_loop rounds (x / 256) (x % 256 ∷ out)
]

abbrev pub bytes : ℕ → List ℕ
bytes x = bytes_loop x x []

-- `for x.Sign() > 0`. The source appends each symbol and turns the text round after the loop.
-- `none` where the rounds run out before the loop ends, or the index is out of range.
unfoldable pub encode_loop : ℕ → ℕ → String → Option String
encode_loop zero x out = none
encode_loop (suc rounds) x out = elim (eqb x 0) [
  | true ↦ some out
  | false ↦ elim (symbol_at (x % 58) base58_alphabet) [
    | none ↦ none
    | some c ↦ encode_loop rounds (x / 58) (String.◌∷◌ c out)
  ]
]

-- `strings.Repeat("1", n) + s`
unfoldable pub after_ones : ℕ → String → String
after_ones zero s = s
after_ones (suc n) s = String.◌∷◌ "1" (after_ones n s)

abbrev pub led_by : ℕ → Option String → Option String
led_by n none = none
led_by n (some s) = some (after_ones n s)

unfoldable pub base58_encode : List ℕ → Option String
base58_encode input =
    let x = set_bytes 0 input in led_by (leading_zeros input) (encode_loop (suc x) x "")

-- The loop over the whole text; the byte that the error names is left out.
unfoldable pub decode_loop : ℕ → String → Result ℕ
decode_loop x String.[] = ok x
decode_loop x (String.◌∷◌ c s) = elim (index_byte base58_alphabet (code c)) [
  | none ↦ err (message "invalid base58 character")
  | some d ↦ decode_loop (x * 58 + d) s
]

-- `out[zeros:]` holds the bytes, and what goes before them is zero.
unfoldable pub zeros_then : ℕ → List ℕ → List ℕ
zeros_then zero bs = bs
zeros_then (suc n) bs = 0 ∷ zeros_then n bs

abbrev pub padded : ℕ → Result ℕ → Result (List ℕ)
padded n (err e) = err e
padded n (ok x) = ok (zeros_then n (bytes x))

unfoldable pub base58_decode : String → Result (List ℕ)
base58_decode s = padded (leading_ones s) (decode_loop 0 s)
