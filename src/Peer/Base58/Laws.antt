-- ===== src/Peer/Base58/Laws.antt =====
-- internal/peer/did.go: the loops of `base58Encode` and `base58Decode`.
use Prim.Native.Char.{Char, code}
use coggo.Prelude.{
  ℕ, zero, suc, ◌+◌, ◌*◌, ◌/◌, ◌%◌, ◌<◌, String, ◌≡◌, refl, ◌∙◌, ap, subst, inl, inr, Bool, true,
  false, ◌&&◌, Option, none, some, List, eqb, arith, All, Bool-cases,
}
use coggo.Prelude.Result.{ok}
use coggo.Peer.Base58.Bytes.{zeros_then-bytes}
use coggo.Peer.Base58.{
  base58_alphabet, symbol_at, index_byte, leading_zeros, leading_ones, set_bytes, encode_loop,
  after_ones, base58_encode, decode_loop, base58_decode,
}

-- whether the symbol is there and has the digit as its index
abbrev found_again : ℕ → Option Char → Bool
found_again d none = false
found_again d (some c) = elim (index_byte base58_alphabet (code c)) [
  | none ↦ false
  | some i ↦ eqb i d
]

abbrev reads_back : ℕ → Bool
reads_back d = found_again d (symbol_at d base58_alphabet)

unfoldable all_read_back : ℕ → Bool
all_read_back zero = true
all_read_back (suc n) = reads_back n && all_read_back n

read_back_below : (n d : ℕ) → all_read_back n ≡ true → d < n → reads_back d ≡ true
unfolding all_read_back
read_back_below zero d h l = absurd (omega arith)
read_back_below (suc n) d h l = elim (Bool-cases (eqb d n)) [
  | inl e ↦ let same : d ≡ n = ground arith in rw same (ground arith)
  | inr e ↦ read_back_below n d (ground arith) (ground arith)
]

alphabet_reads_back : all_read_back 58 ≡ true
unfolding all_read_back symbol_at index_byte
alphabet_reads_back = refl

found_index :
    (o : Option ℕ) (d : ℕ) → elim o [ none ↦ false | some i ↦ eqb i d ] ≡ true → o ≡ some d
found_index none d h = cc
found_index (some i) d h = ap some (ground arith)

symbol_cases :
    (o : Option Char) (d : ℕ)
    → found_again d o ≡ true
    → (c : Char) × (o ≡ some c) × (index_byte base58_alphabet (code c) ≡ some d)
symbol_cases none d h = cc
symbol_cases (some c) d h = (c, refl, found_index (index_byte base58_alphabet (code c)) d h)

pub digit_symbol :
    (d : ℕ)
    → d < 58
    → (c : Char) × (symbol_at d base58_alphabet ≡ some c)
      × (index_byte base58_alphabet (code c) ≡ some d)
digit_symbol d l =
    symbol_cases (symbol_at d base58_alphabet) d (read_back_below 58 d alphabet_reads_back l)

one_is_zero : (k d : ℕ) → k ≡ 49 → index_byte base58_alphabet k ≡ some d → d ≡ 0
unfolding index_byte
one_is_zero k d e h =
    let at_one : some 0 ≡ some d = subst (λ j. index_byte base58_alphabet j ≡ some d) e h in
    ground (arith, at_one)

pub leading_ones-symbol :
    (c : Char) (out : String) (d : ℕ)
    → index_byte base58_alphabet (code c) ≡ some d
    → 0 < d
    → leading_ones (String.◌∷◌ c out) ≡ 0
unfolding leading_ones
leading_ones-symbol c out d h l = elim (Bool-cases (eqb (code c) 49)) [
  | inl e ↦ let nought = one_is_zero (code c) d (ground arith) h in absurd (omega arith)
  | inr e ↦ rw e refl
]

decode_loop-symbol :
    (y : ℕ) (c : Char) (out : String) (d : ℕ)
    → index_byte base58_alphabet (code c) ≡ some d
    → decode_loop y (String.◌∷◌ c out) ≡ decode_loop (y * 58 + d) out
unfolding decode_loop
decode_loop-symbol y c out d h = rw (decode_loop, h) refl

-- The loop of `base58Encode` ends, its text has no leading `1` beyond those it began with, and
-- decoding the text resumes at the number.
pub encode_loop-decode_loop :
    (rounds x : ℕ) (out : String)
    → x < rounds
    → (x ≡ 0 → leading_ones out ≡ 0)
    → (s : String) × (encode_loop rounds x out ≡ some s)
      × (leading_ones s ≡ 0)
      × (decode_loop 0 s ≡ decode_loop x out)
unfolding encode_loop decode_loop
encode_loop-decode_loop zero x out l bare = absurd (omega arith)
encode_loop-decode_loop (suc rounds) x out l bare = elim (Bool-cases (eqb x 0)) [
  | inl e ↦
      let nought : x ≡ 0 = ground arith in
      (out, rw (encode_loop, e) refl, bare nought, rw nought refl)
  | inr e ↦
      let positive : 0 < x = ground arith in
      let h = digit_symbol (x % 58) (omega arith) in
      let out' = String.◌∷◌ h.0 out in
      let ih =
        encode_loop-decode_loop rounds (x / 58) out' (omega arith)
          λ z. leading_ones-symbol h.0 out (x % 58) h.2 (omega arith) in
      let step : decode_loop (x / 58) out' ≡ decode_loop x out =
        decode_loop-symbol (x / 58) h.0 out (x % 58) h.2
        ∙ ap (λ y. decode_loop y out) (omega arith) in
      (ih.0, rw (encode_loop, e, h.1) ih.1, ih.2, ih.3 ∙ step)
]

-- decoding what follows leading ones
pub decode_loop-after_ones : (n : ℕ) (s : String) → decode_loop 0 (after_ones n s) ≡ decode_loop 0 s
unfolding decode_loop after_ones index_byte
decode_loop-after_ones zero s = refl
decode_loop-after_ones (suc n) s = decode_loop-after_ones n s

pub leading_ones-after_ones :
    (n : ℕ) (s : String) → leading_ones s ≡ 0 → leading_ones (after_ones n s) ≡ n
unfolding leading_ones after_ones
leading_ones-after_ones zero s h = h
leading_ones-after_ones (suc n) s h = ap suc (leading_ones-after_ones n s h)

-- Every list of bytes has a base58 text: the loop ends, and no digit is outside the alphabet. The
-- text decodes to the bytes, the leading zero bytes included.
pub base58_decode-base58_encode :
    (bs : List ℕ)
    → All (λ b. b < 256) bs
    → (s : String) × (base58_encode bs ≡ some s) × (base58_decode s ≡ ok bs)
unfolding base58_encode base58_decode decode_loop leading_ones
base58_decode-base58_encode bs h =
    let x = set_bytes 0 bs in
    let loop = encode_loop-decode_loop (suc x) x "" (omega arith) (λ z. refl) in
    let n = leading_zeros bs in
    let ones = leading_ones-after_ones n loop.0 loop.2 in
    let number : decode_loop 0 (after_ones n loop.0) ≡ ok x =
      decode_loop-after_ones n loop.0 ∙ loop.3 in
    (after_ones n loop.0, rw loop.1 refl, rw (ones, number) (ap ok (zeros_then-bytes bs h)))
