-- ===== src/Peer/Base58/Bytes.antt =====
-- internal/peer/did.go: the bytes that `SetBytes` reads and `Bytes` writes.
use mathlib.Core.List.{append-nil}
use coggo.Prelude.{
  ℕ, zero, suc, ◌+◌, ◌*◌, ◌/◌, ◌%◌, ◌≤◌, ◌<◌, ◌≡◌, refl, sym, ◌∙◌, ap, inl, inr, true, false, List,
  [], ◌∷◌, ◌++◌, eqb, ltb, all, arith, All, Bool-cases,
}
use coggo.Peer.Base58.{leading_zeros, set_bytes, bytes_loop, bytes, zeros_then}

bytes_loop-suc :
    (r x : ℕ) (out : List ℕ)
    → 0 < x
    → bytes_loop (suc r) x out ≡ bytes_loop r (x / 256) (x % 256 ∷ out)
unfolding bytes_loop
bytes_loop-suc r x out p = let e : eqb x 0 ≡ false = ground arith in rw (bytes_loop, e) refl

-- `Bytes` needs no more rounds than its number.
bytes_loop-rounds :
    (r q x : ℕ) (out : List ℕ) → x ≤ r → x ≤ q → bytes_loop r x out ≡ bytes_loop q x out
unfolding bytes_loop
bytes_loop-rounds zero zero x out l k = refl
bytes_loop-rounds zero (suc q) x out l k = let nought : x ≡ 0 = omega arith in rw nought refl
bytes_loop-rounds (suc r) zero x out l k = let nought : x ≡ 0 = omega arith in rw nought refl
bytes_loop-rounds (suc r) (suc q) x out l k = elim (Bool-cases (eqb x 0)) [
  | inl e ↦ let nought : x ≡ 0 = ground arith in rw nought refl
  | inr e ↦
      let p : 0 < x = ground arith in
      bytes_loop-suc r x out p
      ∙ bytes_loop-rounds r q (x / 256) (x % 256 ∷ out) (omega arith) (omega arith)
      ∙ sym (bytes_loop-suc q x out p)
]

bytes_loop-byte :
    (x b : ℕ) (out : List ℕ)
    → b < 256
    → 0 < x * 256 + b
    → bytes_loop (x * 256 + b) (x * 256 + b) out ≡ bytes_loop x x (b ∷ out)
bytes_loop-byte x b out l p =
    let n = x * 256 + b in
    let whole : n / 256 ≡ x = omega arith in
    let part : n % 256 ≡ b = omega arith in
    bytes_loop-rounds n (suc n) n out (omega arith) (omega arith)
    ∙ bytes_loop-suc n n out p
    ∙ rw (whole, part) (bytes_loop-rounds n x x (b ∷ out) (omega arith) (omega arith))

some_byte : (x b : ℕ) (bs : List ℕ) → (x ≡ 0 → leading_zeros (b ∷ bs) ≡ 0) → 0 < x * 256 + b
unfolding leading_zeros
some_byte zero zero bs k = absurd (omega (arith, k refl))
some_byte zero (suc b) bs k = omega arith
some_byte (suc x) b bs k = omega arith

-- `Bytes` of what `SetBytes` read gives the bytes back, when they do not begin with a zero byte.
pub bytes-set_bytes :
    (x : ℕ) (bs out : List ℕ)
    → All (λ b. b < 256) bs
    → (x ≡ 0 → leading_zeros bs ≡ 0)
    → bytes_loop (set_bytes x bs) (set_bytes x bs) out ≡ bytes_loop x x (bs ++ out)
unfolding set_bytes
bytes-set_bytes x [] out h k = refl
bytes-set_bytes x (b ∷ bs) out h k =
    let p = some_byte x b bs k in
    bytes-set_bytes (x * 256 + b) bs out h.1 (λ z. absurd (omega arith))
    ∙ bytes_loop-byte x b (bs ++ out) h.0 p

-- the bytes after the leading zeros
unfoldable tail_bytes : List ℕ → List ℕ
tail_bytes [] = []
tail_bytes (zero ∷ bs) = tail_bytes bs
tail_bytes (suc b ∷ bs) = suc b ∷ bs

record Trimmed (bs : List ℕ) : Type 0 where
  whole : zeros_then (leading_zeros bs) (tail_bytes bs) ≡ bs
  no_zeros : leading_zeros (tail_bytes bs) ≡ 0
  same_number : set_bytes 0 bs ≡ set_bytes 0 (tail_bytes bs)
  in_range : All (λ b. b < 256) (tail_bytes bs)

trim : (bs : List ℕ) → All (λ b. b < 256) bs → Trimmed bs
unfolding leading_zeros zeros_then tail_bytes set_bytes
trim [] h = record { whole = refl; no_zeros = refl; same_number = refl; in_range = tt }
trim (zero ∷ bs) h =
    let rest = trim bs h.1 in
    record {
      whole = ap (◌∷◌ 0) rest.whole;
      no_zeros = rest.no_zeros;
      same_number = rest.same_number;
      in_range = rest.in_range;
    }
trim (suc b ∷ bs) h = record { whole = refl; no_zeros = refl; same_number = refl; in_range = h }

pub zeros_then-bytes :
    (bs : List ℕ)
    → All (λ b. b < 256) bs
    → zeros_then (leading_zeros bs) (bytes (set_bytes 0 bs)) ≡ bs
unfolding bytes_loop
zeros_then-bytes bs h =
    let t = trim bs h in
    let same : bytes (set_bytes 0 bs) ≡ tail_bytes bs = rw t.same_number (
      bytes-set_bytes 0 (tail_bytes bs) [] t.in_range (λ z. t.no_zeros)
      ∙ append-nil (tail_bytes bs)) in
    rw same t.whole

pub All-below_256 : (bs : List ℕ) → all (λ b. ltb b 256) bs ≡ true → All (λ b. b < 256) bs
All-below_256 [] h = tt
All-below_256 (b ∷ bs) h = elim (Bool-cases (ltb b 256)) [
  | inl e ↦ (ground arith, All-below_256 bs (ground arith))
  | inr e ↦ ground arith
]
