-- ===== src/Store/Stamp/Laws.antt =====
-- `formatTime` and `parseTime` of internal/store/sqlite.go against each other, and the order of the
-- texts.
use mathlib.Core.List.{reverse, reverse-cons}
use native.Mathlib.Nat.{pow-suc}
use coggo.Prelude.{
  ℕ, zero, suc, ◌+◌, ◌-◌, ◌*◌, ◌/◌, ◌%◌, ◌^◌, ◌≤◌, ◌<◌, ◌≡◌, refl, ◌∙◌, ap, sym, ◌≢◌, true, false,
  List, [], ◌∷◌, ◌++◌, length, inl, inr, arith, eqb, Bool-cases,
}
use coggo.Prelude.Order.{lex_le}
use coggo.Prelude.Result.{ok}
use coggo.Types.{Time}
use coggo.Store.Stamp.{
  Stamp, low_digits, strip, format_time, stamp, horner, nanoseconds, parse_time, tail_bytes, stamps,
}

-- the number that digits stand for, the least significant first
low_value : List ℕ → ℕ
low_value [] = 0
low_value (d ∷ ds) = d + 10 * low_value ds

low_value-low_digits : (k n : ℕ) → n < 10 ^ k → low_value (low_digits k n) ≡ n
unfolding low_value low_digits
low_value-low_digits zero n h = omega arith
low_value-low_digits (suc k) n h =
    omega (arith, low_value-low_digits k (n / 10) (omega (arith, pow-suc 10 k)))

length-low_digits : (k n : ℕ) → length (low_digits k n) ≡ k
unfolding low_digits
length-low_digits zero n = refl
length-low_digits (suc k) n = ap suc (length-low_digits k (n / 10))

length-strip-le : (ds : List ℕ) → length (strip ds) ≤ length ds
unfolding strip
length-strip-le [] = omega arith
length-strip-le (d ∷ ds) = ground (arith, length-strip-le ds)

-- Each zero that is stripped is a factor of ten.
low_value-strip :
    (ds : List ℕ) → low_value (strip ds) * 10 ^ (length ds - length (strip ds)) ≡ low_value ds
unfolding low_value strip
low_value-strip [] = refl
low_value-strip (d ∷ ds) = elim (Bool-cases (eqb d 0)) [
  | inl e ↦ rw e (
      rw (suc_sub (length ds) (length (strip ds)) (length-strip-le ds), pow-suc)
        (omega (arith, low_value-strip ds, zero_of d e)))
  | inr e ↦ rw e (rw (sub_self (length ds)) (omega arith))
]
  where
    suc_sub : (m n : ℕ) → n ≤ m → suc m - n ≡ suc (m - n)
    suc_sub m n h = omega arith

    sub_self : (m : ℕ) → suc m - suc m ≡ 0
    sub_self m = omega arith

    zero_of : (x : ℕ) → eqb x 0 ≡ true → x ≡ 0
    zero_of x e = ground arith

length-append_last : (ds : List ℕ) (d : ℕ) → length (ds ++ d ∷ []) ≡ suc (length ds)
length-append_last [] d = refl
length-append_last (x ∷ ds) d = ap suc (length-append_last ds d)

length-reverse : (ds : List ℕ) → length (reverse ds) ≡ length ds
length-reverse [] = refl
length-reverse (d ∷ ds) = rw (reverse-cons, length-append_last) (ap suc (length-reverse ds))

horner-append : (acc : ℕ) (ds : List ℕ) (d : ℕ) → horner acc (ds ++ d ∷ []) ≡ horner acc ds * 10 + d
unfolding horner
horner-append acc [] d = refl
horner-append acc (x ∷ ds) d = horner-append (acc * 10 + x) ds d

horner-reverse : (ds : List ℕ) → horner 0 (reverse ds) ≡ low_value ds
unfolding low_value
horner-reverse [] = unfold horner in refl
horner-reverse (d ∷ ds) = rw (reverse-cons, horner-append) (omega (arith, horner-reverse ds))

-- the fraction of a formatted time stands for its nanoseconds
nanoseconds-format_time : (t : Time) → nanoseconds (format_time t).fraction ≡ t % 1000000000
unfolding nanoseconds format_time
nanoseconds-format_time t =
    let n : ℕ = t % 1000000000 in
    rw (horner-reverse (strip (low_digits 9 n)), length-reverse (strip (low_digits 9 n)))
      (omega (
        arith,
        ap
            (λ (k : ℕ).
              low_value (strip (low_digits 9 n)) * 10 ^ (k - length (strip (low_digits 9 n))))
            (length-low_digits 9 n),
        low_value-strip (low_digits 9 n),
        low_value-low_digits 9 n (omega arith),
      ))

seconds-format_time : (t : Time) → (format_time t).seconds ≡ t / 1000000000
unfolding format_time
seconds-format_time t = refl

-- `parseTime` reads what `formatTime` wrote as the time that was written.
pub parse_time-format_time : (t : Time) → parse_time (stamp (format_time t)) ≡ ok t
unfolding parse_time
parse_time-format_time t =
    ap ok (rw (nanoseconds-format_time t, seconds-format_time t) (omega arith))

-- Times in different seconds have texts in their order, and in that order only.
pub stamps-format_time :
    (a b : Time)
    → a / 1000000000 < b / 1000000000
    → (stamps.le (format_time a) (format_time b) ≡ true)
      × (stamps.le (format_time b) (format_time a) ≡ false)
unfolding format_time
stamps-format_time a b h = (ground arith, ground arith)

tail_bytes-empty-le : (ds : List ℕ) → ds ≢ [] → lex_le (tail_bytes []) (tail_bytes ds) ≡ false
tail_bytes-empty-le [] h = absurd (h refl)
tail_bytes-empty-le (d ∷ ds) h = refl

fraction-ne-nil : (t : Time) → t % 1000000000 ≢ 0 → (format_time t).fraction ≢ []
fraction-ne-nil t h e =
    h (sym (nanoseconds-format_time t) ∙ ap nanoseconds e ∙ (unfold nanoseconds horner in refl))

fraction-eq-nil : (t : Time) → t % 1000000000 ≡ 0 → (format_time t).fraction ≡ []
unfolding format_time low_digits strip
fraction-eq-nil t h = rw h

-- keys that agree in the seconds, one of them with no fraction
key_order :
    (a b : Stamp)
    → a.seconds ≡ b.seconds
    → a.fraction ≡ []
    → b.fraction ≢ []
    → (stamps.le a b ≡ false) × (stamps.le b a ≡ true)
key_order a b e whole part =
    rw (e, whole)
      (
        ground (arith, tail_bytes-empty-le b.fraction part),
        ground (arith, tail_bytes-empty-le b.fraction part, le_empty b.fraction),
      )
  where
    le_empty : (ds : List ℕ) → lex_le (tail_bytes ds) (tail_bytes []) ≡ true
    le_empty [] = refl
    le_empty (d ∷ ds) = refl

-- Within a second the order of the texts is not that of the times: the text of the whole second
-- comes after the text of every later time in it, since `Z` comes after the point.
pub whole_second_sorts_last :
    (s n : ℕ)
    → 0 < n
    → n < 1000000000
    → (stamps.le (format_time (s * 1000000000)) (format_time (s * 1000000000 + n)) ≡ false)
      × (stamps.le (format_time (s * 1000000000 + n)) (format_time (s * 1000000000)) ≡ true)
whole_second_sorts_last s n pos small =
    key_order (format_time (s * 1000000000)) (format_time (s * 1000000000 + n))
      (seconds-format_time (s * 1000000000)
        ∙ omega arith
        ∙ sym (seconds-format_time (s * 1000000000 + n)))
      (fraction-eq-nil (s * 1000000000) (omega arith))
      (fraction-ne-nil (s * 1000000000 + n) (omega arith))

-- the time that a stamp stands for
abbrev pub time_of : Stamp → Time
time_of s = s.seconds * 1000000000 + nanoseconds s.fraction

pub parse_time-stamp : (s : Stamp) → parse_time (stamp s) ≡ ok (time_of s)
unfolding parse_time
parse_time-stamp s = refl

pub time_of-format_time : (t : Time) → time_of (format_time t) ≡ t
time_of-format_time t = rw (nanoseconds-format_time t, seconds-format_time t) (omega arith)
