-- ===== src/Gateway/RateLimit/Laws.antt =====
-- cmd/coggo-oauth-gateway/ratelimit.go: each email has a limiter of its own.
use coggo.Prelude.{
  ◌-◌, String, ◌==◌, ◌≡◌, refl, sym, subst, ap, ◌∙◌, Bool, true, false, not, Option, none, some,
  List, [], ◌∷◌, filter, ltb, if◌then◌else◌, lookup, insert, lookup-insert, arith, eq_iff,
  Bool-cases, inl, inr,
}
use coggo.Prelude.Distinct.{Lacks, Distinct, filter-Lacks, filter-Distinct}
use coggo.Types.{Time}
use coggo.Gateway.RateLimit.{EmailBucket, Buckets, is_idle, sweep, limiter_of, allow}

-- A turn at the map of buckets: a call of an email, or a round of the sweep.
pub data Turn : Type 0 where
  called : Time → String → Turn
  swept : Time → Turn

-- a turn that an email's own bucket can see
abbrev pub concerns : (String → String) → String → Turn → Bool
concerns lower key (called now email) = lower email == key
concerns lower key (swept now) = true

-- a bucket, after a sweep: it is gone once it was idle for more than ten minutes
abbrev pub left_by_sweep : {L : Type 0} → Time → Option (EmailBucket L) → Option (EmailBucket L)
left_by_sweep now none = none
left_by_sweep now (some b) = if ltb 600_000_000_000 (now - b.last_seen) then none else some b

module _ {L : Type 0} where
  lookup-Lacks :
      (k : String) (buckets : Buckets L) → Lacks (λ e. e.0) k buckets → lookup k buckets ≡ none
  unfolding lookup
  lookup-Lacks k [] l = refl
  lookup-Lacks k (e ∷ buckets) l = rw l.0 (lookup-Lacks k buckets l.1)

  insert-Lacks :
      (j k : String) (b : EmailBucket L) (buckets : Buckets L)
      → (k == j) ≡ false
      → Lacks (λ e. e.0) j buckets
      → Lacks (λ e. e.0) j (insert k b buckets)
  unfolding insert
  insert-Lacks j k b [] n l = (n, tt)
  insert-Lacks j k b (e ∷ buckets) n l = elim (Bool-cases (e.0 == k)) [
    | inl t ↦ rw t (n, l.1)
    | inr t ↦ rw t (l.0, insert-Lacks j k b buckets n l.1)
  ]

  insert-Distinct :
      (k : String) (b : EmailBucket L) (buckets : Buckets L)
      → Distinct (λ e. e.0) buckets
      → Distinct (λ e. e.0) (insert k b buckets)
  unfolding insert
  insert-Distinct k b [] d = (tt, tt)
  insert-Distinct k b (e ∷ buckets) d = elim (Bool-cases (e.0 == k)) [
    | inl t ↦ rw t (subst (λ j. Lacks (λ x. x.0) j buckets) ((eq_iff e.0 k).0 t) d.0, d.1)
    | inr t ↦
        let turned : (k == e.0) ≡ false = ground (arith, t, eq_iff e.0 k, eq_iff k e.0) in
        rw t (insert-Lacks e.0 k b buckets turned d.0, insert-Distinct k b buckets d.1)
  ]

  lookup-sweep :
      (now : Time) (key : String) (buckets : Buckets L)
      → Distinct (λ e. e.0) buckets
      → lookup key (sweep now buckets) ≡ left_by_sweep now (lookup key buckets)
  unfolding sweep filter lookup
  lookup-sweep now key [] d = refl
  lookup-sweep now key (e ∷ buckets) d = elim (Bool-cases (e.0 == key)) [
    | inl t ↦ elim (Bool-cases (is_idle now e.1)) [
      | inl idle ↦
          rw (t, idle)
            (lookup-Lacks key (filter (λ x. not (is_idle now x.1)) buckets) (
              filter-Lacks (λ x. x.0) (λ x. not (is_idle now x.1)) key buckets
                (subst (λ j. Lacks (λ x. x.0) j buckets) ((eq_iff e.0 key).0 t) d.0)))
      | inr used ↦ rw (t, used, t) refl
    ]
    | inr t ↦ elim (Bool-cases (is_idle now e.1)) [
      | inl idle ↦ rw (t, idle) (lookup-sweep now key buckets d.1)
      | inr used ↦ rw (t, used, t) (lookup-sweep now key buckets d.1)
    ]
  ]

module _ {L : Type 0} (new_limiter : L) (allow_at : Time → L → Bool × L) where
  -- The answers of one email's limiter by itself, from the bucket that it has, if any.
  unfoldable pub alone : List Turn → Option (EmailBucket L) → List Bool
  alone [] o = []
  alone (called now email ∷ turns) none =
      let taken = allow_at now new_limiter in
      taken.0 ∷ alone turns (some (record { lim = taken.1; last_seen = now }))
  alone (called now email ∷ turns) (some b) =
      let taken = allow_at now b.lim in
      taken.0 ∷ alone turns (some (record { lim = taken.1; last_seen = now }))
  alone (swept now ∷ turns) o = alone turns (left_by_sweep now o)

  -- The answers that one email gets, over calls of every email and rounds of the sweep in turn.
  unfoldable pub verdicts : (String → String) → String → List Turn → Buckets L → List Bool
  unfolding allow sweep
  verdicts lower key [] buckets = []
  verdicts lower key (called now email ∷ turns) buckets =
      let rest = verdicts lower key turns (allow new_limiter allow_at lower now email buckets).1 in
      if lower email == key
      then (allow new_limiter allow_at lower now email buckets).0 ∷ rest
      else rest
  verdicts lower key (swept now ∷ turns) buckets = verdicts lower key turns (sweep now buckets)

  alone-called :
      (now : Time) (email : String) (turns : List Turn) (o : Option (EmailBucket L))
      → alone (called now email ∷ turns) o
        ≡ (allow_at now (limiter_of new_limiter o)).0
          ∷ alone turns
              (some (record { lim = (allow_at now (limiter_of new_limiter o)).1; last_seen = now }))
  unfolding alone
  alone-called now email turns none = refl
  alone-called now email turns (some b) = refl

  -- Over any calls of any emails and any rounds of the sweep, from a map in which no key comes twice, an
  -- email gets the answers of a limiter by itself that sees the calls of this email alone and the
  -- rounds, begins as the email's bucket does, and is new again after a round that finds it idle for
  -- more than ten minutes.
  pub verdicts-alone :
      (lower : String → String) (key : String) (turns : List Turn) (buckets : Buckets L)
      → Distinct (λ e. e.0) buckets
      → verdicts lower key turns buckets
        ≡ alone (filter (concerns lower key) turns) (lookup key buckets)
  unfolding verdicts allow filter
  verdicts-alone lower key [] buckets d = unfold alone in refl
  verdicts-alone lower key (swept now ∷ turns) buckets d =
      verdicts-alone lower key turns (sweep now buckets)
        (unfold sweep in filter-Distinct (λ e. e.0) (λ e. not (is_idle now e.1)) buckets d)
      ∙ ap (alone (filter (concerns lower key) turns)) (lookup-sweep now key buckets d)
      ∙ unfold alone in refl
  verdicts-alone lower key (called now email ∷ turns) buckets d =
      let taken = allow_at now (limiter_of new_limiter (lookup (lower email) buckets)) in
      let bucket : EmailBucket L = record { lim = taken.1; last_seen = now } in
      let rest =
        verdicts-alone lower key turns (insert (lower email) bucket buckets)
          (insert-Distinct (lower email) bucket buckets d) in
      let found = lookup-insert (lower email) key bucket buckets in
      let resume = alone (filter (concerns lower key) turns) in
      elim (Bool-cases (lower email == key)) [
        | inl e ↦
            let same : lower email ≡ key = (eq_iff (lower email) key).0 e in
            let own : lookup key (insert (lower email) bucket buckets) ≡ some bucket =
              found ∙ rw e refl in
            rw e (
              ap (◌∷◌ taken.0) (rest ∙ ap resume own)
              ∙ rw same (
                  sym (
                    alone-called now email (filter (concerns lower key) turns)
                      (lookup key buckets))))
        | inr e ↦
            let other : lookup key (insert (lower email) bucket buckets) ≡ lookup key buckets =
              found ∙ rw e refl in
            rw e (rest ∙ ap resume other)
      ]
