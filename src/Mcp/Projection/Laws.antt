-- ===== src/Mcp/Projection/Laws.antt =====
-- internal/mcp/projection.go: what the projection of an object keeps.
use Prim.Native.String.{◌++◌}
use text.Mathlib.TextLemmas.{nil-append, cons-append}
use coggo.Prelude.{
  any, subst, ◌<◌, ◌≢◌, true, ℕ, zero, suc, ◌≤◌, String, ◌==◌, ◌≡◌, ◌⊎◌, refl, ◌∙◌, sym, ap, false,
  Option, none, some, List, [], ◌∷◌, leb, if◌then◌else◌, lookup, arith, eq_iff, Bool-cases,
  Option-cases, inl, inr,
}
use coggo.Types.Json.{Value, null, bool, num, str, arr, obj, Fields, end, get, put, get-put}
use coggo.Mcp.Projection.{
  Selection, is_kept, char_count, first_chars, push_ellipsis, cut_to, cut_if, apply_truncate,
  object_or_empty, flat_step, flat_loop, project_flat, data_step, entity_step, entity_loop,
  project_entity,
}

char_count-push_ellipsis : (s : String) → char_count (push_ellipsis s) ≡ suc (char_count s)
unfolding char_count push_ellipsis
char_count-push_ellipsis String.[] = refl
char_count-push_ellipsis (String.◌∷◌ c s) = ap suc (char_count-push_ellipsis s)

char_count-first_chars : (n : ℕ) (s : String) → char_count (first_chars n s) ≤ n
unfolding char_count first_chars
char_count-first_chars zero s = omega arith
char_count-first_chars (suc n) String.[] = omega arith
char_count-first_chars (suc n) (String.◌∷◌ c s) = omega (arith, char_count-first_chars n s)

-- A truncated text has at most the characters of its limit and the ellipsis.
cut_to-bound : (n : ℕ) (v : Value) (s : String) → cut_to n v ≡ str s → char_count s ≤ suc n
cut_to-bound n (str t) s h = elim (Bool-cases (leb (char_count t) n)) [
  | inl e ↦ let same : t ≡ s = ground arith in rw (← same) (ground arith)
  | inr e ↦
      let same : push_ellipsis (first_chars n t) ≡ s = ground arith in
      rw (← same)
        (omega (arith, char_count-push_ellipsis (first_chars n t), char_count-first_chars n t))
]
cut_to-bound n null s h = cc
cut_to-bound n (bool b) s h = cc
cut_to-bound n (num t) s h = cc
cut_to-bound n (arr vs) s h = cc
cut_to-bound n (obj fs) s h = cc

-- A value and what shows of it under a limit.
pub data IsCut (limit : Option ℕ) : Value → Value → Type 0 where
  unlimited : (v : Value) → limit ≡ none → IsCut limit v v
  no_text : (v : Value) → ((s : String) → v ≢ str s) → IsCut limit v v
  short : (n : ℕ) (s : String) → limit ≡ some n → char_count s ≤ n → IsCut limit (str s) (str s)
  long :
      (n : ℕ) (first rest : String)
      → limit ≡ some n
      → char_count first ≡ n
      → n < char_count (first ++ rest)
      → IsCut limit (str (first ++ rest)) (str (first ++ "…"))

-- What an object has at a key, and what its projection has there.
pub data IsProjected (k : String) (names : List String) (limit : Option ℕ)
    : Option Value → Option Value → Type 0 where
  absent : IsProjected k names limit none none
  left_out : (v : Value) → any (λ j. j == k) names ≡ false → IsProjected k names limit (some v) none
  kept :
      (v v' : Value)
      → any (λ j. j == k) names ≡ true
      → IsCut limit v v'
      → IsProjected k names limit (some v) (some v')

push_ellipsis-append : (s : String) → push_ellipsis s ≡ s ++ "…"
unfolding push_ellipsis
push_ellipsis-append String.[] = sym (nil-append "…")
push_ellipsis-append (String.◌∷◌ c s) =
    ap (String.◌∷◌ c) (push_ellipsis-append s) ∙ sym (cons-append c s "…")

-- what is left of a text that is longer
first_chars-rest :
    (n : ℕ) (s : String)
    → n < char_count s
    → (rest : String) × (s ≡ first_chars n s ++ rest) × (char_count (first_chars n s) ≡ n)
unfolding char_count first_chars
first_chars-rest zero s l = (s, sym (nil-append s), refl)
first_chars-rest (suc n) String.[] l = absurd (omega (arith, l))
first_chars-rest (suc n) (String.◌∷◌ c s) l =
    let (rest, same, counted) = first_chars-rest n s (omega (arith, l)) in
    (rest, ap (String.◌∷◌ c) same ∙ sym (cons-append c (first_chars n s) rest), ap suc counted)

cut_to-IsCut : (n : ℕ) (s : String) → IsCut (some n) (str s) (cut_to n (str s))
cut_to-IsCut n s = elim (Bool-cases (leb (char_count s) n)) [
  | inl e ↦ rw e (short n s refl (ground (arith, e)))
  | inr e ↦
      let over : n < char_count s = ground (arith, e) in
      let (rest, same, counted) = first_chars-rest n s over in
      let cut : cut_to n (str s) ≡ str (first_chars n s ++ "…") =
        rw e (ap str (push_ellipsis-append (first_chars n s))) in
      let over' : n < char_count (first_chars n s ++ rest) =
        subst (λ t. n < char_count t) same over in
      subst (IsCut (some n) (str s)) (sym cut) (
        subst (λ t. IsCut (some n) (str t) (str (first_chars n s ++ "…"))) (sym same)
          (long n (first_chars n s) rest refl counted over'))
]

cut_if-IsCut : (o : Option ℕ) (v : Value) → IsCut o v (cut_if o v)
cut_if-IsCut none v = unlimited v refl
cut_if-IsCut (some n) (str s) = cut_to-IsCut n s
cut_if-IsCut (some n) null = no_text null (λ s h. ground arith)
cut_if-IsCut (some n) (bool b) = no_text (bool b) (λ s h. ground arith)
cut_if-IsCut (some n) (num t) = no_text (num t) (λ s h. ground arith)
cut_if-IsCut (some n) (arr vs) = no_text (arr vs) (λ s h. ground arith)
cut_if-IsCut (some n) (obj fs) = no_text (obj fs) (λ s h. ground arith)

module _ (sel : Selection) where
  -- the value of a key, cut where the selection says so
  abbrev pub shown : String → Option Value → Option Value
  shown k none = none
  shown k (some v) = some (apply_truncate v k sel)

  abbrev pub if_kept : String → List String → Option Value → Option Value → Option Value
  if_kept k names none old = old
  if_kept k names (some v) old = if is_kept k names then some v else old

  if_kept-nil : (k : String) (v old : Option Value) → if_kept k [] v old ≡ old
  if_kept-nil k none old = refl
  if_kept-nil k (some v) old = refl

  if_kept-cons :
      (k name : String) (names : List String) (v old : Option Value)
      → if_kept k names v (if_kept k (name ∷ []) v old) ≡ if_kept k (name ∷ names) v old
  if_kept-cons k name names none old = refl
  if_kept-cons k name names (some v) old = elim (Bool-cases (name == k)) [
    | inl e ↦ rw e (ground arith)
    | inr e ↦ rw e refl
  ]

  put_step :
      (m out : Fields) (name k : String) (o : Option Value)
      → get name m ≡ o
      → get k (elim o as (λ _. Fields) [
        | none ↦ out
        | some v ↦ put name (apply_truncate v name sel) out
      ])
        ≡ if_kept k (name ∷ []) (shown k (get k m)) (get k out)
  put_step m out name k none h = elim (Bool-cases (name == k)) [
    | inl e ↦
        let same : name ≡ k = ground (arith, eq_iff name k) in
        let absent : get k m ≡ none = rw (← same) h in rw absent refl
    | inr e ↦ elim (Option-cases (get k m)) [ inl a ↦ rw a refl | inr c ↦ rw (c.1, e) refl ]
  ]
  put_step m out name k (some v) h = get-put name k (apply_truncate v name sel) out ∙ rest
    where
      rest :
          (if name == k then some (apply_truncate v name sel) else get k out)
          ≡ if_kept k (name ∷ []) (shown k (get k m)) (get k out)
      rest = elim (Bool-cases (name == k)) [
        | inl e ↦
            let same : name ≡ k = ground (arith, eq_iff name k) in
            let there : get k m ≡ some v = rw (← same) h in
            rw (e, there, e) (ap (λ j. some (apply_truncate v j sel)) same)
        | inr e ↦ elim (Option-cases (get k m)) [
          | inl a ↦ rw (e, a) refl
          | inr c ↦ rw (e, c.1, e) refl
        ]
      ]

  flat_loop-get :
      (m : Fields) (names : List String) (out : Fields) (k : String)
      → get k (flat_loop sel m names out) ≡ if_kept k names (shown k (get k m)) (get k out)
  unfolding flat_loop
  flat_loop-get m [] out k = sym (if_kept-nil k (shown k (get k m)) (get k out))
  flat_loop-get m (name ∷ names) out k =
      flat_loop-get m names (flat_step sel m name out) k
      ∙ ap (if_kept k names (shown k (get k m))) (put_step m out name k (get name m) refl)
      ∙ if_kept-cons k name names (shown k (get k m)) (get k out)

  -- The projection of a type definition has a key exactly if the key was selected and was there, with
  -- its value, cut where the selection says so.
  pub project_flat-get :
      (m : Fields) (k : String)
      → get k (project_flat sel m) ≡ if_kept k sel.keep (shown k (get k m)) none
  unfolding get
  project_flat-get m k = flat_loop-get m sel.keep end k

  data_step-get :
      (inner out : Fields) (name k : String)
      → ("data" == k) ≡ false
      → get k (data_step sel inner name out) ≡ get k out
  data_step-get inner out name k apart = by_value (get name inner)
    where
      by_value :
          (o : Option Value)
          → get k (elim o as (λ _. Fields) [
            | none ↦ out
            | some v ↦
                put "data"
                  (obj (put name (apply_truncate v name sel) (object_or_empty (get "data" out))))
                  out
          ])
            ≡ get k out
      by_value none = refl
      by_value (some v) = get-put "data" k _ out ∙ rw apart refl

  if_kept-other :
      (k name : String) (v old : Option Value)
      → (name == k) ≡ false
      → old ≡ if_kept k (name ∷ []) v old
  if_kept-other k name none old e = refl
  if_kept-other k name (some v) old e = rw e refl

  entity_step-get :
      (m out : Fields) (name k : String)
      → ("data" == k) ≡ false
      → get k (entity_step sel m name out) ≡ if_kept k (name ∷ []) (shown k (get k m)) (get k out)
  entity_step-get m out name k apart = elim (Bool-cases (name == "data")) [
    | inl e ↦
        let same : name ≡ "data" = ground (arith, eq_iff name "data") in
        rw e (
          data_step-get (object_or_empty (get "data" m)) out name k apart
          ∙ if_kept-other k name (shown k (get k m)) (get k out) (rw same apart))
    | inr e ↦ rw e (by_value (get name m) refl)
  ]
    where
      by_value :
          (o : Option Value)
          → get name m ≡ o
          → get k (elim o as (λ _. Fields) [
            | none ↦ data_step sel (object_or_empty (get "data" m)) name out
            | some v ↦ put name (apply_truncate v name sel) out
          ])
            ≡ if_kept k (name ∷ []) (shown k (get k m)) (get k out)
      by_value none h =
          data_step-get (object_or_empty (get "data" m)) out name k apart
          ∙ put_step m out name k none h
      by_value (some v) h = put_step m out name k (some v) h

  entity_loop-get :
      (m : Fields) (names : List String) (out : Fields) (k : String)
      → ("data" == k) ≡ false
      → get k (entity_loop sel m names out) ≡ if_kept k names (shown k (get k m)) (get k out)
  unfolding entity_loop
  entity_loop-get m [] out k apart = sym (if_kept-nil k (shown k (get k m)) (get k out))
  entity_loop-get m (name ∷ names) out k apart =
      entity_loop-get m names (entity_step sel m name out) k apart
      ∙ ap (if_kept k names (shown k (get k m))) (entity_step-get m out name k apart)
      ∙ if_kept-cons k name names (shown k (get k m)) (get k out)

  project_entity-shown :
      (m : Fields) (k : String)
      → ("data" == k) ≡ false
      → get k (project_entity sel m) ≡ if_kept k sel.keep (shown k (get k m)) none
  unfolding get
  project_entity-shown m k apart = entity_loop-get m sel.keep end k apart

  apply_truncate-IsCut :
      (v : Value) (k : String) → IsCut (lookup k sel.truncate) v (apply_truncate v k sel)
  unfolding apply_truncate
  apply_truncate-IsCut v k = cut_if-IsCut (lookup k sel.truncate) v

  if_kept-IsProjected :
      (k : String) (o : Option Value)
      → IsProjected k sel.keep (lookup k sel.truncate) o (if_kept k sel.keep (shown k o) none)
  if_kept-IsProjected k none = absent
  if_kept-IsProjected k (some v) = elim (Bool-cases (is_kept k sel.keep)) [
    | inl e ↦ rw e (kept v (apply_truncate v k sel) e (apply_truncate-IsCut v k))
    | inr e ↦ rw e (left_out v e)
  ]

  -- The projection of an entity has a key other than `data` exactly if the key was selected and was
  -- there, with its value: a text with more characters than its limit has the first ones, as many as
  -- the limit says, and an ellipsis; any other value, and a text without a limit, is as it was.
  pub project_entity-get :
      (m : Fields) (k : String)
      → ("data" == k) ≡ false
      → IsProjected k sel.keep (lookup k sel.truncate) (get k m) (get k (project_entity sel m))
  project_entity-get m k apart =
      subst (IsProjected k sel.keep (lookup k sel.truncate) (get k m))
        (sym (project_entity-shown m k apart)) (if_kept-IsProjected k (get k m))

  shown-bound :
      (k : String) (names : List String) (o : Option Value) (n : ℕ) (s : String)
      → lookup k sel.truncate ≡ some n
      → if_kept k names (shown k o) none ≡ some (str s)
      → char_count s ≤ suc n
  unfolding apply_truncate
  shown-bound k names none n s l h = cc
  shown-bound k names (some v) n s l h = elim (Bool-cases (is_kept k names)) [
    | inl e ↦
        let run : if_kept k names (shown k (some v)) none ≡ some (cut_to n v) = rw (e, l) refl in
        let same : some (cut_to n v) ≡ some (str s) = sym run ∙ h in
        cut_to-bound n v s (ground arith)
    | inr e ↦ ground arith
  ]

  -- A text that shows under a key with a limit has at most the characters of the limit and the
  -- ellipsis, at the top of an entity as in a type definition.
  pub project-char_count :
      (m : Fields) (k : String) (n : ℕ) (s : String)
      → lookup k sel.truncate ≡ some n
      → (get k (project_flat sel m) ≡ some (str s))
        ⊎ ((("data" == k) ≡ false) × (get k (project_entity sel m) ≡ some (str s)))
      → char_count s ≤ suc n
  project-char_count m k n s l (inl h) =
      shown-bound k sel.keep (get k m) n s l (sym (project_flat-get m k) ∙ h)
  project-char_count m k n s l (inr (apart, h)) =
      shown-bound k sel.keep (get k m) n s l (sym (project_entity-shown m k apart) ∙ h)
