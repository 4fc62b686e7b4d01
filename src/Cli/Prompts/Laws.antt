-- ===== src/Cli/Prompts/Laws.antt =====
-- internal/cli/prompt.go, entities.go and types.go: what the prompts give.
use coggo.Prelude.{
  ℕ, zero, suc, ◌<◌, ◌≤◌, String, ◌==◌, ◌≡◌, refl, subst, Bool, true, false, Option, none, some,
  List, [], ◌∷◌, All, length, arith, Bool-cases, eq_refl, inl, inr,
}
use coggo.Prelude.Result.{ok}
use coggo.Types.{
  FieldType, string, number, boolean, timestamp, reference, list_of, other_type, FieldDef,
}
use coggo.Types.Json.{Value, Fields}
use coggo.Types.Struct.{field_type_of}
use coggo.Schema.Validate.{has_type}
use coggo.Cli.Prompts.{
  Console, Input, ask, ask_yn, coerce_as, coerce_number, coerce_field, current, update_field,
  update_fields, element_of, read_field, read_fields,
}

module _ (console : Console) where
  same_has_type :
      (is_rfc3339 : String → Bool) (type : FieldType) (w v : Value)
      → has_type is_rfc3339 type w ≡ true
      → ok w ≡ ok v
      → has_type is_rfc3339 type v ≡ true
  same_has_type is_rfc3339 type w v t h =
      let same : w ≡ v = ground arith in subst (λ x. has_type is_rfc3339 type x ≡ true) same t

  number_has_type :
      (is_rfc3339 : String → Bool) (raw : String) (n : Option String) (v : Value)
      → coerce_number console raw n ≡ ok v
      → has_type is_rfc3339 number v ≡ true
  unfolding has_type
  number_has_type is_rfc3339 raw none v h = cc
  number_has_type is_rfc3339 raw (some n) v h = same_has_type is_rfc3339 number _ v refl h

  as_has_type :
      (is_rfc3339 : String → Bool) (type : FieldType) (raw : String) (v : Value)
      → (type ≡ timestamp → is_rfc3339 raw ≡ true)
      → coerce_as console type raw ≡ ok v
      → has_type is_rfc3339 type v ≡ true
  unfolding has_type
  as_has_type is_rfc3339 string raw v t h = same_has_type is_rfc3339 string _ v refl h
  as_has_type is_rfc3339 reference raw v t h = same_has_type is_rfc3339 reference _ v refl h
  as_has_type is_rfc3339 timestamp raw v t h = same_has_type is_rfc3339 timestamp _ v (t refl) h
  as_has_type is_rfc3339 boolean raw v t h = same_has_type is_rfc3339 boolean _ v refl h
  as_has_type is_rfc3339 number raw v t h =
      number_has_type is_rfc3339 raw (console.parse_float raw) v h
  as_has_type is_rfc3339 list_of raw v t h = same_has_type is_rfc3339 list_of _ v refl h
  as_has_type is_rfc3339 (other_type u) raw v t h = refl

  -- A value that `coerceField` gives has the type that `checkType` asks of the field, but for a field
  -- of timestamps, where the answer has to be one.
  pub coerce_field-has_type :
      (is_rfc3339 : String → Bool) (f : FieldDef) (raw : String) (v : Value)
      → (f.type ≡ timestamp → is_rfc3339 raw ≡ true)
      → coerce_field console raw f ≡ ok v
      → has_type is_rfc3339 f.type v ≡ true
  unfolding coerce_field
  coerce_field-has_type is_rfc3339 f raw v t h = as_has_type is_rfc3339 f.type raw v t h

  ask-length :
      (fallback : String) (lines : Input) → length (ask console fallback lines).1 ≤ length lines
  unfolding ask
  ask-length fallback [] = omega arith
  ask-length fallback (l ∷ ls) = omega arith

  ask_yn-length :
      (def_yes : Bool) (lines : Input) → length (ask_yn console def_yes lines).1 ≤ length lines
  unfolding ask_yn
  ask_yn-length def_yes [] = omega arith
  ask_yn-length def_yes (l ∷ ls) = omega arith

  element_of-length :
      (type : FieldType) (lines : Input) → length (element_of console type lines).1 ≤ length lines
  element_of-length list_of lines = ask-length "string" lines
  element_of-length string lines = omega arith
  element_of-length number lines = omega arith
  element_of-length boolean lines = omega arith
  element_of-length timestamp lines = omega arith
  element_of-length reference lines = omega arith
  element_of-length (other_type t) lines = omega arith

  -- an answer that is not the empty text was read from a line
  ask-read :
      (lines : Input)
      → ((ask console "" lines).0 == "") ≡ false
      → length (ask console "" lines).1 < length lines
  unfolding ask
  ask-read [] h = ground arith
  ask-read (l ∷ ls) h = omega arith

  read_field-length :
      (name : String) (lines : Input) → length (read_field console name lines).1 ≤ length lines
  unfolding read_field
  read_field-length name lines =
      let type = ask console "string" lines in
      let required = ask_yn console false type.1 in
      let description = ask console "" required.1 in
      omega (
        arith,
        ask-length "string" lines,
        ask_yn-length false type.1,
        ask-length "" required.1,
        element_of-length (field_type_of type.0) description.1,
      )

  -- The loop of `actionTypeAdd` ends, at the latest with the input: with a turn more than there are
  -- lines it has its fields.
  pub read_fields-ends :
      (fuel : ℕ) (lines : Input)
      → length lines < fuel
      → (r : List FieldDef × Input) × (read_fields console fuel lines ≡ some r)
  unfolding read_fields
  read_fields-ends zero lines h = absurd (omega arith)
  read_fields-ends (suc fuel) lines h =
      let more = ask_yn console true lines in
      let name = ask console "" more.1 in
      let entry = read_field console name.0 name.1 in
      elim (Bool-cases more.0) [
        | inr e ↦ (([], more.1), rw e refl)
        | inl e ↦ elim (Bool-cases (name.0 == "")) [
          | inl n ↦ (([], name.1), rw (e, n) refl)
          | inr n ↦
              let rest = read_fields-ends fuel entry.1 (
                omega (
                  arith,
                  h,
                  ask_yn-length true lines,
                  ask-read more.1 n,
                  read_field-length name.0 name.1,
                )) in
              ((entry.0 ∷ rest.0.0, rest.0.1), rw (e, n, rest.1) refl)
        ]
      ]

  -- the lines are blank
  abbrev pub AreBlank : Input → Type 0
  AreBlank lines = All (λ line. (console.trim line == "") ≡ true) lines

  ask-blank :
      (fallback : String) (lines : Input)
      → AreBlank lines
      → ((ask console fallback lines).0 ≡ fallback) × AreBlank (ask console fallback lines).1
  unfolding ask
  ask-blank fallback [] h = (refl, tt)
  ask-blank fallback (line ∷ lines) h = (rw (h.0) refl, h.1)

  update_field-same :
      (f : FieldDef) (shown : String) (fs : Fields) → update_field console f shown shown fs ≡ ok fs
  unfolding update_field
  update_field-same f shown fs = ground (arith, eq_refl shown)

  -- Blank lines answer each question of `entity update` with the value that is there: no update.
  pub update_fields-blank :
      (stored : Option Fields) (defs : List FieldDef) (lines : Input) (fs : Fields)
      → AreBlank lines
      → (left : Input) × (update_fields console stored defs lines fs ≡ ok (fs, left))
  unfolding update_fields
  update_fields-blank stored [] lines fs h = (lines, refl)
  update_fields-blank stored (f ∷ defs) lines fs h =
      let shown = current console f stored in
      let a = ask-blank shown lines h in
      let rest = update_fields-blank stored defs (ask console shown lines).1 fs a.1 in
      (rest.0, rw (a.0, update_field-same f shown fs) rest.1)
