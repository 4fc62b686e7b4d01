-- ===== src/Schema/Validate/Laws.antt =====
-- When `ValidateEntity` of internal/schema/seed.go refuses a write, and what it does to the map.
use coggo.Prelude.{
  String, ◌≡◌, refl, ◌∙◌, sym, Bool, true, false, ◌&&◌, ◌||◌, not, none, some, List, [], ◌∷◌, inl,
  inr, arith, ◌==◌, eq_iff, any, any-append, is_some, All, Option-cases,
}
use coggo.Prelude.Distinct.{Lacks, Distinct}
use coggo.Types.{FieldDef, EntityTypeDefinition}
use coggo.Types.Json.{Value, Fields, end, get, keys, get-put}
use coggo.Schema.Validate.{
  check_field, check_fields, unknown_fields, checked, validate_entity, is_error, has_errors,
}

-- the field is required, and neither the write nor the definition gives it a value
abbrev pub is_lacking : Fields → FieldDef → Bool
is_lacking fs f = f.required && (not (is_some f.default) && not (is_some (get f.name fs)))

-- the field has a value if it is required
abbrev pub is_met : Fields → FieldDef → Bool
is_met fs f = not f.required || is_some (get f.name fs)

module _ (is_rfc3339 : String → Bool) where
  -- a value that is there stays as it is
  field-keeps :
      (f : FieldDef) (fs : Fields) (k : String) (v : Value)
      → get k fs ≡ some v
      → get k (check_field is_rfc3339 f (get f.name fs) fs).1 ≡ some v
  field-keeps f fs k v h = elim (Option-cases (get f.name fs)) [
    | inr (w, old) ↦ rw old (ground arith)
    | inl new ↦ elim (Option-cases f.default) [
      | inl without ↦ rw (new, without) (ground arith)
      | inr (d, default) ↦
          rw (new, default) (ground (arith, get-put f.name k d fs, eq_iff f.name k))
    ]
  ]

  field-error :
      (f : FieldDef) (fs : Fields)
      → any is_error (check_field is_rfc3339 f (get f.name fs) fs).0 ≡ is_lacking fs f
  field-error f fs = ground arith

  field-met :
      (f : FieldDef) (fs : Fields)
      → is_lacking fs f ≡ false
      → is_met (check_field is_rfc3339 f (get f.name fs) fs).1 f ≡ true
  field-met f fs h = elim (Option-cases (get f.name fs)) [
    | inr (w, old) ↦ rw old (ground (arith, old))
    | inl new ↦ elim (Option-cases f.default) [
      | inl without ↦ rw (new, without) (ground (arith, new, without, h))
      | inr (d, default) ↦
          rw (new, default) (ground (arith, get-put f.name f.name d fs, eq_iff f.name f.name))
    ]
  ]

  pub fields-keep :
      (defs : List FieldDef) (fs : Fields) (k : String) (v : Value)
      → get k fs ≡ some v
      → get k (check_fields is_rfc3339 defs fs).1 ≡ some v
  unfolding check_fields
  fields-keep [] fs k v h = h
  fields-keep (f ∷ defs) fs k v h =
      fields-keep defs (check_field is_rfc3339 f (get f.name fs) fs).1 k v (field-keeps f fs k v h)

  still-met :
      (f : FieldDef) (defs : List FieldDef) (fs : Fields)
      → is_met fs f ≡ true
      → is_met (check_fields is_rfc3339 defs fs).1 f ≡ true
  still-met f defs fs h = elim (Option-cases (get f.name fs)) [
    | inl e ↦ ground (arith, h, e)
    | inr (v, e) ↦ rw (fields-keep defs fs f.name v e) (ground arith)
  ]

  fields-met :
      (defs : List FieldDef) (fs : Fields)
      → any is_error (check_fields is_rfc3339 defs fs).0 ≡ false
      → All (λ f. is_met (check_fields is_rfc3339 defs fs).1 f ≡ true) defs
  unfolding check_fields
  fields-met [] fs h = tt
  fields-met (f ∷ defs) fs h =
      let fs' : Fields = (check_field is_rfc3339 f (get f.name fs) fs).1 in
      let split =
        any-append is_error (check_field is_rfc3339 f (get f.name fs) fs).0
          (check_fields is_rfc3339 defs fs').0 in
      (
        still-met f defs fs' (field-met f fs (ground (arith, split, field-error f fs))),
        fields-met defs fs' (ground (arith, split)),
      )

  -- A field's check changes nothing about a field with another name.
  other-lacking :
      (f g : FieldDef) (fs : Fields)
      → (g.name == f.name) ≡ false
      → is_lacking (check_field is_rfc3339 f (get f.name fs) fs).1 g ≡ is_lacking fs g
  other-lacking f g fs h = elim (Option-cases (get f.name fs)) [
    | inr (w, old) ↦ rw old (ground arith)
    | inl new ↦ elim (Option-cases f.default) [
      | inl without ↦ rw (new, without) (ground arith)
      | inr (d, default) ↦
          rw (new, default)
            (ground (arith, get-put f.name g.name d fs, eq_iff f.name g.name, eq_iff g.name f.name))
    ]
  ]

  others-lacking :
      (f : FieldDef) (defs : List FieldDef) (fs : Fields)
      → Lacks (λ (g : FieldDef). g.name) f.name defs
      → any (is_lacking (check_field is_rfc3339 f (get f.name fs) fs).1) defs
        ≡ any (is_lacking fs) defs
  others-lacking f [] fs h = refl
  others-lacking f (g ∷ defs) fs h = rw (other-lacking f g fs h.0, others-lacking f defs fs h.1)

  fields-errors :
      (defs : List FieldDef) (fs : Fields)
      → Distinct (λ (g : FieldDef). g.name) defs
      → any is_error (check_fields is_rfc3339 defs fs).0 ≡ any (is_lacking fs) defs
  unfolding check_fields
  fields-errors [] fs d = refl
  fields-errors (f ∷ defs) fs d =
      let fs' : Fields = (check_field is_rfc3339 f (get f.name fs) fs).1 in
      rw
        (
          any-append is_error (check_field is_rfc3339 f (get f.name fs) fs).0
              (check_fields is_rfc3339 defs fs').0,
          field-error f fs,
          fields-errors defs fs' d.1,
          others-lacking f defs fs d.0,
        )
        (ground arith)

  -- An unknown key is no error.
  unknown-fields-errors :
      (defs : List FieldDef) (ks : List String)
      → any is_error (unknown_fields is_rfc3339 defs ks) ≡ false
  unfolding unknown_fields
  unknown-fields-errors defs [] = refl
  unknown-fields-errors defs (k ∷ ks) = ground (arith, unknown-fields-errors defs ks)

  checked-errors :
      (defs : List FieldDef) (fs : Fields)
      → any is_error (checked is_rfc3339 defs fs).0
        ≡ any is_error (check_fields is_rfc3339 defs fs).0
  checked-errors defs fs =
      let fs' : Fields = (check_fields is_rfc3339 defs fs).1 in
      ground (
        arith,
        any-append is_error (check_fields is_rfc3339 defs fs).0
            (unknown_fields is_rfc3339 defs (keys fs')),
        unknown-fields-errors defs (keys fs'),
      )

  -- Where the definition's fields have different names, `ValidateEntity` has an error exactly if some
  -- field is required and neither the write nor the definition gives it a value: values of another
  -- type and unknown keys are never errors. It is the same for a nil map as for an empty one.
  pub has_errors-validate_entity :
      (def : EntityTypeDefinition) (fs : Fields)
      → Distinct (λ (g : FieldDef). g.name) def.fields
      → (has_errors (validate_entity is_rfc3339 (some def) (some fs)).0
          ≡ any (is_lacking fs) def.fields)
        × (has_errors (validate_entity is_rfc3339 (some def) none).0
            ≡ any (is_lacking end) def.fields)
  unfolding validate_entity has_errors
  has_errors-validate_entity def fs d = (
    checked-errors def.fields fs ∙ fields-errors def.fields fs d,
    checked-errors def.fields end ∙ fields-errors def.fields end d,
  )

  -- After a write that `ValidateEntity` finds no error in, each required field of the definition has
  -- a value in the caller's map.
  pub validate_entity-met :
      (def : EntityTypeDefinition) (fs : Fields)
      → has_errors (validate_entity is_rfc3339 (some def) (some fs)).0 ≡ false
      → (after : Fields) × ((validate_entity is_rfc3339 (some def) (some fs)).1 ≡ some after)
        × All (λ f. is_met after f ≡ true) def.fields
  unfolding validate_entity has_errors
  validate_entity-met def fs h = (
    (check_fields is_rfc3339 def.fields fs).1,
    refl,
    fields-met def.fields fs (sym (checked-errors def.fields fs) ∙ h),
  )

  -- `ValidateEntity` puts defaults into the caller's map and never replaces a value: each one that the
  -- caller gave is there afterwards, unchanged, with issues or without.
  pub validate_entity-keeps :
      (def : EntityTypeDefinition) (fs : Fields) (k : String) (v : Value)
      → get k fs ≡ some v
      → (after : Fields) × ((validate_entity is_rfc3339 (some def) (some fs)).1 ≡ some after)
        × (get k after ≡ some v)
  unfolding validate_entity
  validate_entity-keeps def fs k v h =
      ((check_fields is_rfc3339 def.fields fs).1, refl, fields-keep def.fields fs k v h)
