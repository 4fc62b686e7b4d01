-- ===== src/Schema/Validate.antt =====
-- `ValidateEntity`, `checkType` and `HasErrors` of internal/schema/seed.go. The loop over the keys
-- that the definition lacks runs in Go's random order; here it runs in the order of the object.
pub mod Laws
use coggo.Prelude.{
  String, ◌==◌, Bool, true, false, Option, none, some, List, [], ◌∷◌, ◌++◌, any, if◌then◌else◌,
}
use coggo.Types.{
  FieldType, string, number, boolean, timestamp, reference, list_of, other_type, FieldDef,
  EntityTypeDefinition,
}
use coggo.Types.Json.{Value, null, bool, num, str, arr, obj, Fields, end, get, put, keys}

pub data Severity : Type 0 where
  error warning : Severity

pub record ValidationIssue : Type 0 where
  pub field : String
  pub severity : Severity
  pub message : String

abbrev pub issue : String → Severity → String → ValidationIssue
issue f s m = record { field = f; severity = s; message = m }

-- whether `time.Parse(time.RFC3339, text)` succeeds
module _ (is_rfc3339 : String → Bool) where
  -- the `switch` of `checkType`, for a value that is not nil
  unfoldable pub has_type : FieldType → Value → Bool
  has_type string (str s) = true
  has_type string _ = false
  has_type reference (str s) = true
  has_type reference _ = false
  has_type number (num n) = true
  has_type number _ = false
  has_type boolean (bool b) = true
  has_type boolean _ = false
  has_type timestamp (str s) = is_rfc3339 s
  has_type timestamp _ = false
  has_type list_of (arr vs) = true
  has_type list_of _ = false
  has_type (other_type t) _ = true

  unfoldable pub check_type : Value → FieldDef → Bool
  unfolding has_type
  check_type null def = true
  check_type v def = has_type def.type v

  -- One turn of the loop over the definition's fields, at the value that the object has.
  abbrev pub check_field : FieldDef → Option Value → Fields → List ValidationIssue × Fields
  check_field f (some v) fs =
      if check_type v f then ([], fs) else (issue f.name warning "expected another type" ∷ [], fs)
  check_field f none fs = elim f.default [
    | some d ↦ ([], put f.name d fs)
    | none ↦ if f.required then (issue f.name error "required field missing" ∷ [], fs) else ([], fs)
  ]

  unfoldable pub check_fields : List FieldDef → Fields → List ValidationIssue × Fields
  check_fields [] fs = ([], fs)
  check_fields (f ∷ defs) fs =
      let (here, fs') = check_field f (get f.name fs) fs in
      let (later, fs'') = check_fields defs fs' in (here ++ later, fs'')

  -- the loop over the keys: those that no field of the definition has
  unfoldable pub unknown_fields : List FieldDef → List String → List ValidationIssue
  unknown_fields defs [] = []
  unknown_fields defs (k ∷ ks) =
      let rest = unknown_fields defs ks in
      if any (λ f. f.name == k) defs
      then rest
      else issue k warning "unknown field; accepted but not in type definition" ∷ rest

  abbrev pub checked : List FieldDef → Fields → List ValidationIssue × Fields
  checked defs fs =
      let (issues, fs') = check_fields defs fs in (issues ++ unknown_fields defs (keys fs'), fs')

  -- The issues, and the map that the caller has afterwards: the defaults are put in place, but into
  -- a map of the function's own if the caller's is nil.
  unfoldable pub validate_entity :
      Option EntityTypeDefinition → Option Fields → List ValidationIssue × Option Fields
  unfolding check_fields unknown_fields
  validate_entity none fs = (issue "" error "no type definition supplied" ∷ [], fs)
  validate_entity (some def) none = ((checked def.fields end).0, none)
  validate_entity (some def) (some fs) =
      let (issues, fs') = checked def.fields fs in (issues, some fs')

abbrev pub is_error : ValidationIssue → Bool
is_error i = elim i.severity [ error ↦ true | warning ↦ false ]

unfoldable pub has_errors : List ValidationIssue → Bool
has_errors issues = any is_error issues
