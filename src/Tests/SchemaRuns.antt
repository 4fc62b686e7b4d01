-- ===== src/Tests/SchemaRuns.antt =====
-- The theorems of the definitions and the validation at concrete inputs.
use coggo.Prelude.{◌≡◌, refl, false, none, some, any}
use coggo.Types.Json.{end, get, keys}
use coggo.Schema.Validate.{
  validate_entity, has_errors, check_fields, unknown_fields, check_type, has_type,
}
use coggo.Schema.Validate.Laws.{is_lacking, has_errors-validate_entity}
use coggo.Tests.Data.{rfc3339, title, note_type}

has_errors-validate_entity_example :
    (has_errors (validate_entity rfc3339 (some note_type) (some title)).0
      ≡ any (is_lacking title) note_type.fields)
    × (has_errors (validate_entity rfc3339 (some note_type) none).0
        ≡ any (is_lacking end) note_type.fields)
has_errors-validate_entity_example = has_errors-validate_entity rfc3339 note_type title (tt, tt)

accepted : has_errors (validate_entity rfc3339 (some note_type) (some title)).0 ≡ false
unfolding has_errors validate_entity check_fields unknown_fields check_type has_type get keys
accepted = refl
