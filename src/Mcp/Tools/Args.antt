-- ===== src/Mcp/Tools/Args.antt =====
-- The arguments of a tool, internal/mcp/tools.go: `decodeEntityQuery`, `decodeFieldDef`,
-- `getFieldsArg` and the type assertions on `GetArguments()`.
use coggo.Prelude.{
  ℕ, String, ◌==◌, Bool, false, ◌||◌, Option, none, some, List, [], ◌∷◌, if◌then◌else◌,
}
use coggo.Prelude.Result.{Result, ok, err, message, wrap, ◌>>=◌}
use coggo.Types.{Time, FieldDef, EntityQuery}
use coggo.Types.Json.{Value, bool, str, arr, obj, Values, nil, cons, Fields, get}
use coggo.Types.Encode.{field_type_text}
use coggo.Types.Struct.{read_entity_query, read_field_def}
use coggo.Federation.Handler.Base.{bad_json}

-- mcp-go's accessors on the arguments of a call, and `time.Parse(time.RFC3339, …)`.
pub record ArgReader : Type 0 where
  pub require_string : Fields → String → Result String
  pub get_string : Fields → String → String → String
  pub get_int : Fields → String → ℕ → ℕ
  pub parse_rfc3339 : String → Option Time

-- `args[key].(map[string]any)`
abbrev pub object_arg : Option Value → Option Fields
object_arg (some (obj fs)) = some fs
object_arg _ = none

-- `args[key].([]any)`
abbrev pub array_arg : Option Value → Option Values
array_arg (some (arr vs)) = some vs
array_arg _ = none

-- `args[key].(bool)`, and false where it is none
abbrev pub bool_arg : Option Value → Bool
bool_arg (some (bool b)) = b
bool_arg _ = false

abbrev pub checked_query : Option EntityQuery → Result EntityQuery
checked_query none = err (wrap "query" bad_json)
checked_query (some q) = if q.type == "" then err (message "query.type is required") else ok q

unfoldable pub decode_entity_query : Fields → Result EntityQuery
decode_entity_query m = checked_query (read_entity_query m)

abbrev pub checked_field : Option FieldDef → Result FieldDef
checked_field none = err (wrap "field" bad_json)
checked_field (some d) =
    if (d.name == "") || (field_type_text d.type == "")
    then err (message "field requires name and type")
    else ok d

unfoldable pub decode_field_def : Fields → Result FieldDef
decode_field_def m = checked_field (read_field_def m)

abbrev pub object_entry : Value → Result Fields
object_entry (obj fs) = ok fs
object_entry _ = err (message "each field must be an object")

-- the loop of `handleTypeDefine` over the fields
unfoldable pub decode_fields : Values → Result (List FieldDef)
unfolding decode_field_def
decode_fields nil = ok []
decode_fields (cons v vs) =
    let rest = decode_fields vs in
    do m ← object_entry v; d ← decode_field_def m; ds ← rest; ok (d ∷ ds)

abbrev pub text_entry : Value → String
text_entry (str s) = s
text_entry _ = ""

-- the texts of the array that are not empty
unfoldable pub texts_of : Values → List String
texts_of nil = []
texts_of (cons v vs) =
    let rest = texts_of vs in if text_entry v == "" then rest else text_entry v ∷ rest

-- `getFieldsArg`; nil is the empty list
unfoldable pub get_fields_arg : Fields → List String
unfolding texts_of
get_fields_arg args = elim (array_arg (get "fields" args)) [ none ↦ [] | some vs ↦ texts_of vs ]
