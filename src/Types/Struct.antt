-- ===== src/Types/Struct.antt =====
-- `json.Unmarshal` of an object into the structs of internal/types/types.go that tools and stored
-- definitions are read as. A key that is missing or null leaves the zero value; a value of another
-- kind is an error, `none`. Keys are those of the tags, in the case that the tags have.
use Prim.Native.Char.{code}
use coggo.Prelude.{
  ℕ, ◌^◌, ◌-◌, String, ◌==◌, Bool, false, Option, none, some, List, [], ◌∷◌, leb, eqb,
  if◌then◌else◌,
}
use coggo.Prelude.Texts.{read_digits}
use coggo.Types.{
  FieldType, string, number, boolean, timestamp, reference, list_of, other_type, FieldDef,
  EntityTypeDefinition, RelationshipTypeDefinition, EntityQuery,
}
use coggo.Types.Json.{Value, null, bool, num, str, arr, obj, Values, nil, cons, Fields, end, get}

infixl 5 ◌and_then◌
abbrev ◌and_then◌ {ℓ κ} : {A : Type ℓ} {B : Type κ} → Option A → (A → Option B) → Option B
none and_then f = none
some a and_then f = f a

abbrev pub as_text : Option Value → Option String
as_text none = some ""
as_text (some null) = some ""
as_text (some (str s)) = some s
as_text (some _) = none

abbrev pub as_flag : Option Value → Option Bool
as_flag none = some false
as_flag (some null) = some false
as_flag (some (bool b)) = some b
as_flag (some _) = none

abbrev within_int : Option ℕ → Option ℕ
within_int none = none
within_int (some n) = if leb n (2 ^ 63 - 1) then some n else none

-- A negative number acts as 0 wherever a limit is used.
abbrev below_zero : Option ℕ → Option ℕ
below_zero none = none
below_zero (some n) = if leb n (2 ^ 63) then some 0 else none

unfoldable pub int_of_text : String → Option ℕ
unfolding read_digits
int_of_text String.[] = none
int_of_text (String.◌∷◌ c s) =
    if eqb (code c) 45
    then below_zero (read_digits 0 s)
    else within_int (read_digits 0 (String.◌∷◌ c s))

abbrev pub as_int : Option Value → Option ℕ
as_int none = some 0
as_int (some null) = some 0
as_int (some (num n)) = int_of_text n
as_int (some _) = none

abbrev pub as_object : Option Value → Option Fields
as_object none = some end
as_object (some null) = some end
as_object (some (obj fs)) = some fs
as_object (some _) = none

-- a nil value where there is none
abbrev pub as_any : Option Value → Option Value
as_any none = none
as_any (some null) = none
as_any (some v) = some v

abbrev pub field_type_of : String → FieldType
field_type_of t =
    if t == "string"
    then string
    else if t == "number"
    then number
    else if t == "boolean"
    then boolean
    else if t == "timestamp"
    then timestamp
    else if t == "reference"
    then reference
    else if t == "list_of"
    then list_of
    else other_type t

abbrev pub element_type_of : String → Option FieldType
element_type_of t = if t == "" then none else some (field_type_of t)

unfoldable pub read_field_def : Fields → Option FieldDef
read_field_def fs = as_text (get "name" fs) and_then λ name.
    as_text (get "type" fs) and_then λ type. as_text (get "element_type" fs) and_then λ element.
    as_flag (get "required" fs) and_then λ required.
    as_text (get "validation" fs) and_then λ validation.
    as_text (get "description" fs) and_then λ description. some (record {
      name = name;
      type = field_type_of type;
      element_type = element_type_of element;
      required = required;
      default = as_any (get "default" fs);
      validation = validation;
      description = description;
    })

abbrev pub field_def_of : Value → Option FieldDef
field_def_of null = read_field_def end
field_def_of (obj fs) = read_field_def fs
field_def_of _ = none

unfoldable pub read_field_defs : Values → Option (List FieldDef)
unfolding read_field_def
read_field_defs nil = some []
read_field_defs (cons v vs) =
    let rest = read_field_defs vs in field_def_of v and_then λ d. rest and_then λ ds. some (d ∷ ds)

abbrev pub as_field_defs : Option Value → Option (List FieldDef)
as_field_defs none = some []
as_field_defs (some null) = some []
as_field_defs (some (arr vs)) = read_field_defs vs
as_field_defs (some _) = none

unfoldable pub read_entity_type : Fields → Option EntityTypeDefinition
unfolding read_field_defs
read_entity_type fs = as_text (get "name" fs) and_then λ name.
    as_text (get "peer_did" fs) and_then λ peer. as_field_defs (get "fields" fs) and_then λ fields.
    as_text (get "description" fs) and_then λ description.
    some (record { name = name; peer_did = peer; fields = fields; description = description })

unfoldable pub read_relation_type : Fields → Option RelationshipTypeDefinition
unfolding read_field_defs
read_relation_type fs = as_text (get "name" fs) and_then λ name.
    as_text (get "peer_did" fs) and_then λ peer. as_field_defs (get "fields" fs) and_then λ fields.
    as_text (get "description" fs) and_then λ description.
    as_flag (get "directional" fs) and_then λ directional. some (record {
      name = name;
      peer_did = peer;
      fields = fields;
      description = description;
      directional = directional;
    })

unfoldable pub read_entity_query : Fields → Option EntityQuery
unfolding int_of_text
read_entity_query fs = as_text (get "type" fs) and_then λ type.
    as_object (get "filters" fs) and_then λ filters. as_int (get "limit" fs) and_then λ limit.
    as_flag (get "include_archived" fs) and_then λ archived.
    some (record { type = type; filters = filters; limit = limit; include_archived = archived })
