-- ===== src/Types/Encode.antt =====
-- The objects that `json.Unmarshal` makes of a marshalled type definition, by the tags of
-- internal/types/types.go: a field with `omitempty` is left out where it is empty. A nil list of
-- fields is the empty list.
use coggo.Prelude.{String, ◌==◌, Option, none, some, List, [], ◌∷◌, if◌then◌else◌}
use coggo.Types.{
  FieldType, string, number, boolean, timestamp, reference, list_of, other_type, FieldDef,
  EntityTypeDefinition, RelationshipTypeDefinition,
}
use coggo.Types.Json.{Value, bool, str, arr, obj, Values, nil, cons, Fields, end, field}

abbrev pub field_type_text : FieldType → String
field_type_text string = "string"
field_type_text number = "number"
field_type_text boolean = "boolean"
field_type_text timestamp = "timestamp"
field_type_text reference = "reference"
field_type_text list_of = "list_of"
field_type_text (other_type t) = t

abbrev pub element_text : Option FieldType → String
element_text none = ""
element_text (some t) = field_type_text t

-- `omitempty` on a string
abbrev pub field_unless_empty : String → String → Fields → Fields
field_unless_empty k v fs = if v == "" then fs else field k (str v) fs

abbrev pub field_if_some : String → Option Value → Fields → Fields
field_if_some k none fs = fs
field_if_some k (some v) fs = field k v fs

abbrev pub field_def_object : FieldDef → Fields
field_def_object f = field "name" (str f.name) (
    field "type" (str (field_type_text f.type)) (
      field_unless_empty "element_type" (element_text f.element_type) (
        field "required" (bool f.required) (
          field_if_some "default" f.default (
            field_unless_empty "validation" f.validation
              (field_unless_empty "description" f.description end))))))

unfoldable pub field_defs_value : List FieldDef → Values
field_defs_value [] = nil
field_defs_value (f ∷ fs) = cons (obj (field_def_object f)) (field_defs_value fs)

unfoldable pub entity_type_object : EntityTypeDefinition → Fields
entity_type_object d = field "name" (str d.name) (
    field "peer_did" (str d.peer_did) (
      field "fields" (arr (field_defs_value d.fields))
        (field_unless_empty "description" d.description end)))

abbrev pub field_unless_none : List FieldDef → Fields → Fields
field_unless_none [] rest = rest
field_unless_none (f ∷ fs) rest = field "fields" (arr (field_defs_value (f ∷ fs))) rest

unfoldable pub relation_type_object : RelationshipTypeDefinition → Fields
relation_type_object d = field "name" (str d.name) (
    field "peer_did" (str d.peer_did) (
      field_unless_none d.fields (
        field_unless_empty "description" d.description
          (field "directional" (bool d.directional) end))))
