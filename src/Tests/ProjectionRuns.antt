-- ===== src/Tests/ProjectionRuns.antt =====
-- Runs of internal/mcp/projection.go.
use coggo.Prelude.{String, ◌≡◌, refl, some, [], ◌∷◌, lookup, insert}
use coggo.Prelude.Texts.{read_digits}
use coggo.Prelude.Integers.{parse_int, read_number}
use coggo.Types.Json.{Fields, str, arr, obj, nil, cons, field, end, get, put}
use coggo.Mcp.Projection.{
  Selection, parse_selections, project_entity, project_flat, flat_loop, project_json, no_selection,
}
use coggo.Mcp.Projection.Laws.{IsProjected, project_entity-get}

abbrev untouched : String → String
untouched s = s

abbrev selected : Selection
selected = record { keep = "title" ∷ "id" ∷ []; truncate = ("title", 2) ∷ [] }

-- a limit after the colon, none after a name alone, and none that is not positive
parse_selections_run :
    parse_selections untouched ("id" ∷ "" ∷ "title:2" ∷ []) no_selection ≡ selected
unfolding parse_selections parse_int read_number read_digits insert
parse_selections_run = refl

parse_selections_zero :
    parse_selections untouched ("id:0" ∷ ":x" ∷ []) no_selection
    ≡ record { keep = ":x" ∷ "id" ∷ []; truncate = [] }
unfolding parse_selections parse_int read_number read_digits insert
parse_selections_zero = refl

abbrev data_of_note : Fields
data_of_note = field "title" (str "north") (field "body" (str "long") end)

abbrev note : Fields
note = field "id" (str "e1") (field "type" (str "Note") (field "data" (obj data_of_note) end))

abbrev type_def : Fields
type_def = field "name" (str "Note") (field "title" (str "notes") (field "fields" (arr nil) end))

-- the entity in a list and in a wrapper, its title cut inside its data
project_json_run :
    project_json untouched
      (arr (cons (obj (field "entity" (obj note) end)) nil))
      ("id" ∷ "title:2" ∷ [])
    ≡ arr (
        cons
          (obj (
            field "entity"
              (obj (field "data" (obj (field "title" (str "no…") end)) (field "id" (str "e1") end)))
              end))
          nil)
unfolding project_json parse_selections parse_int read_number read_digits insert lookup put get
project_json_run = refl

project_json_all : project_json untouched (obj note) [] ≡ obj note
unfolding project_json parse_selections parse_int read_number read_digits insert lookup put get
project_json_all = refl

-- the type of the note, cut after two characters
abbrev short_type : Selection
short_type = record { keep = "type" ∷ []; truncate = ("type", 2) ∷ [] }

project_entity-get_example :
    IsProjected "type"
      ("type" ∷ [])
      (lookup "type" (("type", 2) ∷ []))
      (get "type" note)
      (get "type" (project_entity short_type note))
project_entity-get_example = project_entity-get short_type note "type" refl

abbrev cut_type_def : get "title" (project_flat selected type_def) ≡ some (str "no…")
unfolding flat_loop lookup put get
cut_type_def = refl
