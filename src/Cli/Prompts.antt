-- ===== src/Cli/Prompts.antt =====
-- The prompts of internal/cli/prompt.go, and the commands of entities.go, relations.go and types.go
-- that ask with them, after their `Setup`. The input is the list of the lines that are still to be
-- read; a line over the scanner's limit of a megabyte is left out. What is only printed is left out.
pub mod Laws
use coggo.Prelude.{
  ℕ, zero, suc, String, ◌==◌, Bool, true, false, ◌||◌, Option, none, some, List, [], ◌∷◌, map,
  length, if◌then◌else◌,
}
use coggo.Prelude.Texts.{split_commas}
use coggo.Prelude.Result.{Result, ok, err, message, about, context, ◌>>=◌}
use coggo.Types.{
  FieldType, string, number, boolean, timestamp, reference, list_of, other_type, FieldDef,
}
use coggo.Types.Json.{Value, bool, num, str, arr, Values, nil, cons, Fields, end, get, put}
use coggo.Types.Struct.{field_type_of}
use coggo.Store.Entities.{or_empty}

-- `strings.TrimSpace`, `strings.ToLower`, the `%v` of a value, and the number that
-- `strconv.ParseFloat` reads, by the text that `json.Marshal` writes for it.
pub record Console : Type 0 where
  pub trim : String → String
  pub lower : String → String
  pub show : Value → String
  pub parse_float : String → Option String

abbrev pub Input : Type 0
Input = List String

abbrev pub texts_value : List String → Values
texts_value [] = nil
texts_value (s ∷ ss) = cons (str s) (texts_value ss)

module _ (console : Console) where
  abbrev pub answer_or : String → String → String
  answer_or v fallback = if v == "" then fallback else v

  unfoldable pub ask : String → Input → String × Input
  ask fallback [] = (fallback, [])
  ask fallback (line ∷ lines) = (answer_or (console.trim line) fallback, lines)

  abbrev pub yes_or : String → Bool → Bool
  yes_or v def_yes = if v == "" then def_yes else (v == "y") || (v == "yes")

  unfoldable pub ask_yn : Bool → Input → Bool × Input
  ask_yn def_yes [] = (def_yes, [])
  ask_yn def_yes (line ∷ lines) = (yes_or (console.lower (console.trim line)) def_yes, lines)

  abbrev pub default_str : Option Value → String
  default_str none = ""
  default_str (some d) = console.show d

  abbrev pub coerce_number : String → Option String → Result Value
  coerce_number raw none = err (about "not a number" raw)
  coerce_number raw (some n) = ok (num n)

  abbrev pub coerce_bool : String → Value
  coerce_bool v = bool ((v == "y") || ((v == "yes") || ((v == "true") || (v == "1"))))

  abbrev pub coerce_as : FieldType → String → Result Value
  coerce_as string raw = ok (str raw)
  coerce_as reference raw = ok (str raw)
  coerce_as timestamp raw = ok (str raw)
  coerce_as boolean raw = ok (coerce_bool (console.lower raw))
  coerce_as number raw = coerce_number raw (console.parse_float raw)
  coerce_as list_of raw = ok (arr (texts_value (map console.trim (split_commas raw))))
  coerce_as (other_type t) raw = ok (str raw)

  unfoldable pub coerce_field : String → FieldDef → Result Value
  unfolding split_commas
  coerce_field raw f = coerce_as f.type raw

  abbrev pub put_coerced : FieldDef → Fields → Result Value → Result Fields
  put_coerced f fs (ok v) = ok (put f.name v fs)
  put_coerced f fs (err e) = err e

  abbrev pub put_default : FieldDef → Fields → Option Value → Fields
  put_default f fs none = fs
  put_default f fs (some d) = put f.name d fs

  -- one turn of the loop of `runEntityNew`
  unfoldable pub new_field : FieldDef → String → Fields → Result Fields
  unfolding coerce_field
  new_field f raw fs =
      if raw == ""
      then ok (put_default f fs f.default)
      else context "entity new" (context f.name (put_coerced f fs (coerce_field raw f)))

  unfoldable pub new_fields : List FieldDef → Input → Fields → Result (Fields × Input)
  unfolding ask new_field
  new_fields [] lines fs = ok (fs, lines)
  new_fields (f ∷ defs) lines fs =
      let answer = ask (default_str f.default) lines in
      new_field f answer.0 fs >>= λ fs'. new_fields defs answer.1 fs'

  abbrev pub current : FieldDef → Option Fields → String
  current f stored = default_str (get f.name (or_empty stored))

  -- one turn of the loop of `actionEntityUpdate`
  unfoldable pub update_field : FieldDef → String → String → Fields → Result Fields
  unfolding coerce_field
  update_field f shown raw fs =
      if (raw == "") || (raw == shown) then ok fs else put_coerced f fs (coerce_field raw f)

  unfoldable pub update_fields :
      Option Fields → List FieldDef → Input → Fields → Result (Fields × Input)
  unfolding ask update_field
  update_fields stored [] lines fs = ok (fs, lines)
  update_fields stored (f ∷ defs) lines fs =
      let answer = ask (current f stored) lines in
      update_field f (current f stored) answer.0 fs >>= λ fs'.
      update_fields stored defs answer.1 fs'

  -- one turn of the loop of `actionRelationNew`: an empty answer leaves the field out
  unfoldable pub relation_fields : List FieldDef → Input → Fields → Result (Fields × Input)
  unfolding ask coerce_field
  relation_fields [] lines fs = ok (fs, lines)
  relation_fields (f ∷ defs) lines fs =
      let answer = ask (default_str f.default) lines in
      (if answer.0 == "" then ok fs else put_coerced f fs (coerce_field answer.0 f)) >>= λ fs'.
      relation_fields defs answer.1 fs'

  abbrev pub element_of : FieldType → Input → Option FieldType × Input
  element_of list_of lines = let el = ask "string" lines in (some (field_type_of el.0), el.1)
  element_of _ lines = (none, lines)

  -- what the loop of `actionTypeAdd` asks for a field that has a name
  unfoldable pub read_field : String → Input → FieldDef × Input
  unfolding ask ask_yn
  read_field name lines =
      let type = ask "string" lines in
      let required = ask_yn false type.1 in
      let description = ask "" required.1 in
      let element = element_of (field_type_of type.0) description.1 in
      (
        record {
          name = name;
          type = field_type_of type.0;
          element_type = element.0;
          required = required.0;
          default = none;
          validation = "";
          description = description.0;
        },
        element.1,
      )

  -- The loop of `actionTypeAdd`, on fuel; `none` where the fuel is out.
  unfoldable pub read_fields : ℕ → Input → Option (List FieldDef × Input)
  unfolding ask ask_yn read_field
  read_fields zero lines = none
  read_fields (suc fuel) lines =
      let more = ask_yn true lines in
      let name = ask "" more.1 in
      let entry = read_field name.0 name.1 in
      let rest = read_fields fuel entry.1 in
      if more.0
      then if name.0 == ""
        then some ([], name.1)
        else elim rest [ none ↦ none | some (fs, left) ↦ some (entry.0 ∷ fs, left) ]
      else some ([], more.1)
