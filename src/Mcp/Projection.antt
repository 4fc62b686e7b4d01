-- ===== src/Mcp/Projection.antt =====
-- internal/mcp/projection.go. The payload is the value that `json.Unmarshal` reads from it;
-- `strings.TrimSpace` is a parameter. A set of names is a list, and a range over it goes in its order.
pub mod Laws
use Prim.Native.Char.{Char, code}
use Prim.Native.String.{◌++◌, count}
use coggo.Prelude.{
  ℕ, zero, suc, String, ◌==◌, Bool, true, false, ◌&&◌, not, Option, none, some, List, [], ◌∷◌, any,
  eqb, leb, is_empty, is_some, if◌then◌else◌, Dict, lookup, insert,
}
use coggo.Prelude.Integers.{Int64, since, before, parse_int}
use coggo.Types.Json.{
  Value, null, bool, num, str, arr, obj, Values, nil, cons, Fields, end, field, get, put,
}

pub record Selection : Type 0 where
  pub keep : List String
  pub truncate : Dict ℕ

abbrev pub is_kept : String → List String → Bool
is_kept name = any (λ k. k == name)

abbrev pub longer : Char → Option (String × String) → Option (String × String)
longer c none = none
longer c (some (before_colon, after_colon)) = some (String.◌∷◌ c before_colon, after_colon)

-- the texts on the two sides of the first `:`
unfoldable pub cut_colon : String → Option (String × String)
cut_colon String.[] = none
cut_colon (String.◌∷◌ c s) =
    let rest = longer c (cut_colon s) in if eqb (code c) 58 then some ("", s) else rest

abbrev pub with_limit : String → Option Int64 → Dict ℕ → Dict ℕ
with_limit name (some (since (suc n))) limits = insert name (suc n) limits
with_limit name _ limits = limits

-- A `:` in front is part of the name; a limit that is no positive number is none.
abbrev pub select_cut : String → Option (String × String) → Selection → Selection
select_cut f none s = record s { keep = f ∷ s.keep }
select_cut f (some (name, n)) s =
    if name == ""
    then record s { keep = f ∷ s.keep }
    else record { keep = name ∷ s.keep; truncate = with_limit name (parse_int n) s.truncate }

unfoldable pub parse_selections : (String → String) → List String → Selection → Selection
unfolding cut_colon
parse_selections trim [] s = s
parse_selections trim (f ∷ fs) s =
    let next = if trim f == "" then s else select_cut (trim f) (cut_colon (trim f)) s in
    parse_selections trim fs next

-- the first characters
unfoldable pub first_chars : ℕ → String → String
first_chars zero s = ""
first_chars (suc n) String.[] = ""
first_chars (suc n) (String.◌∷◌ c s) = String.◌∷◌ c (first_chars n s)

-- the number of characters
unfoldable pub char_count : String → ℕ
char_count String.[] = 0
char_count (String.◌∷◌ c s) = suc (char_count s)

-- the ellipsis goes last
unfoldable pub push_ellipsis : String → String
push_ellipsis String.[] = "…"
push_ellipsis (String.◌∷◌ c s) = String.◌∷◌ c (push_ellipsis s)

abbrev pub cut_to : ℕ → Value → Value
cut_to n (str s) = if leb (char_count s) n then str s else str (push_ellipsis (first_chars n s))
cut_to n v = v

abbrev pub cut_if : Option ℕ → Value → Value
cut_if none v = v
cut_if (some n) v = cut_to n v

unfoldable pub apply_truncate : Value → String → Selection → Value
unfolding char_count first_chars push_ellipsis
apply_truncate v name sel = cut_if (lookup name sel.truncate) v

abbrev pub is_object : Option Value → Bool
is_object (some (obj fs)) = true
is_object _ = false

abbrev pub is_text : Option Value → Bool
is_text (some (str s)) = true
is_text _ = false

abbrev pub is_array : Option Value → Bool
is_array (some (arr vs)) = true
is_array _ = false

abbrev pub is_entity_like : Fields → Bool
is_entity_like m = is_object (get "data" m)

abbrev pub is_type_def_like : Fields → Bool
is_type_def_like m = is_text (get "name" m) && is_array (get "fields" m)

abbrev pub object_or_empty : Option Value → Fields
object_or_empty (some (obj fs)) = fs
object_or_empty _ = end

module _ (sel : Selection) where
  -- the body of the loop of `projectFlat`
  abbrev pub flat_step : Fields → String → Fields → Fields
  flat_step m name out = elim (get name m) [
    | none ↦ out
    | some v ↦ put name (apply_truncate v name sel) out
  ]

  unfoldable pub flat_loop : Fields → List String → Fields → Fields
  unfolding apply_truncate
  flat_loop m [] out = out
  flat_loop m (name ∷ names) out = flat_loop m names (flat_step m name out)

  abbrev pub project_flat : Fields → Fields
  project_flat m = flat_loop m sel.keep end

  abbrev pub data_step : Fields → String → Fields → Fields
  data_step inner name out = elim (get name inner) [
    | none ↦ out
    | some v ↦
        put "data" (obj (put name (apply_truncate v name sel) (object_or_empty (get "data" out))))
          out
  ]

  -- A name of the object goes before one of its data; `data` itself is never taken whole.
  abbrev pub entity_step : Fields → String → Fields → Fields
  entity_step m name out =
      if name == "data"
      then data_step (object_or_empty (get "data" m)) name out
      else elim (get name m) [
        | none ↦ data_step (object_or_empty (get "data" m)) name out
        | some v ↦ put name (apply_truncate v name sel) out
      ]

  unfoldable pub entity_loop : Fields → List String → Fields → Fields
  unfolding apply_truncate
  entity_loop m [] out = out
  entity_loop m (name ∷ names) out = entity_loop m names (entity_step m name out)

  abbrev pub project_entity : Fields → Fields
  project_entity m = entity_loop m sel.keep end

  unfoldable mutual
    unfolding flat_loop entity_loop

    pub walk : Value → Value
    walk (arr vs) = arr (walk_values vs)
    walk (obj m) =
        let inner = walk_fields m in
        if is_entity_like m
        then obj (project_entity m)
        else if is_type_def_like m
        then obj (project_flat m)
        else obj inner
    walk v = v

    pub walk_values : Values → Values
    walk_values nil = nil
    walk_values (cons v vs) = cons (walk v) (walk_values vs)

    pub walk_fields : Fields → Fields
    walk_fields end = end
    walk_fields (field k v m) = field k (walk v) (walk_fields m)

abbrev pub no_selection : Selection
no_selection = record { keep = []; truncate = [] }

-- Without fields, or without a name among them, the payload is as it was.
unfoldable pub project_json : (String → String) → Value → List String → Value
unfolding walk parse_selections
project_json trim v fields =
    let sel = parse_selections trim fields no_selection in
    if is_empty sel.keep then v else walk sel v
