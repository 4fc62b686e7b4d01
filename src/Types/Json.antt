-- ===== src/Types/Json.antt =====
-- JSON values as `json.Unmarshal` leaves them in an `any`, and the objects that hold them. A number
-- is a float64, named by the text that `json.Marshal` writes for it.
pub mod Laws
use coggo.Prelude.{
  String, ◌≡◌, Bool, true, false, ◌&&◌, Option, none, some, List, [], ◌∷◌, arith, ◌==◌, eq_iff,
  if◌then◌else◌, is_some,
}

mutual
  pub data Value : Type 0 where
    null : Value
    bool : Bool → Value
    num : String → Value
    str : String → Value
    arr : Values → Value
    obj : Fields → Value

  pub data Values : Type 0 where
    nil : Values
    cons : Value → Values → Values

  -- a `map[string]any`
  pub data Fields : Type 0 where
    end : Fields
    field : String → Value → Fields → Fields

unfoldable pub get : String → Fields → Option Value
get k end = none
get k (field j v fs) = if j == k then some v else get k fs

unfoldable pub put : String → Value → Fields → Fields
put k v end = field k v end
put k v (field j w fs) = if j == k then field k v fs else field j w (put k v fs)

-- `for k, v := range updates { m[k] = v }`
unfoldable pub merge : Fields → Fields → Fields
merge end m = m
merge (field k v fs) m = merge fs (put k v m)

-- the keys of `range m`
unfoldable pub keys : Fields → List String
keys end = []
keys (field k v fs) = k ∷ keys fs

pub get-put :
    (k j : String) (v : Value) (m : Fields)
    → get j (put k v m) ≡ (if k == j then some v else get j m)
unfolding get put
get-put k j v end = ground arith
get-put k j v (field i w fs) = ground (arith, eq_iff k j, eq_iff i k, eq_iff i j, get-put k j v fs)

-- the value that a merge leaves at a key: the last one among the updates, else the old one
abbrev pub merged : Option Value → Option Value → Option Value
merged none old = old
merged (some v) old = some v

-- every key of the first object is a key of the second
unfoldable pub within : Fields → Fields → Bool
within end gs = true
within (field k v fs) gs = is_some (get k gs) && within fs gs

-- Whether two values have the same JSON text: `json.Marshal` sorts the keys of an object.
unfoldable mutual
  pub same : Value → Value → Bool
  same null null = true
  same (bool true) (bool b) = b
  same (bool false) (bool true) = false
  same (bool false) (bool false) = true
  same (num a) (num b) = a == b
  same (str a) (str b) = a == b
  same (arr vs) (arr ws) = same_values vs ws
  same (obj fs) (obj gs) = included fs gs && within gs fs
  same _ _ = false

  pub same_values : Values → Values → Bool
  same_values nil nil = true
  same_values (cons v vs) (cons w ws) = same v w && same_values vs ws
  same_values _ _ = false

  -- every field of the first object has the same value in the second
  pub included : Fields → Fields → Bool
  included end gs = true
  included (field k v fs) gs =
      elim (get k gs) [ none ↦ false | some w ↦ same v w ] && included fs gs
