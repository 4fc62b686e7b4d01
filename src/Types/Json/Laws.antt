-- ===== src/Types/Json/Laws.antt =====
-- What a merge of one object into another leaves at a key.
use coggo.Prelude.{subst, String, ◌≡◌, refl, ◌∙◌, none, inl, inr, eq_iff, ◌==◌, Bool-cases}
use coggo.Types.Json.{Fields, end, field, get, put, merge, merged, get-put}

-- no key comes twice, as in a Go map
abbrev pub IsMap : Fields → Type 0
IsMap end = Unit
IsMap (field k v fs) = (get k fs ≡ none) × IsMap fs

-- The value at a key after a merge: the update's if it has one, else the old one.
pub get-merge :
    (k : String) (fs m : Fields) → IsMap fs → get k (merge fs m) ≡ merged (get k fs) (get k m)
unfolding get merge
get-merge k end m h = refl
get-merge k (field j v fs) m h = get-merge k fs (put j v m) h.1 ∙ elim (Bool-cases (j == k)) [
  | inl e ↦ rw (get-put j k v m, e, subst (λ i. get i fs ≡ none) ((eq_iff j k).0 e) h.0)
  | inr e ↦ rw (get-put j k v m, e)
]
