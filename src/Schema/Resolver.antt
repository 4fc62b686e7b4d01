-- ===== src/Schema/Resolver.antt =====
-- internal/schema/resolver.go. Each call holds the lock from its first to its last access, so a call
-- is one step.
use coggo.Prelude.{
  String, ◌≡◌, Option, none, some, List, [], map, inl, inr, arith, Option-cases, eq_iff, ◌==◌,
  if◌then◌else◌, Dict, lookup, insert, lookup-insert,
}
use coggo.Prelude.Order.{by_key, texts}
use coggo.Prelude.Order.Sort.{sort}
use coggo.Prelude.Result.{Result, about, or_else}
use coggo.Types.{EntityTypeDefinition, RelationshipTypeDefinition}

-- `if _, ok := m[peer]; !ok { m[peer] = {} }; m[peer][name] = def`
unfoldable pub register {ℓ} : {D : Type ℓ} → String → String → D → Dict (Dict D) → Dict (Dict D)
register peer name def types = elim (lookup peer types) [
  | none ↦ insert peer (insert name def []) types
  | some defs ↦ insert peer (insert name def defs) types
]

unfoldable pub resolve {ℓ} : {D : Type ℓ} → String → String → Dict (Dict D) → Option D
resolve peer name types = elim (lookup peer types) [ none ↦ none | some defs ↦ lookup name defs ]

abbrev pub definitions {ℓ} : {D : Type ℓ} → Option (Dict D) → List D
definitions none = []
definitions (some defs) = map (λ e. e.1) defs

pub record Resolver : Type 0 where
  pub entity_types : Dict (Dict EntityTypeDefinition)
  pub rel_types : Dict (Dict RelationshipTypeDefinition)

abbrev pub new_resolver : Resolver
new_resolver = record { entity_types = []; rel_types = [] }

unfoldable pub register_entity_type : String → EntityTypeDefinition → Resolver → Resolver
unfolding register
register_entity_type peer def r = record r {
  entity_types = register peer def.name def r.entity_types;
}

unfoldable pub register_relation_type : String → RelationshipTypeDefinition → Resolver → Resolver
unfolding register
register_relation_type peer def r = record r { rel_types = register peer def.name def r.rel_types }

unfoldable pub entity_type : String → String → Resolver → Result EntityTypeDefinition
unfolding resolve
entity_type peer name r =
    or_else (resolve peer name r.entity_types)
      (about "schema: entity type not defined for peer" name)

unfoldable pub relation_type : String → String → Resolver → Result RelationshipTypeDefinition
unfolding resolve
relation_type peer name r =
    or_else (resolve peer name r.rel_types)
      (about "schema: relationship type not defined for peer" name)

unfoldable pub list_entity_types : String → Resolver → List EntityTypeDefinition
list_entity_types peer r =
    sort (by_key (λ d. d.name) texts) (definitions (lookup peer r.entity_types))

unfoldable pub list_relation_types : String → Resolver → List RelationshipTypeDefinition
list_relation_types peer r =
    sort (by_key (λ d. d.name) texts) (definitions (lookup peer r.rel_types))

-- A registration is read back under its own peer and name, and changes no other pair.
pub resolve-register {ℓ} :
    {D : Type ℓ} (peer name peer' name' : String) (def : D) (types : Dict (Dict D))
    → resolve peer' name' (register peer name def types) ≡ (
        if peer == peer'
        then (if name == name' then some def else resolve peer' name' types)
        else resolve peer' name' types)
unfolding resolve register lookup insert
resolve-register peer name peer' name' def types = elim (Option-cases (lookup peer types)) [
  | inl absent ↦
      ground (arith, absent, lookup-insert peer peer' (insert name def []) types, eq_iff peer peer')
  | inr (defs, present) ↦ ground (
    arith,
    present,
    lookup-insert peer peer' (insert name def defs) types,
    lookup-insert name name' def defs,
    eq_iff peer peer',
  )
]
