-- ===== src/Schema/Seed/Laws.antt =====
-- What a resolver knows once the seed types of internal/schema/seed.go are registered.
use coggo.Prelude.{
  String, ◌≡◌, refl, ◌∙◌, false, List, [], ◌∷◌, inl, inr, arith, ◌==◌, eq_iff, ◌⊎◌, All, All-mono,
  if◌then◌else◌,
}
use coggo.Prelude.Result.{ok}
use coggo.Prelude.Distinct.{Lacks, Distinct}
use coggo.Types.{FieldDef, EntityTypeDefinition, RelationshipTypeDefinition}
use coggo.Schema.Resolver.{
  Resolver, resolve-register, register_entity_type, register_relation_type, entity_type,
  relation_type,
}
use coggo.Schema.Seed.{
  seed_entity_types, seed_relationship_types, register_entity_types, register_relation_types, seed,
}

-- The seed types have different names, and so have the fields of each: `ValidateEntity` checks every field once.
seed-Distinct :
    (peer : String)
    → Distinct (λ (d : EntityTypeDefinition). d.name) (seed_entity_types peer)
      × Distinct (λ (d : RelationshipTypeDefinition). d.name) (seed_relationship_types peer)
      × All
          (λ (d : EntityTypeDefinition). Distinct (λ (f : FieldDef). f.name) d.fields)
          (seed_entity_types peer)
seed-Distinct peer = ground arith

module _ (p n peer : String) where
  pub entity_type-register :
      (d : EntityTypeDefinition) (r : Resolver)
      → entity_type p n (register_entity_type peer d r) ≡ (
          if peer == p
          then (if d.name == n then ok d else entity_type p n r)
          else entity_type p n r)
  unfolding entity_type register_entity_type
  entity_type-register d r = ground (arith, resolve-register peer d.name p n d r.entity_types)

  relation_type-register :
      (d : RelationshipTypeDefinition) (r : Resolver)
      → relation_type p n (register_relation_type peer d r) ≡ (
          if peer == p
          then (if d.name == n then ok d else relation_type p n r)
          else relation_type p n r)
  unfolding relation_type register_relation_type
  relation_type-register d r = ground (arith, resolve-register peer d.name p n d r.rel_types)

  -- names that the list lacks, and other peers, are as they were
  entity_types-others :
      (ds : List EntityTypeDefinition) (r : Resolver)
      → (Lacks (λ (d : EntityTypeDefinition). d.name) n ds) ⊎ ((peer == p) ≡ false)
      → entity_type p n (register_entity_types peer ds r) ≡ entity_type p n r
  unfolding register_entity_types
  entity_types-others [] r h = refl
  entity_types-others (d ∷ ds) r (inl lacks) =
      entity_types-others ds (register_entity_type peer d r) (inl lacks.1)
      ∙ ground (arith, entity_type-register d r, lacks.0)
  entity_types-others (d ∷ ds) r (inr other) =
      entity_types-others ds (register_entity_type peer d r) (inr other)
      ∙ ground (arith, entity_type-register d r, other)

  relation_types-others :
      (ds : List RelationshipTypeDefinition) (r : Resolver)
      → (Lacks (λ (d : RelationshipTypeDefinition). d.name) n ds) ⊎ ((peer == p) ≡ false)
      → relation_type p n (register_relation_types peer ds r) ≡ relation_type p n r
  unfolding register_relation_types
  relation_types-others [] r h = refl
  relation_types-others (d ∷ ds) r (inl lacks) =
      relation_types-others ds (register_relation_type peer d r) (inl lacks.1)
      ∙ ground (arith, relation_type-register d r, lacks.0)
  relation_types-others (d ∷ ds) r (inr other) =
      relation_types-others ds (register_relation_type peer d r) (inr other)
      ∙ ground (arith, relation_type-register d r, other)

  -- the two kinds of types do not meet
  entity_type-relation_types :
      (ds : List RelationshipTypeDefinition) (r : Resolver)
      → entity_type p n (register_relation_types peer ds r) ≡ entity_type p n r
  unfolding register_relation_types entity_type register_relation_type
  entity_type-relation_types [] r = refl
  entity_type-relation_types (d ∷ ds) r =
      entity_type-relation_types ds (register_relation_type peer d r)

  relation_type-entity_types :
      (ds : List EntityTypeDefinition) (r : Resolver)
      → relation_type p n (register_entity_types peer ds r) ≡ relation_type p n r
  unfolding register_entity_types relation_type register_entity_type
  relation_type-entity_types [] r = refl
  relation_type-entity_types (d ∷ ds) r =
      relation_type-entity_types ds (register_entity_type peer d r)

entity_types-known :
    (peer : String) (ds : List EntityTypeDefinition) (r : Resolver)
    → Distinct (λ (d : EntityTypeDefinition). d.name) ds
    → All
        (λ (d : EntityTypeDefinition).
          entity_type peer d.name (register_entity_types peer ds r) ≡ ok d)
        ds
unfolding register_entity_types
entity_types-known peer [] r h = tt
entity_types-known peer (d ∷ ds) r h = (
  entity_types-others peer d.name peer ds (register_entity_type peer d r) (inl h.0)
      ∙ ground (
        arith,
        entity_type-register peer d.name peer d r,
        eq_iff peer peer,
        eq_iff d.name d.name,
      ),
  entity_types-known peer ds (register_entity_type peer d r) h.1,
)

relation_types-known :
    (peer : String) (ds : List RelationshipTypeDefinition) (r : Resolver)
    → Distinct (λ (d : RelationshipTypeDefinition). d.name) ds
    → All
        (λ (d : RelationshipTypeDefinition).
          relation_type peer d.name (register_relation_types peer ds r) ≡ ok d)
        ds
unfolding register_relation_types
relation_types-known peer [] r h = tt
relation_types-known peer (d ∷ ds) r h = (
  relation_types-others peer d.name peer ds (register_relation_type peer d r) (inl h.0)
      ∙ ground (
        arith,
        relation_type-register peer d.name peer d r,
        eq_iff peer peer,
        eq_iff d.name d.name,
      ),
  relation_types-known peer ds (register_relation_type peer d r) h.1,
)

-- Once a peer is seeded, each seed type is read back under its name, whatever the resolver knew.
pub seed-known :
    (peer : String) (r : Resolver)
    → All
        (λ (d : EntityTypeDefinition). entity_type peer d.name (seed peer r) ≡ ok d)
        (seed_entity_types peer)
      × All
          (λ (d : RelationshipTypeDefinition). relation_type peer d.name (seed peer r) ≡ ok d)
          (seed_relationship_types peer)
unfolding seed
seed-known peer r =
    let r' : Resolver = register_entity_types peer (seed_entity_types peer) r in
    (
      All-mono (λ (d : EntityTypeDefinition). entity_type peer d.name r' ≡ ok d)
          (λ (d : EntityTypeDefinition).
            entity_type peer d.name (register_relation_types peer (seed_relationship_types peer) r')
            ≡ ok d)
          (seed_entity_types peer)
          (λ d h. entity_type-relation_types peer d.name peer (seed_relationship_types peer) r' ∙ h)
          (entity_types-known peer (seed_entity_types peer) r (seed-Distinct peer).0),
      relation_types-known peer (seed_relationship_types peer) r' (seed-Distinct peer).1,
    )

-- Seeding one peer changes no type of another.
pub seed-others :
    (peer other name : String) (r : Resolver)
    → (peer == other) ≡ false
    → (entity_type other name (seed peer r) ≡ entity_type other name r)
      × (relation_type other name (seed peer r) ≡ relation_type other name r)
unfolding seed
seed-others peer other name r apart =
    let r' : Resolver = register_entity_types peer (seed_entity_types peer) r in
    (
      entity_type-relation_types other name peer (seed_relationship_types peer) r'
          ∙ entity_types-others other name peer (seed_entity_types peer) r (inr apart),
      relation_types-others other name peer (seed_relationship_types peer) r' (inr apart)
          ∙ relation_type-entity_types other name peer (seed_entity_types peer) r,
    )
