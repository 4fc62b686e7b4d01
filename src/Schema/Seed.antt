-- ===== src/Schema/Seed.antt =====
-- `SeedEntityTypes` and `SeedRelationshipTypes` of internal/schema/seed.go, and the loops of
-- internal/cli/runtime.go that register them for a peer.
pub mod Laws
use coggo.Prelude.{String, Bool, true, false, none, some, List, [], ◌∷◌}
use coggo.Types.{
  FieldType, string, number, timestamp, list_of, FieldDef, EntityTypeDefinition,
  RelationshipTypeDefinition,
}
use coggo.Types.Json.{str}
use coggo.Schema.Resolver.{Resolver, register_entity_type, register_relation_type}

-- a field with only a name and a type
abbrev pub seed_field : String → FieldType → FieldDef
seed_field name type = record {
  name = name;
  type = type;
  element_type = none;
  required = false;
  default = none;
  validation = "";
  description = "";
}

abbrev pub seed_project : String → EntityTypeDefinition
seed_project peer = record {
  name = "Project";
  peer_did = peer;
  fields =
      record (seed_field "title" string) { required = true }
      ∷ record (seed_field "status" string) {
        default = some (str "active");
        description = "active | paused | completed | abandoned";
      }
      ∷ seed_field "description" string
      ∷ record (seed_field "completion_estimate" number) {
        description = "0-100 estimate of completion";
      }
      ∷ record (seed_field "tags" list_of) { element_type = some string }
      ∷ record (seed_field "external_url" string) { description = "GitHub URL, project page, etc." }
      ∷ [];
  description = "Work or efforts with goals and trajectories";
}

abbrev pub seed_domain : String → EntityTypeDefinition
seed_domain peer = record {
  name = "Domain";
  peer_did = peer;
  fields =
      record (seed_field "title" string) { required = true }
      ∷ seed_field "description" string
      ∷ record (seed_field "tags" list_of) { element_type = some string }
      ∷ [];
  description = "Life areas (health, finance, social, music, etc.)";
}

abbrev pub seed_decision : String → EntityTypeDefinition
seed_decision peer = record {
  name = "Decision";
  peer_did = peer;
  fields =
      record (seed_field "title" string) {
        required = true;
        description = "One-line summary of the decision";
      }
      ∷ record (seed_field "rationale" string) {
        required = true;
        description = "Why this was decided";
      }
      ∷ record (seed_field "alternatives" list_of) {
        element_type = some string;
        description = "Alternatives considered and rejected";
      }
      ∷ record (seed_field "context" string) {
        description = "Background that led to this decision";
      }
      ∷ record (seed_field "confidence" string) { description = "low | medium | high" }
      ∷ [];
  description = "Discrete reasoned choices with rationale, alternatives, supersedes";
}

abbrev pub seed_goal : String → EntityTypeDefinition
seed_goal peer = record {
  name = "Goal";
  peer_did = peer;
  fields =
      record (seed_field "title" string) { required = true }
      ∷ seed_field "description" string
      ∷ seed_field "target_date" timestamp
      ∷ record (seed_field "status" string) {
        default = some (str "open");
        description = "open | achieved | abandoned | paused";
      }
      ∷ record (seed_field "success_criteria" string) {
        description = "What it looks like when achieved";
      }
      ∷ [];
  description = "Desired states with time horizons";
}

abbrev pub seed_observation : String → EntityTypeDefinition
seed_observation peer = record {
  name = "Observation";
  peer_did = peer;
  fields =
      record (seed_field "text" string) { required = true }
      ∷ record (seed_field "tags" list_of) { element_type = some string }
      ∷ record (seed_field "source" string) { description = "Where this observation came from" }
      ∷ [];
  description = "Context, learnings, signals that don't fit elsewhere";
}

abbrev pub seed_setting : String → EntityTypeDefinition
seed_setting peer = record {
  name = "Setting";
  peer_did = peer;
  fields =
      record (seed_field "key" string) { required = true }
      ∷ record (seed_field "value" string) { required = true }
      ∷ record (seed_field "scope" string) { description = "global | peer-specific" }
      ∷ [];
  description = "Coggo behavioral settings stored as data";
}

abbrev pub seed_entity_types : String → List EntityTypeDefinition
seed_entity_types peer =
    seed_project peer
    ∷ seed_domain peer
    ∷ seed_decision peer
    ∷ seed_goal peer
    ∷ seed_observation peer
    ∷ seed_setting peer
    ∷ []

abbrev pub seed_depends_on : String → RelationshipTypeDefinition
seed_depends_on peer = record {
  name = "depends_on";
  peer_did = peer;
  fields =
      record (seed_field "kind" string) { description = "blocking | soft | informational" } ∷ [];
  description = "Directional dependency";
  directional = true;
}

abbrev pub seed_supersedes : String → RelationshipTypeDefinition
seed_supersedes peer = record {
  name = "supersedes";
  peer_did = peer;
  fields = seed_field "reason" string ∷ [];
  description = "Replacement (decisions, goals)";
  directional = true;
}

abbrev pub seed_affects : String → RelationshipTypeDefinition
seed_affects peer = record {
  name = "affects";
  peer_did = peer;
  fields =
      record (seed_field "nature" string) { description = "positive | negative | mixed | neutral" }
      ∷ [];
  description = "Entity A affects entity B's state or trajectory";
  directional = true;
}

abbrev pub seed_relationship_types : String → List RelationshipTypeDefinition
seed_relationship_types peer = seed_depends_on peer ∷ seed_supersedes peer ∷ seed_affects peer ∷ []

-- `for _, def := range … { resolver.RegisterEntityType(did, def) }`
unfoldable pub register_entity_types : String → List EntityTypeDefinition → Resolver → Resolver
register_entity_types peer [] r = r
register_entity_types peer (d ∷ ds) r =
    register_entity_types peer ds (register_entity_type peer d r)

unfoldable pub register_relation_types :
    String → List RelationshipTypeDefinition → Resolver → Resolver
register_relation_types peer [] r = r
register_relation_types peer (d ∷ ds) r =
    register_relation_types peer ds (register_relation_type peer d r)

-- both loops
unfoldable pub seed : String → Resolver → Resolver
unfolding register_entity_types register_relation_types
seed peer r =
    register_relation_types peer (seed_relationship_types peer)
      (register_entity_types peer (seed_entity_types peer) r)
