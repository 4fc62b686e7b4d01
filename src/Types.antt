-- ===== src/Types.antt =====
-- internal/types/types.go: peers, events, entities, relations and type definitions.
-- A `time.Time` is the number of nanoseconds since Go's zero time; an event's payload is the JSON
-- text by the value that was marshalled into it.
pub mod Json
pub mod Decode
pub mod Encode
pub mod Struct
use coggo.Prelude.{ℕ, zero, String, ◌==◌, Bool, true, false, Option, none, some, List, eqb}
use coggo.Types.Json.{Fields}

abbrev pub Time : Type 0
Time = ℕ

abbrev pub zero_time : Time
zero_time = 0

abbrev pub is_zero : Time → Bool
is_zero t = eqb t zero_time

pub data EventType : Type 0 where
  entity_created entity_updated entity_archived : EventType
  relation_created relation_dissolved : EventType
  entity_type_defined entity_type_updated : EventType
  relationship_type_defined relationship_type_updated : EventType
  setting_changed : EventType
  -- any other text, the empty one included
  other_event : String → EventType

-- `ev.Type == ""`
abbrev pub is_untyped : EventType → Bool
is_untyped (other_event s) = s == ""
is_untyped _ = false

pub record Entity : Type 0 where
  pub id : String
  pub type : String
  pub peer_did : String
  pub created_at : Time
  pub created_by_did : String
  pub created_by_client : String
  pub updated_at : Time
  pub archived_at : Option Time
  -- `none` is the nil map
  pub fields : Option Fields
  pub embedding_id : Option String

pub record Relation : Type 0 where
  pub id : String
  pub from : String
  pub to : String
  pub type : String
  pub peer_did : String
  pub created_at : Time
  pub created_by_did : String
  pub created_by_client : String
  pub fields : Option Fields

pub data FieldType : Type 0 where
  string number boolean timestamp reference list_of : FieldType
  other_type : String → FieldType

pub record FieldDef : Type 0 where
  pub name : String
  pub type : FieldType
  pub element_type : Option FieldType
  pub required : Bool
  pub default : Option Json.Value
  pub validation : String
  pub description : String

pub record EntityTypeDefinition : Type 0 where
  pub name : String
  pub peer_did : String
  pub fields : List FieldDef
  pub description : String

pub record RelationshipTypeDefinition : Type 0 where
  pub name : String
  pub peer_did : String
  pub fields : List FieldDef
  pub description : String
  pub directional : Bool

-- A `json.RawMessage`, by what `json.Marshal` made it from.
pub data Payload : Type 0 where
  empty : Payload
  of_null : Payload
  malformed : Payload
  of_entity : Entity → Payload
  of_relation : Relation → Payload
  of_entity_type : EntityTypeDefinition → Payload
  of_relation_type : RelationshipTypeDefinition → Payload
  of_archive : String → Time → Payload
  of_dissolve : String → Time → Payload

pub record Event : Type 0 where
  pub id : String
  pub peer_did : String
  pub type : EventType
  pub payload : Payload
  pub timestamp : Time
  pub author_did : String
  pub client_id : String
  -- no code of the program sets it
  pub signature : List ℕ

pub record EntityQuery : Type 0 where
  pub type : String
  pub filters : Fields
  pub limit : ℕ
  pub include_archived : Bool

pub record PeerSettings : Type 0 where
  pub default_clarification_threshold : String
  pub briefing_frequency : String
  pub briefing_time : String
  pub capture_confirmation : String

pub record Peer : Type 0 where
  pub did : String
  pub name : String
  pub description : String
  pub private_key : List ℕ
  pub public_key : List ℕ
  pub created_at : Time
  pub settings : PeerSettings

pub record Token : Type 0 where
  pub id : String
  pub secret_hash : String
  pub peers : List String
  pub label : String
  pub created_at : Time
  pub last_used_at : Time
