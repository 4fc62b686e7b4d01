-- ===== src/Federation/Message.antt =====
-- The messages of internal/types/types.go, with the request shapes of
-- internal/federation/handler.go. A request's payload is the value that `json.Unmarshal` reads from
-- it, a reply's payload the value that `json.Marshal` writes.
use coggo.Prelude.{ℕ, String, Bool, Option, List}
use coggo.Prelude.Result.{Error}
use coggo.Types.{
  Time, Entity, Relation, FieldDef, EntityTypeDefinition, RelationshipTypeDefinition, EntityQuery,
}
use coggo.Types.Json.{Fields}
use coggo.Store.Rows.{Vector}
use coggo.Store.Search.{SemanticHit}

pub data MessageType : Type 0 where
  query write response error ping : MessageType
  other_message : String → MessageType

pub record FederationMessage (P : Type 0) : Type 0 where
  pub version : String
  pub source_did : String
  pub target_did : String
  pub type : MessageType
  pub payload : P
  pub auth_token : String
  pub message_id : String
  pub timestamp : Time

pub record EntityCreateArgs : Type 0 where
  pub type : String
  pub fields : Option Fields
  pub author : String
  pub client : String

pub record EntityUpdateArgs : Type 0 where
  pub id : String
  pub fields : Option Fields
  pub author : String
  pub client : String

-- the arguments of entity.archive, and of relation.dissolve
pub record IdArgs : Type 0 where
  pub id : String
  pub author : String
  pub client : String

pub record RelationCreateArgs : Type 0 where
  pub from : String
  pub to : String
  pub type : String
  pub fields : Option Fields
  pub author : String
  pub client : String

pub record RelationQueryArgs : Type 0 where
  pub from : String
  pub to : String
  pub type : String
  pub limit : ℕ

pub record TypeDescribeArgs : Type 0 where
  pub name : String
  pub is_relationship : Bool

pub record TypeDefineArgs : Type 0 where
  pub name : String
  pub description : String
  pub fields : List FieldDef
  pub is_relationship : Bool
  pub directional : Bool
  pub author : String
  pub client : String

pub record SemanticArgs : Type 0 where
  pub query : String
  pub vector : Vector
  pub type_filter : String
  pub limit : ℕ

pub record TimeTravelArgs : Type 0 where
  pub query : EntityQuery
  pub as_of : Time

-- The envelope: the operation and its arguments; `none` where the arguments do not unmarshal.
pub data Request : Type 0 where
  entity_get : Option String → Request
  entity_query : Option EntityQuery → Request
  entity_create : Option EntityCreateArgs → Request
  entity_update : Option EntityUpdateArgs → Request
  entity_archive : Option IdArgs → Request
  relation_create : Option RelationCreateArgs → Request
  relation_query : Option RelationQueryArgs → Request
  relation_dissolve : Option IdArgs → Request
  type_list : Request
  type_describe : Option TypeDescribeArgs → Request
  type_define : Option TypeDefineArgs → Request
  semantic_search : Option SemanticArgs → Request
  time_travel : Option TimeTravelArgs → Request
  unknown_op : String → Request

-- What a reply carries.
pub data Body : Type 0 where
  pong : String → Body
  entity : Option Entity → Body
  entities : List Entity → Body
  archived : String → Time → Body
  relation : Relation → Body
  relations : List Relation → Body
  dissolved : String → Time → Body
  no_types : Body
  all_types : List EntityTypeDefinition → List RelationshipTypeDefinition → Body
  entity_type : EntityTypeDefinition → Body
  relation_type : RelationshipTypeDefinition → Body
  hits : List SemanticHit → Body
  failure : Error → Body

-- A message on its way in; `none` where the payload is no envelope.
abbrev pub Inbound : Type 0
Inbound = FederationMessage (Option Request)

abbrev pub Outbound : Type 0
Outbound = FederationMessage Body

-- What a call gives: a message with Go's error beside it, or a nil dereference.
pub data Outcome : Type 0 where
  returns : Outbound → Option Error → Outcome
  panics : Outcome
