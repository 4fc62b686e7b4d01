-- ===== src/Tests/Data.antt =====
-- The inputs that the examples share.
use coggo.Prelude.{ℕ, ◌*◌, String, ◌==◌, Bool, true, false, Option, none, some, [], ◌∷◌, map, take}
use coggo.Types.{
  Relation, Entity, Event, entity_created, of_entity, EntityQuery, FieldDef, string,
  EntityTypeDefinition, PeerSettings, Peer, Token,
}
use coggo.Types.Json.{str, Fields, end, field, get, same}
use coggo.Store.Rows.{Db, Sqlite, fresh}
use coggo.Store.Events.{event_row}
use coggo.Store.Entities.{entity_row}
use coggo.Federation.Message.{MessageType, Request, Inbound, EntityCreateArgs, EntityUpdateArgs}
use coggo.Federation.Handler.Base.{World, Env}

abbrev second : ℕ
second = 1000000000

abbrev pub sqlite : Sqlite
sqlite = record {
  json_equal = λ fs k v. elim (get k fs) [ none ↦ false | some w ↦ same w v ];
  like = λ fs q. true;
  knn = λ rows v n. take n (map (λ r. (r.entity_id, 0)) rows);
  one_minus = λ d. d;
}

abbrev pub rfc3339 : String → Bool
rfc3339 s = s == "2024-01-01T00:00:00Z"

abbrev pub me : String
me = "did:key:me"

abbrev pub title : Fields
title = field "title" (str "Plan") end

abbrev pub note : Entity
note = record {
  id = "e1";
  type = "Note";
  peer_did = me;
  created_at = 3 * second;
  created_by_did = me;
  created_by_client = "cli";
  updated_at = 3 * second;
  archived_at = none;
  fields = some title;
  embedding_id = none;
}

abbrev pub created : Event
created = record {
  id = "v1";
  peer_did = me;
  type = entity_created;
  payload = of_entity note;
  timestamp = 3 * second;
  author_did = me;
  client_id = "cli";
  signature = [];
}

abbrev pub empty_db : Db
empty_db = fresh 3

-- the note, with its event
abbrev pub db : Db
db = record (fresh 3) { entities = entity_row note ∷ []; events = event_row created ∷ [] }

abbrev pub all_notes : EntityQuery
all_notes = record { type = "Note"; filters = end; limit = 0; include_archived = false }

abbrev pub title_field : FieldDef
title_field = record {
  name = "title";
  type = string;
  element_type = none;
  required = true;
  default = none;
  validation = "";
  description = "";
}

abbrev pub note_type : EntityTypeDefinition
note_type = record { name = "Note"; peer_did = me; fields = title_field ∷ []; description = "" }

abbrev pub world : World
world = record { db = db; resolver = none }

abbrev pub env : Env
env = record {
  now = 9 * second;
  record_id = "e2";
  event_id = "v2";
  store_ulid = "v3";
  message_id = "m2";
  sent_at = 9 * second;
}

abbrev pub creation : EntityCreateArgs
creation = record { type = "Note"; fields = some title; author = ""; client = "" }

abbrev pub change : EntityUpdateArgs
change = record {
  id = "e1";
  fields = some (field "title" (str "Done") end);
  author = "";
  client = "";
}

abbrev pub message_of : MessageType → Option Request → Inbound
message_of type request = record {
  version = "1";
  source_did = "did:key:you";
  target_did = me;
  type = type;
  payload = request;
  auth_token = "";
  message_id = "m1";
  timestamp = 8 * second;
}

abbrev pub settings : PeerSettings
settings = record {
  default_clarification_threshold = "";
  briefing_frequency = "";
  briefing_time = "";
  capture_confirmation = "";
}

abbrev pub alice : Peer
alice = record {
  did = me;
  name = "alice";
  description = "";
  private_key = [];
  public_key = [];
  created_at = 2 * second;
  settings = settings;
}

-- a hash for the examples
abbrev pub hash : String → String
hash s = s

abbrev pub token : Token
token = record {
  id = "t1";
  secret_hash = "s1";
  peers = "alice" ∷ [];
  label = "";
  created_at = 2 * second;
  last_used_at = 0;
}

abbrev pub link : Relation
link = record {
  id = "r1";
  from = "e1";
  to = "e2";
  type = "depends_on";
  peer_did = me;
  created_at = 4 * second;
  created_by_did = me;
  created_by_client = "cli";
  fields = none;
}
