-- ===== src/Types/Decode.antt =====
-- What `json.Unmarshal` reads out of a payload, for the two structs that the fold over the event
-- log decodes (internal/store/sqlite.go). A key that the text lacks leaves the field's zero value,
-- and so does a key with the value null.
use coggo.Prelude.{String, Option, none, some}
use coggo.Types.{
  Time, zero_time, Entity, Payload, empty, of_null, malformed, of_entity, of_relation,
  of_entity_type, of_relation_type, of_archive, of_dissolve,
}

-- `&types.Entity{}`
abbrev pub blank_entity : Entity
blank_entity = record {
  id = "";
  type = "";
  peer_did = "";
  created_at = zero_time;
  created_by_did = "";
  created_by_client = "";
  updated_at = zero_time;
  archived_at = none;
  fields = none;
  embedding_id = none;
}

-- `json.Unmarshal(payload, ent)`; `none` is an error
unfoldable pub unmarshal_entity : Payload → Option Entity
unmarshal_entity empty = none
unmarshal_entity malformed = none
unmarshal_entity of_null = some blank_entity
unmarshal_entity (of_entity e) = some e
unmarshal_entity (of_relation r) = some (record blank_entity {
  id = r.id;
  type = r.type;
  peer_did = r.peer_did;
  created_at = r.created_at;
  created_by_did = r.created_by_did;
  created_by_client = r.created_by_client;
  fields = r.fields;
})
unmarshal_entity (of_entity_type d) = some (record blank_entity { peer_did = d.peer_did })
unmarshal_entity (of_relation_type d) = some (record blank_entity { peer_did = d.peer_did })
unmarshal_entity (of_archive id at) = some (record blank_entity { id = id; archived_at = some at })
unmarshal_entity (of_dissolve id at) = some (record blank_entity { id = id })

abbrev pub or_zero : Option Time → Time
or_zero none = zero_time
or_zero (some t) = t

-- `json.Unmarshal(ev.Payload, &p)` with `p struct { ID string; ArchivedAt time.Time }`
unfoldable pub unmarshal_archive : Payload → Option (String × Time)
unmarshal_archive empty = none
unmarshal_archive malformed = none
unmarshal_archive of_null = some ("", zero_time)
unmarshal_archive (of_entity e) = some (e.id, or_zero e.archived_at)
unmarshal_archive (of_relation r) = some (r.id, zero_time)
unmarshal_archive (of_entity_type d) = some ("", zero_time)
unmarshal_archive (of_relation_type d) = some ("", zero_time)
unmarshal_archive (of_archive id at) = some (id, at)
unmarshal_archive (of_dissolve id at) = some (id, zero_time)
