-- ===== src/Aggregation/Store/Wire.antt =====
-- event_aggregation_store.py of stock-assistant-pipeline-intelligence/app/aggregation, on the texts that
-- Redis holds.
pub mod Read
pub mod Represented
use wealthfinder.Prelude.{ℕ, Text, text_eq, Option, none, some, List, [], ◌∷◌, map}
use wealthfinder.Prelude.Assoc.{lookup, insert}
use wealthfinder.Prelude.Result.{Result, ok, raise, other, assert_some, ◌>>=◌}
use wealthfinder.Models.{Event}
use wealthfinder.Models.EventType.{codes}
use wealthfinder.Aggregation.Store.{GroupKey, get_key, key_of}

-- str and UUID, datetime's isoformat and fromisoformat, and json's dumps and loads on lists of strings;
-- the parsers give none where they raise a ValueError.
pub record Formats : Type 0 where
  pub str_uuid : ℕ → Text
  pub parse_uuid : Text → Option ℕ
  pub isoformat : ℕ → Text
  pub fromisoformat : Text → Option ℕ
  pub dumps : List Text → Text
  pub loads : Text → Option (List Text)

-- a hash: its fields and their values
abbrev pub Fields : Type 0
Fields = List (Text × Text)

abbrev pub Hashes : Type 0
Hashes = List (Text × Fields)

-- a value that a parser gave
abbrev pub parsed {ℓ} : {A : Type ℓ} → Option A → Result A
parsed none = raise other
parsed (some a) = ok a

-- `fields[name]`, a KeyError if there is none
unfoldable pub get_field : Text → Fields → Result Text
get_field name fields = parsed (lookup name fields)

-- `hset(key, mapping=...)` on the fields that are there
unfoldable pub set_fields : Fields → Fields → Fields
set_fields [] fields = fields
set_fields ((name, text) ∷ mapping) fields = insert name text (set_fields mapping fields)

abbrev pub fields_at : Option Fields → Fields
fields_at none = []
fields_at (some fields) = fields

-- RedisStateClient.hgetall: None for no hash, and for one without fields
unfoldable pub hgetall : Option Fields → Option Fields
hgetall none = none
hgetall (some []) = none
hgetall (some (field ∷ fields)) = some (field ∷ fields)

module _ (formats : Formats) where
  open formats use {str_uuid, parse_uuid, isoformat, fromisoformat, dumps, loads}

  -- `[UUID(i) for i in texts]`
  unfoldable pub parse_uuids : List Text → Result (List ℕ)
  parse_uuids [] = ok []
  parse_uuids (text ∷ texts) = do
    id ← parsed (parse_uuid text)
    ids ← parse_uuids texts
    ok (id ∷ ids)

  -- `datetime.fromisoformat(fields[name])`
  unfoldable pub parse_time : Text → Fields → Result ℕ
  parse_time name fields = do text ← get_field name fields; parsed (fromisoformat text)

  unfoldable pub parse_event_id : Fields → Result ℕ
  parse_event_id fields = do text ← get_field (codes "event_id") fields; parsed (parse_uuid text)

  unfoldable pub parse_entity_event_ids : Fields → Result (List ℕ)
  parse_entity_event_ids fields = do
    text ← get_field (codes "entity_event_ids") fields
    texts ← parsed (loads text)
    parse_uuids texts

  -- `_decode`
  unfoldable pub decode_fields : GroupKey → Fields → Result Event
  decode_fields k fields = do
    event_id ← parse_event_id fields
    first_seen_at ← parse_time (codes "first_seen_at") fields
    last_seen_at ← parse_time (codes "last_seen_at") fields
    aggregation_updated_at ← parse_time (codes "aggregation_updated_at") fields
    entity_event_ids ← parse_entity_event_ids fields
    ok (record {
      event_id = event_id;
      exchange = k.exchange;
      stock_code = k.stock_code;
      event_type_primary = k.event_type_primary;
      first_seen_at = first_seen_at;
      last_seen_at = last_seen_at;
      event_type_secondary = none;
      source_list = none;
      aggregation_updated_at = some aggregation_updated_at;
      updated_at = none;
      created_at = none;
      entity_event_ids = some entity_event_ids;
    })

  unfoldable pub decode_found : GroupKey → Option Fields → Result (Option Event)
  decode_found k none = ok none
  decode_found k (some fields) = do event ← decode_fields k fields; ok (some event)

  -- `get_active_event`
  unfoldable pub read_active_event : GroupKey → Hashes → Result (Option Event)
  read_active_event k hashes = decode_found k (hgetall (lookup (get_key k) hashes))

  -- the mapping of `upsert_active_event`, given the two fields that it asserts
  unfoldable pub mapping_of : Event → ℕ → List ℕ → Fields
  mapping_of e updated ids =
      (codes "event_id", str_uuid e.event_id)
      ∷ (codes "first_seen_at", isoformat e.first_seen_at)
      ∷ (codes "last_seen_at", isoformat e.last_seen_at)
      ∷ (codes "aggregation_updated_at", isoformat updated)
      ∷ (codes "entity_event_ids", dumps (map str_uuid ids))
      ∷ []

  -- `upsert_active_event`, without its TTL
  unfoldable pub write_active_event : Event → Hashes → Result Hashes
  write_active_event e hashes = do
    updated ← assert_some e.aggregation_updated_at
    ids ← assert_some e.entity_event_ids
    let key = get_key (key_of e) in
        ok (
          insert key (set_fields (mapping_of e updated ids) (fields_at (lookup key hashes))) hashes)
