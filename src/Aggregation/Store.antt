-- ===== src/Aggregation/Store.antt =====
-- event_aggregation_store.py of stock-assistant-pipeline-intelligence/app/aggregation, and the hash
-- commands of redis/state_client.py that it calls. Here a hash is the record of the values of its five
-- fields, which is what the service reads and writes; Wire has the texts that Redis holds, and
-- Wire/Read that they are read back as these values. A hash stays until it is overwritten: that Redis
-- drops it when its TTL is over is left out.
pub mod Keys
pub mod Wire
use wealthfinder.Prelude.{
  ℕ, Text, text_eq, Bool, true, false, ◌&&◌, Option, none, some, List, [], ◌∷◌, ◌++◌, ◌==◌, nat_eq,
  elem, if◌then◌else◌,
}
use wealthfinder.Prelude.Assoc.{lookup, insert}
use wealthfinder.Prelude.Result.{Result, ok, raise, other, assert_some, ◌>>=◌}
use wealthfinder.Models.{Event}
use wealthfinder.Models.EventType.{EventTypeEnum, codes, type_name, parse_type}

-- group_coroutine.py's GroupKey
pub record GroupKey : Type 0 where
  pub exchange : Text
  pub stock_code : Text
  pub event_type_primary : EventTypeEnum

pub record Hash : Type 0 where
  pub event_id : ℕ
  pub first_seen_at : ℕ
  pub last_seen_at : ℕ
  pub aggregation_updated_at : ℕ
  pub entity_event_ids : List ℕ

abbrev pub Redis : Type 0
Redis = List (Text × Hash)

abbrev pub prefix : Text
prefix = codes "agg:event:"

unfoldable pub get_key : GroupKey → Text
get_key k = prefix ++ (k.exchange ++ b':' ∷ (k.stock_code ++ b':' ∷ type_name k.event_type_primary))

unfoldable pub decode : GroupKey → Hash → Event
decode k h = record {
  event_id = h.event_id;
  exchange = k.exchange;
  stock_code = k.stock_code;
  event_type_primary = k.event_type_primary;
  first_seen_at = h.first_seen_at;
  last_seen_at = h.last_seen_at;
  event_type_secondary = none;
  source_list = none;
  aggregation_updated_at = some h.aggregation_updated_at;
  updated_at = none;
  created_at = none;
  entity_event_ids = some h.entity_event_ids;
}

unfoldable pub get_active_event : GroupKey → Redis → Option Event
get_active_event k r = elim (lookup (get_key k) r) [ none ↦ none | some h ↦ some (decode k h) ]

abbrev pub key_of : Event → GroupKey
key_of e = record {
  exchange = e.exchange;
  stock_code = e.stock_code;
  event_type_primary = e.event_type_primary;
}

-- the hash that `upsert_active_event` writes, unless an assertion fails
unfoldable pub hash_of : Event → Result Hash
hash_of e = do
  updated ← assert_some e.aggregation_updated_at
  ids ← assert_some e.entity_event_ids
  ok (record {
    event_id = e.event_id;
    first_seen_at = e.first_seen_at;
    last_seen_at = e.last_seen_at;
    aggregation_updated_at = updated;
    entity_event_ids = ids;
  })

-- the transaction of `upsert_active_event`
unfoldable pub upsert_hash : Event → Hash → Redis → Redis
upsert_hash e h r = insert (get_key (key_of e)) h r

unfoldable pub starts_with : Text → Text → Bool
starts_with [] text = true
starts_with (p ∷ ps) [] = false
starts_with (p ∷ ps) (c ∷ text) = p == c && starts_with ps text

abbrev add_once : Text → List Text → List Text
add_once key keys = if elem key keys then keys else key ∷ keys

-- `scan("agg:event:*")`: each matching key once
unfoldable pub scan_keys : Redis → List Text
unfolding starts_with elem
scan_keys [] = []
scan_keys ((key, h) ∷ r) =
    let rest = scan_keys r in if starts_with prefix key then add_once key rest else rest

abbrev pub cons_head : ℕ → List Text → List Text
cons_head c [] = (c ∷ []) ∷ []
cons_head c (part ∷ parts) = (c ∷ part) ∷ parts

-- `text.split(":")`
unfoldable pub split_colon : Text → List Text
split_colon [] = [] ∷ []
split_colon (c ∷ text) = if c == b':' then [] ∷ split_colon text else cons_head c (split_colon text)

-- `_, _, exchange, stock_code, event_type_primary = key.split(":")`, a ValueError unless there are
-- five parts, and `EventTypeEnum(event_type_primary)`
unfoldable pub unpack : List Text → Result GroupKey
unpack (_ ∷ _ ∷ exchange ∷ stock_code ∷ name ∷ []) = elim (parse_type name) [
  | none ↦ raise other
  | some t ↦ ok (record { exchange = exchange; stock_code = stock_code; event_type_primary = t })
]
unpack _ = raise other

unfoldable pub parse_key : Text → Result GroupKey
unfolding unpack split_colon
parse_key key = unpack (split_colon key)
