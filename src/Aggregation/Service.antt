-- ===== src/Aggregation/Service.antt =====
-- aggregation_service.py of stock-assistant-pipeline-intelligence/app/aggregation: the merge of one
-- EntityEvent and the flush. The groups, which run the merges of one group one after another, are in
-- Groups. Log lines are left out.
pub mod Recorded
pub mod Frames
pub mod Acks
pub mod Acked
use wealthfinder.Prelude.{
  ℕ, zero, suc, ◌+◌, Text, text_eq, Bool, true, false, not, Option, none, some, List, [], ◌∷◌, ◌++◌,
  ◌==◌, nat_eq, elem, length, map, if◌then◌else◌,
}
use wealthfinder.Prelude.Assoc.{lookup, insert}
use wealthfinder.Prelude.Result.{
  Exc, unreachable, rate_limit, sapi_error, cancelled, other, Result, ok, raise, assert_some,
}
use wealthfinder.Prelude.Action.{
  Env, Action, return, fail, lift, gets, modify, request, catch, ◌>>=◌, ◌>>◌,
}
use wealthfinder.RedisStream.{publish}
use wealthfinder.Persistent.EventRepository.{
  Tables, persist_events, fetch_unpublished_events, mark_published, fetch_mapped_event_id,
}
use wealthfinder.Models.{Event, EntityEvent, is_some}
use wealthfinder.Aggregation.SlidingWindow.{AggregationConfig, merge_or_create, is_late}
use wealthfinder.Aggregation.Store.{
  GroupKey, Hash, get_active_event, hash_of, upsert_hash, scan_keys, parse_key, decode,
}
use wealthfinder.Aggregation.World.{World, Setting}

-- `xs.remove(x)`, if it is there: `set.discard`
unfoldable pub discard : ℕ → List ℕ → List ℕ
discard x [] = []
discard x (y ∷ ys) = let rest = discard x ys in if y == x then rest else y ∷ rest

abbrev pub persisted_list : Result (Tables × List Event) → Result (List Event)
persisted_list (ok (t, written)) = ok written
persisted_list (raise x) = raise x

abbrev pub in_active : ℕ → Option Event → Result Bool
in_active id none = ok false
in_active id (some active) = elim active.entity_event_ids [
  | none ↦ raise other
  | some ids ↦ ok (elem id ids)
]

-- the Events to persist before `updated` takes the active Event's place
unfoldable pub replaced : Event → Option Event → List Event
replaced updated none = []
replaced updated (some active) = if updated.event_id == active.event_id then [] else active ∷ []

-- what `_last_flushed.get(event_id)` returns
abbrev pub version_flushed : List (ℕ × Option ℕ) → ℕ → Option ℕ
version_flushed last event_id = elim (lookup event_id last) [ none ↦ none | some version ↦ version ]

-- `a == b` of two optional times
abbrev pub same_version : Option ℕ → Option ℕ → Bool
same_version none none = true
same_version none (some b) = false
same_version (some a) none = false
same_version (some a) (some b) = a == b

unfoldable pub changed_since : List (ℕ × Option ℕ) → List Event → List Event
changed_since last [] = []
changed_since last (e ∷ es) =
    let rest = changed_since last es in
    if same_version (version_flushed last e.event_id) e.aggregation_updated_at
    then rest
    else e ∷ rest

-- `{event.event_id: event.aggregation_updated_at for event in active_events}`
unfoldable pub versions : List (ℕ × Option ℕ) → List Event → List (ℕ × Option ℕ)
versions last [] = last
versions last (e ∷ es) = versions (insert e.event_id e.aggregation_updated_at last) es

-- one round of the loop of `scan_all`: None if the key expired since the scan
unfoldable pub decode_at : Text → Option Hash → Result (Option Event)
decode_at key none = ok none
decode_at key (some h) = elim (parse_key key) [ ok k ↦ ok (some (decode k h)) | raise x ↦ raise x ]

abbrev pub cons_some : Option Event → List Event → List Event
cons_some none es = es
cons_some (some e) es = e ∷ es

module _ {F : Type 0} (setting : Setting) where
  -- datetime.now(UTC)
  unfoldable pub read_clock : Action (World F) ℕ
  read_clock e = (
    ok (setting.clock e.state.reads),
    record e { state = record e.state { reads = suc e.state.reads } },
  )

  -- uuid4()
  unfoldable pub draw_uuid : Action (World F) ℕ
  draw_uuid e = (
    ok (setting.uuid4 e.state.draws),
    record e { state = record e.state { draws = suc e.state.draws } },
  )

  -- AggregationConsumer._on_success
  unfoldable pub on_success : ℕ → ℕ → Action (World F) (Unit {0})
  on_success entity_event_id message_id = do
    modify (λ w. record w { enqueued = discard entity_event_id w.enqueued })
    request (λ w. tt) (λ w. record w { acked = message_id ∷ w.acked })

  unfoldable pub on_failure : ℕ → Action (World F) (Unit {0})
  on_failure entity_event_id =
      modify (λ w. record w { enqueued = discard entity_event_id w.enqueued })

  abbrev pub persisted_tables : Result (Tables × List Event) → World F → World F
  persisted_tables (ok (t, written)) w = record w { tables = t }
  persisted_tables (raise x) w = w

  -- EventRepository.persist_events
  unfoldable pub persist : List Event → Action (World F) (List Event)
  persist events = do
    now ← read_clock
    result ←
        request (λ w. persisted_list (persist_events setting.computed now w.tables events))
          (λ w. persisted_tables (persist_events setting.computed now w.tables events) w)
    lift result

  unfoldable pub announce_all : List Event → Action (World F) (Unit {0})
  announce_all [] = return tt
  announce_all (event ∷ events) = do
    version ← lift (assert_some event.aggregation_updated_at)
    publish (λ w. record w { announced = event.event_id ∷ w.announced })
    request (λ w. tt) (λ w. record w { tables = mark_published w.tables event.event_id version })
    announce_all events

  unfoldable pub persist_and_publish : List Event → Action (World F) (ℕ × ℕ)
  persist_and_publish events = do
    persisted ← persist events
    pending ←
        request (λ w. fetch_unpublished_events w.tables (map (λ (e : Event). e.event_id) events))
          (λ w. w)
    announce_all pending
    return (length persisted, length pending)

  unfoldable pub is_merged : EntityEvent F → Option Event → Action (World F) Bool
  is_merged entity active = do
    id ← lift (assert_some entity.entity_event_id)
    found ← lift (in_active id active)
    if found then return true else do
      mapped ← request (λ w. fetch_mapped_event_id w.tables id) (λ w. w)
      return (is_some mapped)

  abbrev pub late : EntityEvent F → Option Event → Result Bool
  late entity none = ok false
  late entity (some active) = is_late setting.config active entity

  -- `upsert_active_event`; the TTL only sets when the key may expire
  unfoldable pub upsert_active_event : Event → Action (World F) (Unit {0})
  upsert_active_event e = do
    h ← lift (hash_of e)
    request (λ w. tt) (λ w. record w { redis = upsert_hash e h w.redis })

  -- `_persist_and_publish([active_event])`, if there is a replaced Event
  unfoldable pub persist_replaced : List Event → Action (World F) (Unit {0})
  persist_replaced [] = return tt
  persist_replaced (active ∷ events) = persist_and_publish (active ∷ events) >> return tt

  -- the end of the `try` block of `_merge`, from the call of `merge_or_create`; the clock and the
  -- UUID are read whether or not they are used
  unfoldable pub store_merged : EntityEvent F → Option Event → Action (World F) (Unit {0})
  store_merged entity active = do
    now ← read_clock
    new_id ← draw_uuid
    updated ← lift (merge_or_create setting.config now new_id active entity)
    persist_replaced (replaced updated active)
    upsert_active_event updated

  unfoldable pub merge_unless_late : EntityEvent F → Option Event → Action (World F) (Unit {0})
  merge_unless_late entity active = do
    too_late ← lift (late entity active)
    if too_late then return tt else store_merged entity active

  -- the `try` block of `_merge`, each of whose branches ends by awaiting `on_success`
  unfoldable pub try_merge : EntityEvent F → GroupKey → ℕ → ℕ → Action (World F) (Unit {0})
  try_merge entity group_key id message_id = do
    active ← request (λ w. get_active_event group_key w.redis) (λ w. w)
    merged ← is_merged entity active
    if merged then return tt else merge_unless_late entity active
    on_success id message_id

  -- `except Exception` catches everything but a cancellation.
  abbrev pub failed : ℕ → Exc → Action (World F) (Unit {0})
  failed id cancelled = fail cancelled
  failed id x = on_failure id

  unfoldable pub merge_entity_event : EntityEvent F → GroupKey → ℕ → ℕ → Action (World F) (Unit {0})
  merge_entity_event entity group_key id message_id =
      catch (try_merge entity group_key id message_id) (failed id)

  unfoldable pub collect : List Text → Action (World F) (List Event)
  collect [] = return []
  collect (key ∷ keys) = do
    fields ← request (λ w. lookup key w.redis) (λ w. w)
    active ← lift (decode_at key fields)
    rest ← collect keys
    return (cons_some active rest)

  unfoldable pub scan_all : Action (World F) (List Event)
  scan_all = do keys ← request (λ w. scan_keys w.redis) (λ w. w); collect keys

  unfoldable pub flush : Action (World F) (Unit {0})
  flush = do
    active_events ← scan_all
    last ← gets (λ w. w.last_flushed)
    persist_replaced (changed_since last active_events)
    modify (λ w. record w { last_flushed = versions [] active_events })
