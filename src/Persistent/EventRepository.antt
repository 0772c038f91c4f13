-- ===== src/Persistent/EventRepository.antt =====
-- persistent/event_repository.py of stock-assistant-pipeline-intelligence: the statements on the
-- events and event_entity_map tables, as functions of the tables. An error inside persist_events'
-- transaction leaves the tables as they were, so the whole of it is one request.
pub mod Memberships
pub mod Versions
use wealthfinder.Prelude.{
  ℕ, Bool, true, false, ◌&&◌, ◌||◌, Option, none, some, List, [], ◌∷◌, ◌++◌, ◌==◌, nat_eq, ltb,
  elem, if◌then◌else◌,
}
use wealthfinder.Prelude.Assoc.{lookup, insert}
use wealthfinder.Prelude.Result.{Result, ok, assert_some, ◌>>=◌}
use wealthfinder.Models.{Event, EntitySource, or_else}
use wealthfinder.Models.EventType.{EventTypeEnum}

-- A row of the events table. The columns of the Event that are not nullable are plain fields.
pub record EventRow : Type 0 where
  pub event : Event
  pub aggregation_updated_at : ℕ
  pub published_aggregation_updated_at : Option ℕ

pub record Tables : Type 0 where
  -- events, by event_id
  pub events : List (ℕ × EventRow)
  -- event_entity_map: the event_id of an entity_event_id, which is unique
  pub event_entity_map : List (ℕ × ℕ)

-- What the two subqueries of `_UPSERT_EVENT_SQL` compute from the entity_events rows with these ids.
pub record Computed : Type 0 where
  pub event_type_secondary : List ℕ → List EventTypeEnum
  pub source_list : List ℕ → List EntitySource

-- `_INSERT_EVENT_ENTITY_MAP_SQL`, ON CONFLICT DO NOTHING
unfoldable pub add_membership : ℕ → ℕ → List (ℕ × ℕ) → List (ℕ × ℕ)
add_membership event_id id m = elim (lookup id m) [ none ↦ insert id event_id m | some _ ↦ m ]

unfoldable pub insert_memberships : ℕ → List ℕ → List (ℕ × ℕ) → List (ℕ × ℕ)
insert_memberships event_id [] m = m
insert_memberships event_id (id ∷ ids) m =
    insert_memberships event_id ids (add_membership event_id id m)

module _ (computed : Computed) (now : ℕ) where
  -- the row that `_UPSERT_EVENT_SQL` inserts, created at `created_at`
  unfoldable pub new_row : Event → ℕ → List ℕ → Option ℕ → Option ℕ → EventRow
  new_row event version ids created_at published = record {
    event = record event {
      aggregation_updated_at = some version;
      event_type_secondary =
          or_else event.event_type_secondary (some (computed.event_type_secondary ids));
      source_list = or_else event.source_list (some (computed.source_list ids));
      updated_at = some now;
      created_at = created_at;
      entity_event_ids = none;
    };
    aggregation_updated_at = version;
    published_aggregation_updated_at = published;
  }

  -- DO UPDATE SET: the columns of the old row that are kept
  unfoldable pub updated_row : EventRow → EventRow → EventRow
  updated_row old row = record {
    event = record row.event {
      exchange = old.event.exchange;
      stock_code = old.event.stock_code;
      event_type_primary = old.event.event_type_primary;
      created_at = old.event.created_at;
    };
    aggregation_updated_at = row.aggregation_updated_at;
    published_aggregation_updated_at = old.published_aggregation_updated_at;
  }

  unfoldable pub upsert : Tables → Event → ℕ → List ℕ → Tables × Option EventRow
  upsert t event version ids =
      let row = new_row event version ids (some now) none in
      elim (lookup event.event_id t.events) [
        | none ↦ (record t { events = insert event.event_id row t.events }, some row)
        | some old ↦
            if ltb old.aggregation_updated_at version
            then (
              record t { events = insert event.event_id (updated_row old row) t.events },
              some (updated_row old row),
            )
            else (t, none)
      ]

  unfoldable pub persist_event : Tables → Event → Result (Tables × Option EventRow)
  persist_event t event = do
    version ← assert_some event.aggregation_updated_at
    ids ← assert_some event.entity_event_ids
    let (t', row) = upsert t event version ids
    ok (
      record t' { event_entity_map = insert_memberships event.event_id ids t'.event_entity_map },
      row,
    )

  abbrev pub written_row : Option EventRow → List Event → List Event
  written_row none written = written
  written_row (some row) written = row.event ∷ written

  -- the transaction's effect on the tables, and the Events written
  unfoldable pub persist_events : Tables → List Event → Result (Tables × List Event)
  persist_events t [] = ok (t, [])
  persist_events t (event ∷ events) = do
    (t', row) ← persist_event t event
    (t'', written) ← persist_events t' events
    ok (t'', written_row row written)

unfoldable pub fetch_event : Tables → ℕ → Option Event
fetch_event t event_id = elim (lookup event_id t.events) [ none ↦ none | some row ↦ some row.event ]

-- the condition of `_SELECT_UNPUBLISHED_EVENTS_SQL` and of `_MARK_PUBLISHED_SQL`
unfoldable pub is_before : Option ℕ → ℕ → Bool
is_before none version = true
is_before (some published) version = ltb published version

unfoldable pub unpublished_rows : List ℕ → List (ℕ × EventRow) → List Event
unfolding is_before
unpublished_rows ids [] = []
unpublished_rows ids ((event_id, row) ∷ rows) =
    let rest = unpublished_rows ids rows in
    if elem event_id ids
      && is_before row.published_aggregation_updated_at row.aggregation_updated_at
    then row.event ∷ rest
    else rest

unfoldable pub fetch_unpublished_events : Tables → List ℕ → List Event
unfolding unpublished_rows
fetch_unpublished_events t ids = unpublished_rows ids t.events

unfoldable pub mark_published : Tables → ℕ → ℕ → Tables
unfolding is_before
mark_published t event_id version = elim (lookup event_id t.events) [
  | none ↦ t
  | some row ↦
      if is_before row.published_aggregation_updated_at version
      then record t {
        events =
            insert event_id (record row { published_aggregation_updated_at = some version })
              t.events;
      }
      else t
]

unfoldable pub fetch_mapped_event_id : Tables → ℕ → Option ℕ
fetch_mapped_event_id t entity_event_id = lookup entity_event_id t.event_entity_map
