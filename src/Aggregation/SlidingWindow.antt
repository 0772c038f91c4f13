-- ===== src/Aggregation/SlidingWindow.antt =====
-- sliding_window.py of stock-assistant-pipeline-intelligence/app/aggregation. Time is exact, in
-- microseconds: an hour count compares with a float quotient of seconds as it does with the exact
-- one, since both are far below 10^6 hours.
pub mod Window
pub mod Arrivals
use wealthfinder.Prelude.{
  ℕ, ◌+◌, ◌-◌, ◌*◌, ◌/◌, min, max, Bool, true, Option, none, some, List, [], ◌∷◌, ◌++◌, ltb, leb,
  ◌&&◌, if◌then◌else◌,
}
use wealthfinder.Prelude.Int.{ℤ, pos, negsuc, ◌+ℤ◌, sub_ℕ}
use wealthfinder.Prelude.Result.{Result, ok, sapi_error, require, assert_some}
use wealthfinder.Prelude.Result.{◌>>=◌, ◌>>◌}
use wealthfinder.Models.{Event, EntityEvent, is_active_event, is_persistent_event, get_published_at}

-- The fields of config.py's AggregationConfig that the modelled code reads.
pub record AggregationConfig : Type 0 where
  pub db_flush_interval_s : ℕ
  pub sliding_window_hours : ℕ
  pub event_max_timespan_hours : ℕ
  pub max_retry : ℕ

-- Microseconds of so many hours.
abbrev pub hours : ℕ → ℕ
hours n = n * 3600000000

abbrev pub distance : ℕ → ℕ → ℕ
distance a b = (a - b) + (b - a)

-- The group has no active Event, or one that EntityEvents are merged into.
unfoldable pub accepts : Option Event → Bool
accepts none = true
accepts (some active) = is_active_event active

-- The test under which the active Event is extended: inside the sliding window, and the span of
-- the extended Event short of its maximum.
unfoldable pub in_window : AggregationConfig → Event → ℕ → Bool
in_window c active published_at =
    leb (distance published_at active.last_seen_at) (hours c.sliding_window_hours)
    && ltb (max published_at active.last_seen_at - min published_at active.first_seen_at)
        (hours c.event_max_timespan_hours)

unfoldable pub extended : ℕ → Event → ℕ → ℕ → List ℕ → Event
extended now active published_at entity_event_id ids = record {
  event_id = active.event_id;
  exchange = active.exchange;
  stock_code = active.stock_code;
  event_type_primary = active.event_type_primary;
  first_seen_at = min active.first_seen_at published_at;
  last_seen_at = max active.last_seen_at published_at;
  event_type_secondary = none;
  source_list = none;
  aggregation_updated_at = some now;
  updated_at = none;
  created_at = none;
  entity_event_ids = some (ids ++ entity_event_id ∷ []);
}

module _ {F : Type 0} where
  unfoldable pub started : ℕ → ℕ → EntityEvent F → ℕ → ℕ → Event
  started now event_id entity published_at entity_event_id = record {
    event_id = event_id;
    exchange = entity.stock.exchange;
    stock_code = entity.stock.stock_code;
    event_type_primary = entity.analysis_outcome.output.event_type_primary;
    first_seen_at = published_at;
    last_seen_at = published_at;
    event_type_secondary = none;
    source_list = none;
    aggregation_updated_at = some now;
    updated_at = none;
    created_at = none;
    entity_event_ids = some (entity_event_id ∷ []);
  }

  module _ (c : AggregationConfig) (now new_id : ℕ) where
    unfoldable pub merge : Option Event → EntityEvent F → ℕ → ℕ → Result Event
    merge none entity published_at id = ok (started now new_id entity published_at id)
    merge (some active) entity published_at id =
        if in_window c active published_at
        then (do
          ids ← assert_some active.entity_event_ids
          ok (extended now active published_at id ids))
        else ok (started now new_id entity published_at id)

    -- `now` is datetime.now(UTC), `new_id` the value of uuid4().
    unfoldable pub merge_or_create : Option Event → EntityEvent F → Result Event
    merge_or_create active entity = do
      require (accepts active) sapi_error
      require (is_persistent_event entity) sapi_error
      published_at ← assert_some (get_published_at entity)
      id ← assert_some entity.entity_event_id
      merge active entity published_at id

  unfoldable pub is_late : AggregationConfig → Event → EntityEvent F → Result Bool
  is_late c active entity = do
    published_at ← assert_some (get_published_at entity)
    ok (ltb (hours c.sliding_window_hours) (active.last_seen_at - published_at))
