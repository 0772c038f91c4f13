-- ===== src/Tests/Data.antt =====
-- Data that the tests share: one stock's EntityEvents, a configuration, a Redis and its tables.
use wealthfinder.Prelude.{ℕ, ◌+◌, none, some, [], ◌∷◌}
use wealthfinder.Prelude.Action.{Env}
use wealthfinder.Models.{Event, EntityEvent, Stock, positive}
use wealthfinder.Models.EventType.{codes, earnings}
use wealthfinder.Persistent.EventRepository.{Tables, Computed, EventRow}
use wealthfinder.Aggregation.SlidingWindow.{AggregationConfig}
use wealthfinder.Aggregation.Store.{GroupKey, Hash, Redis, get_key}
use wealthfinder.Aggregation.World.{World, Setting}

abbrev pub Float : Type 0
Float = Unit

abbrev pub hour : ℕ
hour = 3600000000

abbrev pub config : AggregationConfig
config = record {
  db_flush_interval_s = 60;
  sliding_window_hours = 24;
  event_max_timespan_hours = 72;
  max_retry = 3;
}

abbrev pub tencent : Stock
tencent = record {
  stock_code = codes "0700";
  exchange = codes "HKEX";
  company_name_zh = codes "騰訊控股";
  company_name_en = codes "TENCENT";
}

abbrev pub entity_at : ℕ → ℕ → EntityEvent Float
entity_at id time = record {
  source_id = 7;
  source_url = codes "http://a/b";
  source_name = codes "HKEX";
  published_at = some time;
  analysis_outcome = record {
    version = codes "v1.0.0";
    output = record {
      stock_code = codes "0700";
      event_type_primary = earnings;
      event_type_secondary = none;
      sentiment_label = positive;
      sentiment_score = tt;
      headline = codes "h";
      entity_summary = codes "s";
    };
  };
  stock = tencent;
  entity_event_id = some id;
  created_at = some time;
}

abbrev pub group : GroupKey
group = record { exchange = codes "HKEX"; stock_code = codes "0700"; event_type_primary = earnings }

abbrev pub active : Event
active = record {
  event_id = 5;
  exchange = codes "HKEX";
  stock_code = codes "0700";
  event_type_primary = earnings;
  first_seen_at = 360000000000;
  last_seen_at = 360000000000;
  event_type_secondary = none;
  source_list = none;
  aggregation_updated_at = some 9;
  updated_at = none;
  created_at = none;
  entity_event_ids = some (1 ∷ []);
}

abbrev pub active_hash : Hash
active_hash = record {
  event_id = 5;
  first_seen_at = 360000000000;
  last_seen_at = 360000000000;
  aggregation_updated_at = 9;
  entity_event_ids = 1 ∷ [];
}

abbrev pub computed : Computed
computed = record { event_type_secondary = λ ids. []; source_list = λ ids. [] }

abbrev pub setting : Setting
setting = record {
  config = config;
  clock = λ n. n + 1000;
  uuid4 = λ n. n + 100;
  computed = computed;
}

abbrev pub row : EventRow
row = record {
  event = active;
  aggregation_updated_at = 9;
  published_aggregation_updated_at = some 8;
}

abbrev pub tables : Tables
tables = record { events = (5, row) ∷ []; event_entity_map = (1, 5) ∷ [] }

abbrev pub no_tables : Tables
no_tables = record { events = []; event_entity_map = [] }

abbrev pub redis : Redis
redis = (get_key group, active_hash) ∷ []

abbrev pub world : World Float
world = record {
  redis = redis;
  tables = no_tables;
  entity_events = [];
  announced = [];
  acked = [];
  dead_letters = [];
  queued = [];
  enqueued = 2 ∷ [];
  last_flushed = [];
  reads = 0;
  draws = 0;
}

abbrev pub env : Env (World Float)
env = record { state = world; outcomes = [] }
