-- ===== src/Aggregation/Store/Wire/Represented.antt =====
-- The texts in Redis stand for the values that the aggregation service works on
-- (aggregation/event_aggregation_store.py).
use wealthfinder.Prelude.{◌≡◌, text_eq}
use wealthfinder.Prelude.Result.{ok}
use wealthfinder.Aggregation.Store.{GroupKey, Redis, get_active_event}
use wealthfinder.Aggregation.Store.Keys.{Plain}
use wealthfinder.Aggregation.Store.Wire.{Formats, Hashes, read_active_event}

module _ (formats : Formats) where
  -- Every group without a colon reads the same active Event from both.
  abbrev pub Represents : Hashes → Redis → Type 0
  Represents hashes r =
      (k : GroupKey) → Plain k → read_active_event formats k hashes ≡ ok (get_active_event k r)
