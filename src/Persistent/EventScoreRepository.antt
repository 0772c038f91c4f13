-- ===== src/Persistent/EventScoreRepository.antt =====
-- persistent/event_score_repository.py of stock-assistant-pipeline-intelligence/app: the statement on
-- the event_scores table, keyed by event_id. A detail column is written as JSON and read back as the
-- same value.
pub mod Kept
use wealthfinder.Prelude.{ℕ, Bool, false, Option, none, some, List, ◌==◌, nat_eq, if◌then◌else◌}
use wealthfinder.Prelude.Assoc.{lookup, insert}
use wealthfinder.Models.EventScore.{EventScore}
use wealthfinder.Persistent.EventRepository.{Tables, EventRow}

-- WHERE events.aggregation_updated_at = $11
unfoldable pub is_current : Option EventRow → ℕ → Bool
is_current none expected = false
is_current (some row) expected = row.aggregation_updated_at == expected

module _ {F : Type 0} where
  -- the row that `_UPSERT_EVENT_SCORE_SQL` inserts at the time `now`
  abbrev pub inserted_score : EventScore F → ℕ → ℕ → EventScore F
  inserted_score score expected now = record score {
    scored_aggregation_updated_at = expected;
    updated_at = now;
    created_at = now;
  }

  -- DO UPDATE SET: score_id and created_at are not in it
  abbrev pub updated_score : EventScore F → EventScore F → EventScore F
  updated_score old row = record row { score_id = old.score_id; created_at = old.created_at }

  unfoldable pub conflict : Option (EventScore F) → EventScore F → EventScore F
  conflict none row = row
  conflict (some old) row = updated_score old row

  -- The table afterwards, and the row that the statement returns.
  unfoldable pub persist_score_if_not_stale :
      Tables
      → List (ℕ × EventScore F)
      → EventScore F
      → ℕ
      → ℕ
      → List (ℕ × EventScore F) × Option (EventScore F)
  unfolding conflict is_current
  persist_score_if_not_stale tables event_scores score expected now =
      let row = conflict (lookup score.event_id event_scores) (inserted_score score expected now) in
      if is_current (lookup score.event_id tables.events) expected
      then (insert score.event_id row event_scores, some row)
      else (event_scores, none)
