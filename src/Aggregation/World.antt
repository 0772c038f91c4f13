-- ===== src/Aggregation/World.antt =====
-- What the aggregation layer of stock-assistant-pipeline-intelligence works on: the Redis hashes,
-- the tables, the streams, and this process's own fields.
use wealthfinder.Prelude.{ℕ, Option, List}
use wealthfinder.Persistent.EventRepository.{Tables, Computed}
use wealthfinder.Models.{EntityEvent}
use wealthfinder.RedisStream.Messages.{DeadLetter}
use wealthfinder.Aggregation.Store.{Redis}
use wealthfinder.Aggregation.SlidingWindow.{AggregationConfig}

pub record World (F : Type 0) : Type 0 where
  pub redis : Redis
  pub tables : Tables
  -- the entity_events table, by entity_event_id
  pub entity_events : List (ℕ × EntityEvent F)
  -- the event ids on stream:event_aggregated, the latest first
  pub announced : List ℕ
  -- the ids of the acknowledged messages of stream:entity_event_completed, the latest first
  pub acked : List ℕ
  -- stream:aggregation_dead_letter, the latest first
  pub dead_letters : List DeadLetter
  -- the units of work handed to the groups, in order: the EntityEvent, its id and its message's id
  pub queued : List (EntityEvent F × ℕ × ℕ)
  -- AggregationConsumer._enqueued
  pub enqueued : List ℕ
  -- AggregationService._last_flushed
  pub last_flushed : List (ℕ × Option ℕ)
  -- how often the clock was read, and how many UUIDs were drawn
  pub reads : ℕ
  pub draws : ℕ

-- What the process is given: its configuration, the time of the n-th reading of the clock, the n-th
-- UUID drawn, and what the SQL computes from the entity_events rows.
pub record Setting : Type 0 where
  pub config : AggregationConfig
  pub clock : ℕ → ℕ
  pub uuid4 : ℕ → ℕ
  pub computed : Computed
