-- ===== src/Scoring/Service.antt =====
-- scoring/scoring_service.py and scoring/scoring_consumer.py of stock-assistant-pipeline-intelligence.
-- While a score is computed the aggregation layer may persist Events: `meanwhile` is what it does to
-- the tables between the reading of the Event and the writing of its score.
pub mod Fusion
pub mod Scored
pub mod Identity
use wealthfinder.Prelude.{
  ℕ, suc, ◌*◌, Text, text_eq, Bool, true, false, Option, none, some, List, [], ◌∷◌, ◌==◌, nat_eq,
  if◌then◌else◌, map,
}
use wealthfinder.Prelude.Int.{ℤ, pos, negsuc}
use wealthfinder.Prelude.Floats.{Floats, of_int, nought, ◌+f◌, ◌*f◌}
use wealthfinder.Prelude.Assoc.{lookup}
use wealthfinder.Prelude.Result.{
  Exc, unreachable, rate_limit, sapi_error, cancelled, other, assert_some,
}
use wealthfinder.Prelude.Action.{
  Env, Action, return, fail, lift, gets, modify, request, catch, ◌>>=◌, ◌>>◌,
}
use wealthfinder.RedisStream.{publish}
use wealthfinder.RedisStream.Messages.{StreamMessage}
use wealthfinder.Models.{Event, EntityEvent, EntitySource, VersionedMetadata}
use wealthfinder.Models.EventType.{codes}
use wealthfinder.Models.EventScore.{RuleScore, LlmScore, EventScore, base_rule_score}
use wealthfinder.Persistent.EventRepository.{Tables, fetch_event}
use wealthfinder.Persistent.EventScoreRepository.{persist_score_if_not_stale}
use wealthfinder.Scoring.Rule.{
  ScoringConfig, SentimentAggregation, get_source_weights, compute_sentiment_aggregation,
  compute_rule_score,
}

pub record FusedScore (F : Type 0) : Type 0 where
  pub direction : ℤ
  pub base_rule_score : F
  pub abs_final_score : F

pub record Scoring (F : Type 0) : Type 0 where
  pub tables : Tables
  -- the entity_events table, by entity_event_id
  pub entity_events : List (ℕ × EntityEvent F)
  -- the event_scores table, by event_id
  pub event_scores : List (ℕ × EventScore F)
  -- the event ids on stream:event_scored, the latest first
  pub announced : List ℕ
  -- the acknowledged messages of stream:event_aggregated, the latest first
  pub acked : List ℕ
  -- how often the clock was read, and how many UUIDs were drawn
  pub reads : ℕ
  pub draws : ℕ

module _ {F : Type 0} where
  -- `_SELECT_ENTITY_EVENTS_FOR_EVENT_SQL`, over the rows of event_entity_map
  unfoldable pub joined_entity_events :
      ℕ → List (ℕ × EntityEvent F) → List (ℕ × ℕ) → List (EntityEvent F)
  joined_entity_events event_id entity_events [] = []
  joined_entity_events event_id entity_events ((entity_event_id, mapped) ∷ m) =
      let rest = joined_entity_events event_id entity_events m in
      if mapped == event_id
      then elim (lookup entity_event_id entity_events) [ none ↦ rest | some e ↦ e ∷ rest ]
      else rest

  unfoldable pub fetch_entity_events_for_event : ℕ → Scoring F → List (EntityEvent F)
  unfolding joined_entity_events
  fetch_entity_events_for_event event_id w =
      joined_entity_events event_id w.entity_events w.tables.event_entity_map

module _ {F : Type 0} ⦃f : Floats F⦄ where
  -- `_LLM_SCORE_PLACEHOLDER`
  abbrev pub llm_score_placeholder : VersionedMetadata (LlmScore F)
  llm_score_placeholder = record {
    version = codes "none";
    output = record { stock_impact_score = nought; adjustment_reason = [] };
  }

  unfoldable pub fused_direction : LlmScore F → SentimentAggregation F → ℤ
  fused_direction llm_score sentiment_agg =
      if f.lt nought llm_score.stock_impact_score
      then pos 1
      else if f.lt llm_score.stock_impact_score nought
      then negsuc 0
      else if f.le nought sentiment_agg.weighted_signed_score
      then pos 1
      else negsuc 0

  unfoldable pub raw_final_score : F → ℤ → LlmScore F → F
  raw_final_score base direction llm_score =
      base *f of_int direction *f f.hundredths 67
      +f llm_score.stock_impact_score *f f.hundredths 33 *f of_int (pos 2)

  unfoldable pub score_fusion : RuleScore F → LlmScore F → SentimentAggregation F → FusedScore F
  unfolding fused_direction raw_final_score
  score_fusion rule_score llm_score sentiment_agg =
      let direction = fused_direction llm_score sentiment_agg in
      let base = base_rule_score rule_score in
      record {
        direction = direction;
        base_rule_score = base;
        abs_final_score = f.abs (raw_final_score base direction llm_score);
      }

  unfoldable pub new_event_score :
      ℕ → ℕ → ℕ → ℕ → VersionedMetadata (RuleScore F) → SentimentAggregation F → EventScore F
  unfolding score_fusion
  new_event_score score_id event_id expected scored_at rule_score_detail sentiment_agg =
      let fused =
        score_fusion rule_score_detail.output llm_score_placeholder.output sentiment_agg in
      record {
        score_id = score_id;
        event_id = event_id;
        abs_final_score = fused.abs_final_score;
        base_rule_score = fused.base_rule_score;
        stock_impact_score = llm_score_placeholder.output.stock_impact_score;
        direction = fused.direction;
        llm_fallback = true;
        rule_score_detail = rule_score_detail;
        llm_score_detail = llm_score_placeholder;
        scored_at = scored_at;
        scored_aggregation_updated_at = expected;
        updated_at = scored_at;
        created_at = scored_at;
      }

module _ {F : Type 0} ⦃f : Floats F⦄ (config : ScoringConfig F) (clock uuid4 : ℕ → ℕ)
    (meanwhile : Tables → Tables) where
  -- `datetime.now(UTC)` and `uuid.uuid4()`, drawn together
  abbrev pub draw : Action (Scoring F) (ℕ × ℕ)
  draw = do
    scored_at ← gets (λ w. clock w.reads)
    score_id ← gets (λ w. uuid4 w.draws)
    modify (λ w. record w { reads = suc w.reads; draws = suc w.draws })
    return (scored_at, score_id)

  -- the database's time is the clock's
  abbrev pub stored_row : EventScore F → ℕ → Scoring F → Option (EventScore F)
  stored_row score expected w =
      (persist_score_if_not_stale w.tables w.event_scores score expected (clock w.reads)).1

  abbrev pub after_persist : EventScore F → ℕ → Scoring F → Scoring F
  after_persist score expected w = record w {
    event_scores =
        (persist_score_if_not_stale w.tables w.event_scores score expected (clock w.reads)).0;
  }

  unfoldable pub announce_stored : ℕ → Option (EventScore F) → Action (Scoring F) (Unit {0})
  announce_stored event_id none = return tt
  announce_stored event_id (some row) =
      publish (λ w. record w { announced = event_id ∷ w.announced })

  -- what follows the computation of the score
  unfoldable pub store_score : ℕ → ℕ → EventScore F → Action (Scoring F) (Unit {0})
  unfolding announce_stored
  store_score event_id expected score = do
    modify (λ w. record w { tables = meanwhile w.tables })
    row ← request (stored_row score expected) (after_persist score expected)
    announce_stored event_id row

  -- the score is made and stored
  unfoldable pub store_computed :
      ℕ
      → ℕ
      → SentimentAggregation F
      → VersionedMetadata (RuleScore F)
      → Action (Scoring F) (Unit {0})
  unfolding store_score
  store_computed event_id expected sentiment_agg rule_score_detail = do
    (scored_at, score_id) ← draw
    store_score event_id expected
        (new_event_score score_id event_id expected scored_at rule_score_detail sentiment_agg)

  unfoldable pub score_constituents :
      Event → ℕ → ℕ → List EntitySource → List (EntityEvent F) → Action (Scoring F) (Unit {0})
  unfolding store_computed
  score_constituents event event_id expected sources entity_events =
      let source_weights = get_source_weights (map (λ source. source.source_name) sources) in
      let sentiment_agg = compute_sentiment_aggregation entity_events source_weights in
      lift (
        compute_rule_score event sentiment_agg source_weights config.total_active_sources_default
          config)
      >>= store_computed event_id expected sentiment_agg

  unfoldable pub score_found : ℕ → Option Event → Action (Scoring F) (Unit {0})
  unfolding score_constituents
  score_found event_id none = return tt
  score_found event_id (some event) = do
    expected ← lift (assert_some event.aggregation_updated_at)
    sources ← lift (assert_some event.source_list)
    entity_events ← request (fetch_entity_events_for_event event_id) (λ w. w)
    score_constituents event event_id expected sources entity_events

  unfoldable pub score_event : ℕ → Action (Scoring F) (Unit {0})
  unfolding score_found
  score_event event_id = do
    event ← request (λ w. fetch_event w.tables event_id) (λ w. w)
    score_found event_id event

  unfoldable pub try_process : ℕ → ℕ → Action (Scoring F) (Unit {0})
  unfolding score_event
  try_process event_id message_id = do
    score_event event_id
    request (λ w. tt) (λ w. record w { acked = message_id ∷ w.acked })

  -- the except clauses of `_process_one`
  unfoldable pub process_failed : Exc → Action (Scoring F) (Unit {0})
  process_failed cancelled = fail cancelled
  process_failed unreachable = fail unreachable
  process_failed rate_limit = return tt
  process_failed sapi_error = return tt
  process_failed other = return tt

  unfoldable pub process_one : ℕ → ℕ → Action (Scoring F) (Unit {0})
  unfolding try_process process_failed
  process_one event_id message_id = catch (try_process event_id message_id) process_failed

  module _ (parse_uuid : Text → Option ℕ) where
    -- `UUID(message.fields["event_id"])`
    unfoldable pub message_event_id : StreamMessage → Option ℕ
    message_event_id message = elim (lookup (codes "event_id") message.fields) [
      | none ↦ none
      | some text ↦ parse_uuid text
    ]

    unfoldable pub route_id : Option ℕ → ℕ → Action (Scoring F) (Unit {0})
    route_id none message_id = return tt
    route_id (some event_id) message_id = process_one event_id message_id

    unfoldable pub route : StreamMessage → Action (Scoring F) (Unit {0})
    unfolding message_event_id route_id
    route message = route_id (message_event_id message) message.id

    unfoldable pub route_all : List StreamMessage → Action (Scoring F) (Unit {0})
    unfolding route
    route_all [] = return tt
    route_all (message ∷ messages) = do route message; route_all messages

    -- `except _REDIS_UNREACHABLE`, which waits
    unfoldable pub round_failed : Exc → Action (Scoring F) (Unit {0})
    round_failed unreachable = return tt
    round_failed x = fail x

    -- one round of `_consumer_loop`, in which `read_from` answers these messages
    unfoldable pub consumer_round : List StreamMessage → Action (Scoring F) (Unit {0})
    unfolding route_all round_failed
    consumer_round messages = catch (request (λ w. messages) (λ w. w) >>= route_all) round_failed
