-- ===== src/Scoring/Rule.antt =====
-- scoring/rule_score.py of stock-assistant-pipeline-intelligence/app.
pub mod Sentiment
pub mod Dimensions
pub mod Total
use wealthfinder.Prelude.{
  ℕ, Text, text_eq, Option, none, some, List, [], ◌∷◌, ◌==◌, nat_eq, if◌then◌else◌, map,
}
use wealthfinder.Prelude.Int.{ℤ, pos, negsuc}
use wealthfinder.Prelude.Floats.{Floats, of_int, nought, ten, ◌+f◌, ◌*f◌, ◌/f◌}
use wealthfinder.Prelude.Assoc.{lookup, insert}
use wealthfinder.Prelude.Result.{other, Result, ok, raise, assert_some, ◌>>=◌}
use wealthfinder.Models.{
  SentimentEnum, positive, neutral, negative, EntityEvent, EntitySource, Event, VersionedMetadata,
  source_count,
}
use wealthfinder.Models.EventType.{EventTypeEnum, type_eq, codes}
use wealthfinder.Models.EventScore.{RuleScore}

-- the EventTypeScores of ScoringConfig (config.py)
pub record EventTypeScore (F : Type 0) : Type 0 where
  pub event_type : EventTypeEnum
  pub score : F

pub record ScoringConfig (F : Type 0) : Type 0 where
  pub total_active_sources_default : ℕ
  pub event_type_score : List (EventTypeScore F)

pub record SentimentAggregation (F : Type 0) : Type 0 where
  pub weighted_signed_score : F
  pub sentiment_strength_score : F

-- `_SOURCE_TIER` and `_DEFAULT_TIER_WEIGHTS`
pub data Tier : Type 0 where
  p1 p2 p3 : Tier

abbrev pub source_tier : List (Text × Tier)
source_tier =
    (codes "HKEX", p1)
    ∷ (codes "MINGPAO", p2)
    ∷ (codes "AASTOCKS", p2)
    ∷ (codes "YAHOO_HK", p2)
    ∷ []

-- `_DIRECTION_COEFFICIENT`
unfoldable pub direction_coefficient : SentimentEnum → ℤ
direction_coefficient positive = pos 1
direction_coefficient neutral = pos 0
direction_coefficient negative = negsuc 0

abbrev pub rule_score_version : Text
rule_score_version = codes "v1.0.0"

module _ {F : Type 0} ⦃f : Floats F⦄ where
  unfoldable pub default_tier_weights : Tier → F
  default_tier_weights p1 = f.hundredths 900
  default_tier_weights p2 = f.hundredths 600
  default_tier_weights p3 = f.hundredths 400

  -- `_DEFAULT_TIER_WEIGHTS[tier] if tier is not None else 0.0`
  unfoldable pub tier_weight : Option Tier → F
  unfolding default_tier_weights
  tier_weight none = nought
  tier_weight (some tier) = default_tier_weights tier

  unfoldable pub fallback_weight : Text → F
  unfolding tier_weight
  fallback_weight name = tier_weight (lookup name source_tier)

  -- the loop of `_get_fallback_weights`
  unfoldable pub fallback_weights : List (Text × F) → List Text → List (Text × F)
  unfolding fallback_weight
  fallback_weights weights [] = weights
  fallback_weights weights (name ∷ names) =
      fallback_weights (insert name (fallback_weight name) weights) names

  unfoldable pub get_source_weights : List Text → List (Text × F)
  unfolding fallback_weights
  get_source_weights source_names = fallback_weights [] source_names

  -- `source_weights.get(name, 0.0)`
  unfoldable pub get_weight : List (Text × F) → Text → F
  get_weight source_weights name = elim (lookup name source_weights) [
    | none ↦ nought
    | some weight ↦ weight
  ]

  unfoldable pub mean_sentiment : F → F → F → SentimentAggregation F
  mean_sentiment total_weight weighted_signed_sum weighted_strength_sum =
      if f.eq total_weight nought
      then record { weighted_signed_score = nought; sentiment_strength_score = nought }
      else record {
        weighted_signed_score = weighted_signed_sum /f total_weight;
        sentiment_strength_score = weighted_strength_sum /f total_weight;
      }

  -- the loop of compute_sentiment_aggregation over its three sums, and what follows it
  unfoldable pub sum_sentiments :
      List (Text × F) → List (EntityEvent F) → F → F → F → SentimentAggregation F
  unfolding direction_coefficient mean_sentiment
  sum_sentiments source_weights [] total signed strength = mean_sentiment total signed strength
  sum_sentiments source_weights (entity_event ∷ entity_events) total signed strength =
      let weight = get_weight source_weights entity_event.source_name in
      let outcome = entity_event.analysis_outcome.output in
      sum_sentiments source_weights entity_events (total +f weight)
        (signed
          +f outcome.sentiment_score
            *f of_int (direction_coefficient outcome.sentiment_label)
            *f weight)
        (strength +f outcome.sentiment_score *f weight)

  unfoldable pub compute_sentiment_aggregation :
      List (EntityEvent F) → List (Text × F) → SentimentAggregation F
  unfolding sum_sentiments
  compute_sentiment_aggregation entity_events source_weights =
      sum_sentiments source_weights entity_events nought nought nought

  -- `next(...)`, which raises when no entry is of the type
  unfoldable pub get_event_type_score : EventTypeEnum → List (EventTypeScore F) → Result F
  get_event_type_score event_type [] = raise other
  get_event_type_score event_type (e ∷ es) =
      if e.event_type == event_type then ok e.score else get_event_type_score event_type es

  -- the built-in `max` of two floats, and of a sequence, which is not empty
  unfoldable pub max_from : F → List F → F
  max_from best [] = best
  max_from best (x ∷ xs) = max_from (if f.lt best x then x else best) xs

  unfoldable pub max_of : List F → Result F
  unfolding max_from
  max_of [] = raise other
  max_of (x ∷ xs) = ok (max_from x xs)

  -- `min(10.0, x)`
  unfoldable pub at_most_ten : F → F
  at_most_ten x = if f.lt x ten then x else ten

  -- `count / total` of two ints
  unfoldable pub true_divide : ℕ → ℕ → Result F
  true_divide count total = if total == 0 then raise other else ok (f.quotient count total)

  unfoldable pub compute_rule_score :
      Event
      → SentimentAggregation F
      → List (Text × F)
      → ℕ
      → ScoringConfig F
      → Result (VersionedMetadata (RuleScore F))
  unfolding get_weight get_event_type_score max_of at_most_ten true_divide source_count
  compute_rule_score event sentiment_agg source_weights total_active_sources config = do
    sources ← assert_some event.source_list
    count ← assert_some (source_count event)
    type_score ← get_event_type_score event.event_type_primary config.event_type_score
    authority ← max_of (map (λ source. get_weight source_weights source.source_name) sources)
    heat ← true_divide count total_active_sources
    ok (record {
      version = rule_score_version;
      output = record {
        event_type_score = type_score;
        source_authority_score = authority;
        sentiment_strength_score = sentiment_agg.sentiment_strength_score *f ten;
        source_heat_score = at_most_ten (heat *f ten);
      };
    })
