-- ===== src/Tests/Scores.antt =====
-- Tests of the theorems on scoring: an Event of two sources, scored in hundredths.
use wealthfinder.Prelude.{
  ℕ, ◌+◌, ◌≡◌, ◌≢◌, ◌⊎◌, ◌↔◌, refl, true, list_beq, none, some, List, [], ◌∷◌, text_eq, nat_eq,
  Text, Option, arith,
}
use wealthfinder.Prelude.Int.{ℤ, pos, negsuc, ◌+ℤ◌}
use wealthfinder.Prelude.Assoc.{lookup, insert}
use wealthfinder.Prelude.Result.{ok}
use wealthfinder.Prelude.Action.{Env}
use wealthfinder.Prelude.Floats.{◌*f◌}
use wealthfinder.Prelude.Floats.Bounds.{Within}
use wealthfinder.Models.{Event, EntityEvent, EntitySource, SentimentEnum, positive, negative}
use wealthfinder.Models.EventType.{codes, earnings, type_eq}
use wealthfinder.Models.EventScore.{RuleScore, EventScore, base_rule_score}
use wealthfinder.Persistent.EventRepository.{Tables}
use wealthfinder.Persistent.EventScoreRepository.{persist_score_if_not_stale}
use wealthfinder.Persistent.EventScoreRepository.Kept.{
  IsCurrent, IsWritten, persist_score_if_not_stale_lem,
}
use wealthfinder.Scoring.Rule.{
  ScoringConfig, SentimentAggregation, get_source_weights, get_weight,
  compute_sentiment_aggregation, compute_rule_score, rule_score_version,
}
use wealthfinder.Scoring.Rule.Sentiment.{compute_sentiment_aggregation_bounds}
use wealthfinder.Scoring.Rule.Dimensions.{get_source_weights_bounds}
use wealthfinder.Scoring.Rule.Total.{InRange, compute_rule_score_bounds}
use wealthfinder.Scoring.Service.{
  Scoring, llm_score_placeholder, score_fusion, process_one, consumer_round, new_event_score,
}
use wealthfinder.Scoring.Service.Fusion.{score_fusion_lem}
use wealthfinder.Scoring.Service.Scored.{Settled, process_one-Settled}
use wealthfinder.Scoring.Service.Identity.{Identified, consumer_round-Identified}
use wealthfinder.Tests.Data.{active, tencent}
use wealthfinder.Tests.Hundredths.{hundredths_floats, hundredths_IsArithmetic}

abbrev judged : ℕ → SentimentEnum → ℕ → Text → EntityEvent ℤ
judged id label strength name = record {
  source_id = 7;
  source_url = codes "http://a/b";
  source_name = name;
  published_at = some 5;
  analysis_outcome = record {
    version = codes "v1.0.0";
    output = record {
      stock_code = codes "0700";
      event_type_primary = earnings;
      event_type_secondary = none;
      sentiment_label = label;
      sentiment_score = pos strength;
      headline = codes "h";
      entity_summary = codes "s";
    };
  };
  stock = tencent;
  entity_event_id = some id;
  created_at = some 5;
}

abbrev constituents : List (EntityEvent ℤ)
constituents = judged 1 positive 80 (codes "HKEX") ∷ judged 2 negative 50 (codes "YAHOO_HK") ∷ []

abbrev names : List Text
names = codes "HKEX" ∷ codes "YAHOO_HK" ∷ []

abbrev weights : List (Text × ℤ)
weights = get_source_weights names

abbrev sentiment : SentimentAggregation ℤ
sentiment = compute_sentiment_aggregation constituents weights

-- (0.8 * 9 - 0.5 * 6) / 15 and (0.8 * 9 + 0.5 * 6) / 15
sentiment_value :
    sentiment ≡ record { weighted_signed_score = pos 28; sentiment_strength_score = pos 68 }
unfolding compute_sentiment_aggregation get_source_weights ◌+ℤ◌ get_weight lookup insert list_beq
sentiment_value = refl

compute_sentiment_aggregation_bounds_example :
    Within {F = ℤ} (negsuc 99) (pos 100) sentiment.weighted_signed_score
    × Within {F = ℤ} (pos 0) (pos 100) sentiment.sentiment_strength_score
compute_sentiment_aggregation_bounds_example =
    compute_sentiment_aggregation_bounds hundredths_IsArithmetic weights constituents
      (λ name. (get_source_weights_bounds hundredths_IsArithmetic name names).0)
      ((refl, refl), ((refl, refl), tt))

abbrev source : Text → EntitySource
source name = record { source_name = name; url = codes "http://a/b"; published_at = 5 }

abbrev event : Event
event = record active {
  source_list = some (source (codes "HKEX") ∷ source (codes "YAHOO_HK") ∷ []);
}

abbrev config : ScoringConfig ℤ
config = record {
  total_active_sources_default = 4;
  event_type_score = record { event_type = earnings; score = pos 900 } ∷ [];
}

compute_rule_score_bounds_example :
    (r : RuleScore ℤ) × (compute_rule_score event sentiment weights 4 config
      ≡ ok (record { version = rule_score_version; output = r }))
    × InRange r
compute_rule_score_bounds_example =
    compute_rule_score_bounds hundredths_IsArithmetic event (source (codes "HKEX"))
      (source (codes "YAHOO_HK") ∷ []) constituents 4 config refl (refl, refl) (omega arith)
      ((refl, refl), ((refl, refl), tt))

abbrev rule : RuleScore ℤ
rule = record {
  event_type_score = pos 900;
  source_authority_score = pos 900;
  sentiment_strength_score = pos 680;
  source_heat_score = pos 500;
}

score_fusion_lem_example :
    let fused = score_fusion rule llm_score_placeholder.output sentiment in
    ((fused.direction ≡ pos 1)
      ↔ (hundredths_floats.le (pos 0) sentiment.weighted_signed_score ≡ true))
    × ((fused.direction ≡ pos 1) ⊎ (fused.direction ≡ negsuc 0))
    × (fused.base_rule_score ≡ base_rule_score rule)
    × (fused.abs_final_score ≡ base_rule_score rule *f pos 67)
unfolding base_rule_score ◌+ℤ◌
score_fusion_lem_example = score_fusion_lem hundredths_IsArithmetic rule sentiment refl

abbrev tables : Tables
tables = record {
  events =
      (
        5,
        record {
          event = event;
          aggregation_updated_at = 9;
          published_aggregation_updated_at = none;
        },
      )
      ∷ [];
  event_entity_map = (1, 5) ∷ (2, 5) ∷ [];
}

abbrev score_at : ℕ → EventScore ℤ
score_at id =
    new_event_score id 5 9 40 (record { version = rule_score_version; output = rule }) sentiment

abbrev scores : List (ℕ × EventScore ℤ)
scores = (5, record (score_at 3) { created_at = 20 }) ∷ []

persist_score_if_not_stale_lem_example :
    (IsCurrent tables 5 9
      → (row : EventScore ℤ) × ((persist_score_if_not_stale tables scores (score_at 4) 9 60).1
          ≡ some row)
        × (lookup {K = ℕ} 5 (persist_score_if_not_stale tables scores (score_at 4) 9 60).0
            ≡ some row)
        × IsWritten tables scores (score_at 4) 9 60 row)
    × ((other : ℕ)
        → other ≢ 5
        → lookup other (persist_score_if_not_stale tables scores (score_at 4) 9 60).0
          ≡ lookup other scores)
    × ((¬ IsCurrent tables 5 9)
        → persist_score_if_not_stale tables scores (score_at 4) 9 60 ≡ (scores, none))
unfolding lookup new_event_score
persist_score_if_not_stale_lem_example =
    persist_score_if_not_stale_lem tables scores (score_at 4) 9 60

abbrev later : ℕ → ℕ
later n = n + 50

abbrev state : Scoring ℤ
state = record {
  tables = tables;
  entity_events = (1, judged 1 positive 80 (codes "HKEX")) ∷ [];
  event_scores = scores;
  announced = [];
  acked = [];
  reads = 0;
  draws = 0;
}

abbrev start : Env (Scoring ℤ)
start = record { state = state; outcomes = [] }

process_one-Settled_example :
    Settled 5 [] 8 tables (process_one config later later (λ t. t) 5 8 start).1.state
process_one-Settled_example = process_one-Settled config later later (λ t. t) 5 8 start

abbrev parse_uuid : Text → Option ℕ
parse_uuid text = some 5

consumer_round-Identified_example :
    Identified 5 3 20
      (consumer_round config later later
        (λ t. t)
        parse_uuid
        (record { id = 8; fields = (codes "event_id", codes "5") ∷ [] } ∷ [])
        start).1.state.event_scores
consumer_round-Identified_example =
    consumer_round-Identified config later later (λ t. t) 5 3 20 parse_uuid
      (record { id = 8; fields = (codes "event_id", codes "5") ∷ [] } ∷ []) start
      (
        record (score_at 3) { created_at = 20 },
        unfold lookup in refl,
        unfold new_event_score in refl,
        refl,
      )
