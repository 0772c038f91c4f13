-- ===== src/Scoring/Rule/Total.antt =====
-- That the Rule Score is computed (scoring/rule_score.py), and its range.
use wealthfinder.Prelude.{
  ℕ, Text, ◌≡◌, ◌<◌, refl, some, List, ◌∷◌, length, ==_ne, nat_eq, All, arith, map,
}
use wealthfinder.Prelude.Floats.{Floats, IsArithmetic, nought, ten}
use wealthfinder.Prelude.Result.{ok}
use wealthfinder.Models.{EntityEvent, EntitySource, Event, source_count}
use wealthfinder.Models.EventScore.{RuleScore, base_rule_score}
use wealthfinder.Scoring.Rule.{
  ScoringConfig, get_source_weights, compute_sentiment_aggregation, max_of, true_divide,
  compute_rule_score, rule_score_version,
}
use wealthfinder.Scoring.Rule.Sentiment.{IsStrength, compute_sentiment_aggregation_bounds}
use wealthfinder.Prelude.Floats.Bounds.{Within}
use wealthfinder.Scoring.Rule.Dimensions.{
  IsConfigured, get_source_weights_bounds, event_type_score_bounds, authority_bounds,
  max_from_bounds, ten_times_bounds, heat_bounds, base_rule_score_bounds,
}

module _ {F : Type 0} ⦃f : Floats F⦄ where
  -- every dimension, and their weighted sum
  abbrev pub InRange : RuleScore F → Type 0
  InRange r =
      Within nought ten r.event_type_score
      × Within nought ten r.source_authority_score
      × Within nought ten r.sentiment_strength_score
      × Within nought ten r.source_heat_score
      × Within nought (f.hundredths 800) (base_rule_score r)

-- An Event that lists a source and whose type has a score in [0, 10] is scored without an error when
-- at least one source counts as active and the sentiments' strengths lie in [0, 1]: each of the
-- four dimensions lies in [0, 10] and the base score in [0, 8], whatever sources it names.
pub compute_rule_score_bounds :
    {F : Type 0} ⦃f : Floats F⦄ (laws : IsArithmetic F) (event : Event) (source : EntitySource)
    (sources : List EntitySource) (entity_events : List (EntityEvent F)) (total : ℕ)
    (config : ScoringConfig F)
    → event.source_list ≡ some (source ∷ sources)
    → IsConfigured event.event_type_primary config.event_type_score
    → 0 < total
    → All IsStrength entity_events
    → let weights : List (Text × F) =
        get_source_weights (map (λ s. s.source_name) (source ∷ sources)) in
      (r : RuleScore F) × (compute_rule_score event
          (compute_sentiment_aggregation entity_events weights)
          weights
          total
          config
        ≡ ok (record { version = rule_score_version; output = r }))
      × InRange r
unfolding compute_rule_score max_of true_divide source_count
compute_rule_score_bounds {F} laws event source sources entity_events total config listed configured
      active strengths =
    let weights : List (Text × F) =
      get_source_weights (map (λ s. s.source_name) (source ∷ sources)) in
    let authorities =
      authority_bounds laws weights (source ∷ sources) (λ name.
        get_source_weights_bounds laws name (map (λ s. s.source_name) (source ∷ sources))) in
    let authority = max_from_bounds laws _ _ authorities.0 authorities.1 in
    let sentiment =
      compute_sentiment_aggregation_bounds laws weights entity_events
        (λ name.
          (get_source_weights_bounds laws name (map (λ s. s.source_name) (source ∷ sources))).0)
        strengths in
    let strength = ten_times_bounds laws _ sentiment.1 in
    let heat = heat_bounds laws (length (source ∷ sources)) total active in
    let (type_score, found, in_range) =
      event_type_score_bounds laws event.event_type_primary config.event_type_score configured in
    rw (listed, found, ==_ne total 0 (λ e. omega arith))
      (
        _,
        refl,
        (
          in_range,
          authority,
          strength,
          heat,
          base_rule_score_bounds laws _ in_range authority strength heat,
        ),
      )
