-- ===== src/Models/EventScore.antt =====
-- models/event_score.py of stock-assistant-pipeline-intelligence/app.
use wealthfinder.Prelude.{ℕ, Text, Bool}
use wealthfinder.Prelude.Int.{ℤ}
use wealthfinder.Prelude.Floats.{Floats, ◌+f◌, ◌*f◌}
use wealthfinder.Models.{VersionedMetadata}

pub record RuleScore (F : Type 0) : Type 0 where
  pub event_type_score : F
  pub source_authority_score : F
  pub sentiment_strength_score : F
  pub source_heat_score : F

pub record LlmScore (F : Type 0) : Type 0 where
  pub stock_impact_score : F
  pub adjustment_reason : Text

pub record EventScore (F : Type 0) : Type 0 where
  pub score_id : ℕ
  pub event_id : ℕ
  pub abs_final_score : F
  pub base_rule_score : F
  pub stock_impact_score : F
  pub direction : ℤ
  pub llm_fallback : Bool
  pub rule_score_detail : VersionedMetadata (RuleScore F)
  pub llm_score_detail : VersionedMetadata (LlmScore F)
  pub scored_at : ℕ
  pub scored_aggregation_updated_at : ℕ
  pub updated_at : ℕ
  pub created_at : ℕ

module _ {F : Type 0} ⦃f : Floats F⦄ where
  unfoldable pub base_rule_score : RuleScore F → F
  base_rule_score score =
      score.event_type_score *f f.hundredths 30
      +f score.source_authority_score *f f.hundredths 25
      +f score.sentiment_strength_score *f f.hundredths 15
      +f score.source_heat_score *f f.hundredths 10
