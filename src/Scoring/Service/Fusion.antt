-- ===== src/Scoring/Service/Fusion.antt =====
-- The fused score (`_score_fusion` of scoring/scoring_service.py) while the LLM's score is its
-- placeholder.
use wealthfinder.Prelude.{◌≡◌, ◌⊎◌, ◌↔◌, refl, Bool, true, false, if◌then◌else◌, inl, inr, arith}
use wealthfinder.Prelude.Int.{ℤ, pos, negsuc}
use wealthfinder.Prelude.Floats.{Floats, IsArithmetic, of_int, nought, ◌*f◌, ◌≼◌}
use wealthfinder.Prelude.Floats.Bounds.{from}
use wealthfinder.Models.EventScore.{RuleScore, base_rule_score}
use wealthfinder.Scoring.Rule.{SentimentAggregation}
use wealthfinder.Scoring.Service.{
  llm_score_placeholder, fused_direction, raw_final_score, score_fusion,
}

module _ {F : Type 0} ⦃f : Floats F⦄ (laws : IsArithmetic F) where
  open laws use {
    mul_mono, zero_mul, one_mul, mul_one, mul-neg, neg-mul, add_zero, abs_pos, abs-neg,
    hundredths_mono, lt_irrefl,
  }

  no_impact :
      (base : F) (direction : ℤ)
      → raw_final_score base direction llm_score_placeholder.output
        ≡ base *f of_int direction *f f.hundredths 67
  unfolding raw_final_score
  no_impact base direction =
      rw
        (
          zero_mul (f.hundredths 33),
          zero_mul (of_int (pos 2)),
          add_zero (base *f of_int direction *f f.hundredths 67),
        )
        refl

  abs_product :
      (base : F) → nought ≼ base → f.abs (base *f f.hundredths 67) ≡ base *f f.hundredths 67
  abs_product base h = abs_pos _ (
      from (zero_mul (f.hundredths 67))
        (mul_mono nought base _ (hundredths_mono 0 67 (omega arith)) h))

  final_score :
      (base : F) (up : Bool)
      → nought ≼ base
      → f.abs (raw_final_score base (if up then pos 1 else negsuc 0) llm_score_placeholder.output)
        ≡ base *f f.hundredths 67
  final_score base true h = rw (no_impact base (pos 1), mul_one base) (abs_product base h)
  final_score base false h =
      rw
        (
          no_impact base (negsuc 0),
          mul-neg base (f.hundredths 100),
          mul_one base,
          neg-mul base (f.hundredths 67),
          abs-neg (base *f f.hundredths 67),
        )
        (abs_product base h)

  -- If the base score is not negative, then without an LLM's score the direction is 1 exactly when the
  -- signed sentiment is not negative and -1 otherwise, and the final score is 0.67 times the base score
  -- whichever way the sentiment points.
  pub score_fusion_lem :
      (rule_score : RuleScore F) (sentiment_agg : SentimentAggregation F)
      → nought ≼ base_rule_score rule_score
      → let fused = score_fusion rule_score llm_score_placeholder.output sentiment_agg in
        ((fused.direction ≡ pos 1) ↔ (nought ≼ sentiment_agg.weighted_signed_score))
        × ((fused.direction ≡ pos 1) ⊎ (fused.direction ≡ negsuc 0))
        × (fused.base_rule_score ≡ base_rule_score rule_score)
        × (fused.abs_final_score ≡ base_rule_score rule_score *f f.hundredths 67)
  unfolding score_fusion fused_direction
  score_fusion_lem rule_score sentiment_agg h = rw (lt_irrefl nought) (
    up_iff (f.le nought sentiment_agg.weighted_signed_score),
    either (f.le nought sentiment_agg.weighted_signed_score),
    refl,
    final_score (base_rule_score rule_score) (f.le nought sentiment_agg.weighted_signed_score) h,
  )
    where
      up_iff : (b : Bool) → ((if b then pos 1 else negsuc 0) ≡ pos 1) ↔ (b ≡ true)
      up_iff true = (λ _. refl, λ _. refl)
      up_iff false = (λ e. cc, λ e. cc)

      either :
          (b : Bool)
          → ((if b then pos 1 else negsuc 0) ≡ pos 1) ⊎ ((if b then pos 1 else negsuc 0) ≡ negsuc 0)
      either true = inl refl
      either false = inr refl
