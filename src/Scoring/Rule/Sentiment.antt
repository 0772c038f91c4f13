-- ===== src/Scoring/Rule/Sentiment.antt =====
-- The range of an Event's sentiment (scoring/rule_score.py).
use wealthfinder.Prelude.{
  ◌≡◌, ◌∙◌, ap, sym, inl, inr, Text, text_eq, false, List, [], ◌∷◌, nat_eq, All, Bool-cases, arith,
}
use wealthfinder.Prelude.Floats.{Floats, IsArithmetic, of_int, nought, one, ◌*f◌, ◌/f◌, ◌≼◌}
use wealthfinder.Prelude.Floats.Bounds.{Within, from, upto, neg_nought}
use wealthfinder.Models.{SentimentEnum, positive, neutral, negative, EntityEvent}
use wealthfinder.Models.EventType.{type_eq}
use wealthfinder.Scoring.Rule.{
  direction_coefficient, get_weight, mean_sentiment, sum_sentiments, compute_sentiment_aggregation,
}

module _ {F : Type 0} ⦃f : Floats F⦄ where
  abbrev pub IsStrength : EntityEvent F → Type 0
  IsStrength e = Within nought one e.analysis_outcome.output.sentiment_score

module _ {F : Type 0} ⦃f : Floats F⦄ (laws : IsArithmetic F) where
  open laws use {
    le_refl, le_trans, le_of_not_lt, le_of_lt, hundredths_mono, add_mono, add_zero, add-neg,
    neg_mono, neg_zero, mul_mono, zero_mul, one_mul, mul_one, mul_zero, mul-neg, neg-mul, div_mono,
    zero_div, div_self, neg-div, quotient_pos, weights_of_ten,
  }

  abbrev IsSum : F → F → F → Type 0
  IsSum total signed strength =
      (nought ≼ total) × Within (f.neg total) total signed × Within nought total strength

  -- A sentiment's strength times its source's weight.
  product_bounds : (s w : F) → Within nought one s → nought ≼ w → Within nought w (s *f w)
  product_bounds s w hs hw =
      (from (zero_mul w) (mul_mono nought s w hw hs.0), upto (one_mul w) (mul_mono s one w hw hs.1))

  -- the same, signed by the sentiment's label
  signed_bounds :
      (label : SentimentEnum) (s w : F)
      → Within nought one s
      → nought ≼ w
      → Within (f.neg w) w (s *f of_int (direction_coefficient label) *f w)
  unfolding direction_coefficient
  signed_bounds positive s w hs hw =
      let (low, high) = product_bounds s w hs hw in
      rw (mul_one s) (le_trans _ _ _ (neg_nought laws hw) low, high)
  signed_bounds neutral s w hs hw = rw (mul_zero s, zero_mul w) (neg_nought laws hw, hw)
  signed_bounds negative s w hs hw =
      let (low, high) = product_bounds s w hs hw in
      rw (mul-neg s one, mul_one s, neg-mul s w)
        (neg_mono _ _ high, le_trans _ _ _ (neg_nought laws low) hw)

  mean_bounds :
      (total signed strength : F)
      → IsSum total signed strength
      → Within (f.neg one) one (mean_sentiment total signed strength).weighted_signed_score
        × Within nought one (mean_sentiment total signed strength).sentiment_strength_score
  unfolding mean_sentiment
  mean_bounds total signed strength (pos_total, (low, high), (slow, shigh)) =
      elim (Bool-cases (f.eq total nought)) [
        | inl empty ↦
            rw empty
              ((neg_nought laws nought_le_one, nought_le_one), (le_refl nought, nought_le_one))
        | inr some_weight ↦ rw some_weight (
          (
            from (minus_one some_weight) (div_mono _ _ total pos_total some_weight low),
            upto (div_self total some_weight) (div_mono _ _ total pos_total some_weight high),
          ),
          (
            from (zero_div total some_weight) (div_mono _ _ total pos_total some_weight slow),
            upto (div_self total some_weight) (div_mono _ _ total pos_total some_weight shigh),
          ),
        )
      ]
    where
      nought_le_one : ◌≼◌ {F = F} nought one
      nought_le_one = hundredths_mono 0 100 (omega arith)

      minus_one : f.eq total nought ≡ false → f.neg total /f total ≡ f.neg one
      minus_one h = neg-div total total ∙ ap f.neg (div_self total h)

  sum_bounds :
      (source_weights : List (Text × F)) (entity_events : List (EntityEvent F))
      (total signed strength : F)
      → ((name : Text) → nought ≼ get_weight source_weights name)
      → All IsStrength entity_events
      → IsSum total signed strength
      → let agg = sum_sentiments source_weights entity_events total signed strength in
        Within (f.neg one) one agg.weighted_signed_score
        × Within nought one agg.sentiment_strength_score
  unfolding sum_sentiments
  sum_bounds source_weights [] total signed strength hw hs sum =
      mean_bounds total signed strength sum
  sum_bounds source_weights (e ∷ es) total signed strength hw hs
        (pos_total, (low, high), (slow, shigh)) =
      let w = get_weight source_weights e.source_name in
      let out = e.analysis_outcome.output in
      let (plow, phigh) = product_bounds out.sentiment_score w hs.0 (hw e.source_name) in
      let (dlow, dhigh) =
        signed_bounds out.sentiment_label out.sentiment_score w hs.0 (hw e.source_name) in
      sum_bounds source_weights es _ _ _ hw hs.1 (
        from (add_zero nought) (add_mono _ _ _ _ pos_total (hw e.source_name)),
        (from (add-neg total w) (add_mono _ _ _ _ low dlow), add_mono _ _ _ _ high dhigh),
        (from (add_zero nought) (add_mono _ _ _ _ slow plow), add_mono _ _ _ _ shigh phigh),
      )

  -- The sentiment of an Event lies in the documented ranges, [-1, 1] signed and [0, 1] unsigned, also
  -- when no source has a weight, if the strengths lie in [0, 1] and no weight is negative.
  pub compute_sentiment_aggregation_bounds :
      (source_weights : List (Text × F)) (entity_events : List (EntityEvent F))
      → ((name : Text) → nought ≼ get_weight source_weights name)
      → All IsStrength entity_events
      → let agg = compute_sentiment_aggregation entity_events source_weights in
        Within (f.neg one) one agg.weighted_signed_score
        × Within nought one agg.sentiment_strength_score
  unfolding compute_sentiment_aggregation
  compute_sentiment_aggregation_bounds source_weights entity_events hw hs =
      sum_bounds source_weights entity_events nought nought nought hw hs (
        le_refl nought,
        (from (sym neg_zero) (le_refl nought), le_refl nought),
        (le_refl nought, le_refl nought),
      )
