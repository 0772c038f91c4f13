-- ===== src/Scoring/Rule/Dimensions.antt =====
-- The range of the Rule Score (scoring/rule_score.py), from the documented ranges of its inputs: a
-- score of an event type lies in [0, 10], and a sentiment's strength in [0, 1].
use wealthfinder.Prelude.{
  ℕ, ◌≡◌, refl, Option, ◌<◌, inl, inr, Text, text_eq, Bool, true, false, none, some, List, [], ◌∷◌,
  ◌==◌, nat_eq, if◌then◌else◌, map, All, Bool-cases, arith,
}
use wealthfinder.Prelude.Floats.{Floats, IsArithmetic, nought, one, ten, ◌*f◌, ◌≼◌}
use wealthfinder.Prelude.Floats.Bounds.{Within, from, upto, nought_bounds}
use wealthfinder.Prelude.Assoc.{lookup, insert, lookup-insert}
use wealthfinder.Prelude.Result.{ok}
use wealthfinder.Models.{EntitySource}
use wealthfinder.Models.EventType.{EventTypeEnum, type_eq}
use wealthfinder.Models.EventScore.{RuleScore, base_rule_score}
use wealthfinder.Scoring.Rule.{
  EventTypeScore, Tier, p1, p2, p3, source_tier, default_tier_weights, tier_weight, fallback_weight,
  fallback_weights, get_source_weights, get_weight, get_event_type_score, max_from, at_most_ten,
}

module _ {F : Type 0} ⦃f : Floats F⦄ where
  -- The first entry of this type has a score in [0, 10], and there is one.
  abbrev pub IsConfigured : EventTypeEnum → List (EventTypeScore F) → Type 0
  IsConfigured event_type [] = ⊥
  IsConfigured event_type (e ∷ es) =
      if e.event_type == event_type then Within nought ten e.score else IsConfigured event_type es

module _ {F : Type 0} ⦃f : Floats F⦄ (laws : IsArithmetic F) where
  open laws use {
    le_refl, le_trans, le_of_not_lt, le_of_lt, hundredths_mono, add_mono, add_zero, add-neg,
    neg_mono, neg_zero, mul_mono, zero_mul, one_mul, mul_one, mul_zero, mul-neg, neg-mul, div_mono,
    zero_div, div_self, neg-div, quotient_pos, weights_of_ten,
  }

  tier_bounds : (tier : Tier) → Within {F = F} nought ten (default_tier_weights tier)
  unfolding default_tier_weights
  tier_bounds p1 = (hundredths_mono 0 900 (omega arith), hundredths_mono 900 1000 (omega arith))
  tier_bounds p2 = (hundredths_mono 0 600 (omega arith), hundredths_mono 600 1000 (omega arith))
  tier_bounds p3 = (hundredths_mono 0 400 (omega arith), hundredths_mono 400 1000 (omega arith))

  tier_weight_bounds : (tier : Option Tier) → Within {F = F} nought ten (tier_weight tier)
  unfolding tier_weight
  tier_weight_bounds none = nought_bounds laws
  tier_weight_bounds (some tier) = tier_bounds tier

  fallback_weight_bounds : (name : Text) → Within {F = F} nought ten (fallback_weight name)
  unfolding fallback_weight
  fallback_weight_bounds name = tier_weight_bounds (lookup name source_tier)

  get_weight-insert :
      (name key : Text) (w : F) (weights : List (Text × F))
      → get_weight (insert key w weights) name
        ≡ (if key == name then w else get_weight weights name)
  unfolding get_weight
  get_weight-insert name key w weights = ground (arith, lookup-insert key name w weights)

  fallback_weights_bounds :
      (name : Text) (names : List Text) (weights : List (Text × F))
      → Within nought ten (get_weight weights name)
      → Within nought ten (get_weight (fallback_weights weights names) name)
  unfolding fallback_weights
  fallback_weights_bounds name [] weights h = h
  fallback_weights_bounds name (key ∷ names) weights h =
      fallback_weights_bounds name names (insert key (fallback_weight key) weights) (
        rw (get_weight-insert name key (fallback_weight key) weights)
          (elim (Bool-cases (key == name)) [
            | inl same ↦ rw same (fallback_weight_bounds key)
            | inr differs ↦ rw differs h
          ]))

  pub get_source_weights_bounds :
      (name : Text) (names : List Text)
      → Within {F = F} nought ten (get_weight (get_source_weights names) name)
  unfolding get_source_weights
  get_source_weights_bounds name names =
      fallback_weights_bounds name names [] (unfold get_weight lookup in nought_bounds laws)

  pub max_from_bounds :
      (best : F) (xs : List F)
      → Within nought ten best
      → All (Within nought ten) xs
      → Within nought ten (max_from best xs)
  unfolding max_from
  max_from_bounds best [] hb hs = hb
  max_from_bounds best (x ∷ xs) hb hs =
      max_from_bounds (if f.lt best x then x else best) xs (choose (f.lt best x)) hs.1
    where
      choose : (b : Bool) → Within nought ten (if b then x else best)
      choose true = hs.0
      choose false = hb

  at_most_ten_bounds : (x : F) → nought ≼ x → Within nought ten (at_most_ten x)
  unfolding at_most_ten
  at_most_ten_bounds x h = elim (Bool-cases (f.lt x ten)) [
    | inl below ↦ rw below (h, le_of_lt x ten below)
    | inr above ↦ rw above (hundredths_mono 0 1000 (omega arith), le_refl ten)
  ]

  -- The weighted sum of four values in [0, 10] lies in [0, 8].
  pub base_rule_score_bounds :
      (r : RuleScore F)
      → Within nought ten r.event_type_score
      → Within nought ten r.source_authority_score
      → Within nought ten r.sentiment_strength_score
      → Within nought ten r.source_heat_score
      → Within nought (f.hundredths 800) (base_rule_score r)
  unfolding base_rule_score
  base_rule_score_bounds r a b c d =
      let (a0, a1) = part 30 a in
      let (b0, b1) = part 25 b in
      let (c0, c1) = part 15 c in
      let (d0, d1) = part 10 d in
      (
        from (add_zero nought) (
            add_mono _ _ _ _
              (from (add_zero nought)
                (add_mono _ _ _ _ (from (add_zero nought) (add_mono _ _ _ _ a0 b0)) c0))
              d0),
        upto weights_of_ten (add_mono _ _ _ _ (add_mono _ _ _ _ (add_mono _ _ _ _ a1 b1) c1) d1),
      )
    where
      part :
          (n : ℕ) {x : F}
          → Within nought ten x
          → Within nought (ten *f f.hundredths n) (x *f f.hundredths n)
      part n {x} h =
          let share = hundredths_mono 0 n (omega arith) in
          (
            from (zero_mul (f.hundredths n)) (mul_mono nought x _ share h.0),
            mul_mono x ten _ share h.1,
          )

  pub event_type_score_bounds :
      (event_type : EventTypeEnum) (entries : List (EventTypeScore F))
      → IsConfigured event_type entries
      → (score : F) × (get_event_type_score event_type entries ≡ ok score) × Within nought ten score
  unfolding get_event_type_score
  event_type_score_bounds event_type [] c = absurd c
  event_type_score_bounds event_type (e ∷ es) c = elim (Bool-cases (e.event_type == event_type)) [
    | inl same ↦ rw same (e.score, refl, rw same at c)
    | inr other_type ↦ rw other_type (event_type_score_bounds event_type es (rw other_type at c))
  ]

  pub authority_bounds :
      (weights : List (Text × F)) (sources : List EntitySource)
      → ((name : Text) → Within nought ten (get_weight weights name))
      → All (Within nought ten) (map (λ source. get_weight weights source.source_name) sources)
  authority_bounds weights [] h = tt
  authority_bounds weights (source ∷ sources) h =
      (h source.source_name, authority_bounds weights sources h)

  pub heat_bounds :
      (count total : ℕ)
      → 0 < total
      → Within nought ten (at_most_ten (f.quotient count total *f ten))
  heat_bounds count total active = at_most_ten_bounds _ (
      from (zero_mul ten) (
        mul_mono nought _ ten (hundredths_mono 0 1000 (omega arith))
          (quotient_pos count total active)))

  -- ten times a value in [0, 1]
  pub ten_times_bounds : (x : F) → Within nought one x → Within nought ten (x *f ten)
  ten_times_bounds x h =
      let nought_le_ten = hundredths_mono 0 1000 (omega arith) in
      (
        from (zero_mul ten) (mul_mono nought x ten nought_le_ten h.0),
        upto (one_mul ten) (mul_mono x one ten nought_le_ten h.1),
      )
