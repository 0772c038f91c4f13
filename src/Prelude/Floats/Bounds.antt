-- ===== src/Prelude/Floats/Bounds.antt =====
-- Ranges of floats.
use wealthfinder.Prelude.{◌≡◌, subst, arith}
use wealthfinder.Prelude.Floats.{Floats, IsArithmetic, nought, ten, ◌≼◌}

module _ {F : Type 0} ⦃f : Floats F⦄ where
  abbrev pub Within : F → F → F → Type 0
  Within low high x = (low ≼ x) × (x ≼ high)

  -- a bound by an equal value
  pub from : {x y z : F} → x ≡ y → x ≼ z → y ≼ z
  from {x} {y} {z} e h = subst (λ (v : F). v ≼ z) e h

  pub upto : {x y z : F} → y ≡ z → x ≼ y → x ≼ z
  upto {x} {y} {z} e h = subst (λ (v : F). x ≼ v) e h

module _ {F : Type 0} ⦃f : Floats F⦄ (laws : IsArithmetic F) where
  open laws use {le_refl, hundredths_mono, neg_mono, neg_zero}

  pub neg_nought : {x : F} → nought ≼ x → f.neg x ≼ nought
  neg_nought {x} h = upto neg_zero (neg_mono nought x h)

  pub nought_bounds : Within {F = F} nought ten nought
  nought_bounds = (le_refl nought, hundredths_mono 0 1000 (omega arith))
