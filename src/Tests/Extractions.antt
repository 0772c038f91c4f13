-- ===== src/Tests/Extractions.antt =====
-- Tests of the skill's theorems: two items that verify to one stock, each with a headline that
-- is too long and a score of 1.5.
use wealthfinder.Prelude.{
  ◌≡◌, refl, true, Option, none, some, [], ◌∷◌, ◌++◌, elem, replicate, text_eq,
}
use wealthfinder.Models.{Stock, positive}
use wealthfinder.Models.EventType.{codes, earnings}
use wealthfinder.Skills.EntityAnalysis.{ExtractedEntity, process_items, no_progress}
use wealthfinder.Skills.EntityAnalysis.Entities.{Sound, process_items-Sound, process_items_complete}
use wealthfinder.Tests.Data.{tencent}
use wealthfinder.Tests.Hundredths.{hundredths_floats, hundredths_IsArithmetic}
use wealthfinder.Prelude.Int.{ℤ, pos}

abbrev verify : ExtractedEntity ℤ → Option Stock
verify extracted = some tencent

abbrev item : ExtractedEntity ℤ
item = record {
  stock_code = none;
  company_name = codes "TENCENT";
  event_type_primary = earnings;
  event_type_secondary = some earnings;
  sentiment_label = positive;
  sentiment_score = pos 150;
  headline = replicate 30 b'a';
  entity_summary = codes "s";
}

process_items-Sound_example : Sound (process_items verify (item ∷ item ∷ []) no_progress)
process_items-Sound_example =
    process_items-Sound hundredths_IsArithmetic verify (item ∷ item ∷ []) no_progress
      (record { codes = refl; once = tt; fit = tt })

process_items_complete_example :
    elem tencent.stock_code
      (process_items verify ((item ∷ []) ++ item ∷ []) no_progress).verified_entities
    ≡ true
process_items_complete_example =
    process_items_complete verify (item ∷ []) item [] no_progress tencent refl
