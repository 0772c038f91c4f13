-- ===== src/Skills/EntityAnalysis.antt =====
-- skills/entity_analysis_skill.py of stock-assistant-pipeline-intelligence/app: what `llm_process`
-- makes of the entities that the LLM returned. `F` is Python's float; `verify` is `_verify_entity`.
pub mod Entities
use wealthfinder.Prelude.{
  ℕ, Text, text_eq, Bool, true, false, ◌&&◌, Option, none, some, List, [], ◌∷◌, ◌++◌, ◌==◌, elem,
  ltb, length, take, if◌then◌else◌,
}
use wealthfinder.Models.{Stock, SentimentEnum, AnalysisOutcome}
use wealthfinder.Prelude.Floats.{Floats, nought, one}
use wealthfinder.Models.EventType.{EventTypeEnum, type_eq, codes}

-- an item of the LLM's structured output
pub record ExtractedEntity (F : Type 0) : Type 0 where
  pub stock_code : Option Text
  pub company_name : Text
  pub event_type_primary : EventTypeEnum
  pub event_type_secondary : Option EventTypeEnum
  pub sentiment_label : SentimentEnum
  pub sentiment_score : F
  pub headline : Text
  pub entity_summary : Text

pub record VerifiedEntity (F : Type 0) : Type 0 where
  pub stock : Stock
  pub outcome : AnalysisOutcome F

pub record UnverifiedEntity : Type 0 where
  pub stock_code : Option Text
  pub company_name : Text

-- what an entry of `_llm_errors` says; each names the outcome's stock code
pub data Fix : Type 0 where
  sentiment_score_clipped headline_truncated entity_summary_truncated : Fix
  event_type_secondary_cleared duplicate_dropped : Fix

-- the skill's fields that the loop changes, and `entities`
pub record Progress (F : Type 0) : Type 0 where
  pub verified_entities : List Text
  pub unverified_entities : List UnverifiedEntity
  pub llm_errors : List (Text × Fix)
  pub entities : List (VerifiedEntity F)

abbrev pub same_type : Option EventTypeEnum → EventTypeEnum → Bool
same_type none primary = false
same_type (some secondary) primary = secondary == primary

-- a field, and what is recorded if it had to be fixed
abbrev fix_if : Bool → Text → Fix → List (Text × Fix)
fix_if broken code fix = if broken then (code, fix) ∷ [] else []

abbrev pub headline_max_chars : ℕ
headline_max_chars = 20

abbrev pub entity_summary_max_chars : ℕ
entity_summary_max_chars = 100

module _ {F : Type 0} ⦃f : Floats F⦄ where
  -- `0.0 <= score <= 1.0`
  abbrev pub in_unit : F → Bool
  in_unit score = f.le nought score && f.le score one

  -- Python's max and min keep the first argument unless the second is greater, or less.
  abbrev pub float_max : F → F → F
  float_max x y = if f.lt x y then y else x

  abbrev pub float_min : F → F → F
  float_min x y = if f.lt y x then y else x

  -- `min(max(score, 0.0), 1.0)`
  unfoldable pub clip : F → F
  clip score = float_min (float_max score nought) one

  -- `_enforce_constraints`: the outcome after its four statements
  unfoldable pub enforced : AnalysisOutcome F → AnalysisOutcome F
  unfolding clip
  enforced o = record o {
    sentiment_score =
        if in_unit o.sentiment_score then o.sentiment_score else clip o.sentiment_score;
    headline =
        if ltb headline_max_chars (length o.headline)
        then take headline_max_chars o.headline
        else o.headline;
    entity_summary =
        if ltb entity_summary_max_chars (length o.entity_summary)
        then take entity_summary_max_chars o.entity_summary
        else o.entity_summary;
    event_type_secondary =
        if same_type o.event_type_secondary o.event_type_primary
        then none
        else o.event_type_secondary;
  }

  -- and what they append to `_llm_errors`
  unfoldable pub fixes : AnalysisOutcome F → List (Text × Fix)
  fixes o =
      fix_if (if in_unit o.sentiment_score then false else true) o.stock_code
        sentiment_score_clipped
      ++ fix_if (ltb headline_max_chars (length o.headline)) o.stock_code headline_truncated
      ++ fix_if (ltb entity_summary_max_chars (length o.entity_summary)) o.stock_code
          entity_summary_truncated
      ++ fix_if (same_type o.event_type_secondary o.event_type_primary) o.stock_code
          event_type_secondary_cleared

  unfoldable pub outcome_of : Stock → ExtractedEntity F → AnalysisOutcome F
  outcome_of stock extracted = record {
    stock_code = stock.stock_code;
    event_type_primary = extracted.event_type_primary;
    event_type_secondary = extracted.event_type_secondary;
    sentiment_label = extracted.sentiment_label;
    sentiment_score = extracted.sentiment_score;
    headline = extracted.headline;
    entity_summary = extracted.entity_summary;
  }

  -- the end of a round, with the outcome after its constraints
  unfoldable pub add_verified :
      Stock → AnalysisOutcome F → List (Text × Fix) → Progress F → Progress F
  add_verified stock outcome errors p =
      if elem outcome.stock_code p.verified_entities
      then record p {
        llm_errors = p.llm_errors ++ errors ++ (outcome.stock_code, duplicate_dropped) ∷ [];
      }
      else record p {
        verified_entities = p.verified_entities ++ outcome.stock_code ∷ [];
        llm_errors = p.llm_errors ++ errors;
        entities = p.entities ++ (record { stock = stock; outcome = outcome }) ∷ [];
      }

  unfoldable pub process_extracted : Option Stock → ExtractedEntity F → Progress F → Progress F
  process_extracted none extracted p = record p {
    unverified_entities =
        p.unverified_entities
        ++ (record { stock_code = extracted.stock_code; company_name = extracted.company_name })
          ∷ [];
  }
  process_extracted (some stock) extracted p =
      add_verified stock (enforced (outcome_of stock extracted))
        (fixes (outcome_of stock extracted)) p

  module _ (verify : ExtractedEntity F → Option Stock) where
    -- the loop of `llm_process` over the output's items
    unfoldable pub process_items : List (ExtractedEntity F) → Progress F → Progress F
    process_items [] p = p
    process_items (extracted ∷ items) p =
        process_items items (process_extracted (verify extracted) extracted p)

abbrev pub no_progress : {F : Type 0} → Progress F
no_progress = record {
  verified_entities = [];
  unverified_entities = [];
  llm_errors = [];
  entities = [];
}
