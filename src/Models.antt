-- ===== src/Models.antt =====
-- The data of stock-assistant-pipeline-intelligence/app/models and app/common/stock.py.
-- A datetime is its number of microseconds since a fixed origin, a UUID is a number, a text is the
-- list of its code points. `F` is Python's float.
pub mod EventType
pub mod EventScore
use wealthfinder.Prelude.{ℕ, Text, Bool, true, false, Option, none, some, List, [], ◌∷◌, length}
use wealthfinder.Models.EventType.{EventTypeEnum}

pub data SentimentEnum : Type 0 where
  positive neutral negative : SentimentEnum

pub record Stock : Type 0 where
  pub stock_code : Text
  pub exchange : Text
  pub company_name_zh : Text
  pub company_name_en : Text

pub record VersionedMetadata (T : Type 0) : Type 0 where
  pub version : Text
  pub output : T

pub record AnalysisOutcome (F : Type 0) : Type 0 where
  pub stock_code : Text
  pub event_type_primary : EventTypeEnum
  pub event_type_secondary : Option EventTypeEnum
  pub sentiment_label : SentimentEnum
  pub sentiment_score : F
  pub headline : Text
  pub entity_summary : Text

pub record EntityEvent (F : Type 0) : Type 0 where
  pub source_id : ℕ
  pub source_url : Text
  pub source_name : Text
  pub published_at : Option ℕ
  pub analysis_outcome : VersionedMetadata (AnalysisOutcome F)
  pub stock : Stock
  pub entity_event_id : Option ℕ
  pub created_at : Option ℕ

-- `x is not None`
abbrev pub is_some {ℓ} : {A : Type ℓ} → Option A → Bool
is_some none = false
is_some (some a) = true

-- `a or b`, where a value that is not None is true
abbrev pub or_else {ℓ} : {A : Type ℓ} → Option A → Option A → Option A
or_else none b = b
or_else (some a) b = some a

module _ {F : Type 0} where
  unfoldable pub is_persistent_event : EntityEvent F → Bool
  is_persistent_event e = elim e.entity_event_id [ none ↦ false | some _ ↦ is_some e.created_at ]

  unfoldable pub get_published_at : EntityEvent F → Option ℕ
  get_published_at e = or_else e.published_at e.created_at

pub record EntitySource : Type 0 where
  pub source_name : Text
  pub url : Text
  pub published_at : ℕ

pub record Event : Type 0 where
  pub event_id : ℕ
  pub exchange : Text
  pub stock_code : Text
  pub event_type_primary : EventTypeEnum
  pub first_seen_at : ℕ
  pub last_seen_at : ℕ
  pub event_type_secondary : Option (List EventTypeEnum)
  pub source_list : Option (List EntitySource)
  pub aggregation_updated_at : Option ℕ
  pub updated_at : Option ℕ
  pub created_at : Option ℕ
  pub entity_event_ids : Option (List ℕ)

is_active_ids : Option (List ℕ) → Bool
is_active_ids none = false
is_active_ids (some []) = false
is_active_ids (some (i ∷ ids)) = true

unfoldable pub is_active_event : Event → Bool
unfolding is_active_ids
is_active_event e = is_active_ids e.entity_event_ids

unfoldable pub source_count : Event → Option ℕ
source_count e = elim e.source_list [ none ↦ none | some sources ↦ some (length sources) ]
