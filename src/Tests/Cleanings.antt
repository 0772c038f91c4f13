-- ===== src/Tests/Cleanings.antt =====
-- Tests of the cleaner's theorems, on a record with a title and a body.
use wealthfinder.Prelude.{ℕ, ◌+◌, Text, ◌≡◌, refl, true, false, Option, none, some, [], ◌∷◌, length}
use wealthfinder.Prelude.Assoc.{lookup}
use wealthfinder.Models.EventType.{codes}
use wealthfinder.Ingestion.Cleaning.{
  RawNews, Cleaner, StreamMessage, has_cleaned, select_raw_news, work_once,
}
use wealthfinder.Ingestion.Cleaning.Recorded.{Settled, work_once-Settled}
use wealthfinder.Ingestion.Cleaning.Unannounced.{redelivered, work_once-unannounced}

abbrev normalise : Text → Text
normalise text = text

abbrev parse_uuid : Text → Option ℕ
parse_uuid text = some (length text)

abbrev later : ℕ → ℕ
later n = n + 50

abbrev raw : RawNews
raw = record { title = codes "t"; body = codes "body"; is_deleted = false; deleted_reason = none }

abbrev message : StreamMessage
message = record { message_id = 9; raw_id = codes "ab" }

abbrev before : Cleaner
before = record {
  raw_news = (2, raw) ∷ [];
  cleaned_news = [];
  announced = [];
  acked = [];
  draws = 0;
}

work_once-Settled_example :
    Settled normalise 3 later later parse_uuid [] message
      (work_once normalise 3 later later parse_uuid message
        (record { state = before; outcomes = [] })).1.state
work_once-Settled_example =
    work_once-Settled normalise 3 later later parse_uuid message
      (record { state = before; outcomes = [] })

work_once-unannounced_example :
    (has_cleaned 2 (redelivered normalise 3 later later parse_uuid message before).cleaned_news
      ≡ true)
    × ((redelivered normalise 3 later later parse_uuid message before).acked ≡ 9 ∷ [])
    × ((redelivered normalise 3 later later parse_uuid message before).announced ≡ [])
work_once-unannounced_example =
    work_once-unannounced normalise 3 later later parse_uuid message 2 raw before refl
      (unfold select_raw_news lookup in refl) refl refl (unfold has_cleaned in refl)
