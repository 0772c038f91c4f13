-- ===== src/Ingestion/Cleaning.antt =====
-- cleaner/cleaning_service.py of stock-assistant-data-ingestion/app, with the statements that it sends
-- to the database and the calls of cleaner/stream_handler.py that its workers make. `normalise` is
-- common/text_utils.py's, which calls unicodedata; `parse_uuid` is UUID(text). A row's source, times
-- and metadata are left out: the cleaner passes none of them on.
pub mod Recorded
pub mod Unannounced
use wealthfinder.Prelude.{
  ℕ, suc, Text, Bool, true, false, not, ◌||◌, Option, none, some, List, [], ◌∷◌, ◌==◌, nat_eq, ltb,
  length, if◌then◌else◌,
}
use wealthfinder.Prelude.Assoc.{lookup, insert}
use wealthfinder.Prelude.Result.{
  Exc, unreachable, rate_limit, sapi_error, cancelled, other, Result, ok, raise, assert_some,
}
use wealthfinder.Prelude.Action.{Env, Action, return, fail, lift, request, catch, ◌>>=◌, ◌>>◌}
use wealthfinder.Models.{is_some}

pub data DeletedReason : Type 0 where
  empty_field body_too_short : DeletedReason

-- models/raw_news.py
pub record RawNews : Type 0 where
  pub title : Text
  pub body : Text
  pub is_deleted : Bool
  pub deleted_reason : Option DeletedReason

-- models/cleaned_news.py
pub record CleanedNews : Type 0 where
  pub cleaned_id : ℕ
  pub raw_id : ℕ
  pub title_cleaned : Text
  pub body_cleaned : Text
  pub created_at : ℕ

pub record Cleaner : Type 0 where
  -- raw_news, by raw_id
  pub raw_news : List (ℕ × RawNews)
  -- cleaned_news, the latest first; its raw_id is not unique
  pub cleaned_news : List CleanedNews
  -- the cleaned ids on stream:raw_news_cleaned, the latest first
  pub announced : List ℕ
  -- the acknowledged messages of stream:raw_news_inserted, the latest first
  pub acked : List ℕ
  -- how many UUIDs were drawn
  pub draws : ℕ

-- one message of stream:raw_news_inserted
pub record StreamMessage : Type 0 where
  pub message_id : ℕ
  pub raw_id : Text

abbrev live_row : Option RawNews → Option RawNews
live_row none = none
live_row (some raw) = if raw.is_deleted then none else some raw

-- `_fetch_raw_news`'s SELECT
unfoldable pub select_raw_news : ℕ → Cleaner → Option RawNews
select_raw_news raw_id s = live_row (lookup raw_id s.raw_news)

-- `_mark_deleted`'s UPDATE
unfoldable pub update_deleted : ℕ → DeletedReason → Cleaner → Cleaner
update_deleted raw_id reason s = elim (lookup raw_id s.raw_news) [
  | none ↦ s
  | some raw ↦ record s {
    raw_news =
        insert raw_id (record raw { is_deleted = true; deleted_reason = some reason }) s.raw_news;
  }
]

-- `SELECT 1 FROM cleaned_news WHERE raw_id = $1`
unfoldable pub has_cleaned : ℕ → List CleanedNews → Bool
has_cleaned raw_id [] = false
has_cleaned raw_id (cleaned ∷ rows) = cleaned.raw_id == raw_id || has_cleaned raw_id rows

unfoldable pub insert_cleaned : CleanedNews → Cleaner → Cleaner
insert_cleaned cleaned s = record s { cleaned_news = cleaned ∷ s.cleaned_news }

abbrev is_empty : Text → Bool
is_empty [] = true
is_empty (c ∷ text) = false

module _ (normalise : Text → Text) (body_min_length : ℕ) (uuid4 clock : ℕ → ℕ) where
  -- how many records were made before
  unfoldable pub next_record : Action Cleaner ℕ
  next_record e =
      (ok e.state.draws, record e { state = record e.state { draws = suc e.state.draws } })

  -- with the n-th uuid4() and datetime.now()
  unfoldable pub new_cleaned : ℕ → ℕ → RawNews → CleanedNews
  new_cleaned n raw_id raw = record {
    cleaned_id = uuid4 n;
    raw_id = raw_id;
    title_cleaned = normalise raw.title;
    body_cleaned = normalise raw.body;
    created_at = clock n;
  }

  -- step 5: insert and announce
  unfoldable pub store_cleaned : ℕ → RawNews → Action Cleaner (Unit {0})
  store_cleaned raw_id raw = do
    n ← next_record
    request (λ s. tt) (insert_cleaned (new_cleaned n raw_id raw))
    request (λ s. tt) (λ s. record s { announced = uuid4 n ∷ s.announced })

  -- step 4: nothing is done for a record that is already cleaned
  unfoldable pub store_once : ℕ → RawNews → Action Cleaner (Unit {0})
  store_once raw_id raw = do
    already ← request (λ s. has_cleaned raw_id s.cleaned_news) (λ s. s)
    if already then return tt else store_cleaned raw_id raw

  abbrev pub lacks_field : RawNews → Bool
  lacks_field raw = is_empty raw.title || is_empty raw.body

  abbrev pub is_short : RawNews → Bool
  is_short raw = ltb (length (normalise raw.body)) body_min_length

  unfoldable pub mark_deleted : ℕ → DeletedReason → Action Cleaner (Unit {0})
  mark_deleted raw_id reason = request (λ s. tt) (update_deleted raw_id reason)

  -- steps 2 and 3, and what follows
  unfoldable pub clean_row : ℕ → Option RawNews → Action Cleaner (Unit {0})
  clean_row raw_id none = return tt
  clean_row raw_id (some raw) =
      if lacks_field raw
      then mark_deleted raw_id empty_field
      else if is_short raw
      then mark_deleted raw_id body_too_short
      else store_once raw_id raw

  unfoldable pub process_record : ℕ → Action Cleaner (Unit {0})
  process_record raw_id = do raw ← request (select_raw_news raw_id) (λ s. s); clean_row raw_id raw

  module _ (parse_uuid : Text → Option ℕ) where
    -- the `try` block of `_worker`
    unfoldable pub try_clean : StreamMessage → Action Cleaner (Unit {0})
    try_clean message = do
      raw_id ← lift (assert_some (parse_uuid message.raw_id))
      process_record raw_id
      request (λ s. tt) (λ s. record s { acked = message.message_id ∷ s.acked })

    -- `except Exception` leaves the message unacknowledged.
    abbrev pub clean_failed : Exc → Action Cleaner (Unit {0})
    clean_failed cancelled = fail cancelled
    clean_failed x = return tt

    -- one round of `_worker`
    unfoldable pub work_once : StreamMessage → Action Cleaner (Unit {0})
    work_once message = catch (try_clean message) clean_failed
