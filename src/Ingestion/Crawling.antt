-- ===== src/Ingestion/Crawling.antt =====
-- crawl/crawl_service.py of stock-assistant-data-ingestion/app, with the statements that it sends to the
-- database. How a crawler ends is a parameter, and so is the hash of a title's normal form
-- (common/text_utils.py, over unicodedata and hashlib), which is none where its computation raises. The
-- created_at and extra_metadata columns are left out: nothing reads them back here.
pub mod Frame
pub mod Signals
pub mod Stuck
use wealthfinder.Prelude.{
  ℕ, suc, Text, text_eq, Bool, true, false, Option, none, some, List, [], ◌∷◌, ◌==◌, nat_eq,
  if◌then◌else◌,
}
use wealthfinder.Prelude.Result.{Exc, unreachable, rate_limit, sapi_error, cancelled, other}
use wealthfinder.Prelude.Action.{
  Env, Action, return, fail, gets, modify, request, catch, ◌>>=◌, ◌>>◌,
}
use wealthfinder.Models.{is_some}

-- crawl/crawlers/base_crawler.py
pub record CrawlSuccessItem : Type 0 where
  pub title : Text
  pub body : Text
  pub source_url : Text
  pub published_at : Option ℕ

pub record CrawlFailItem : Type 0 where
  pub source_url : Text
  pub error_type : Text
  pub error_code : Text
  pub attempt_count : ℕ

pub record CrawlResult : Type 0 where
  pub successes : List CrawlSuccessItem
  pub failures : List CrawlFailItem

-- How `crawler.run()` ends, or the making of the crawler: a result, a CrawlFatalException with its
-- text, or another exception.
pub data CrawlEnd : Type 0 where
  finished : CrawlResult → CrawlEnd
  fatal : Text → CrawlEnd
  crashed : Exc → CrawlEnd

-- a row of raw_news
pub record RawRow : Type 0 where
  pub raw_id : ℕ
  pub source_name : Text
  pub source_url : Text
  pub title : Text
  pub body : Text
  pub published_at : Option ℕ
  pub raw_hash : Text

-- a row of crawl_error_log
pub record ErrorRow : Type 0 where
  pub execution_id : Text
  pub source_name : Text
  pub failure : CrawlFailItem

pub data Status : Type 0 where
  success failed : Status

-- an entry of stream:crawl_completed; only a failure has a detail
pub record Completed : Type 0 where
  pub execution_id : Text
  pub status : Status
  pub error_detail : Option Text

pub record Crawl : Type 0 where
  -- raw_news, the latest first
  pub raw_news : List RawRow
  -- crawl_error_log, the latest first
  pub crawl_error_log : List ErrorRow
  -- the raw ids on stream:raw_news_inserted, the latest first
  pub inserted_signals : List ℕ
  -- stream:crawl_completed, the latest first
  pub completed : List Completed
  -- how many UUIDs were drawn for rows of raw_news
  pub draws : ℕ

-- How the INSERT ends: with a row, absorbed by ON CONFLICT (source_url) DO NOTHING, or refused by the
-- unique raw_hash.
pub data Insertion : Type 0 where
  inserted absorbed violated : Insertion

-- the id of the row of a source_url, which is unique
unfoldable pub stored_id : Text → List RawRow → Option ℕ
stored_id url [] = none
stored_id url (row ∷ rows) =
    let rest = stored_id url rows in if row.source_url == url then some row.raw_id else rest

unfoldable pub has_hash : Text → List RawRow → Bool
has_hash raw_hash [] = false
has_hash raw_hash (row ∷ rows) =
    let rest = has_hash raw_hash rows in if row.raw_hash == raw_hash then true else rest

-- `_INSERT_RAW_NEWS_SQL`
unfoldable pub insertion : RawRow → List RawRow → Insertion
unfolding stored_id has_hash
insertion row rows =
    if is_some (stored_id row.source_url rows)
    then absorbed
    else if has_hash row.raw_hash rows
    then violated
    else inserted

abbrev pub after_insertion : Insertion → RawRow → List RawRow → List RawRow
after_insertion inserted row rows = row ∷ rows
after_insertion absorbed row rows = rows
after_insertion violated row rows = rows

-- `except Exception`, which logs; a cancellation passes
unfoldable pub swallow : Exc → Action Crawl (Unit {0})
swallow cancelled = fail cancelled
swallow unreachable = return tt
swallow rate_limit = return tt
swallow sapi_error = return tt
swallow other = return tt

-- the except clauses of the INSERT, which go on with the next item
unfoldable pub insert_failed : Exc → Action Crawl Insertion
insert_failed cancelled = fail cancelled
insert_failed unreachable = return absorbed
insert_failed rate_limit = return absorbed
insert_failed sapi_error = return absorbed
insert_failed other = return absorbed

unfoldable pub insert_raw_news : RawRow → Action Crawl Insertion
insert_raw_news row =
    request (λ w. insertion row w.raw_news)
      (λ w. record w { raw_news = after_insertion (insertion row w.raw_news) row w.raw_news })

unfoldable pub signal_inserted : ℕ → Insertion → Action Crawl (Unit {0})
unfolding swallow
signal_inserted raw_id absorbed = return tt
signal_inserted raw_id violated = return tt
signal_inserted raw_id inserted =
    catch (request (λ w. tt) (λ w. record w { inserted_signals = raw_id ∷ w.inserted_signals }))
      swallow

module _ (uuid4 : ℕ → ℕ) (title_hash : Text → Option Text) (source_name : Text) where
  unfoldable pub persist_hashed : CrawlSuccessItem → ℕ → Option Text → Action Crawl (Unit {0})
  unfolding insert_raw_news insert_failed signal_inserted
  persist_hashed item raw_id none = return tt
  persist_hashed item raw_id (some raw_hash) = do
    ending ←
        catch
          (insert_raw_news (record {
            raw_id = raw_id;
            source_name = source_name;
            source_url = item.source_url;
            title = item.title;
            body = item.body;
            published_at = item.published_at;
            raw_hash = raw_hash;
          }))
          insert_failed
    signal_inserted raw_id ending

  -- one round of the loop of `_persist_successes`
  unfoldable pub persist_item : CrawlSuccessItem → Action Crawl (Unit {0})
  unfolding persist_hashed
  persist_item item = do
    raw_id ← gets (λ w. uuid4 w.draws)
    modify (λ w. record w { draws = suc w.draws })
    persist_hashed item raw_id (title_hash item.title)

  unfoldable pub persist_successes : List CrawlSuccessItem → Action Crawl (Unit {0})
  unfolding persist_item
  persist_successes [] = return tt
  persist_successes (item ∷ items) = do persist_item item; persist_successes items

module _ (execution_id source_name : Text) where
  unfoldable pub save_crawl_error : CrawlFailItem → Action Crawl (Unit {0})
  unfolding swallow
  save_crawl_error failure =
      catch
        (request (λ w. tt)
          (λ w. record w {
            crawl_error_log =
                record { execution_id = execution_id; source_name = source_name; failure = failure }
                ∷ w.crawl_error_log;
          }))
        swallow

  unfoldable pub persist_failures : List CrawlFailItem → Action Crawl (Unit {0})
  unfolding save_crawl_error
  persist_failures [] = return tt
  persist_failures (failure ∷ failures) = do save_crawl_error failure; persist_failures failures

unfoldable pub publish_completed : Text → Status → Option Text → Action Crawl (Unit {0})
publish_completed execution_id status error_detail =
    request (λ w. tt)
      (λ w. record w {
        completed =
            record { execution_id = execution_id; status = status; error_detail = error_detail }
            ∷ w.completed;
      })

-- `str(exc)` of an exception is a parameter
module _ (uuid4 : ℕ → ℕ) (title_hash : Text → Option Text) (detail : Exc → Text)
    (execution_id source_name : Text) where
  -- the body of execute()'s outer try
  unfoldable pub try_execute : CrawlEnd → Action Crawl (Unit {0})
  unfolding publish_completed persist_failures persist_successes
  try_execute (fatal text) = publish_completed execution_id failed (some text)
  try_execute (crashed x) = fail x
  try_execute (finished result) = do
    persist_failures execution_id source_name result.failures
    persist_successes uuid4 title_hash source_name result.successes
    publish_completed execution_id success none

  unfoldable pub execute_failed : Exc → Action Crawl (Unit {0})
  unfolding swallow publish_completed
  execute_failed cancelled = fail cancelled
  execute_failed unreachable =
      catch (publish_completed execution_id failed (some (detail unreachable))) swallow
  execute_failed rate_limit =
      catch (publish_completed execution_id failed (some (detail rate_limit))) swallow
  execute_failed sapi_error =
      catch (publish_completed execution_id failed (some (detail sapi_error))) swallow
  execute_failed other = catch (publish_completed execution_id failed (some (detail other))) swallow

  unfoldable pub execute : CrawlEnd → Action Crawl (Unit {0})
  unfolding try_execute execute_failed
  execute run = catch (try_execute run) execute_failed
