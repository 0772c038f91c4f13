-- ===== src/Ingestion/Crawling/Frame.antt =====
-- What an execution keeps, however its requests end, and how it ends (crawl/crawl_service.py).
use wealthfinder.Prelude.{
  ℕ, suc, ◌≡◌, refl, Text, text_eq, Option, none, some, List, [], ◌∷◌, nat_eq,
}
use wealthfinder.Prelude.Result.{Exc, unreachable, rate_limit, sapi_error, cancelled, other}
use wealthfinder.Prelude.Action.{catch}
use wealthfinder.Prelude.Action.Triple.{
  Triple, Triple-return, Triple-request, Triple-catch, Triple-bind, Triple-weaken,
}
use wealthfinder.Ingestion.Crawling.{
  CrawlSuccessItem, CrawlFailItem, CrawlEnd, finished, fatal, crashed, RawRow, ErrorRow, Status,
  failed, success, Completed, Crawl, Insertion, inserted, absorbed, violated, insertion,
  after_insertion, swallow, insert_failed, insert_raw_news, signal_inserted, persist_hashed,
  persist_item, persist_successes, save_crawl_error, persist_failures, publish_completed,
  try_execute, execute_failed, execute,
}

abbrev drawn : Crawl → Crawl
drawn w = record w { draws = suc w.draws }

abbrev with_row : RawRow → Crawl → Crawl
with_row row w = record w { raw_news = after_insertion (insertion row w.raw_news) row w.raw_news }

abbrev signalled : ℕ → Crawl → Crawl
signalled i w = record w { inserted_signals = i ∷ w.inserted_signals }

-- A condition that every request of an execution keeps: `Drawn` is what is known of a new raw_id, and
-- `Ready` of the id of a row that was inserted.
pub record Frame (uuid4 : ℕ → ℕ) (P : Crawl → Type 0) (Drawn Ready : ℕ → Crawl → Type 0)
    : Type 0 where
  pub at_draw : (w : Crawl) → P w → P (drawn w) × Drawn (uuid4 w.draws) (drawn w)
  pub at_insert :
      (row : RawRow) (w : Crawl)
      → P w
      → Drawn row.raw_id w
      → P (with_row row w)
        × (insertion row w.raw_news ≡ inserted → Ready row.raw_id (with_row row w))
  pub at_signal : (i : ℕ) (w : Crawl) → P w → Ready i w → P (signalled i w)
  pub at_error : (rows : List ErrorRow) (w : Crawl) → P w → P (record w { crawl_error_log = rows })
  pub at_completed :
      (entries : List Completed) (w : Crawl) → P w → P (record w { completed = entries })

module _ (uuid4 : ℕ → ℕ) (title_hash : Text → Option Text) (P : Crawl → Type 0)
    (Drawn Ready : ℕ → Crawl → Type 0) (frame : Frame uuid4 P Drawn Ready) where
  open frame use {at_draw, at_insert, at_signal, at_error, at_completed}

  -- nothing but a cancellation is raised
  abbrev pub OnlyCancelled : Exc → Crawl → Type 0
  OnlyCancelled x w = (x ≡ cancelled) × P w

  swallow-Triple : (x : Exc) → Triple P (swallow x) (λ _. P) OnlyCancelled
  unfolding swallow
  swallow-Triple cancelled = record { run = λ e p. (refl, p) }
  swallow-Triple unreachable = record { run = λ e p. p }
  swallow-Triple rate_limit = record { run = λ e p. p }
  swallow-Triple sapi_error = record { run = λ e p. p }
  swallow-Triple other = record { run = λ e p. p }

  -- the INSERT's end, and what is known of the row's id
  abbrev After : ℕ → Insertion → Crawl → Type 0
  After raw_id ending w = P w × (ending ≡ inserted → Ready raw_id w)

  insert_failed-Triple :
      (raw_id : ℕ) (x : Exc) → Triple P (insert_failed x) (After raw_id) OnlyCancelled
  unfolding insert_failed
  insert_failed-Triple raw_id cancelled = record { run = λ e p. (refl, p) }
  insert_failed-Triple raw_id unreachable = record { run = λ e p. (p, λ h. cc) }
  insert_failed-Triple raw_id rate_limit = record { run = λ e p. (p, λ h. cc) }
  insert_failed-Triple raw_id sapi_error = record { run = λ e p. (p, λ h. cc) }
  insert_failed-Triple raw_id other = record { run = λ e p. (p, λ h. cc) }

  signal_inserted-Triple :
      (raw_id : ℕ) (ending : Insertion)
      → Triple (After raw_id ending) (signal_inserted raw_id ending) (λ _. P) OnlyCancelled
  unfolding signal_inserted
  signal_inserted-Triple raw_id absorbed = Triple-return tt (λ w p. p.0)
  signal_inserted-Triple raw_id violated = Triple-return tt (λ w p. p.0)
  signal_inserted-Triple raw_id inserted =
      Triple-catch (λ _. P) _ _
        (Triple-request (λ w. tt) (signalled raw_id) (λ w p. at_signal raw_id w p.0 (p.1 refl))
          (λ x w p. (p.0, at_signal raw_id w p.0 (p.1 refl))))
        swallow-Triple

  persist_hashed-Triple :
      (source_name : Text) (item : CrawlSuccessItem) (raw_id : ℕ) (raw_hash : Option Text)
      → Triple
          (λ w. P w × Drawn raw_id w)
          (persist_hashed uuid4 title_hash source_name item raw_id raw_hash)
          (λ _. P)
          OnlyCancelled
  unfolding persist_hashed insert_raw_news
  persist_hashed-Triple source_name item raw_id none = Triple-return tt (λ w p. p.0)
  persist_hashed-Triple source_name item raw_id (some raw_hash) =
      Triple-bind (After raw_id) _ _
        (Triple-catch (λ _. P) _ _
          (Triple-request _ _ (λ w p. at_insert _ w p.0 p.1)
            (λ x w p. (p.0, (at_insert _ w p.0 p.1).0)))
          (insert_failed-Triple raw_id))
        (signal_inserted-Triple raw_id)

  persist_item-Triple :
      (source_name : Text) (item : CrawlSuccessItem)
      → Triple P (persist_item uuid4 title_hash source_name item) (λ _. P) OnlyCancelled
  unfolding persist_item
  persist_item-Triple source_name item = record {
    run = λ e p.
        (persist_hashed-Triple source_name item (uuid4 e.state.draws) (title_hash item.title)).run
          (record e { state = drawn e.state }) (at_draw e.state p);
  }

  persist_successes-Triple :
      (source_name : Text) (items : List CrawlSuccessItem)
      → Triple P (persist_successes uuid4 title_hash source_name items) (λ _. P) OnlyCancelled
  unfolding persist_successes
  persist_successes-Triple source_name [] = Triple-return tt (λ w p. p)
  persist_successes-Triple source_name (item ∷ items) =
      Triple-bind (λ _. P) _ _ (persist_item-Triple source_name item)
        λ _. persist_successes-Triple source_name items

  persist_failures-Triple :
      (execution_id source_name : Text) (failures : List CrawlFailItem)
      → Triple P (persist_failures execution_id source_name failures) (λ _. P) OnlyCancelled
  unfolding persist_failures save_crawl_error
  persist_failures-Triple execution_id source_name [] = Triple-return tt (λ w p. p)
  persist_failures-Triple execution_id source_name (failure ∷ failures) =
      Triple-bind (λ _. P) _ _
        (Triple-catch (λ _. P) _ _
          (Triple-request _ _ (λ w p. at_error _ w p) (λ x w p. (p, at_error _ w p)))
          swallow-Triple)
        λ _. persist_failures-Triple execution_id source_name failures

  publish_completed-Triple :
      (execution_id : Text) (status : Status) (text : Option Text)
      → Triple P (publish_completed execution_id status text) (λ _. P) (λ _. P)
  unfolding publish_completed
  publish_completed-Triple execution_id status text =
      Triple-request _ _ (λ w p. at_completed _ w p) (λ x w p. (p, at_completed _ w p))

  module _ (detail : Exc → Text) (execution_id source_name : Text) where
    try_execute-Triple :
        (run : CrawlEnd)
        → Triple P
            (try_execute uuid4 title_hash detail execution_id source_name run)
            (λ _. P)
            (λ _. P)
    unfolding try_execute
    try_execute-Triple (fatal text) = publish_completed-Triple execution_id failed (some text)
    try_execute-Triple (crashed x) = record { run = λ e p. p }
    try_execute-Triple (finished result) =
        Triple-bind (λ _. P) _ _
          (Triple-weaken (persist_failures execution_id source_name result.failures) (λ w p. p)
            (λ _ w p. p) (λ x w p. p.1)
            (persist_failures-Triple execution_id source_name result.failures))
          λ _.
            Triple-bind (λ _. P) _ _
              (Triple-weaken (persist_successes uuid4 title_hash source_name result.successes)
                (λ w p. p) (λ _ w p. p) (λ x w p. p.1)
                (persist_successes-Triple source_name result.successes))
              λ _. publish_completed-Triple execution_id success none

    report-Triple :
        (x : Exc)
        → Triple P
            (catch (publish_completed execution_id failed (some (detail x))) swallow)
            (λ _. P)
            OnlyCancelled
    report-Triple x =
        Triple-catch (λ _. P) _ _ (publish_completed-Triple execution_id failed (some (detail x)))
          swallow-Triple

    execute_failed-Triple :
        (x : Exc)
        → Triple P
            (execute_failed uuid4 title_hash detail execution_id source_name x)
            (λ _. P)
            OnlyCancelled
    unfolding execute_failed
    execute_failed-Triple cancelled = record { run = λ e p. (refl, p) }
    execute_failed-Triple unreachable = report-Triple unreachable
    execute_failed-Triple rate_limit = report-Triple rate_limit
    execute_failed-Triple sapi_error = report-Triple sapi_error
    execute_failed-Triple other = report-Triple other

    pub execute-Triple :
        (run : CrawlEnd)
        → Triple P
            (execute uuid4 title_hash detail execution_id source_name run)
            (λ _. P)
            OnlyCancelled
    unfolding execute
    execute-Triple run = Triple-catch (λ _. P) _ _ (try_execute-Triple run) execute_failed-Triple
