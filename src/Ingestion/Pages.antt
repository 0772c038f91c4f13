-- ===== src/Ingestion/Pages.antt =====
-- crawl/fetchers/page_crawler.py of stock-assistant-data-ingestion/app: the fetch of a page. `get n` is
-- how the n-th request ends, and `raises_for_status` tells the statuses for which httpx's
-- raise_for_status raises.
pub mod Fetched
use wealthfinder.Prelude.{
  ℕ, zero, suc, ◌-◌, Bool, ◌&&◌, List, [], ◌∷◌, ◌==◌, nat_eq, leb, ltb, if◌then◌else◌,
}
use wealthfinder.Database.{doubled}

-- a response's status, an httpx.RequestError, or any other exception
pub data Answer : Type 0 where
  responded : ℕ → Answer
  request_error unexpected_error : Answer

-- a response that is returned, CrawlRateLimitedException, CrawlBlockedException, or any other
pub data FetchEnd : Type 0 where
  response : ℕ → FetchEnd
  rate_limited blocked unexpected : FetchEnd

-- the end of an attempt: it ends the fetch, or is one that the loop's `except` counts as failed
pub data Attempt : Type 0 where
  ends : FetchEnd → Attempt
  fails : Attempt

-- the end of a fetch, and the milliseconds that it slept after its failed attempts
pub record Fetch : Type 0 where
  pub end : FetchEnd
  pub waits : List ℕ

module _ (max_retry retry_base_wait_ms : ℕ) where
  -- the sleep after a failed attempt, unless it was the last
  unfoldable pub after_failure : ℕ → Fetch → Fetch
  after_failure attempt later =
      if ltb attempt max_retry
      then record later { waits = doubled retry_base_wait_ms (attempt - 1) ∷ later.waits }
      else later

  abbrev pub go_on : ℕ → Attempt → Fetch → Fetch
  go_on attempt (ends e) later = record { end = e; waits = [] }
  go_on attempt fails later = after_failure attempt later

module _ (raises_for_status : ℕ → Bool) where
  -- the body of the `try`
  unfoldable pub attempt_end : Answer → Attempt
  attempt_end request_error = fails
  attempt_end unexpected_error = ends unexpected
  attempt_end (responded status_code) =
      if status_code == 429
      then ends rate_limited
      else if leb 400 status_code && ltb status_code 500
      then ends blocked
      else if raises_for_status status_code
      then fails
      else ends (response status_code)

  module _ (max_retry retry_base_wait_ms : ℕ) (get : ℕ → Answer) where
    -- the loop, with as many attempts left
    unfoldable pub fetch_from : ℕ → ℕ → Fetch
    unfolding attempt_end
    fetch_from zero attempt = record { end = blocked; waits = [] }
    fetch_from (suc left) attempt =
        let later = fetch_from left (suc attempt) in
        go_on max_retry retry_base_wait_ms attempt (attempt_end (get attempt)) later

    unfoldable pub fetch : Fetch
    unfolding fetch_from
    fetch = fetch_from max_retry 1
