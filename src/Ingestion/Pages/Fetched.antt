-- ===== src/Ingestion/Pages/Fetched.antt =====
-- How the fetch of a page ends (crawl/fetchers/page_crawler.py).
use wealthfinder.Prelude.{
  ℕ, zero, suc, ◌+◌, ◌-◌, ◌<◌, ◌≡◌, ◌⊎◌, refl, Bool, true, false, inl, inr, arith, ltb,
}
use wealthfinder.Ingestion.Backoffs.{backoffs, pred}
use wealthfinder.Ingestion.Pages.{
  Answer, FetchEnd, blocked, Attempt, ends, fails, Fetch, attempt_end, after_failure, fetch_from,
  fetch,
}

module _ (raises_for_status : ℕ → Bool) (max_retry base : ℕ) (get : ℕ → Answer) where
  -- After i attempts, n more failed; the next one ended the fetch.
  pub record Settles (i left : ℕ) (run : Fetch) : Type 0 where
    pub failures : ℕ
    pub in_time : failures < left
    pub failed : (k : ℕ) → k < failures → attempt_end raises_for_status (get (suc (i + k))) ≡ fails
    pub end : FetchEnd
    pub ended : attempt_end raises_for_status (get (suc (i + failures))) ≡ ends end
    pub is_run : run ≡ record { end = end; waits = backoffs base i failures }

  -- After i attempts, all that were left failed.
  pub record Exhausts (i left : ℕ) (run : Fetch) : Type 0 where
    pub failed : (k : ℕ) → k < left → attempt_end raises_for_status (get (suc (i + k))) ≡ fails
    pub is_run : run ≡ record { end = blocked; waits = backoffs base i (left - 1) }

  -- the first attempt, and then the later ones
  failed_first :
      (i failures : ℕ)
      → attempt_end raises_for_status (get (suc i)) ≡ fails
      → ((k : ℕ) → k < failures → attempt_end raises_for_status (get (suc (suc i + k))) ≡ fails)
      → (k : ℕ) → k < suc failures
      → attempt_end raises_for_status (get (suc (i + k))) ≡ fails
  failed_first i failures first later zero below =
      let same : i + 0 ≡ i = omega arith in rw same first
  failed_first i failures first later (suc k) below =
      let same : i + suc k ≡ suc i + k = omega arith in rw same (later k (omega (arith, below)))

  after_failure-Settles :
      (i left : ℕ) (run : Fetch)
      → i + suc left ≡ max_retry
      → attempt_end raises_for_status (get (suc i)) ≡ fails
      → Settles (suc i) left run
      → Settles i (suc left) (after_failure max_retry base (suc i) run)
  unfolding after_failure backoffs
  after_failure-Settles i left run total first s = record {
    failures = suc s.failures;
    in_time = omega (arith, s.in_time);
    failed = failed_first i s.failures first s.failed;
    end = s.end;
    ended = let same : i + suc s.failures ≡ suc i + s.failures = omega arith in rw same s.ended;
    is_run =
        let same : ltb (suc i) max_retry ≡ true = ground (arith, s.in_time, total) in
        rw same (rw (s.is_run, pred i) refl);
  }

  after_failure-Exhausts :
      (i left : ℕ) (run : Fetch)
      → i + suc left ≡ max_retry
      → attempt_end raises_for_status (get (suc i)) ≡ fails
      → Exhausts (suc i) left run
      → Exhausts i (suc left) (after_failure max_retry base (suc i) run)
  unfolding after_failure backoffs
  after_failure-Exhausts i zero run total first s = record {
    failed = failed_first i 0 first s.failed;
    is_run = let same : ltb (suc i) max_retry ≡ false = ground (arith, total) in rw same s.is_run;
  }
  after_failure-Exhausts i (suc left) run total first s = record {
    failed = failed_first i (suc left) first s.failed;
    is_run =
        let same : ltb (suc i) max_retry ≡ true = ground (arith, total) in
        rw same (rw (s.is_run, pred i, pred left, pred (suc left)) refl);
  }

  fetch_from_lem :
      (left i : ℕ)
      → i + left ≡ max_retry
      → Settles i left (fetch_from raises_for_status max_retry base get left (suc i))
        ⊎ Exhausts i left (fetch_from raises_for_status max_retry base get left (suc i))
  unfolding fetch_from backoffs
  fetch_from_lem zero i total =
      inr (record { failed = λ k below. absurd (omega (arith, below)); is_run = refl })
  fetch_from_lem (suc left) i total =
      elim (end_or_failure (attempt_end raises_for_status (get (suc i)))) [
        | inl (e, ended) ↦ inl (record {
          failures = 0;
          in_time = omega arith;
          failed = λ k below. absurd (omega (arith, below));
          end = e;
          ended = let same : i + 0 ≡ i = omega arith in rw same ended;
          is_run = rw ended refl;
        })
        | inr first ↦ rw first (elim (fetch_from_lem left (suc i) (omega (arith, total))) [
          | inl s ↦ inl (after_failure-Settles i left _ total first s)
          | inr s ↦ inr (after_failure-Exhausts i left _ total first s)
        ])
      ]
    where
      end_or_failure : (a : Attempt) → ((e : FetchEnd) × (a ≡ ends e)) ⊎ (a ≡ fails)
      end_or_failure (ends e) = inl (e, refl)
      end_or_failure fails = inr refl

  -- The fetch of a page always ends. It ends with the first attempt that is not a failure
  -- (a RequestError, or a status that raise_for_status refuses and that is no 4xx), if there is one
  -- among the first max_retry, and otherwise with CrawlBlockedException after max_retry failures. It
  -- slept base, 2 * base, 4 * base, ... milliseconds, once between every two attempts.
  pub fetch_outcome :
      Settles 0 max_retry (fetch raises_for_status max_retry base get)
      ⊎ Exhausts 0 max_retry (fetch raises_for_status max_retry base get)
  unfolding fetch
  fetch_outcome = fetch_from_lem max_retry 0 (omega arith)
