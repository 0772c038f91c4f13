-- ===== src/Ingestion/Connection/Ran.antt =====
-- How a write of the data ingestion service ends (db/connection.py).
use wealthfinder.Prelude.{
  ℕ, zero, suc, ◌+◌, ◌<◌, ◌≡◌, ◌⊎◌, refl, ap, Bool, true, false, [], inl, inr, arith, ◌==◌, nat_eq,
}
use wealthfinder.Ingestion.Backoffs.{backoffs, pred}
use wealthfinder.Ingestion.Connection.{
  unique_violation, invalid_data, transient, connection_error, postgres_error, other, OpEnd,
  executed, raised, skipped, Run, translated, after_transient, after_attempt, run_from,
  run_with_retry,
}

abbrev pub meets_transient : {A : Type 0} → OpEnd A → Bool
meets_transient (raised transient) = true
meets_transient e = false

module _ {A : Type 0} (max_retry base : ℕ) (op : ℕ → OpEnd A) where
  -- After i attempts, n more met a transient error; the next one was the last.
  pub record Ran (i left : ℕ) (run : Run A) : Type 0 where
    pub failures : ℕ
    pub in_time : failures < left
    pub failed : (k : ℕ) → k < failures → op (suc (i + k)) ≡ raised transient
    pub last : (meets_transient (op (suc (i + failures))) ≡ false) ⊎ (suc failures ≡ left)
    pub is_run :
        run
        ≡ record { end = translated (op (suc (i + failures))); waits = backoffs base i failures }

  failed_first :
      (i failures : ℕ)
      → op (suc i) ≡ raised transient
      → ((k : ℕ) → k < failures → op (suc (suc i + k)) ≡ raised transient)
      → (k : ℕ) → k < suc failures
      → op (suc (i + k)) ≡ raised transient
  failed_first i failures first later zero below =
      let same : i + 0 ≡ i = omega arith in rw same first
  failed_first i failures first later (suc k) below =
      let same : i + suc k ≡ suc i + k = omega arith in rw same (later k (omega (arith, below)))

  after_transient-Ran :
      (i left : ℕ) (run : Run A)
      → i + suc left ≡ max_retry
      → op (suc i) ≡ raised transient
      → Ran (suc i) left run
      → Ran i (suc left) (after_transient max_retry base (suc i) run)
  unfolding after_transient backoffs
  after_transient-Ran i left run total first s =
      let same : i + suc s.failures ≡ suc i + s.failures = omega arith in
      let below : (suc i == max_retry) ≡ false = ground (arith, s.in_time, total) in
      record {
        failures = suc s.failures;
        in_time = omega (arith, s.in_time);
        failed = failed_first i s.failures first s.failed;
        last = rw same (elim s.last [ inl final ↦ inl final | inr spent ↦ inr (ap suc spent) ]);
        is_run = rw (below, same) (rw (s.is_run, pred i) refl);
      }

  translated-Ran :
      (i left : ℕ)
      → meets_transient (op (suc i)) ≡ false
      → Ran i (suc left) (record { end = translated (op (suc i)); waits = [] })
  unfolding backoffs
  translated-Ran i left final =
      let same : i + 0 ≡ i = omega arith in
      record {
        failures = 0;
        in_time = omega arith;
        failed = λ k below. absurd (omega (arith, below));
        last = rw same (inl final);
        is_run = rw same refl;
      }

  after_transient-Ran_spent :
      (i : ℕ) (later : Run A)
      → suc i ≡ max_retry
      → op (suc i) ≡ raised transient
      → Ran i 1 (after_transient max_retry base (suc i) later)
  unfolding after_transient translated backoffs
  after_transient-Ran_spent i later spent first =
      let same : i + 0 ≡ i = omega arith in
      let now : (suc i == max_retry) ≡ true = ground (arith, spent) in
      record {
        failures = 0;
        in_time = omega arith;
        failed = λ k below. absurd (omega (arith, below));
        last = inr refl;
        is_run = rw (now, same, first) refl;
      }

  -- a first attempt that meets a transient error, or is the last
  transient_or_final :
      (e : OpEnd A)
      → (e ≡ raised transient)
        ⊎ ((meets_transient e ≡ false)
            × ((attempt : ℕ) (later : Run A)
                → after_attempt max_retry base attempt e later
                  ≡ record { end = translated e; waits = [] }))
  transient_or_final (raised transient) = inl refl
  transient_or_final (executed a) = inr (refl, λ attempt later. refl)
  transient_or_final (raised unique_violation) = inr (refl, λ attempt later. refl)
  transient_or_final (raised invalid_data) = inr (refl, λ attempt later. refl)
  transient_or_final (raised connection_error) = inr (refl, λ attempt later. refl)
  transient_or_final (raised postgres_error) = inr (refl, λ attempt later. refl)
  transient_or_final (raised other) = inr (refl, λ attempt later. refl)

  run_from-suc :
      (left attempt : ℕ)
      → run_from max_retry base op (suc left) attempt
        ≡ after_attempt max_retry base attempt
            (op attempt)
            (run_from max_retry base op left (suc attempt))
  unfolding run_from
  run_from-suc left attempt = refl

  run_from-Ran :
      (left i : ℕ)
      → i + suc left ≡ max_retry
      → Ran i (suc left) (run_from max_retry base op (suc left) (suc i))
  run_from-Ran zero i total = rw (run_from-suc 0 (suc i)) (elim (transient_or_final (op (suc i))) [
    | inr (final, ends) ↦ rw (ends (suc i) _) (translated-Ran i 0 final)
    | inl first ↦ rw first (after_transient-Ran_spent i _ (omega (arith, total)) first)
  ])
  run_from-Ran (suc left) i total =
      rw (run_from-suc (suc left) (suc i)) (elim (transient_or_final (op (suc i))) [
        | inr (final, ends) ↦ rw (ends (suc i) _) (translated-Ran i (suc left) final)
        | inl first ↦ rw first (
            after_transient-Ran i (suc left) _ total first
              (run_from-Ran left (suc i) (omega (arith, total))))
      ])

  -- A write ends. If max_retry is 0, nothing is executed and the caller gets None. Otherwise the
  -- query is executed until an execution does not meet a transient error, and at most max_retry
  -- times; the caller gets the result or the translated exception of the last execution, and the call
  -- slept base, 2 * base, 4 * base, ... milliseconds, once between every two executions.
  pub run_with_retry_outcome :
      ((max_retry ≡ 0) × (run_with_retry max_retry base op ≡ record { end = skipped; waits = [] }))
      ⊎ Ran 0 max_retry (run_with_retry max_retry base op)
  unfolding run_with_retry
  run_with_retry_outcome = outcome max_retry refl
    where
      outcome :
          (n : ℕ)
          → n ≡ max_retry
          → ((n ≡ 0) × (run_from max_retry base op n 1 ≡ record { end = skipped; waits = [] }))
            ⊎ Ran 0 n (run_from max_retry base op n 1)
      outcome zero same = inl (refl, refl)
      outcome (suc n) same = inr (run_from-Ran n 0 (omega (arith, same)))
