-- ===== src/Tests/Writes.antt =====
-- Tests of the writes of the data ingestion service: the first of three executions fails.
use wealthfinder.Prelude.{ℕ, zero, suc, ◌≡◌, ◌⊎◌, refl, [], ◌∷◌}
use wealthfinder.Ingestion.Connection.{
  OpEnd, executed, raised, transient, result, service_unavailable, skipped, translated,
  after_transient, run_with_retry,
}
use wealthfinder.Ingestion.Connection.Ran.{Ran, run_with_retry_outcome}

abbrev op : ℕ → OpEnd ℕ
op (suc zero) = raised transient
op n = executed n

abbrev tries : ℕ
tries = 3

executed_twice : run_with_retry 3 100 op ≡ record { end = result 2; waits = 100 ∷ [] }
unfolding run_with_retry after_transient translated
executed_twice = refl

executed_once : run_with_retry 1 100 op ≡ record { end = service_unavailable; waits = [] }
unfolding run_with_retry after_transient
executed_once = refl

run_with_retry_outcome_example :
    ((tries ≡ 0) × (run_with_retry tries 100 op ≡ record { end = skipped; waits = [] }))
    ⊎ Ran tries 100 op 0 tries (run_with_retry tries 100 op)
run_with_retry_outcome_example = run_with_retry_outcome tries 100 op
