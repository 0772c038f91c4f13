-- ===== src/Ingestion/Connection.antt =====
-- db/connection.py of stock-assistant-data-ingestion/app: the retry of writes and the translation of
-- asyncpg's exceptions. `op n` is how the n-th execution of a query ends, its connection included.
pub mod Ran
use wealthfinder.Prelude.{ℕ, zero, suc, ◌-◌, List, [], ◌∷◌, ◌==◌, nat_eq, if◌then◌else◌}
use wealthfinder.Database.{doubled}

-- The exceptions that the clauses tell apart: a UniqueViolationError; a DataError or a
-- NotNullViolationError; _TRANSIENT; a PostgresConnectionError or an InterfaceError; another
-- PostgresError; and anything else.
pub data AsyncpgError : Type 0 where
  unique_violation invalid_data transient connection_error postgres_error other : AsyncpgError

pub data OpEnd (A : Type 0) : Type 0 where
  executed : A → OpEnd A
  raised : AsyncpgError → OpEnd A

-- what the caller meets; `skipped` is None, with nothing executed
pub data RunEnd (A : Type 0) : Type 0 where
  result : A → RunEnd A
  unique_constraint_error database_error service_unavailable unrelated skipped : RunEnd A

-- the end of a write, and the milliseconds that it slept after its failed attempts
pub record Run (A : Type 0) : Type 0 where
  pub end : RunEnd A
  pub waits : List ℕ

module _ {A : Type 0} where
  unfoldable pub translated : OpEnd A → RunEnd A
  translated (executed a) = result a
  translated (raised unique_violation) = unique_constraint_error
  translated (raised invalid_data) = database_error
  translated (raised transient) = service_unavailable
  translated (raised connection_error) = service_unavailable
  translated (raised postgres_error) = database_error
  translated (raised other) = unrelated

  -- `_run_read`, which does not retry
  unfoldable pub run_read : OpEnd A → RunEnd A
  run_read (executed a) = result a
  run_read (raised transient) = service_unavailable
  run_read (raised connection_error) = service_unavailable
  run_read (raised unique_violation) = database_error
  run_read (raised invalid_data) = database_error
  run_read (raised postgres_error) = database_error
  run_read (raised other) = unrelated

  module _ (max_retry retry_base_wait_ms : ℕ) where
    unfoldable pub after_transient : ℕ → Run A → Run A
    after_transient attempt later =
        if attempt == max_retry
        then record { end = service_unavailable; waits = [] }
        else record later { waits = doubled retry_base_wait_ms (attempt - 1) ∷ later.waits }

    -- the body of the loop
    abbrev pub after_attempt : ℕ → OpEnd A → Run A → Run A
    after_attempt attempt (raised transient) later = after_transient attempt later
    after_attempt attempt e later = record { end = translated e; waits = [] }

    module _ (op : ℕ → OpEnd A) where
      -- the loop, with as many attempts left
      unfoldable pub run_from : ℕ → ℕ → Run A
      run_from zero attempt = record { end = skipped; waits = [] }
      run_from (suc left) attempt =
          let later = run_from left (suc attempt) in after_attempt attempt (op attempt) later

      unfoldable pub run_with_retry : Run A
      unfolding run_from
      run_with_retry = run_from max_retry 1
