-- ===== src/Database.antt =====
-- db/connection.py of stock-assistant-pipeline-intelligence/app: the retry of writes and the
-- translation of errors. `write n` is how the n-th attempt of a write ends.
pub mod Retries
use wealthfinder.Prelude.{
  ℕ, zero, suc, ◌+◌, ◌-◌, ◌*◌, Bool, true, false, Option, none, some, List, [], ◌∷◌, leb,
  if◌then◌else◌,
}

-- The classes of exceptions that the clauses tell apart: _TRANSIENT_ERRORS, an InterfaceError,
-- a UniqueViolationError, another PostgresError, and anything else.
pub data DriverError : Type 0 where
  transient interface unique_violation postgres unrelated : DriverError

pub data WriteEnd (A : Type 0) : Type 0 where
  returned : A → WriteEnd A
  failed : DriverError → WriteEnd A

-- what the caller meets
pub data Translated (A : Type 0) : Type 0 where
  value : A → Translated A
  service_unavailable unique_constraint_error database_error untranslated : Translated A

-- what the call did: its end, and the milliseconds that it slept after each failed attempt
pub record Written (A : Type 0) : Type 0 where
  pub end : Translated A
  pub waits : List ℕ

-- retry_base_wait_ms * 2 ** (attempt - 1)
abbrev pub doubled : ℕ → ℕ → ℕ
doubled base zero = base
doubled base (suc n) = 2 * doubled base n

module _ {A : Type 0} where
  -- `_translated_errors`
  unfoldable pub translated_errors : WriteEnd A → Translated A
  translated_errors (returned a) = value a
  translated_errors (failed unique_violation) = unique_constraint_error
  translated_errors (failed transient) = service_unavailable
  translated_errors (failed interface) = service_unavailable
  translated_errors (failed postgres) = database_error
  translated_errors (failed unrelated) = untranslated

  abbrev pub is_transient : WriteEnd A → Bool
  is_transient (returned a) = false
  is_transient (failed transient) = true
  is_transient (failed _) = false

  abbrev after_wait : ℕ → Option (Written A) → Option (Written A)
  after_wait wait none = none
  after_wait wait (some w) = some (record w { waits = wait ∷ w.waits })

  module _ (max_retry retry_base_wait_ms : ℕ) (write : ℕ → WriteEnd A) where
    -- the `while True` loop, on fuel
    unfoldable pub attempt_from : ℕ → ℕ → Option (Written A)
    attempt_from zero attempt = none
    attempt_from (suc fuel) attempt =
        let again = attempt_from fuel (suc attempt) in
        if is_transient (write attempt)
        then (if leb max_retry attempt
            then some (record { end = translated_errors (write attempt); waits = [] })
            else after_wait (doubled retry_base_wait_ms (attempt - 1)) again)
        else some (record { end = translated_errors (write attempt); waits = [] })

    -- `_db_write_with_retry`; Retries shows that the fuel is enough
    unfoldable pub db_write_with_retry : Option (Written A)
    db_write_with_retry = attempt_from (suc max_retry) 1
