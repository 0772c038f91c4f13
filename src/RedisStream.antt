-- ===== src/RedisStream.antt =====
-- redis/stream_client.py of stock-assistant-pipeline-intelligence, over any state that holds the
-- streams.
pub mod Messages
pub mod Publish
use wealthfinder.Prelude.{List, [], ◌∷◌}
use wealthfinder.Prelude.Result.{Exc, unreachable, Result, ok, raise}
use wealthfinder.Prelude.Action.{Outcome, answered, refused, lost, Env, Action}

module _ {S : Type 0} (append : S → S) where
  -- The `while True` of `publish`, over the outcomes of its attempts: it tries again after a
  -- ConnectionError or TimeoutError, also where the entry was written and only the answer lost. The
  -- outcomes are finitely many, and the attempts behind them are answered.
  unfoldable pub attempts : List Outcome → S → Result (Unit {0}) × Env S
  attempts [] s = (ok tt, record { state = append s; outcomes = [] })
  attempts (answered ∷ os) s = (ok tt, record { state = append s; outcomes = os })
  attempts (refused unreachable ∷ os) s = attempts os s
  attempts (refused x ∷ os) s = (raise x, record { state = s; outcomes = os })
  attempts (lost unreachable ∷ os) s = attempts os (append s)
  attempts (lost x ∷ os) s = (raise x, record { state = append s; outcomes = os })

  unfoldable pub publish : Action S (Unit {0})
  unfolding attempts
  publish e = attempts e.outcomes e.state
