-- ===== src/RedisStream/Publish.antt =====
-- What a `publish` (redis/stream_client.py) may change: only what its entry changes, however often
-- it is written.
use wealthfinder.Prelude.{List, [], ◌∷◌}
use wealthfinder.Prelude.Result.{unreachable}
use wealthfinder.Prelude.Action.{Outcome, answered, refused, lost}
use wealthfinder.Prelude.Action.Triple.{Ends, Triple, Keeps}
use wealthfinder.RedisStream.{attempts, publish}

module _ {S : Type 0} (append : S → S) (P : S → Type 0) (keeps : (s : S) → P s → P (append s)) where
  attempts_keep : (os : List Outcome) (s : S) → P s → Ends (λ _. P) (λ _. P) (attempts append os s)
  unfolding attempts
  attempts_keep [] s p = keeps s p
  attempts_keep (answered ∷ os) s p = keeps s p
  attempts_keep (refused unreachable ∷ os) s p = attempts_keep os s p
  attempts_keep (refused _ ∷ os) s p = p
  attempts_keep (lost unreachable ∷ os) s p = attempts_keep os (append s) (keeps s p)
  attempts_keep (lost _ ∷ os) s p = keeps s p

  pub publish-Keeps : Keeps P (publish append)
  unfolding publish
  publish-Keeps = record { run = λ e p. attempts_keep e.outcomes e.state p }

-- What holds before a `publish`, and after each time its entry is written: if it returns, the entry
-- was written last.
module _ {S : Type 0} (append : S → S) (P Q : S → Type 0) (keeps : (s : S) → P s → P (append s))
    (writes : (s : S) → P s → Q (append s)) where
  attempts_write : (os : List Outcome) (s : S) → P s → Ends (λ _. Q) (λ _. P) (attempts append os s)
  unfolding attempts
  attempts_write [] s p = writes s p
  attempts_write (answered ∷ os) s p = writes s p
  attempts_write (refused unreachable ∷ os) s p = attempts_write os s p
  attempts_write (refused _ ∷ os) s p = p
  attempts_write (lost unreachable ∷ os) s p = attempts_write os (append s) (keeps s p)
  attempts_write (lost _ ∷ os) s p = keeps s p

  pub publish-Triple : Triple P (publish append) (λ _. Q) (λ _. P)
  unfolding publish
  publish-Triple = record { run = λ e p. attempts_write e.outcomes e.state p }
