-- ===== src/Ingestion/Backoffs.antt =====
-- The waits of the retry loops of stock-assistant-data-ingestion/app.
use wealthfinder.Prelude.{ℕ, zero, suc, ◌-◌, ◌≡◌, List, [], ◌∷◌, arith}
use wealthfinder.Database.{doubled}

-- base * 2 ^ i, base * 2 ^ (i + 1), ..., n of them
unfoldable pub backoffs : ℕ → ℕ → ℕ → List ℕ
backoffs base i zero = []
backoffs base i (suc n) = doubled base i ∷ backoffs base (suc i) n

pub pred : (n : ℕ) → suc n - 1 ≡ n
pred n = omega arith
