-- ===== src/StockList/Refresh.antt =====
-- The cache of the HK Stock List (common/hk_stock_list.py of stock-assistant-pipeline-intelligence/app)
-- and refresh_hk_stock_list. The worker thread that builds the index of names may raise, or the wait
-- for it may be cancelled: `interrupted` is the exception, if there is one. What another refresh does
-- meanwhile is left out.
pub mod Outcome
use wealthfinder.Prelude.{ℕ, Text, Option, none, some, List, [], ◌∷◌, length}
use wealthfinder.Prelude.Result.{
  Exc, unreachable, rate_limit, sapi_error, cancelled, other, Result, ok, raise,
}
use wealthfinder.Models.{Stock}
use wealthfinder.StockList.Search.Names.{Normalizer, StockNameIndex, build_name_index}

pub record HkStockListCache : Type 0 where
  pub entries : List (Text × Stock)
  pub name_index : StockNameIndex

module _ (library : Normalizer) where
  -- HKStockListCache(entries)
  unfoldable pub new_cache : List (Text × Stock) → HkStockListCache
  new_cache entries = record { entries = entries; name_index = build_name_index library entries }

  -- HKStockListCache.reload: both are rebound once the index is there
  unfoldable pub reload :
      List (Text × Stock) → Option Exc → HkStockListCache → Result (Unit {0}) × HkStockListCache
  reload entries (some x) cache = (raise x, cache)
  reload entries none cache =
      (ok tt, record cache { entries = entries; name_index = build_name_index library entries })

  -- the first list is registered, a later one replaces the entries
  unfoldable pub install :
      List (Text × Stock)
      → Option Exc
      → Option HkStockListCache
      → Result (Unit {0}) × Option HkStockListCache
  install entries none none = (ok tt, some (new_cache entries))
  install entries (some x) none = (raise x, none)
  install entries interrupted (some cache) =
      let (r, cache') = reload entries interrupted cache in (r, some cache')

  -- the body of the `try`, given how the fetch ended
  unfoldable pub try_refresh :
      Result (List (Text × Stock))
      → Option Exc
      → Option HkStockListCache
      → Result (Unit {0}) × Option HkStockListCache
  try_refresh (raise x) interrupted cache = (raise x, cache)
  try_refresh (ok []) interrupted cache = (raise sapi_error, cache)
  try_refresh (ok (entry ∷ entries)) interrupted cache = install (entry ∷ entries) interrupted cache

  unfoldable pub or_empty : Option HkStockListCache → Option HkStockListCache
  or_empty none = some (new_cache [])
  or_empty (some cache) = some cache

  -- `except Exception`, which does not catch a cancellation
  unfoldable pub refresh_failed : Exc → Option HkStockListCache → Option HkStockListCache
  refresh_failed cancelled cache = cache
  refresh_failed unreachable cache = or_empty cache
  refresh_failed rate_limit cache = or_empty cache
  refresh_failed sapi_error cache = or_empty cache
  refresh_failed other cache = or_empty cache

  unfoldable pub loaded_count : Result (List (Text × Stock)) → ℕ
  loaded_count (ok entries) = length entries
  loaded_count (raise x) = 0

  abbrev pub refresh_end :
      ℕ → Result (Unit {0}) × Option HkStockListCache → Result ℕ × Option HkStockListCache
  refresh_end n (ok _, cache) = (ok n, cache)
  refresh_end n (raise x, cache) = (raise x, refresh_failed x cache)

  -- `refresh_hk_stock_list`: its end, and the cache afterwards
  unfoldable pub refresh_hk_stock_list :
      Result (List (Text × Stock))
      → Option Exc
      → Option HkStockListCache
      → Result ℕ × Option HkStockListCache
  refresh_hk_stock_list fetched interrupted cache =
      refresh_end (loaded_count fetched) (try_refresh fetched interrupted cache)
