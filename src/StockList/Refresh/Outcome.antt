-- ===== src/StockList/Refresh/Outcome.antt =====
-- How a refresh of the HK Stock List ends (common/hk_stock_list.py).
use wealthfinder.Prelude.{
  Text, ◌≡◌, ◌≢◌, ◌≤◌, ◌⊎◌, refl, Option, none, some, List, [], ◌∷◌, length, inl, inr, arith,
}
use wealthfinder.Prelude.Result.{
  Exc, unreachable, rate_limit, sapi_error, cancelled, other, Result, ok, raise,
}
use wealthfinder.Models.{Stock}
use wealthfinder.StockList.Search.Names.{Normalizer}
use wealthfinder.StockList.Refresh.{
  HkStockListCache, new_cache, reload, install, try_refresh, or_empty, refresh_failed, loaded_count,
  refresh_hk_stock_list,
}

module _ (library : Normalizer) where
  -- what a failed refresh leaves: a loaded list as it was, and an empty one where there was none,
  -- unless the refresh was cancelled
  pub record Failed (x : Exc) (before after : Option HkStockListCache) : Type 0 where
    pub kept : (loaded : HkStockListCache) → before ≡ some loaded → after ≡ some loaded
    pub fallback : before ≡ none → x ≢ cancelled → after ≡ some (new_cache library [])
    pub left_unset : before ≡ none → x ≡ cancelled → after ≡ none

  or_empty-Failed :
      (x : Exc) (cache : Option HkStockListCache)
      → x ≢ cancelled
      → Failed x cache (or_empty library cache)
  unfolding or_empty
  or_empty-Failed x none other_end = record {
    kept = λ loaded h. absurd (cc h);
    fallback = λ _ _. refl;
    left_unset = λ _ h. absurd (other_end h);
  }
  or_empty-Failed x (some cache) other_end = record {
    kept = λ loaded h. h;
    fallback = λ h _. absurd (cc h);
    left_unset = λ h _. absurd (cc h);
  }

  refresh_failed-Failed :
      (x : Exc) (cache : Option HkStockListCache) → Failed x cache (refresh_failed library x cache)
  unfolding refresh_failed
  refresh_failed-Failed cancelled cache = record {
    kept = λ loaded h. h;
    fallback = λ h ended. absurd (ended refl);
    left_unset = λ h _. h;
  }
  refresh_failed-Failed unreachable cache = or_empty-Failed unreachable cache (λ e. cc)
  refresh_failed-Failed rate_limit cache = or_empty-Failed rate_limit cache (λ e. cc)
  refresh_failed-Failed sapi_error cache = or_empty-Failed sapi_error cache (λ e. cc)
  refresh_failed-Failed other cache = or_empty-Failed other cache (λ e. cc)

  -- A refresh either returns, or fails. It returns when at least one entry was fetched and its index
  -- of names could be built; then the cache has those entries and their index, and their number is
  -- returned. It fails with what the fetch or the building of the index raised, or with a ParseError
  -- when no entry was fetched; then a loaded list stays as it was, and where none was loaded an empty
  -- one is, unless the refresh was cancelled.
  pub refresh_hk_stock_list_outcome :
      (fetched : Result (List (Text × Stock))) (interrupted : Option Exc)
      (cache : Option HkStockListCache)
      → ((entries : List (Text × Stock)) × (fetched ≡ ok entries)
          × (1 ≤ length entries)
          × (interrupted ≡ none)
          × (refresh_hk_stock_list library fetched interrupted cache
              ≡ (ok (length entries), some (new_cache library entries))))
        ⊎ ((x : Exc) × ((refresh_hk_stock_list library fetched interrupted cache).0 ≡ raise x)
            × ((fetched ≡ raise x)
                ⊎ ((fetched ≡ ok []) × (x ≡ sapi_error))
                ⊎ (interrupted ≡ some x))
            × Failed x cache (refresh_hk_stock_list library fetched interrupted cache).1)
  unfolding refresh_hk_stock_list try_refresh install reload new_cache loaded_count
  refresh_hk_stock_list_outcome (raise x) interrupted cache =
      inr (x, refl, inl refl, refresh_failed-Failed x cache)
  refresh_hk_stock_list_outcome (ok []) interrupted cache =
      inr (sapi_error, refl, inr (inl (refl, refl)), refresh_failed-Failed sapi_error cache)
  refresh_hk_stock_list_outcome (ok (entry ∷ entries)) none none =
      inl (entry ∷ entries, refl, omega arith, refl, refl)
  refresh_hk_stock_list_outcome (ok (entry ∷ entries)) none (some cache) =
      inl (entry ∷ entries, refl, omega arith, refl, refl)
  refresh_hk_stock_list_outcome (ok (entry ∷ entries)) (some x) none =
      inr (x, refl, inr (inr refl), refresh_failed-Failed x none)
  refresh_hk_stock_list_outcome (ok (entry ∷ entries)) (some x) (some cache) =
      inr (x, refl, inr (inr refl), refresh_failed-Failed x (some cache))
