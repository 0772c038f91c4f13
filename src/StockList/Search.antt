-- ===== src/StockList/Search.antt =====
-- The search for a company name in stock-assistant-pipeline-intelligence/app/common/hk_stock_list.py:
-- `_scoring_pool`, `_best_scoring_codes` and `_search`, over a function that scores two variants and
-- an order of the scores. A set of codes is a list without duplicates.
pub mod Names
pub mod Scores
pub mod Best
pub mod Unique
use wealthfinder.Prelude.{
  ℕ, Text, text_eq, Bool, true, false, not, ◌||◌, ◌&&◌, Option, none, some, List, [], ◌∷◌, ◌++◌,
  ◌==◌, nat_eq, if◌then◌else◌, elem, ltb,
}

pub record NameEntry : Type 0 where
  pub stock_code : Text
  pub variants : List Text
  pub latin : Bool

-- `a > b` and `a == b` of two scores
pub record Ranked (S : Type 0) : Type 0 where
  pub lt : S → S → Bool
  pub eq : S → S → Bool

-- `str.isascii`
unfoldable pub isascii : Text → Bool
isascii [] = true
isascii (ch ∷ text) = ltb ch 128 && isascii text

-- `set.add`
unfoldable pub add_code : Text → List Text → List Text
add_code code codes = if elem code codes then codes else code ∷ codes

-- `set(xs) & set(ys)`, as a test
unfoldable pub share : List Text → List Text → Bool
share [] ys = false
share (x ∷ xs) ys = elem x ys || share xs ys

-- the exact matches of `_search`
unfoldable pub exact_codes : List Text → List NameEntry → List Text
unfolding share add_code
exact_codes variants [] = []
exact_codes variants (entry ∷ names) =
    let rest = exact_codes variants names in
    if share entry.variants variants then add_code entry.stock_code rest else rest

-- `next(iter(codes)) if len(codes) == 1 else None`
unfoldable pub only_code : List Text → Option Text
only_code [] = none
only_code (code ∷ []) = some code
only_code (code ∷ other ∷ codes) = none

-- `[e for e in index.names if not e.latin]`
unfoldable pub chinese_names : List NameEntry → List NameEntry
chinese_names [] = []
chinese_names (entry ∷ names) =
    let rest = chinese_names names in if entry.latin then rest else entry ∷ rest

-- `_scoring_pool`; `latin_pool` is what the index by first letters has for a query
unfoldable pub scoring_pool :
    (List Text → List NameEntry) → List NameEntry → List Text → List NameEntry
unfolding isascii chinese_names
scoring_pool latin_pool names [] = []
scoring_pool latin_pool names (v ∷ variants) =
    if isascii v then latin_pool (v ∷ variants) else chinese_names names

module _ {S : Type 0} ⦃order : Ranked S⦄ (score : Text → Text → Option S) where
  abbrev pub with_score : Option S → List S → List S
  with_score none scores = scores
  with_score (some s) scores = s ∷ scores

  -- the scores of a query's variant against a name's variants, and of all its variants
  unfoldable pub variant_scores : Text → List Text → List S
  variant_scores q [] = []
  variant_scores q (n ∷ ns) = with_score (score q n) (variant_scores q ns)

  unfoldable pub all_scores : List Text → List Text → List S
  unfolding variant_scores
  all_scores [] ns = []
  all_scores (q ∷ qs) ns = variant_scores q ns ++ all_scores qs ns

  -- `max(scores)`
  unfoldable pub max_score : S → List S → S
  max_score best [] = best
  max_score best (s ∷ scores) = max_score (if order.lt best s then s else best) scores

  unfoldable pub max_of : List S → Option S
  unfolding max_score
  max_of [] = none
  max_of (s ∷ scores) = some (max_score s scores)

  unfoldable pub entry_score : List Text → NameEntry → Option S
  unfolding all_scores max_of
  entry_score variants entry = max_of (all_scores variants entry.variants)

  -- `best_score` and `best_codes` after an entry
  unfoldable pub counted : NameEntry → Option S → Option S → List Text → Option S × List Text
  unfolding add_code
  counted entry none best codes = (best, codes)
  counted entry (some s) none codes = (some s, entry.stock_code ∷ [])
  counted entry (some s) (some best) codes =
      if order.lt best s
      then (some s, entry.stock_code ∷ [])
      else if order.eq s best
      then (some best, add_code entry.stock_code codes)
      else (some best, codes)

  unfoldable pub best_from : List Text → List NameEntry → Option S → List Text → List Text
  unfolding entry_score counted
  best_from variants [] best codes = codes
  best_from variants (entry ∷ pool) best codes =
      let (best', codes') = counted entry (entry_score variants entry) best codes in
      best_from variants pool best' codes'

  unfoldable pub best_scoring_codes : List NameEntry → List Text → List Text
  unfolding best_from
  best_scoring_codes pool variants = best_from variants pool none []

  -- `_search`, from the variants of the name
  unfoldable pub chosen_codes :
      List Text → (List Text → List NameEntry) → List NameEntry → List Text → List Text
  unfolding best_scoring_codes scoring_pool
  chosen_codes [] latin_pool names variants =
      best_scoring_codes (scoring_pool latin_pool names variants) variants
  chosen_codes (code ∷ exact) latin_pool names variants = code ∷ exact

  unfoldable pub search : (List Text → List NameEntry) → List NameEntry → List Text → Option Text
  unfolding chosen_codes exact_codes only_code
  search latin_pool names variants =
      only_code (chosen_codes (exact_codes variants names) latin_pool names variants)
