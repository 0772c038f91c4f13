-- ===== src/Tests/Names.antt =====
-- Tests of the theorems on the stock names.
use wealthfinder.Prelude.{
  ℕ, ◌≡◌, ◌≤◌, ◌↔◌, ◌⊎◌, refl, Text, text_eq, list_beq, true, none, some, List, [], ◌∷◌, elem,
  length,
}
use wealthfinder.Prelude.Assoc.{lookup, insert}
use wealthfinder.Prelude.Result.{Exc, sapi_error, other, ok, raise}
use wealthfinder.Models.{Stock}
use wealthfinder.Models.EventType.{codes}
use wealthfinder.StockList.Subsequence.{is_subsequence, subsequence_span}
use wealthfinder.StockList.Subsequence.Fewest.{Subseq, is_subsequence_iff}
use wealthfinder.StockList.Subsequence.Span.{IsTightest, subsequence_span_outcome}
use wealthfinder.StockList.Entries.{Names, entry_of, is_extra_counter, parse_hk_stock_list}
use wealthfinder.StockList.Entries.Listed.{IsEntry, lookup-parse_hk_stock_list}
use wealthfinder.StockList.Search.Names.{Normalizer}
use wealthfinder.StockList.Refresh.{HkStockListCache, new_cache, refresh_hk_stock_list}
use wealthfinder.StockList.Refresh.Outcome.{Failed, refresh_hk_stock_list_outcome}
use wealthfinder.Aggregation.Store.{starts_with}
use wealthfinder.Tests.Data.{tencent}

is_subsequence_iff_example :
    (is_subsequence (codes "ac") (codes "abc") ≡ true) ↔ (Subseq (codes "ac") (codes "abc"))
is_subsequence_iff_example = is_subsequence_iff (codes "ac") (codes "abc")

subsequence_span_outcome_example :
    ((start end : ℕ) × (subsequence_span (codes "ac") (codes "abac") ≡ ok (some (start, end)))
      × IsTightest (codes "ac") (codes "abac") start end)
    ⊎ (¬ Subseq (codes "ac") (codes "abac"))
      × (subsequence_span (codes "ac") (codes "abac") ≡ ok none)
subsequence_span_outcome_example = subsequence_span_outcome b'a' (codes "c") (codes "abac")

abbrev english : Names
english = (codes "00700", codes "TENCENT") ∷ (codes "80700", codes "TENCENT-R") ∷ []

abbrev chinese : Names
chinese = (codes "00700", 39472 ∷ 35338 ∷ []) ∷ (codes "80700", 39472 ∷ 65330 ∷ []) ∷ []

abbrev equity_codes : List Text
equity_codes = codes "00005" ∷ codes "80700" ∷ codes "00700" ∷ []

abbrev listed : List (Text × Stock)
listed =
    (
      codes "00700",
      record {
        stock_code = codes "00700";
        exchange = codes "HKEX";
        company_name_zh = 39472 ∷ 35338 ∷ [];
        company_name_en = codes "TENCENT";
      },
    )
    ∷ []

parsed : parse_hk_stock_list english chinese equity_codes ≡ listed
unfolding parse_hk_stock_list entry_of is_extra_counter starts_with lookup insert list_beq
parsed = refl

lookup-parse_hk_stock_list_example :
    (lookup (codes "00700") (parse_hk_stock_list english chinese equity_codes) ≡ some tencent)
    ↔ ((elem (codes "00700") equity_codes ≡ true) × IsEntry english chinese (codes "00700") tencent)
lookup-parse_hk_stock_list_example =
    lookup-parse_hk_stock_list english chinese equity_codes (codes "00700") tencent

-- names as they are, without suffixes
abbrev library : Normalizer
library = record {
  normalize = λ text. text;
  split_words = λ text. text ∷ [];
  split = λ text. text ∷ [];
  strip_legal = λ text. text;
  strip_generic = λ text. text;
}

abbrev loaded : HkStockListCache
loaded = new_cache library listed

refresh_hk_stock_list_outcome_example :
    ((entries : List (Text × Stock)) × (ok listed ≡ ok entries)
      × (1 ≤ length entries)
      × (some other ≡ none)
      × (refresh_hk_stock_list library (ok listed) (some other) (some loaded)
          ≡ (ok (length entries), some (new_cache library entries))))
    ⊎ ((x : Exc) × ((refresh_hk_stock_list library (ok listed) (some other) (some loaded)).0
          ≡ raise x)
        × ((ok listed ≡ raise x) ⊎ ((ok listed ≡ ok []) × (x ≡ sapi_error)) ⊎ (some other ≡ some x))
        × Failed library x
            (some loaded)
            (refresh_hk_stock_list library (ok listed) (some other) (some loaded)).1)
refresh_hk_stock_list_outcome_example =
    refresh_hk_stock_list_outcome library (ok listed) (some other) (some loaded)
