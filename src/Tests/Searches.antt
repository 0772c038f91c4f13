-- ===== src/Tests/Searches.antt =====
-- Tests of the search for company names: a name without generic tail, and a tie.
use wealthfinder.Prelude.{◌≡◌, ◌⊎◌, ◌↔◌, true, Text, text_eq, some, List, [], ◌∷◌, Option}
use wealthfinder.Prelude.Int.{ℤ}
use wealthfinder.Models.EventType.{codes}
use wealthfinder.StockList.Search.{NameEntry, search, scoring_pool}
use wealthfinder.StockList.Search.Best.{IsBest}
use wealthfinder.StockList.Search.Scores.{score, tuples, tuples-IsTotal}
use wealthfinder.StockList.Search.Unique.{IsOnly, IsExact, search_iff}
use wealthfinder.Tests.Hundredths.{hundredths_floats, hundredths_IsLinear}

abbrev one_word : Text → List Text
one_word text = text ∷ []

abbrev score_words : Text → Text → Option (List ℤ)
score_words = score one_word

abbrev names : List NameEntry
names =
    record { stock_code = codes "700"; variants = codes "tencent" ∷ []; latin = true }
    ∷ record { stock_code = codes "5"; variants = codes "hsbc" ∷ []; latin = true }
    ∷ []

abbrev everything : List Text → List NameEntry
everything variants = names

search_iff_example : (search score_words everything names (codes "hsb" ∷ []) ≡ some (codes "5")) ↔ (
    IsOnly (IsExact names (codes "hsb" ∷ [])) (codes "5")
    ⊎ (((d : Text) → ¬ IsExact names (codes "hsb" ∷ []) d)
        × IsOnly
            (IsBest
              (tuples-IsTotal hundredths_IsLinear)
              score_words
              (codes "hsb" ∷ [])
              (scoring_pool everything names (codes "hsb" ∷ [])))
            (codes "5")))
search_iff_example =
    search_iff (tuples-IsTotal hundredths_IsLinear) score_words everything names (codes "hsb" ∷ [])
      (codes "5")
