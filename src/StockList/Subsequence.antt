-- ===== src/StockList/Subsequence.antt =====
-- `_is_subsequence` and `_subsequence_span` of
-- stock-assistant-pipeline-intelligence/app/common/hk_stock_list.py.
pub mod Fewest
pub mod Span
use mathlib.Core.List.{reverse}
use wealthfinder.Prelude.{
  ℕ, zero, suc, ◌+◌, Text, Bool, true, false, Option, none, some, [], ◌∷◌, ◌==◌, nat_eq, length,
  take, if◌then◌else◌,
}
use wealthfinder.Prelude.Result.{Result, ok, raise, other, ◌>>=◌}

-- `ch in chars`, where `chars` is an iterator: what is left of it behind the first `ch`.
unfoldable pub seek : ℕ → Text → Option Text
seek ch [] = none
seek ch (c ∷ chars) = if c == ch then some chars else seek ch chars

-- `all(ch in chars for ch in short)` stops at the first character that is not found.
unfoldable pub is_subsequence : Text → Text → Bool
is_subsequence [] chars = true
is_subsequence (ch ∷ short) chars = elim (seek ch chars) [
  | none ↦ false
  | some rest ↦ is_subsequence short rest
]

-- The loop over `enumerate(long)`, where `short[i:]` stands for the index `i`: the end of the match.
-- `short[i]` raises an IndexError on an empty `short`.
unfoldable pub scan : Text → ℕ → Text → Result (Option ℕ)
scan short pos [] = ok none
scan [] pos (ch ∷ long) = raise other
scan (s ∷ []) pos (ch ∷ long) =
    if ch == s then ok (some (pos + 1)) else scan (s ∷ []) (pos + 1) long
scan (s ∷ s' ∷ short) pos (ch ∷ long) =
    scan (if ch == s then s' ∷ short else s ∷ s' ∷ short) (pos + 1) long

-- The backward loop, from `long[k]` and `short[j]` down: `short` is `short[j::-1]` and `long` is
-- `long[k::-1]`, so that its length is `k + 1`. It does not reach the start of `long` before that of
-- `short`, where Python would go on from the end.
unfoldable pub scan_back : Text → Text → Result ℕ
scan_back [] long = ok (length long)
scan_back (s ∷ short) [] = raise other
scan_back (s ∷ short) (ch ∷ long) = scan_back (if ch == s then short else s ∷ short) long

unfoldable pub subsequence_span : Text → Text → Result (Option (ℕ × ℕ))
subsequence_span short long = do
  found ← scan short 0 long
  elim found [
    | none ↦ ok none
    | some end ↦ do
      start ← scan_back (reverse short) (reverse (take end long))
      ok (some (start, end))
  ]
