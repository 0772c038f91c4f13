-- ===== src/StockList/Search/Scores.antt =====
-- `_latin_word_hits` and `_score` of common/hk_stock_list.py, and the order of Python's tuples of
-- numbers. `split` is str.split.
use wealthfinder.Prelude.{
  ℕ, suc, ◌+◌, ◌-◌, ◌≡◌, ◌↔◌, refl, Text, text_eq, Bool, true, false, not, ◌||◌, ◌&&◌, Option, none,
  some, List, [], ◌∷◌, ◌==◌, nat_eq, if◌then◌else◌, elem, ltb, leb, length, arith,
}
use wealthfinder.Prelude.Int.{pos, sub_ℕ}
use wealthfinder.Prelude.Floats.{Floats, of_int}
use wealthfinder.Prelude.Result.{Result, ok, raise}
use wealthfinder.Aggregation.Store.{starts_with}
use wealthfinder.StockList.Subsequence.{subsequence_span}
use wealthfinder.StockList.Search.{Ranked, isascii}
use wealthfinder.StockList.Search.Best.{IsTotal}

-- `o == w or (len(w) >= 3 and o.startswith(w))` for some o
unfoldable pub word_hits : Text → List Text → Bool
word_hits w [] = false
word_hits w (o ∷ others) = (o == w || (leb 3 (length w) && starts_with w o)) || word_hits w others

unfoldable pub latin_word_hits : List Text → List Text → ℕ
unfolding word_hits
latin_word_hits [] others = 0
latin_word_hits (w ∷ words) others =
    let rest = latin_word_hits words others in if word_hits w others then suc rest else rest

unfoldable pub letters : List Text → ℕ
letters [] = 0
letters (w ∷ words) = length w + letters words

-- `set(xs) <= set(ys)`
unfoldable pub within : Text → Text → Bool
within [] ys = true
within (x ∷ xs) ys = elem x ys && within xs ys

-- `_subsequence_span` of a text that is not empty, which does not raise
unfoldable pub span_of : Result (Option (ℕ × ℕ)) → Option (ℕ × ℕ)
span_of (ok span) = span
span_of (raise x) = none

module _ {F : Type 0} ⦃f : Floats F⦄ where
  abbrev count : ℕ → F
  count n = of_int (pos n)

  unfoldable pub latin_score : List Text → List Text → ℕ → Option (List F)
  unfolding latin_word_hits letters
  latin_score qw nw size =
      let name_hits = latin_word_hits nw qw in
      let query_hits = latin_word_hits qw nw in
      if name_hits == length nw && leb 3 (letters nw)
      then some (count 4 ∷ f.quotient name_hits (length qw) ∷ count (length nw) ∷ [])
      else if query_hits == length qw
      then some (count 3 ∷ f.quotient query_hits (length nw) ∷ of_int (sub_ℕ 0 size) ∷ [])
      else none

  -- a span of q in n
  unfoldable pub span_score : ℕ → ℕ → Option (ℕ × ℕ) → Option (List F)
  span_score q n none = none
  span_score q n (some (start, end)) = some (
      count 5
      ∷ f.quotient q (end - start)
      ∷ count (if start == 0 then 1 else 0)
      ∷ f.quotient q n
      ∷ of_int (sub_ℕ 0 n)
      ∷ [])

  -- a name inside the query
  unfoldable pub inner_score : ℕ → ℕ → Option (ℕ × ℕ) → Option (List F)
  inner_score q n none = none
  inner_score q n (some span) = some (count 4 ∷ f.quotient n q ∷ count n ∷ [])

  abbrev or_score : Option (List F) → Option (List F) → Option (List F)
  or_score none second = second
  or_score (some s) second = some s

  unfoldable pub cjk_score : Text → Text → Option (List F)
  unfolding within span_of span_score inner_score
  cjk_score q n =
      if ltb (length q) 2 || not (within q n || within n q)
      then none
      else or_score
          (if leb (length q) (length n)
            then span_score (length q) (length n) (span_of (subsequence_span q n))
            else none)
          (if leb 3 (length n) && ltb (length n) (length q)
            then inner_score (length q) (length n) (span_of (subsequence_span n q))
            else none)

  unfoldable pub score : (Text → List Text) → Text → Text → Option (List F)
  unfolding latin_score cjk_score
  score split q n =
      if isascii q
      then (if isascii n then latin_score (split q) (split n) (length n) else none)
      else if isascii n
      then none
      else cjk_score q n

  -- `<` and `==` of tuples
  unfoldable pub tuple_lt : List F → List F → Bool
  tuple_lt [] [] = false
  tuple_lt [] (y ∷ ys) = true
  tuple_lt (x ∷ xs) [] = false
  tuple_lt (x ∷ xs) (y ∷ ys) = f.lt x y || (f.eq x y && tuple_lt xs ys)

  unfoldable pub tuple_eq : List F → List F → Bool
  tuple_eq [] [] = true
  tuple_eq [] (y ∷ ys) = false
  tuple_eq (x ∷ xs) [] = false
  tuple_eq (x ∷ xs) (y ∷ ys) = f.eq x y && tuple_eq xs ys

  instance abbrev pub tuples : Ranked (List F)
  tuples = record { lt = tuple_lt; eq = tuple_eq }

-- The order of floats that are numbers; 0.0 and -0.0 are one value.
pub record IsLinear (F : Type 0) ⦃f : Floats F⦄ : Type 0 where
  pub lt_irrefl : (x : F) → f.lt x x ≡ false
  pub lt_trans : (x y z : F) → f.lt x y ≡ true → f.lt y z ≡ true → f.lt x z ≡ true
  pub lt_total : (x y : F) → f.lt x y ≡ false → f.lt y x ≡ false → x ≡ y
  pub eq_iff : (x y : F) → (f.eq x y ≡ true) ↔ (x ≡ y)

module _ {F : Type 0} ⦃f : Floats F⦄ (linear : IsLinear F) where
  open linear use {lt_irrefl, lt_trans, lt_total, eq_iff}

  tuple_lt_irrefl : (xs : List F) → tuple_lt xs xs ≡ false
  unfolding tuple_lt
  tuple_lt_irrefl [] = refl
  tuple_lt_irrefl (x ∷ xs) = ground (arith, lt_irrefl x, tuple_lt_irrefl xs)

  tuple_eq_iff : (xs ys : List F) → (tuple_eq xs ys ≡ true) ↔ (xs ≡ ys)
  unfolding tuple_eq
  tuple_eq_iff [] [] = (λ _. refl, λ _. refl)
  tuple_eq_iff [] (y ∷ ys) = (λ h. cc, λ h. cc)
  tuple_eq_iff (x ∷ xs) [] = (λ h. cc, λ h. cc)
  tuple_eq_iff (x ∷ xs) (y ∷ ys) = ground (arith, eq_iff x y, tuple_eq_iff xs ys)

  tuple_lt_trans :
      (xs ys zs : List F) → tuple_lt xs ys ≡ true → tuple_lt ys zs ≡ true → tuple_lt xs zs ≡ true
  unfolding tuple_lt
  tuple_lt_trans [] [] zs h k = cc
  tuple_lt_trans [] (y ∷ ys) [] h k = cc k
  tuple_lt_trans [] (y ∷ ys) (z ∷ zs) h k = refl
  tuple_lt_trans (x ∷ xs) [] zs h k = cc h
  tuple_lt_trans (x ∷ xs) (y ∷ ys) [] _ k = cc k
  tuple_lt_trans (x ∷ xs) (y ∷ ys) (z ∷ zs) h k =
      ground (arith, lt_trans x y z, eq_iff x y, eq_iff y z, eq_iff x z, tuple_lt_trans xs ys zs)

  tuple_lt_total : (xs ys : List F) → tuple_lt xs ys ≡ false → tuple_lt ys xs ≡ false → xs ≡ ys
  unfolding tuple_lt
  tuple_lt_total [] [] h k = refl
  tuple_lt_total [] (y ∷ ys) h k = cc h
  tuple_lt_total (x ∷ xs) [] h k = cc k
  tuple_lt_total (x ∷ xs) (y ∷ ys) h k =
      ground (arith, lt_total x y, eq_iff x y, eq_iff y x, tuple_lt_total xs ys)

  pub tuples-IsTotal : IsTotal (List F)
  tuples-IsTotal = record {
    lt_irrefl = tuple_lt_irrefl;
    lt_trans = tuple_lt_trans;
    lt_total = tuple_lt_total;
    eq_iff = tuple_eq_iff;
  }
