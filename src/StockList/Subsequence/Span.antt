-- ===== src/StockList/Subsequence/Span.antt =====
-- `_subsequence_span` of hk_stock_list.py finds the tightest span.
use mathlib.Core.List.{reverse, reverse-append, reverse-reverse}
use mathlib.Core.Option.{some-injective}
use native.Mathlib.Nat.{zero-add}
use wealthfinder.Prelude.{
  ℕ, ◌+◌, ◌-◌, ◌≤◌, ◌≡◌, ◌∙◌, ◌⊎◌, refl, ap, sym, subst, subst₂, Text, Option, none, some, [], ◌∷◌,
  ◌++◌, ◌==◌, nat_eq, length, length-append, length-reverse, length-take, take, drop,
  take-append-drop, take-append_length, arith, Bool-cases, Option-cases, inl, inr,
}
use wealthfinder.Prelude.Result.{ok}
use wealthfinder.StockList.Subsequence.{scan, scan_back, subsequence_span}
use wealthfinder.StockList.Subsequence.Fewest.{
  Subseq, fewest, one_more, one_more-some, fewest_sound, fewest_least, fewest_complete,
  Subseq-reverse,
}

abbrev shift : ℕ → Option ℕ → Option ℕ
shift pos none = none
shift pos (some n) = some (pos + n)

shift-one_more : (pos : ℕ) (o : Option ℕ) → ok (shift (pos + 1) o) ≡ ok (shift pos (one_more o))
shift-one_more pos none = refl
shift-one_more pos (some n) = ground arith

scan-fewest :
    (s : ℕ) (short : Text) (pos : ℕ) (long : Text)
    → scan (s ∷ short) pos long ≡ ok (shift pos (fewest (s ∷ short) long))
unfolding scan fewest
scan-fewest s [] pos [] = refl
scan-fewest s (s' ∷ short) pos [] = refl
scan-fewest s [] pos (ch ∷ long) = elim (Bool-cases (ch == s)) [
  | inl hit ↦ rw hit
  | inr miss ↦ rw miss (scan-fewest s [] (pos + 1) long ∙ shift-one_more pos (fewest (s ∷ []) long))
]
scan-fewest s (s' ∷ short) pos (ch ∷ long) = elim (Bool-cases (ch == s)) [
  | inl hit ↦
      rw hit (scan-fewest s' short (pos + 1) long ∙ shift-one_more pos (fewest (s' ∷ short) long))
  | inr miss ↦ rw miss (
      scan-fewest s (s' ∷ short) (pos + 1) long ∙ shift-one_more pos (fewest (s ∷ s' ∷ short) long))
]

scan_back-fewest :
    (short long : Text) (n : ℕ)
    → fewest short long ≡ some n
    → scan_back short long ≡ ok (length long - n)
unfolding scan_back fewest
scan_back-fewest [] long n h = rw (← some-injective 0 n h) (ground arith)
scan_back-fewest (s ∷ short) [] n h = absurd (cc)
scan_back-fewest (s ∷ short) (ch ∷ long) n h = elim (Bool-cases (ch == s)) [
  | inl hit ↦
      let (m, found, e) = one_more-some _ n (rw hit at h) in
      rw (hit, scan_back, e) (scan_back-fewest short long m found ∙ ground arith)
  | inr miss ↦
      let (m, found, e) = one_more-some _ n (rw miss at h) in
      rw (miss, scan_back, e) (scan_back-fewest (s ∷ short) long m found ∙ ground arith)
]

take-reverse :
    (k : ℕ) (l : Text) → k ≤ length l → take (length l - k) (reverse l) ≡ reverse (drop k l)
take-reverse k l h =
    let parts : reverse l ≡ reverse (drop k l) ++ reverse (take k l) =
      ap reverse (sym (take-append-drop k l)) ∙ reverse-append (take k l) (drop k l) in
    let size : length l - k ≡ length (reverse (drop k l)) = omega (
      arith,
      length-reverse (drop k l),
      length-append (take k l) (drop k l),
      ap length (take-append-drop k l),
      length-take k l h,
    ) in
    rw (parts, size) (take-append_length (reverse (drop k l)) (reverse (take k l)))

-- `[start, end)` of `long` holds `short`, no earlier end does, and no later start for this end.
pub record IsTightest (short long : Text) (start end : ℕ) : Type 0 where
  pub ordered : start ≤ end
  pub inside : end ≤ length long
  pub holds : Subseq short (drop start (take end long))
  pub ends_first : (e : ℕ) → Subseq short (take e long) → end ≤ e
  pub starts_last : (b : ℕ) → b ≤ end → Subseq short (drop b (take end long)) → b ≤ start

module _ (short long : Text) (end n : ℕ) (first : fewest short long ≡ some end)
    (last : fewest (reverse short) (reverse (take end long)) ≡ some n) where
  end-le : end ≤ length long
  end-le = (fewest_sound short long end first).0

  length-head : length (take end long) ≡ end
  length-head = length-take end long end-le

  n-le : n ≤ end
  n-le = omega (
    arith,
    (fewest_sound (reverse short) (reverse (take end long)) n last).0,
    length-reverse (take end long),
    length-head,
  )

  -- a suffix of the head, reversed, is a prefix of the reversed head
  suffix :
      (b : ℕ)
      → b ≤ end
      → take (end - b) (reverse (take end long)) ≡ reverse (drop b (take end long))
  suffix b h =
      subst (λ (k : ℕ). take (k - b) (reverse (take end long)) ≡ reverse (drop b (take end long)))
        length-head (take-reverse b (take end long) (rw length-head h))

  head_holds : Subseq short (drop (end - n) (take end long))
  head_holds =
      let back : n ≡ end - (end - n) = omega (arith, n-le) in
      let sub : Subseq (reverse short) (reverse (drop (end - n) (take end long))) =
        subst (Subseq (reverse short))
          (ap (λ (k : ℕ). take k (reverse (take end long))) back ∙ suffix (end - n) (omega arith))
          (fewest_sound (reverse short) (reverse (take end long)) n last).1 in
      subst₂ Subseq (reverse-reverse short) (reverse-reverse _) (Subseq-reverse sub)

  head_starts_last : (b : ℕ) → b ≤ end → Subseq short (drop b (take end long)) → b ≤ end - n
  head_starts_last b h sub =
      let (m, found, fits) =
        fewest_least (reverse short) (reverse (take end long)) (end - b)
          (subst (Subseq (reverse short)) (sym (suffix b h)) (Subseq-reverse sub)) in
      omega (arith, some-injective n m (sym last ∙ found))

  head_start : scan_back (reverse short) (reverse (take end long)) ≡ ok (end - n)
  head_start =
      scan_back-fewest (reverse short) (reverse (take end long)) n last
      ∙ ap (λ (k : ℕ). ok (k - n)) (length-reverse (take end long) ∙ length-head)

  tightest : IsTightest short long (end - n) end
  tightest = record {
    ordered = omega arith;
    inside = end-le;
    holds = head_holds;
    ends_first = λ e h.
        let (m, found, fits) = fewest_least short long e h in
        omega (arith, some-injective end m (sym first ∙ found));
    starts_last = head_starts_last;
  }

span_found :
    (s : ℕ) (short long : Text) (end n : ℕ)
    → fewest (s ∷ short) long ≡ some end
    → fewest (reverse (s ∷ short)) (reverse (take end long)) ≡ some n
    → subsequence_span (s ∷ short) long ≡ ok (some (end - n, end))
unfolding subsequence_span
span_found s short long end n first last =
    rw (scan-fewest s short 0 long, first)
      (rw zero-add (rw (head_start (s ∷ short) long end n first last)))

-- On a text that is not empty `_subsequence_span` returns the tightest span that holds it, or None
-- exactly if the other text does not hold it; it does not raise.
pub subsequence_span_outcome :
    (s : ℕ) (short long : Text)
    → ((start end : ℕ) × (subsequence_span (s ∷ short) long ≡ ok (some (start, end)))
        × IsTightest (s ∷ short) long start end)
      ⊎ (¬ Subseq (s ∷ short) long) × (subsequence_span (s ∷ short) long ≡ ok none)
unfolding subsequence_span
subsequence_span_outcome s short long = elim (Option-cases (fewest (s ∷ short) long)) [
  | inl missing ↦ inr (
    λ h. let (m, found, _) = fewest_complete (s ∷ short) long h in cc,
    rw (scan-fewest s short 0 long, missing),
  )
  | inr (end, first) ↦
      let (n, last, _) =
        fewest_complete (reverse (s ∷ short)) (reverse (take end long))
          (Subseq-reverse (fewest_sound (s ∷ short) long end first).1) in
      inl (
        end - n,
        end,
        span_found s short long end n first last,
        tightest (s ∷ short) long end n first last,
      )
]
