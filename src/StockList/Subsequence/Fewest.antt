-- ===== src/StockList/Subsequence/Fewest.antt =====
-- The ordered subsequences of a text, and how few of its first characters hold one: what the loops
-- of hk_stock_list.py's subsequence functions are compared with.
use mathlib.Core.List.{reverse, reverse-append}
use mathlib.Core.Option.{some-injective}
use wealthfinder.Prelude.{
  ℕ, zero, suc, ◌≤◌, ◌≡◌, refl, sym, Text, true, false, Option, none, some, [], ◌∷◌, ◌++◌, ◌==◌,
  nat_eq, length, take, if◌then◌else◌, arith, Bool-cases, inl, inr, nat_beq_iff, take-length,
  Option-cases, subst, ◌↔◌,
}
use wealthfinder.StockList.Subsequence.{seek, is_subsequence}

-- `Subseq s l`: the characters of `s` occur in `l`, in this order.
pub data Subseq : Text → Text → Type 0 where
  nothing : {l : Text} → Subseq [] l
  skip : {c : ℕ} {s l : Text} → Subseq s l → Subseq s (c ∷ l)
  keep : {c d : ℕ} {s l : Text} → c ≡ d → Subseq s l → Subseq (c ∷ s) (d ∷ l)

pub Subseq-tail : {c : ℕ} {s l : Text} → Subseq (c ∷ s) l → Subseq s l
Subseq-tail (skip h) = skip (Subseq-tail h)
Subseq-tail (keep _ h) = skip h

not-Subseq-nil : {c : ℕ} {s l : Text} → l ≡ [] → Subseq (c ∷ s) l → ⊥
not-Subseq-nil e (skip h) = cc
not-Subseq-nil e (keep _ h) = cc

Subseq-match : {c d : ℕ} {s l : Text} → Subseq (c ∷ s) (d ∷ l) → Subseq s l
Subseq-match (skip h) = Subseq-tail h
Subseq-match (keep _ h) = h

Subseq-mismatch :
    {c d : ℕ} {s l : Text} → (d == c) ≡ false → Subseq (c ∷ s) (d ∷ l) → Subseq (c ∷ s) l
Subseq-mismatch ne (skip h) = h
Subseq-mismatch ne (keep e h) = absurd (ground arith)

abbrev pub one_more : Option ℕ → Option ℕ
one_more none = none
one_more (some n) = some (suc n)

-- The least `n` such that the first `n` characters hold the text.
unfoldable pub fewest : Text → Text → Option ℕ
fewest [] l = some 0
fewest (c ∷ s) [] = none
fewest (c ∷ s) (d ∷ l) = one_more (fewest (if d == c then s else c ∷ s) l)

pub one_more-some :
    (o : Option ℕ) (n : ℕ) → one_more o ≡ some n → (m : ℕ) × (o ≡ some m) × (n ≡ suc m)
one_more-some none n h = absurd (cc)
one_more-some (some m) n h = (m, refl, ground arith)

pub fewest_sound : (s l : Text) (n : ℕ) → fewest s l ≡ some n → (n ≤ length l) × Subseq s (take n l)
unfolding fewest
fewest_sound [] l n h = rw (← some-injective 0 n h) (omega arith, nothing)
fewest_sound (c ∷ s) [] n h = absurd (cc)
fewest_sound (c ∷ s) (d ∷ l) n h = elim (Bool-cases (d == c)) [
  | inl hit ↦
      let (m, found, e) = one_more-some _ n (rw hit at h) in
      let (fits, sub) = fewest_sound s l m found in
      rw e (omega arith, keep (sym ((nat_beq_iff d c).0 hit)) sub)
  | inr miss ↦
      let (m, found, e) = one_more-some _ n (rw miss at h) in
      let (fits, sub) = fewest_sound (c ∷ s) l m found in rw e (omega arith, skip sub)
]

pub fewest_least :
    (s l : Text) (m : ℕ) → Subseq s (take m l) → (n : ℕ) × (fewest s l ≡ some n) × (n ≤ m)
unfolding fewest
fewest_least [] l m h = (0, refl, omega arith)
fewest_least (c ∷ s) [] zero h = absurd (not-Subseq-nil refl h)
fewest_least (c ∷ s) [] (suc m) h = absurd (not-Subseq-nil refl h)
fewest_least (c ∷ s) (d ∷ l) zero h = absurd (not-Subseq-nil refl h)
fewest_least (c ∷ s) (d ∷ l) (suc m) h = elim (Bool-cases (d == c)) [
  | inl hit ↦
      let (n, found, fits) = fewest_least s l m (Subseq-match h) in
      (suc n, rw (hit, found), omega arith)
  | inr miss ↦
      let (n, found, fits) = fewest_least (c ∷ s) l m (Subseq-mismatch miss h) in
      (suc n, rw (miss, found), omega arith)
]

-- A text occurs exactly if some number of characters holds it.
pub fewest_complete : (s l : Text) → Subseq s l → (n : ℕ) × (fewest s l ≡ some n) × (n ≤ length l)
fewest_complete s l h = fewest_least s l (length l) (rw take-length h)

pub Subseq-of_take : (n : ℕ) {s : Text} (l : Text) → Subseq s (take n l) → Subseq s l
Subseq-of_take zero l nothing = nothing
Subseq-of_take (suc n) [] nothing = nothing
Subseq-of_take (suc n) (x ∷ l) nothing = nothing
Subseq-of_take (suc n) (x ∷ l) (skip h) = skip (Subseq-of_take n l h)
Subseq-of_take (suc n) (x ∷ l) (keep e h) = keep e (Subseq-of_take n l h)

Subseq-snoc : (x : ℕ) {s l : Text} → Subseq s l → Subseq s (l ++ x ∷ [])
Subseq-snoc x nothing = nothing
Subseq-snoc x (skip h) = skip (Subseq-snoc x h)
Subseq-snoc x (keep e h) = keep e (Subseq-snoc x h)

Subseq-snoc_keep :
    {x y : ℕ} {s : Text} (l : Text) → x ≡ y → Subseq s l → Subseq (s ++ x ∷ []) (l ++ y ∷ [])
Subseq-snoc_keep [] e nothing = keep e nothing
Subseq-snoc_keep (c ∷ l) e nothing = skip (Subseq-snoc_keep l e nothing)
Subseq-snoc_keep (c ∷ l) e (skip h) = skip (Subseq-snoc_keep l e h)
Subseq-snoc_keep (c ∷ l) e (keep f h) = keep f (Subseq-snoc_keep l e h)

pub Subseq-reverse : {s l : Text} → Subseq s l → Subseq (reverse s) (reverse l)
Subseq-reverse nothing = nothing
Subseq-reverse (skip {c} {l = l} h) =
    rw (reverse-append (c ∷ []) l) (Subseq-snoc c (Subseq-reverse h))
Subseq-reverse (keep {c} {d} {s} {l} e h) =
    rw (reverse-append (c ∷ []) s, reverse-append (d ∷ []) l)
      (Subseq-snoc_keep (reverse l) e (Subseq-reverse h))

-- The first match of a character splits the text there.
seek-Subseq :
    (c : ℕ) (s l rest : Text) → seek c l ≡ some rest → (Subseq (c ∷ s) l) ↔ (Subseq s rest)
unfolding seek
seek-Subseq c s [] rest h = absurd (cc)
seek-Subseq c s (d ∷ l) rest h = elim (Bool-cases (d == c)) [
  | inl hit ↦
      let e : l ≡ rest = some-injective l rest (rw hit at h) in
      (
        λ k. subst (Subseq s) e (Subseq-match k),
        λ k. keep (sym ((nat_beq_iff d c).0 hit)) (subst (Subseq s) (sym e) k),
      )
  | inr miss ↦
      let (to, from) = seek-Subseq c s l rest (rw miss at h) in
      (λ k. to (Subseq-mismatch miss k), λ k. skip (from k))
]

seek-none : (c : ℕ) (s l : Text) → seek c l ≡ none → Subseq (c ∷ s) l → ⊥
unfolding seek
seek-none c s [] h k = not-Subseq-nil refl k
seek-none c s (d ∷ l) h k = elim (Bool-cases (d == c)) [
  | inl hit ↦ absurd (cc (rw hit at h))
  | inr miss ↦ seek-none c s l (rw miss at h) (Subseq-mismatch miss k)
]

-- `_is_subsequence` decides whether the characters of the one text occur, in this order, in the
-- other.
pub is_subsequence_iff : (s l : Text) → (is_subsequence s l ≡ true) ↔ (Subseq s l)
unfolding is_subsequence
is_subsequence_iff [] l = (λ _. nothing, λ _. refl)
is_subsequence_iff (c ∷ s) l = elim (Option-cases (seek c l)) [
  | inl missing ↦ (
    λ h. absurd (cc (rw (missing, is_subsequence) at h)),
    λ k. absurd (seek-none c s l missing k),
  )
  | inr (rest, found) ↦
      let (to, from) = is_subsequence_iff s rest in
      let (split, join) = seek-Subseq c s l rest found in
      (
        λ h. join (to (rw (found, is_subsequence) at h)),
        λ k. rw (found, is_subsequence) (from (split k)),
      )
]
