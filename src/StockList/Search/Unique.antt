-- ===== src/StockList/Search/Unique.antt =====
-- When a search finds a company (`_search` of common/hk_stock_list.py).
use wealthfinder.Prelude.{
  ◌≡◌, ◌⊎◌, ◌↔◌, ◌∙◌, refl, sym, ap, Text, text_eq, true, false, Option, none, some, List, [], ◌∷◌,
  elem, inl, inr, Bool-cases,
}
use wealthfinder.StockList.Search.{
  NameEntry, Ranked, add_code, share, exact_codes, only_code, scoring_pool, entry_score, counted,
  best_from, best_scoring_codes, chosen_codes, search,
}
use wealthfinder.StockList.Search.Best.{
  IsTotal, In, elem_nil, elem_cons, elem-add_code, IsBest, best_scoring_codes_iff,
}

abbrev NoDup : List Text → Type 0
NoDup [] = Unit
NoDup (code ∷ codes) = (elem code codes ≡ false) × NoDup codes

add_code-NoDup : (code : Text) (codes : List Text) → NoDup codes → NoDup (add_code code codes)
unfolding add_code
add_code-NoDup code codes h = elim (Bool-cases (elem code codes)) [
  | inl there ↦ rw there h
  | inr new ↦ rw new (new, h)
]

not_in_nil : (c : Text) → elem c [] ≡ false
unfolding elem
not_in_nil c = refl

-- c is in the set, and nothing else is.
abbrev pub IsOnly : (Text → Type 0) → Text → Type 0
IsOnly P c = P c × ((d : Text) → P d → d ≡ c)

only_code_iff :
    (codes : List Text) (c : Text)
    → NoDup codes
    → (only_code codes ≡ some c) ↔ IsOnly (λ d. elem d codes ≡ true) c
unfolding only_code
only_code_iff [] c h = (λ e. cc, λ only. absurd (elem_nil c only.0))
only_code_iff (code ∷ []) c h = (
  λ e.
      let same : code ≡ c = cc e in
      (
        (elem_cons c code []).1 (inl same),
        λ d there. elim ((elem_cons d code []).0 there) [
          | inl own ↦ sym own ∙ same
          | inr nowhere ↦ absurd (elem_nil d nowhere)
        ],
      ),
  λ only. ap some (only.1 code ((elem_cons code code []).1 (inl refl))),
)
only_code_iff (code ∷ other ∷ codes) c (fresh, h) = (
  λ e. cc,
  λ only.
      let first : code ≡ c = only.1 code ((elem_cons code code (other ∷ codes)).1 (inl refl)) in
      let second : other ≡ c = only.1 other (
        (elem_cons other code (other ∷ codes)).1
          (inr ((elem_cons other other codes).1 (inl refl)))) in
      absurd (cc (sym fresh ∙ (elem_cons code other codes).1 (inl (second ∙ sym first)))),
)

abbrev SharesVariant : List Text → List Text → Type 0
SharesVariant xs ys = (v : Text) × (elem v xs ≡ true) × (elem v ys ≡ true)

share_iff : (xs ys : List Text) → (share xs ys ≡ true) ↔ SharesVariant xs ys
unfolding share
share_iff [] ys = (λ h. cc, λ (v, there, _). absurd (elem_nil v there))
share_iff (x ∷ xs) ys = elim (Bool-cases (elem x ys)) [
  | inl both ↦ rw both (λ h. (x, (elem_cons x x xs).1 (inl refl), both), λ s. refl)
  | inr not_x ↦ rw not_x (
    λ h.
        let (v, there, shared) = (share_iff xs ys).0 h in
        (v, (elem_cons v x xs).1 (inr there), shared),
    λ (v, there, shared). elim ((elem_cons v x xs).0 there) [
      | inl own ↦ absurd (cc (sym not_x ∙ ap (λ (y : Text). elem y ys) own ∙ shared))
      | inr later ↦ (share_iff xs ys).1 (v, later, shared)
    ],
  )
]

-- A name of this code has a variant of the query.
abbrev pub IsExact : List NameEntry → List Text → Text → Type 0
IsExact names variants c =
    (e : NameEntry) × In e names × SharesVariant e.variants variants × (e.stock_code ≡ c)

exact_codes-NoDup :
    (variants : List Text) (names : List NameEntry) → NoDup (exact_codes variants names)
unfolding exact_codes
exact_codes-NoDup variants [] = tt
exact_codes-NoDup variants (entry ∷ names) = elim (Bool-cases (share entry.variants variants)) [
  | inl exact ↦ rw exact (
      add_code-NoDup entry.stock_code (exact_codes variants names)
        (exact_codes-NoDup variants names))
  | inr other ↦ rw other (exact_codes-NoDup variants names)
]

exact_codes_iff :
    (variants : List Text) (names : List NameEntry) (c : Text)
    → (elem c (exact_codes variants names) ≡ true) ↔ IsExact names variants c
unfolding exact_codes
exact_codes_iff variants [] c = (λ h. absurd (elem_nil c h), λ (e, there, _, _). absurd there)
exact_codes_iff variants (entry ∷ names) c = elim (Bool-cases (share entry.variants variants)) [
  | inl exact ↦ rw exact (
    λ h. elim ((elem-add_code c entry.stock_code (exact_codes variants names)).0 h) [
      | inl own ↦ (entry, inl refl, (share_iff entry.variants variants).0 exact, own)
      | inr later ↦
          let (e, there, shared, code) = (exact_codes_iff variants names c).0 later in
          (e, inr there, shared, code)
    ],
    λ (e, there, shared, code).
        (elem-add_code c entry.stock_code (exact_codes variants names)).1 (elim there [
          | inl own ↦ inl (ap (λ (x : NameEntry). x.stock_code) own ∙ code)
          | inr later ↦ inr ((exact_codes_iff variants names c).1 (e, later, shared, code))
        ]),
  )
  | inr other ↦ rw other (
    λ h.
        let (e, there, shared, code) = (exact_codes_iff variants names c).0 h in
        (e, inr there, shared, code),
    λ (e, there, shared, code). elim there [
      | inl own ↦ absurd (
          cc (
            sym other
            ∙ ap (λ (x : NameEntry). share x.variants variants) own
            ∙ (share_iff e.variants variants).1 shared))
      | inr later ↦ (exact_codes_iff variants names c).1 (e, later, shared, code)
    ],
  )
]

module _ {S : Type 0} ⦃order : Ranked S⦄ (score : Text → Text → Option S)
    (variants : List Text) where
  counted-NoDup :
      (entry : NameEntry) (found best : Option S) (codes : List Text)
      → NoDup codes
      → NoDup (counted score entry found best codes).1
  unfolding counted
  counted-NoDup entry none best codes h = h
  counted-NoDup entry (some s) none codes h = (not_in_nil entry.stock_code, tt)
  counted-NoDup entry (some s) (some best) codes h = elim (Bool-cases (order.lt best s)) [
    | inl better ↦ rw better (not_in_nil entry.stock_code, tt)
    | inr not_better ↦ elim (Bool-cases (order.eq s best)) [
      | inl tie ↦ rw (not_better, tie) (add_code-NoDup entry.stock_code codes h)
      | inr no_tie ↦ rw (not_better, no_tie) h
    ]
  ]

  best_from-NoDup :
      (pool : List NameEntry) (best : Option S) (codes : List Text)
      → NoDup codes
      → NoDup (best_from score variants pool best codes)
  unfolding best_from
  best_from-NoDup [] best codes h = h
  best_from-NoDup (entry ∷ pool) best codes h =
      best_from-NoDup pool _ _ (counted-NoDup entry (entry_score score variants entry) best codes h)

  best_scoring_codes-NoDup :
      (pool : List NameEntry) → NoDup (best_scoring_codes score pool variants)
  unfolding best_scoring_codes
  best_scoring_codes-NoDup pool = best_from-NoDup pool none [] tt

IsOnly-same :
    (P Q : Text → Type 0) → ((c : Text) → P c ↔ Q c) → (c : Text) → IsOnly P c ↔ IsOnly Q c
IsOnly-same P Q same c = (
  λ only. ((same c).0 only.0, λ d q. only.1 d ((same d).1 q)),
  λ only. ((same c).1 only.0, λ d p. only.1 d ((same d).0 p)),
)

-- A search finds a code exactly when it is the only one with a name that shares a variant with the
-- query, or no name does and it is the only one whose name scores highest among the names of the
-- pool: a tie between companies is a miss. The scores are in a strict total order.
pub search_iff :
    {S : Type 0} ⦃order : Ranked S⦄ (total : IsTotal S) (score : Text → Text → Option S)
    (latin_pool : List Text → List NameEntry) (names : List NameEntry) (variants : List Text)
    (c : Text)
    → (search score latin_pool names variants ≡ some c) ↔ (
        IsOnly (IsExact names variants) c
        ⊎ (((d : Text) → ¬ IsExact names variants d)
            × IsOnly (IsBest total score variants (scoring_pool latin_pool names variants)) c))
unfolding search chosen_codes
search_iff {S} total score latin_pool names variants c =
    decided (exact_codes variants names) (exact_codes-NoDup variants names)
      (exact_codes_iff variants names)
  where
    pool : List NameEntry
    pool = scoring_pool latin_pool names variants

    no_dup : NoDup (best_scoring_codes score pool variants)
    no_dup = best_scoring_codes-NoDup score variants pool

    by_score :
        (only_code (best_scoring_codes score pool variants) ≡ some c)
        ↔ IsOnly (IsBest total score variants pool) c
    by_score =
        let first = only_code_iff (best_scoring_codes score pool variants) c no_dup in
        let second =
          IsOnly-same (λ d. elem d (best_scoring_codes score pool variants) ≡ true)
            (IsBest total score variants pool) (best_scoring_codes_iff total score variants pool)
            c in
        (λ h. second.0 (first.0 h), λ h. first.1 (second.1 h))

    decided :
        (exact : List Text)
        → NoDup exact
        → ((d : Text) → (elem d exact ≡ true) ↔ IsExact names variants d)
        → (only_code (chosen_codes score exact latin_pool names variants) ≡ some c) ↔ (
            IsOnly (IsExact names variants) c
            ⊎ (((d : Text) → ¬ IsExact names variants d)
                × IsOnly (IsBest total score variants pool) c))
    decided [] h iff = (
      λ found. inr (λ d exact. elem_nil d ((iff d).1 exact), by_score.0 found),
      λ cases. elim cases [
        | inl only ↦ absurd (elem_nil c ((iff c).1 only.0))
        | inr best ↦ by_score.1 best.1
      ],
    )
    decided (code ∷ codes) h iff =
        let by_code = only_code_iff (code ∷ codes) c h in
        let same = IsOnly-same (λ d. elem d (code ∷ codes) ≡ true) (IsExact names variants) iff c in
        (
          λ found. inl (same.0 (by_code.0 found)),
          λ cases. elim cases [
            | inl only ↦ by_code.1 (same.1 only)
            | inr none_exact ↦
                absurd (none_exact.0 code ((iff code).0 ((elem_cons code code codes).1 (inl refl))))
          ],
        )
