-- ===== src/StockList/Search/Best.antt =====
-- What `_best_scoring_codes` (common/hk_stock_list.py) returns: the codes of the best-scoring names.
use wealthfinder.Prelude.{
  ◌≡◌, ◌⊎◌, ◌↔◌, ◌∙◌, refl, sym, ap, Text, text_eq, true, false, Option, none, some, List, [], ◌∷◌,
  ◌==◌, elem, inl, inr, Bool-cases, ==→eq, ==_refl, subst, nat_eq,
}
use wealthfinder.StockList.Search.{
  NameEntry, Ranked, add_code, entry_score, counted, best_from, best_scoring_codes,
}

-- The scores are in a strict total order.
pub record IsTotal (S : Type 0) ⦃order : Ranked S⦄ : Type 0 where
  pub lt_irrefl : (x : S) → order.lt x x ≡ false
  pub lt_trans : (x y z : S) → order.lt x y ≡ true → order.lt y z ≡ true → order.lt x z ≡ true
  pub lt_total : (x y : S) → order.lt x y ≡ false → order.lt y x ≡ false → x ≡ y
  pub eq_iff : (x y : S) → (order.eq x y ≡ true) ↔ (x ≡ y)

abbrev pub In : NameEntry → List NameEntry → Type 0
In e [] = ⊥
In e (entry ∷ names) = (entry ≡ e) ⊎ In e names

pub elem_cons :
    (c code : Text) (codes : List Text)
    → (elem c (code ∷ codes) ≡ true) ↔ ((code ≡ c) ⊎ (elem c codes ≡ true))
unfolding elem
elem_cons c code codes = elim (Bool-cases (code == c)) [
  | inl same ↦ rw same (λ h. inl (==→eq code c same), λ h. refl)
  | inr differs ↦ rw differs (
    λ h. inr h,
    λ h. elim h [
      | inl own ↦ absurd (cc (sym differs ∙ ap (λ (x : Text). x == c) own ∙ ==_refl c))
      | inr before ↦ before
    ],
  )
]

pub elem_nil : (c : Text) → elem c [] ≡ true → ⊥
unfolding elem
elem_nil c h = cc h

elem_one : (c code : Text) → (elem c (code ∷ []) ≡ true) ↔ (code ≡ c)
elem_one c code = (
  λ h. elim ((elem_cons c code []).0 h) [
    | inl own ↦ own
    | inr none_there ↦ absurd (elem_nil c none_there)
  ],
  λ own. (elem_cons c code []).1 (inl own),
)

pub elem-add_code :
    (c code : Text) (codes : List Text)
    → (elem c (add_code code codes) ≡ true) ↔ ((code ≡ c) ⊎ (elem c codes ≡ true))
unfolding add_code
elem-add_code c code codes = elim (Bool-cases (elem code codes)) [
  | inl there ↦ rw there (
    λ h. inr h,
    λ h. elim h [
      | inl own ↦ subst (λ (x : Text). elem x codes ≡ true) own there
      | inr before ↦ before
    ],
  )
  | inr new ↦ rw new (elem_cons c code codes)
]

module _ {S : Type 0} ⦃order : Ranked S⦄ (total : IsTotal S) (score : Text → Text → Option S)
    (variants : List Text) where
  open total use {lt_irrefl, lt_trans, lt_total, eq_iff}

  abbrev Scores : NameEntry → S → Type 0
  Scores e s = entry_score score variants e ≡ some s

  -- some entry that was seen has this score and code
  abbrev Attained : (NameEntry → Type 0) → S → Text → Type 0
  Attained Seen s c = (e : NameEntry) × Seen e × Scores e s × (e.stock_code ≡ c)

  abbrev IsTop : (NameEntry → Type 0) → S → Type 0
  IsTop Seen s = (e : NameEntry) (t : S) → Seen e → Scores e t → order.lt s t ≡ false

  abbrev Inv : (NameEntry → Type 0) → Option S → List Text → Type 0
  Inv Seen none codes = (codes ≡ []) × ((e : NameEntry) (s : S) → Seen e → Scores e s → ⊥)
  Inv Seen (some best) codes =
      IsTop Seen best
      × ((c : Text) → (elem c codes ≡ true) ↔ Attained Seen best c)
      × ((e : NameEntry) × Seen e × Scores e best)

  abbrev With : (NameEntry → Type 0) → NameEntry → NameEntry → Type 0
  With Seen entry e = Seen e ⊎ (entry ≡ e)

  unscored :
      (entry e : NameEntry) (t : S)
      → entry_score score variants entry ≡ none
      → entry ≡ e
      → Scores e t
      → ⊥
  unscored entry e t h own scored = cc (sym h ∙ ap (entry_score score variants) own ∙ scored)

  same_score : (entry e : NameEntry) (s t : S) → Scores entry s → entry ≡ e → Scores e t → s ≡ t
  same_score entry e s t h own scored =
      let both : some s ≡ some t = sym h ∙ ap (entry_score score variants) own ∙ scored in cc both

  module _ (Seen : NameEntry → Type 0) (entry : NameEntry) (s best : S) (codes : List Text)
      (h : Scores entry s) where
    better-Inv :
        order.lt best s ≡ true
        → Inv Seen (some best) codes
        → Inv (With Seen entry) (some s) (entry.stock_code ∷ [])
    better-Inv better (top, iff, (first, seen_first, scored_first)) = (
      λ e t seen scored. elim seen [
        | inl old ↦ elim (Bool-cases (order.lt s t)) [
          | inl above ↦ absurd (cc (sym (top e t old scored) ∙ lt_trans best s t better above))
          | inr below ↦ below
        ]
        | inr own ↦
            subst (λ (x : S). order.lt s x ≡ false) (same_score entry e s t h own scored)
              (lt_irrefl s)
      ],
      λ c. (
        λ there. (entry, inr refl, h, (elem_one c entry.stock_code).0 there),
        λ (e, seen, scored, code). elim seen [
          | inl old ↦ absurd (cc (sym (top e s old scored) ∙ better))
          | inr own ↦
              (elem_one c entry.stock_code).1 (ap (λ (x : NameEntry). x.stock_code) own ∙ code)
        ],
      ),
      (entry, inr refl, h),
    )

    tie-Inv :
        order.lt best s ≡ false
        → order.eq s best ≡ true
        → Inv Seen (some best) codes
        → Inv (With Seen entry) (some best) (add_code entry.stock_code codes)
    tie-Inv not_better tie (top, iff, (first, seen_first, scored_first)) = (
      λ e t seen scored. elim seen [
        | inl old ↦ top e t old scored
        | inr own ↦
            subst (λ (x : S). order.lt best x ≡ false) (same_score entry e s t h own scored)
              not_better
      ],
      λ c. (
        λ there. elim ((elem-add_code c entry.stock_code codes).0 there) [
          | inl own ↦ (entry, inr refl, h ∙ ap some ((eq_iff s best).0 tie), own)
          | inr before ↦
              let (e, seen, scored, code) = (iff c).0 before in (e, inl seen, scored, code)
        ],
        λ (e, seen, scored, code). (elem-add_code c entry.stock_code codes).1 (elim seen [
          | inl old ↦ inr ((iff c).1 (e, old, scored, code))
          | inr own ↦ inl (ap (λ (x : NameEntry). x.stock_code) own ∙ code)
        ]),
      ),
      (first, inl seen_first, scored_first),
    )

    worse-Inv :
        order.lt best s ≡ false
        → order.eq s best ≡ false
        → Inv Seen (some best) codes
        → Inv (With Seen entry) (some best) codes
    worse-Inv not_better no_tie (top, iff, (first, seen_first, scored_first)) = (
      λ e t seen scored. elim seen [
        | inl old ↦ top e t old scored
        | inr own ↦
            subst (λ (x : S). order.lt best x ≡ false) (same_score entry e s t h own scored)
              not_better
      ],
      λ c. (
        λ there. let (e, seen, scored, code) = (iff c).0 there in (e, inl seen, scored, code),
        λ (e, seen, scored, code). elim seen [
          | inl old ↦ (iff c).1 (e, old, scored, code)
          | inr own ↦
              absurd (cc (sym no_tie ∙ (eq_iff s best).1 (same_score entry e s best h own scored)))
        ],
      ),
      (first, inl seen_first, scored_first),
    )

  counted-Inv :
      (Seen : NameEntry → Type 0) (entry : NameEntry) (found best : Option S) (codes : List Text)
      → entry_score score variants entry ≡ found
      → Inv Seen best codes
      → Inv
          (With Seen entry)
          (counted score entry found best codes).0
          (counted score entry found best codes).1
  unfolding counted
  counted-Inv Seen entry none none codes h inv = (
    inv.0,
    λ e s seen scored. elim seen [
      | inl old ↦ inv.1 e s old scored
      | inr own ↦ unscored entry e s h own scored
    ],
  )
  counted-Inv Seen entry none (some best) codes h (top, iff, (e, seen, scored)) = (
    λ e t seen scored. elim seen [
      | inl old ↦ top e t old scored
      | inr own ↦ absurd (unscored entry e t h own scored)
    ],
    λ c. (
      λ there. let (e, seen, scored, code) = (iff c).0 there in (e, inl seen, scored, code),
      λ (e, seen, scored, code). elim seen [
        | inl old ↦ (iff c).1 (e, old, scored, code)
        | inr own ↦ absurd (unscored entry e best h own scored)
      ],
    ),
    (e, inl seen, scored),
  )
  counted-Inv Seen entry (some s) none codes h inv = (
    λ e t seen scored. elim seen [
      | inl old ↦ absurd (inv.1 e t old scored)
      | inr own ↦
          subst (λ (x : S). order.lt s x ≡ false) (same_score entry e s t h own scored)
            (lt_irrefl s)
    ],
    λ c. (
      λ there. (entry, inr refl, h, (elem_one c entry.stock_code).0 there),
      λ (e, seen, scored, code). elim seen [
        | inl old ↦ absurd (inv.1 e s old scored)
        | inr own ↦
            (elem_one c entry.stock_code).1 (ap (λ (x : NameEntry). x.stock_code) own ∙ code)
      ],
    ),
    (entry, inr refl, h),
  )
  counted-Inv Seen entry (some s) (some best) codes h inv = elim (Bool-cases (order.lt best s)) [
    | inl better ↦ rw better (better-Inv Seen entry s best codes h better inv)
    | inr not_better ↦ elim (Bool-cases (order.eq s best)) [
      | inl tie ↦ rw (not_better, tie) (tie-Inv Seen entry s best codes h not_better tie inv)
      | inr no_tie ↦
          rw (not_better, no_tie) (worse-Inv Seen entry s best codes h not_better no_tie inv)
    ]
  ]

  -- the entries that were seen, described in another way
  Inv-seen :
      (Seen Seen' : NameEntry → Type 0)
      → ((e : NameEntry) → Seen e ↔ Seen' e)
      → (best : Option S) (codes : List Text) → Inv Seen best codes
      → Inv Seen' best codes
  Inv-seen Seen Seen' same none codes (empty, unscored_all) =
      (empty, λ e s seen. unscored_all e s ((same e).1 seen))
  Inv-seen Seen Seen' same (some best) codes (top, iff, (first, seen_first, scored_first)) = (
    λ e t seen. top e t ((same e).1 seen),
    λ c. (
      λ there. let (e, seen, scored, code) = (iff c).0 there in (e, (same e).0 seen, scored, code),
      λ (e, seen, scored, code). (iff c).1 (e, (same e).1 seen, scored, code),
    ),
    (first, (same first).0 seen_first, scored_first),
  )

  best_from-Inv :
      (pool : List NameEntry) (Seen : NameEntry → Type 0) (best : Option S) (codes : List Text)
      → Inv Seen best codes
      → (last : Option S) × Inv
          (λ e. Seen e ⊎ In e pool)
          last
          (best_from score variants pool best codes)
  unfolding best_from
  best_from-Inv [] Seen best codes inv = (
    best,
    Inv-seen Seen (λ e. Seen e ⊎ ⊥)
        (λ e.
          (λ seen. inl seen, λ seen. elim seen [ inl old ↦ old | inr nothing ↦ absurd nothing ]))
        best codes inv,
  )
  best_from-Inv (entry ∷ pool) Seen best codes inv =
      let (last, rest) =
        best_from-Inv pool (With Seen entry) _ _
          (counted-Inv Seen entry (entry_score score variants entry) best codes refl inv) in
      (
        last,
        Inv-seen (λ e. With Seen entry e ⊎ In e pool) (λ e. Seen e ⊎ ((entry ≡ e) ⊎ In e pool))
            (λ e. (
              λ seen. elim seen [
                | inl (inl old) ↦ inl old
                | inl (inr own) ↦ inr (inl own)
                | inr later ↦ inr (inr later)
              ],
              λ seen. elim seen [
                | inl old ↦ inl (inl old)
                | inr (inl own) ↦ inl (inr own)
                | inr (inr later) ↦ inr later
              ],
            ))
            last _ rest,
      )

  -- The name of this code scores, and no name of the pool scores higher.
  abbrev pub IsBest : List NameEntry → Text → Type 0
  IsBest pool c =
      (e : NameEntry) × (s : S) × In e pool
      × Scores e s
      × IsTop (λ x. In x pool) s
      × (e.stock_code ≡ c)

  pub best_scoring_codes_iff :
      (pool : List NameEntry) (c : Text)
      → (elem c (best_scoring_codes score pool variants) ≡ true) ↔ IsBest pool c
  unfolding best_scoring_codes
  best_scoring_codes_iff pool c =
      let (last, inv) = best_from-Inv pool (λ e. ⊥) none [] (refl, λ e s seen. absurd seen) in
      described last (best_from score variants pool none []) (
        Inv-seen (λ e. ⊥ ⊎ In e pool) (λ e. In e pool)
          (λ e. (
            λ seen. elim seen [ inl nothing ↦ absurd nothing | inr there ↦ there ],
            λ there. inr there,
          ))
          last _ inv)
    where
      described :
          (last : Option S) (codes : List Text)
          → Inv (λ e. In e pool) last codes
          → (elem c codes ≡ true) ↔ IsBest pool c
      described none codes (empty, unscored_all) = (
        λ h. absurd (elem_nil c (subst (λ (l : List Text). elem c l ≡ true) empty h)),
        λ (e, s, there, scored, top, code). absurd (unscored_all e s there scored),
      )
      described (some best) codes (top, iff, (first, seen_first, scored_first)) = (
        λ h. let (e, there, scored, code) = (iff c).0 h in (e, best, there, scored, top, code),
        λ (e, s, there, scored, above, code). (iff c).1 (
          e,
          there,
          scored
              ∙ ap some (
                  lt_total s best (above first best seen_first scored_first)
                    (top e s there scored)),
          code,
        ),
      )
