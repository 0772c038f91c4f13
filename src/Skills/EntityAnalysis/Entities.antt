-- ===== src/Skills/EntityAnalysis/Entities.antt =====
-- The entities that a run of the skill returns (skills/entity_analysis_skill.py).
use wealthfinder.Prelude.{
  ℕ, ◌≤◌, ◌≡◌, ◌∙◌, refl, ap, Text, text_eq, Bool, true, false, Option, none, some, List, [], ◌∷◌,
  ◌++◌, ◌==◌, elem, ltb, length, take, length-take-le, inl, inr, Bool-cases, if◌then◌else◌, arith,
  map, All, ◌||◌, ==→eq, ==_refl,
}
use wealthfinder.Prelude.Floats.{Floats, IsArithmetic, nought, one, ◌≼◌}
use wealthfinder.Prelude.Floats.Bounds.{Within}
use wealthfinder.Models.{Stock, AnalysisOutcome}
use wealthfinder.Models.EventType.{EventTypeEnum, type_eq}
use wealthfinder.Skills.EntityAnalysis.{
  ExtractedEntity, VerifiedEntity, Progress, headline_max_chars, entity_summary_max_chars,
  same_type, in_unit, float_min, clip, enforced, fixes, outcome_of, add_verified, process_extracted,
  process_items,
}

-- no code twice
abbrev pub NoRepeat : List Text → Type 0
NoRepeat [] = Unit
NoRepeat (code ∷ codes) = (elem code codes ≡ false) × NoRepeat codes

elem-last :
    (x code : Text) (codes : List Text)
    → elem x codes ≡ false
    → (code == x) ≡ false
    → elem x (codes ++ code ∷ []) ≡ false
unfolding elem
elem-last x code [] h k = rw k refl
elem-last x code (c ∷ codes) h k = ground (arith, elem-last x code codes)

elem-symmetric : (x code : Text) → (x == code) ≡ false → (code == x) ≡ false
elem-symmetric x code h = elim (Bool-cases (code == x)) [
  | inl same ↦ absurd (cc (rw (==→eq code x same, ==_refl x) at h))
  | inr differs ↦ differs
]

append-NoRepeat :
    (code : Text) (codes : List Text)
    → elem code codes ≡ false
    → NoRepeat codes
    → NoRepeat (codes ++ code ∷ [])
append-NoRepeat code [] h p = (unfold elem in refl, tt)
append-NoRepeat code (c ∷ codes) h (fresh, p) =
    let (differs, rest) = parts (c == code) (elem code codes) (unfold elem in h) in
    (
      elem-last c code codes fresh (elem-symmetric c code differs),
      append-NoRepeat code codes rest p,
    )
  where
    parts : (a b : Bool) → a || b ≡ false → (a ≡ false) × (b ≡ false)
    parts a b e = ground arith

elem-append :
    (x : Text) (codes rest : List Text) → elem x codes ≡ true → elem x (codes ++ rest) ≡ true
unfolding elem
elem-append x [] rest h = absurd (cc)
elem-append x (c ∷ codes) rest h = ground (arith, elem-append x codes rest)

elem-own : (x : Text) (codes : List Text) → elem x (codes ++ x ∷ []) ≡ true
unfolding elem
elem-own x [] = rw (==_refl x) refl
elem-own x (c ∷ codes) = rw (elem-own x codes) (ground arith)

map-last :
    {A B : Type 0} (f : A → B) (x : A) (xs : List A) → map f (xs ++ x ∷ []) ≡ map f xs ++ f x ∷ []
map-last f x [] = refl
map-last f x (y ∷ ys) = ap (◌∷◌ (f y)) (map-last f x ys)

All-last :
    {A : Type 0} (P : A → Type 0) {x : A} (xs : List A) → All P xs → P x → All P (xs ++ x ∷ [])
All-last P [] all p = (p, tt)
All-last P (y ∷ ys) (q, all) p = (q, All-last P ys all p)

module _ {F : Type 0} ⦃f : Floats F⦄ where
  -- The business constraints on an outcome.
  pub record Fits (o : AnalysisOutcome F) : Type 0 where
    pub score : in_unit o.sentiment_score ≡ true
    pub headline : length o.headline ≤ headline_max_chars
    pub summary : length o.entity_summary ≤ entity_summary_max_chars
    pub secondary : same_type o.event_type_secondary o.event_type_primary ≡ false

  -- The entities fit the constraints, one per stock code.
  pub record Sound (p : Progress F) : Type 0 where
    pub codes : map (λ (e : VerifiedEntity F). e.stock.stock_code) p.entities ≡ p.verified_entities
    pub once : NoRepeat p.verified_entities
    pub fit : All (λ (e : VerifiedEntity F). Fits e.outcome) p.entities

capped : (n : ℕ) (text : Text) → length (if ltb n (length text) then take n text else text) ≤ n
capped n text = elim (Bool-cases (ltb n (length text))) [
  | inl long ↦ rw long (length-take-le n text)
  | inr short ↦ rw short (ground arith)
]

cleared :
    (secondary : Option EventTypeEnum) (primary : EventTypeEnum)
    → same_type (if same_type secondary primary then none else secondary) primary ≡ false
cleared secondary primary = elim (Bool-cases (same_type secondary primary)) [
  | inl same ↦ rw same refl
  | inr differs ↦ rw (differs) differs
]

module _ {F : Type 0} ⦃f : Floats F⦄ (laws : IsArithmetic F) where
  open laws use {le_refl, le_of_not_lt, hundredths_mono}

  at_most_one : (x : F) → nought ≼ x → Within nought one (float_min x one)
  at_most_one x h = elim (Bool-cases (f.lt one x)) [
    | inl above ↦ rw above (hundredths_mono 0 100 (omega arith), le_refl one)
    | inr fits ↦ rw fits (h, le_of_not_lt one x fits)
  ]

  clip-Within : (x : F) → Within nought one (clip x)
  unfolding clip
  clip-Within x = elim (Bool-cases (f.lt x nought)) [
    | inl below ↦ rw below (at_most_one nought (le_refl nought))
    | inr fits ↦ rw fits (at_most_one x (le_of_not_lt x nought fits))
  ]

  clip-in_unit : (x : F) → in_unit (clip x) ≡ true
  clip-in_unit x = rw ((clip-Within x).0, (clip-Within x).1) refl

  in_range : (x : F) → in_unit (if in_unit x then x else clip x) ≡ true
  in_range x = elim (Bool-cases (in_unit x)) [
    | inl fits ↦ rw fits fits
    | inr out ↦ rw out (clip-in_unit x)
  ]

  enforced-Fits : (o : AnalysisOutcome F) → Fits (enforced o)
  unfolding enforced
  enforced-Fits o = record {
    score = in_range o.sentiment_score;
    headline = capped headline_max_chars o.headline;
    summary = capped entity_summary_max_chars o.entity_summary;
    secondary = cleared o.event_type_secondary o.event_type_primary;
  }

  add_verified-Sound :
      (stock : Stock) (extracted : ExtractedEntity F) (p : Progress F)
      → Sound p
      → Sound (
          add_verified stock
            (enforced (outcome_of stock extracted))
            (fixes (outcome_of stock extracted))
            p)
  unfolding add_verified
  add_verified-Sound stock extracted p s =
      let outcome = enforced (outcome_of stock extracted) in
      let own : outcome.stock_code ≡ stock.stock_code = unfold enforced outcome_of in refl in
      elim (Bool-cases (elem outcome.stock_code p.verified_entities)) [
        | inl repeated ↦ rw repeated (record { codes = s.codes; once = s.once; fit = s.fit })
        | inr new ↦ rw new (record {
          codes =
              map-last (λ (e : VerifiedEntity F). e.stock.stock_code)
                (record { stock = stock; outcome = outcome }) p.entities
              ∙ rw (s.codes, own) refl;
          once = append-NoRepeat outcome.stock_code p.verified_entities new s.once;
          fit =
              All-last (λ (e : VerifiedEntity F). Fits e.outcome) p.entities s.fit
                (enforced-Fits (outcome_of stock extracted));
        })
      ]

  process_extracted-Sound :
      (found : Option Stock) (extracted : ExtractedEntity F) (p : Progress F)
      → Sound p
      → Sound (process_extracted found extracted p)
  unfolding process_extracted
  process_extracted-Sound none extracted p s = record {
    codes = s.codes;
    once = s.once;
    fit = s.fit;
  }
  process_extracted-Sound (some stock) extracted p s = add_verified-Sound stock extracted p s

  module _ (verify : ExtractedEntity F → Option Stock) where
    -- Whatever the LLM returned, the entities of a run are those of its list of verified codes, no two
    -- of them have the same stock code, and every outcome fits the business constraints: its score
    -- lies in [0, 1], its texts are not too long, and its two event types differ. This is for scores
    -- that are numbers: Python's comparisons leave a NaN as it is.
    pub process_items-Sound :
        (items : List (ExtractedEntity F)) (p : Progress F)
        → Sound p
        → Sound (process_items verify items p)
    unfolding process_items
    process_items-Sound [] p s = s
    process_items-Sound (extracted ∷ items) p s =
        process_items-Sound items (process_extracted (verify extracted) extracted p)
          (process_extracted-Sound (verify extracted) extracted p s)

module _ {F : Type 0} ⦃f : Floats F⦄ (verify : ExtractedEntity F → Option Stock) where
  stays :
      (code : Text) (found : Option Stock) (extracted : ExtractedEntity F) (p : Progress F)
      → elem code p.verified_entities ≡ true
      → elem code (process_extracted found extracted p).verified_entities ≡ true
  unfolding process_extracted add_verified
  stays code none extracted p h = h
  stays code (some stock) extracted p h =
      elim (Bool-cases
        (elem (enforced (outcome_of stock extracted)).stock_code p.verified_entities)) [
          | inl repeated ↦ rw repeated h
          | inr new ↦ rw new (elem-append code p.verified_entities _ h)
        ]

  arrives :
      (stock : Stock) (extracted : ExtractedEntity F) (p : Progress F)
      → elem stock.stock_code (process_extracted (some stock) extracted p).verified_entities ≡ true
  unfolding process_extracted add_verified enforced outcome_of
  arrives stock extracted p = elim (Bool-cases (elem stock.stock_code p.verified_entities)) [
    | inl repeated ↦ rw repeated repeated
    | inr new ↦ rw new (elem-own stock.stock_code p.verified_entities)
  ]

  keep_all :
      (code : Text) (items : List (ExtractedEntity F)) (p : Progress F)
      → elem code p.verified_entities ≡ true
      → elem code (process_items verify items p).verified_entities ≡ true
  unfolding process_items
  keep_all code [] p h = h
  keep_all code (extracted ∷ items) p h =
      keep_all code items (process_extracted (verify extracted) extracted p)
        (stays code (verify extracted) extracted p h)

  -- The run loses no company: for every item that is verified to a stock, the stock's code is among
  -- the verified ones, at whatever place of the output the item stands.
  pub process_items_complete :
      (before : List (ExtractedEntity F)) (extracted : ExtractedEntity F)
      (rest : List (ExtractedEntity F)) (p : Progress F) (stock : Stock)
      → verify extracted ≡ some stock
      → elem stock.stock_code
          (process_items verify (before ++ extracted ∷ rest) p).verified_entities
        ≡ true
  unfolding process_items
  process_items_complete [] extracted rest p stock h =
      keep_all stock.stock_code rest (process_extracted (verify extracted) extracted p)
        (rw h (arrives stock extracted p))
  process_items_complete (item ∷ before) extracted rest p stock h =
      process_items_complete before extracted rest (process_extracted (verify item) item p) stock h
