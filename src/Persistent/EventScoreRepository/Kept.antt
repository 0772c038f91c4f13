-- ===== src/Persistent/EventScoreRepository/Kept.antt =====
-- What `persist_score_if_not_stale` (persistent/event_score_repository.py) writes and keeps.
use mathlib.Core.Option.{some-injective}
use wealthfinder.Prelude.{
  ℕ, ◌≡◌, ◌≢◌, ◌⊎◌, refl, Option, none, some, List, nat_eq, if◌then◌else◌, inl, inr, Bool-cases,
  Option-cases, ==→eq, true, false, ==_refl, ==_ne, ap, sym, Bool, ◌∙◌,
}
use wealthfinder.Prelude.Assoc.{lookup, insert, lookup-insert, lookup-insert_self}
use wealthfinder.Models.EventScore.{EventScore}
use wealthfinder.Persistent.EventRepository.{Tables, EventRow}
use wealthfinder.Persistent.EventScoreRepository.{
  conflict, is_current, inserted_score, persist_score_if_not_stale,
}

-- The Event is stored with this aggregation_updated_at.
abbrev pub IsCurrent : Tables → ℕ → ℕ → Type 0
IsCurrent tables event_id expected =
    (stored : EventRow) × (lookup event_id tables.events ≡ some stored)
    × (stored.aggregation_updated_at ≡ expected)

is_current-true :
    (found : Option EventRow) (expected : ℕ)
    → is_current found expected ≡ true
    → (stored : EventRow) × (found ≡ some stored) × (stored.aggregation_updated_at ≡ expected)
unfolding is_current
is_current-true none expected h = cc
is_current-true (some stored) expected h = (stored, refl, ==→eq _ _ h)

is_current_found :
    (found : Option EventRow) (expected : ℕ) (stored : EventRow)
    → found ≡ some stored
    → stored.aggregation_updated_at ≡ expected
    → is_current found expected ≡ true
unfolding is_current
is_current_found found expected stored h same = rw (h, same) (==_refl expected)

module _ {F : Type 0} (tables : Tables) (scores : List (ℕ × EventScore F)) (score : EventScore F)
    (expected now : ℕ) where
  abbrev result : List (ℕ × EventScore F) × Option (EventScore F)
  result = persist_score_if_not_stale tables scores score expected now

  -- Every column of the row is the new score's, with the expected version and the time of the write;
  -- but the id and the creation time are those of the score that the Event had, if it had one.
  pub record IsWritten (row : EventScore F) : Type 0 where
    pub event_id : row.event_id ≡ score.event_id
    pub abs_final_score : row.abs_final_score ≡ score.abs_final_score
    pub base_rule_score : row.base_rule_score ≡ score.base_rule_score
    pub stock_impact_score : row.stock_impact_score ≡ score.stock_impact_score
    pub direction : row.direction ≡ score.direction
    pub llm_fallback : row.llm_fallback ≡ score.llm_fallback
    pub rule_score_detail : row.rule_score_detail ≡ score.rule_score_detail
    pub llm_score_detail : row.llm_score_detail ≡ score.llm_score_detail
    pub scored_at : row.scored_at ≡ score.scored_at
    pub version : row.scored_aggregation_updated_at ≡ expected
    pub updated_at : row.updated_at ≡ now
    pub new_id :
        lookup score.event_id scores ≡ none
        → (row.score_id ≡ score.score_id) × (row.created_at ≡ now)
    pub old_id :
        (old : EventScore F)
        → lookup score.event_id scores ≡ some old
        → (row.score_id ≡ old.score_id) × (row.created_at ≡ old.created_at)

  conflict-IsWritten :
      IsWritten (conflict (lookup score.event_id scores) (inserted_score score expected now))
  unfolding conflict
  conflict-IsWritten = elim (Option-cases (lookup score.event_id scores)) [
    | inl missing ↦ rw missing (record {
      event_id = refl;
      abs_final_score = refl;
      base_rule_score = refl;
      stock_impact_score = refl;
      direction = refl;
      llm_fallback = refl;
      rule_score_detail = refl;
      llm_score_detail = refl;
      scored_at = refl;
      version = refl;
      updated_at = refl;
      new_id = λ none_there. (refl, refl);
      old_id = λ old found. absurd (cc (sym missing ∙ found));
    })
    | inr (old, found) ↦ rw found (record {
      event_id = refl;
      abs_final_score = refl;
      base_rule_score = refl;
      stock_impact_score = refl;
      direction = refl;
      llm_fallback = refl;
      rule_score_detail = refl;
      llm_score_detail = refl;
      scored_at = refl;
      version = refl;
      updated_at = refl;
      new_id = λ none_there. absurd (cc (sym found ∙ none_there));
      old_id = λ other same. rw (some-injective other old (sym same ∙ found)) (refl, refl);
    })
  ]

  -- While the Event is stored with the expected version, its score is written and returned: every
  -- column is the new score's, with that version and the time of the write, except that a re-score
  -- keeps the id and the creation time of the Event's earlier score. Otherwise nothing is written and
  -- None is returned. The scores of the other Events stay in either case.
  pub persist_score_if_not_stale_lem :
      (IsCurrent tables score.event_id expected
        → (row : EventScore F) × (persist_score_if_not_stale tables scores score expected now).1
            ≡ some row
          × (lookup score.event_id (persist_score_if_not_stale tables scores score expected now).0
              ≡ some row)
          × IsWritten row)
      × ((other : ℕ)
          → other ≢ score.event_id
          → lookup other (persist_score_if_not_stale tables scores score expected now).0
            ≡ lookup other scores)
      × ((¬ IsCurrent tables score.event_id expected)
          → persist_score_if_not_stale tables scores score expected now ≡ (scores, none))
  unfolding persist_score_if_not_stale
  persist_score_if_not_stale_lem = (
    λ (stored, found, same). rw (is_current_found _ expected stored found same) (
      conflict (lookup score.event_id scores) (inserted_score score expected now),
      refl,
      lookup-insert_self score.event_id _ scores,
      conflict-IsWritten,
    ),
    λ other_id differs.
        kept other_id differs (is_current (lookup score.event_id tables.events) expected),
    λ stale. elim (Bool-cases (is_current (lookup score.event_id tables.events) expected)) [
      | inl current ↦ absurd (stale (is_current-true _ expected current))
      | inr old ↦ rw old refl
    ],
  )
    where
      row : EventScore F
      row = conflict (lookup score.event_id scores) (inserted_score score expected now)

      kept :
          (other_id : ℕ)
          → other_id ≢ score.event_id
          → (b : Bool)
          → let pair : List (ℕ × EventScore F) × Option (EventScore F) =
              if b then (insert score.event_id row scores, some row) else (scores, none) in
            lookup other_id pair.0 ≡ lookup other_id scores
      kept other_id differs true =
          lookup-insert score.event_id other_id row scores
          ∙ ap (λ (b : Bool). if b then some row else lookup other_id scores)
              (==_ne score.event_id other_id (λ e. differs (sym e)))
      kept other_id differs false = refl

pub IsCurrent-cases :
    (tables : Tables) (event_id expected : ℕ)
    → IsCurrent tables event_id expected ⊎ (¬ IsCurrent tables event_id expected)
IsCurrent-cases tables event_id expected =
    elim (Bool-cases (is_current (lookup event_id tables.events) expected)) [
      | inl current ↦ inl (is_current-true _ expected current)
      | inr old ↦ inr (λ (stored, found, same).
          cc
            (sym old ∙ is_current_found (lookup event_id tables.events) expected stored found same))
    ]
