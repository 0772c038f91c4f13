-- ===== src/Scoring/Service/Scored.antt =====
-- What an acknowledged message of the scoring layer stands for (scoring/scoring_service.py and
-- scoring/scoring_consumer.py).
use wealthfinder.Prelude.{
  ℕ, ◌≡◌, ◌⊎◌, refl, ap, sym, true, Option, none, some, List, ◌∷◌, inl, inr, subst, elem, nat_eq,
  ==_refl,
}
use wealthfinder.Prelude.Floats.{Floats}
use wealthfinder.Prelude.Assoc.{lookup}
use wealthfinder.Prelude.Result.{
  Exc, unreachable, rate_limit, sapi_error, cancelled, other, assert_some, assert_some-eq-ok,
}
use wealthfinder.Prelude.Action.{Env}
use wealthfinder.Prelude.Action.Triple.{
  Triple, Keeps, Triple-return, Triple-lift, Triple-request, Triple-catch, Triple-modify,
  Triple-bind, Triple-weaken, Triple-given, Ends-state,
}
use wealthfinder.RedisStream.Publish.{publish-Triple}
use wealthfinder.Models.{Event, EntityEvent, EntitySource, VersionedMetadata}
use wealthfinder.Models.EventScore.{EventScore, RuleScore}
use wealthfinder.Persistent.EventRepository.{Tables, fetch_event}
use wealthfinder.Persistent.EventScoreRepository.Kept.{
  IsCurrent, IsCurrent-cases, persist_score_if_not_stale_lem,
}
use wealthfinder.Scoring.Rule.{ScoringConfig, SentimentAggregation, compute_rule_score}
use wealthfinder.Scoring.Service.{
  Scoring, fetch_entity_events_for_event, new_event_score, stored_row, after_persist,
  announce_stored, store_score, draw, store_computed, score_constituents, score_found, score_event,
  try_process, process_failed, process_one,
}

module _ {F : Type 0} (event_id : ℕ) where
  -- The Event's stored score is of its current version, and was announced.
  abbrev pub IsScored : Scoring F → Type 0
  IsScored w =
      (row : EventScore F) × (lookup event_id w.event_scores ≡ some row)
      × IsCurrent w.tables event_id row.scored_aggregation_updated_at
      × (elem event_id w.announced ≡ true)

  -- There was no such Event, or it was persisted again since it was read, or it is scored.
  abbrev pub IsDone : Tables → Scoring F → Type 0
  IsDone before w =
      (fetch_event before event_id ≡ none)
      ⊎ ((event : Event) × (version : ℕ) × (fetch_event before event_id ≡ some event)
          × (event.aggregation_updated_at ≡ some version)
          × (¬ IsCurrent w.tables event_id version))
      ⊎ IsScored w

  -- No message is acknowledged, or only this one, whose Event is done.
  abbrev pub Settled : List ℕ → ℕ → Tables → Scoring F → Type 0
  Settled acked message_id before w =
      (w.acked ≡ acked) ⊎ ((w.acked ≡ message_id ∷ acked) × IsDone before w)

elem-first : (i : ℕ) (xs : List ℕ) → elem i (i ∷ xs) ≡ true
unfolding elem
elem-first i xs = rw (==_refl i) refl

module _ {F : Type 0} ⦃f : Floats F⦄ (config : ScoringConfig F) (clock uuid4 : ℕ → ℕ)
    (meanwhile : Tables → Tables) (acked : List ℕ) where
  abbrev Same : Scoring F → Type 0
  Same w = w.acked ≡ acked

  -- what the statement wrote and returned
  abbrev Written : ℕ → ℕ → Option (EventScore F) → Scoring F → Type 0
  Written event_id expected returned w =
      Same w
      × (((returned ≡ none) × (¬ IsCurrent w.tables event_id expected))
          ⊎ ((row : EventScore F) × (returned ≡ some row)
              × (lookup event_id w.event_scores ≡ some row)
              × IsCurrent w.tables event_id row.scored_aggregation_updated_at))

  after_persist-Written :
      (score : EventScore F) (expected : ℕ) (w : Scoring F)
      → Same w
      → Written score.event_id expected
          (stored_row config clock uuid4 meanwhile score expected w)
          (after_persist config clock uuid4 meanwhile score expected w)
  after_persist-Written score expected w same =
      let (written, _, stale) =
        persist_score_if_not_stale_lem w.tables w.event_scores score expected (clock w.reads) in
      elim (IsCurrent-cases w.tables score.event_id expected) [
        | inl current ↦
            let (row, returned, stored, values) = written current in
            (
              same,
              inr (
                row,
                returned,
                stored,
                subst (IsCurrent w.tables score.event_id) (sym values.version) current,
              ),
            )
        | inr old ↦ (
          same,
          inl (ap (λ (p : List (ℕ × EventScore F) × Option (EventScore F)). p.1) (stale old), old),
        )
      ]

  abbrev Stored : ℕ → ℕ → Scoring F → Type 0
  Stored event_id expected w =
      Same w × ((¬ IsCurrent w.tables event_id expected) ⊎ IsScored event_id w)

  announce_stored-Stored :
      (event_id expected : ℕ) (returned : Option (EventScore F))
      → Triple
          (Written event_id expected returned)
          (announce_stored config clock uuid4 meanwhile event_id returned)
          (λ _. Stored event_id expected)
          (λ _. Same)
  unfolding announce_stored
  announce_stored-Stored event_id expected none = Triple-return tt (λ w (same, cases). (
    same,
    elim cases [ inl (_, old) ↦ inl old | inr (row, impossible, _, _) ↦ absurd (cc impossible) ],
  ))
  announce_stored-Stored event_id expected (some returned) =
      Triple-weaken (announce_stored config clock uuid4 meanwhile event_id (some returned))
        (λ w p. p) (λ _ w p. p) (λ x w p. p.0)
        (publish-Triple (λ w. record w { announced = event_id ∷ w.announced })
          (Written event_id expected (some returned)) (Stored event_id expected) (λ w p. p)
          (λ w (same, cases). (
            same,
            elim cases [
              | inl (impossible, _) ↦ absurd (cc impossible)
              | inr (row, _, stored, current) ↦
                  inr (row, stored, current, elem-first event_id w.announced)
            ],
          )))

  store_score-Stored :
      (expected : ℕ) (score : EventScore F)
      → Triple Same
          (store_score config clock uuid4 meanwhile score.event_id expected score)
          (λ _. Stored score.event_id expected)
          (λ _. Same)
  unfolding store_score
  store_score-Stored expected score =
      Triple-bind (λ _. Same) _ _
        (Triple-modify (λ w. record w { tables = meanwhile w.tables }) (λ w p. p))
        λ _.
          Triple-bind (Written score.event_id expected) _ _
            (Triple-request (stored_row config clock uuid4 meanwhile score expected)
              (after_persist config clock uuid4 meanwhile score expected)
              (after_persist-Written score expected) (λ x w p. (p, p)))
            λ returned. announce_stored-Stored score.event_id expected returned

  store_computed-Stored :
      (event_id expected : ℕ) (sentiment_agg : SentimentAggregation F)
      (detail : VersionedMetadata (RuleScore F))
      → Triple Same
          (store_computed config clock uuid4 meanwhile event_id expected sentiment_agg detail)
          (λ _. Stored event_id expected)
          (λ _. Same)
  unfolding store_computed new_event_score
  store_computed-Stored event_id expected sentiment_agg detail =
      Triple-bind (λ _. Same) (draw config clock uuid4 meanwhile) _ (record { run = λ e p. p })
        λ drawn.
          store_score-Stored expected
            (new_event_score drawn.1 event_id expected drawn.0 detail sentiment_agg)

  score_constituents-Stored :
      (event : Event) (event_id expected : ℕ) (sources : List EntitySource)
      (entity_events : List (EntityEvent F))
      → Triple Same
          (score_constituents config clock uuid4 meanwhile event event_id expected sources
            entity_events)
          (λ _. Stored event_id expected)
          (λ _. Same)
  unfolding score_constituents
  score_constituents-Stored event event_id expected sources entity_events =
      Triple-bind (λ _. Same) _ _
        (Triple-lift (compute_rule_score event _ _ _ config) (λ a e w p. p) (λ x e w p. p))
        λ detail. store_computed-Stored event_id expected _ detail

  module _ (event_id : ℕ) (before : Tables) where
    abbrev Finished : Scoring F → Type 0
    Finished w = Same w × IsDone event_id before w

    score_found-Finished :
        (found : Option Event)
        → fetch_event before event_id ≡ found
        → Triple Same
            (score_found config clock uuid4 meanwhile event_id found)
            (λ _. Finished)
            (λ _. Same)
    unfolding score_found
    score_found-Finished none read = Triple-return tt (λ w p. (p, inl read))
    score_found-Finished (some event) read =
        Triple-bind (λ version w. Same w × (event.aggregation_updated_at ≡ some version)) _ _
          (Triple-lift (assert_some event.aggregation_updated_at)
            (λ version e w p. (p, assert_some-eq-ok e)) (λ x e w p. p))
          λ version. Triple-given _ λ versioned.
            Triple-bind (λ _. Same) _ _
              (Triple-lift (assert_some event.source_list) (λ a e w p. p) (λ x e w p. p))
              λ sources.
                Triple-bind (λ _. Same) _ _
                  (Triple-request (fetch_entity_events_for_event event_id) (λ w. w) (λ w p. p)
                    (λ x w p. (p, p)))
                  λ entity_events.
                    Triple-weaken
                      (score_constituents config clock uuid4 meanwhile event event_id version
                        sources entity_events)
                      (λ w p. p)
                      (λ _ w (same, cases). (
                        same,
                        elim cases [
                          | inl old ↦ inr (inl (event, version, read, versioned, old))
                          | inr scored ↦ inr (inr scored)
                        ],
                      ))
                      (λ x w p. p)
                      (score_constituents-Stored event event_id version sources entity_events)

    abbrev Begun : Scoring F → Type 0
    Begun w = Same w × (w.tables ≡ before)

    try_process-Settled :
        (message_id : ℕ)
        → Triple Begun
            (try_process config clock uuid4 meanwhile event_id message_id)
            (λ _. Settled event_id acked message_id before)
            (λ _. Settled event_id acked message_id before)
    unfolding try_process score_event
    try_process-Settled message_id =
        Triple-bind (λ _. Finished) _ _
          (Triple-bind (λ found w. Same w × (fetch_event before event_id ≡ found)) _ _
            (Triple-request (λ w. fetch_event w.tables event_id) (λ w. w)
              (λ w p. (p.0, ap (λ (t : Tables). fetch_event t event_id) (sym p.1)))
              (λ x w p. (inl p.0, inl p.0)))
            λ found. Triple-given _ λ read.
              Triple-weaken (score_found config clock uuid4 meanwhile event_id found) (λ w p. p)
                (λ _ w p. p) (λ x w p. inl p) (score_found-Finished found read))
          λ _.
            Triple-request (λ w. tt) (λ w. record w { acked = message_id ∷ w.acked })
              (λ w p. inr (ap (◌∷◌ message_id) p.0, p.1))
              (λ x w p. (inl p.0, inr (ap (◌∷◌ message_id) p.0, p.1)))

    process_failed-Settled :
        (message_id : ℕ) (x : Exc)
        → Keeps
            (Settled event_id acked message_id before)
            (process_failed config clock uuid4 meanwhile x)
    unfolding process_failed
    process_failed-Settled message_id cancelled = record { run = λ e p. p }
    process_failed-Settled message_id unreachable = record { run = λ e p. p }
    process_failed-Settled message_id rate_limit = record { run = λ e p. p }
    process_failed-Settled message_id sapi_error = record { run = λ e p. p }
    process_failed-Settled message_id other = record { run = λ e p. p }

-- Processing a message of the scoring layer acknowledges nothing, or that message; and this only when
-- there was no such Event, or the Event was persisted again after it was read, or its stored score is
-- of its current version and was announced. That holds however the requests end and whatever the
-- aggregation layer writes meanwhile.
pub process_one-Settled :
    {F : Type 0} ⦃f : Floats F⦄ (config : ScoringConfig F) (clock uuid4 : ℕ → ℕ)
    (meanwhile : Tables → Tables) (event_id message_id : ℕ) (e : Env (Scoring F))
    → Settled event_id e.state.acked message_id e.state.tables
        (process_one config clock uuid4 meanwhile event_id message_id e).1.state
unfolding process_one
process_one-Settled {F} config clock uuid4 meanwhile event_id message_id e =
    let After : Scoring F → Type 0 = Settled event_id e.state.acked message_id e.state.tables in
    let ended = process_one config clock uuid4 meanwhile event_id message_id e in
    Ends-state After ended.0 ended.1 (
      (Triple-catch (λ _. After) _ _
          (try_process-Settled config clock uuid4 meanwhile e.state.acked event_id e.state.tables
            message_id)
          (process_failed-Settled config clock uuid4 meanwhile e.state.acked event_id e.state.tables
            message_id)).run
        e (refl, refl))
