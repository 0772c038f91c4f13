-- ===== src/Scoring/Service/Identity.antt =====
-- The identity of an Event's score over the rounds of scoring/scoring_consumer.py.
use wealthfinder.Prelude.{
  ℕ, ◌≡◌, ◌∙◌, Text, Option, none, some, List, [], ◌∷◌, inl, inr, ◌==◌, nat_eq, Bool-cases, ==→eq,
  arith, sym, subst,
}
use wealthfinder.Prelude.Floats.{Floats}
use wealthfinder.Prelude.Assoc.{lookup}
use wealthfinder.Prelude.Result.{
  Exc, unreachable, rate_limit, sapi_error, cancelled, other, assert_some,
}
use wealthfinder.Prelude.Action.{Env}
use wealthfinder.Prelude.Action.Triple.{
  Keeps, Triple-return, Triple-lift, Triple-request, Triple-catch, Triple-modify, Triple-bind,
  Ends-state,
}
use wealthfinder.RedisStream.Messages.{StreamMessage}
use wealthfinder.RedisStream.Publish.{publish-Keeps}
use wealthfinder.Models.{Event, VersionedMetadata}
use wealthfinder.Models.EventScore.{EventScore, RuleScore}
use wealthfinder.Persistent.EventRepository.{Tables, fetch_event}
use wealthfinder.Persistent.EventScoreRepository.{persist_score_if_not_stale}
use wealthfinder.Persistent.EventScoreRepository.Kept.{
  IsCurrent-cases, persist_score_if_not_stale_lem,
}
use wealthfinder.Scoring.Rule.{ScoringConfig, SentimentAggregation, compute_rule_score}
use wealthfinder.Scoring.Service.{
  Scoring, fetch_entity_events_for_event, new_event_score, stored_row, after_persist,
  announce_stored, store_score, draw, store_computed, score_constituents, score_found, score_event,
  try_process, process_failed, process_one, message_event_id, route_id, route, route_all,
  round_failed, consumer_round,
}

module _ {F : Type 0} (event_id score_id created_at : ℕ) where
  -- The Event has a score with this id and creation time.
  abbrev pub Identified : List (ℕ × EventScore F) → Type 0
  Identified scores =
      (row : EventScore F) × (lookup event_id scores ≡ some row)
      × (row.score_id ≡ score_id)
      × (row.created_at ≡ created_at)

  persist-Identified :
      (tables : Tables) (scores : List (ℕ × EventScore F)) (score : EventScore F) (expected now : ℕ)
      → Identified scores
      → Identified (persist_score_if_not_stale tables scores score expected now).0
  persist-Identified tables scores score expected now (old, found, same_id, same_time) =
      let (written, others, stale) =
        persist_score_if_not_stale_lem tables scores score expected now in
      elim (IsCurrent-cases tables score.event_id expected) [
        | inr not_current ↦ rw (stale not_current) (old, found, same_id, same_time)
        | inl current ↦ elim (Bool-cases (event_id == score.event_id)) [
          | inr differs ↦ (old, others event_id (λ e. ground arith) ∙ found, same_id, same_time)
          | inl same ↦
              let (row, _, stored, values) = written current in
              let own = ==→eq event_id score.event_id same in
              let (id_kept, time_kept) =
                values.old_id old (subst (λ (i : ℕ). lookup i scores ≡ some old) own found) in
              (
                row,
                subst
                    (λ (i : ℕ).
                      lookup i (persist_score_if_not_stale tables scores score expected now).0
                      ≡ some row)
                    (sym own) stored,
                id_kept ∙ same_id,
                time_kept ∙ same_time,
              )
        ]
      ]

module _ {F : Type 0} ⦃f : Floats F⦄ (config : ScoringConfig F) (clock uuid4 : ℕ → ℕ)
    (meanwhile : Tables → Tables) (id score_id created_at : ℕ) where
  abbrev Kept : Scoring F → Type 0
  Kept w = Identified id score_id created_at w.event_scores

  announce_stored-Keeps :
      (event_id : ℕ) (returned : Option (EventScore F))
      → Keeps Kept (announce_stored config clock uuid4 meanwhile event_id returned)
  unfolding announce_stored
  announce_stored-Keeps event_id none = Triple-return tt (λ w p. p)
  announce_stored-Keeps event_id (some row) =
      publish-Keeps (λ w. record w { announced = event_id ∷ w.announced }) Kept (λ w p. p)

  store_score-Keeps :
      (event_id expected : ℕ) (score : EventScore F)
      → Keeps Kept (store_score config clock uuid4 meanwhile event_id expected score)
  unfolding store_score
  store_score-Keeps event_id expected score =
      Triple-bind (λ _. Kept) _ _
        (Triple-modify (λ w. record w { tables = meanwhile w.tables }) (λ w p. p))
        λ _.
          Triple-bind (λ _. Kept) _ _
            (Triple-request (stored_row config clock uuid4 meanwhile score expected)
              (after_persist config clock uuid4 meanwhile score expected)
              (λ w p.
                persist-Identified id score_id created_at w.tables w.event_scores score expected
                  (clock w.reads) p)
              (λ x w p. (
                p,
                persist-Identified id score_id created_at w.tables w.event_scores score expected
                    (clock w.reads) p,
              )))
            λ returned. announce_stored-Keeps event_id returned

  store_computed-Keeps :
      (event_id expected : ℕ) (sentiment_agg : SentimentAggregation F)
      (detail : VersionedMetadata (RuleScore F))
      → Keeps Kept
          (store_computed config clock uuid4 meanwhile event_id expected sentiment_agg detail)
  unfolding store_computed
  store_computed-Keeps event_id expected sentiment_agg detail =
      Triple-bind (λ _. Kept) (draw config clock uuid4 meanwhile) _ (record { run = λ e p. p })
        λ drawn.
          store_score-Keeps event_id expected
            (new_event_score drawn.1 event_id expected drawn.0 detail sentiment_agg)

  score_found-Keeps :
      (event_id : ℕ) (found : Option Event)
      → Keeps Kept (score_found config clock uuid4 meanwhile event_id found)
  unfolding score_found score_constituents
  score_found-Keeps event_id none = Triple-return tt (λ w p. p)
  score_found-Keeps event_id (some event) =
      Triple-bind (λ _. Kept) _ _
        (Triple-lift (assert_some event.aggregation_updated_at) (λ a e w p. p) (λ x e w p. p))
        λ expected.
          Triple-bind (λ _. Kept) _ _
            (Triple-lift (assert_some event.source_list) (λ a e w p. p) (λ x e w p. p))
            λ sources.
              Triple-bind (λ _. Kept) _ _
                (Triple-request (fetch_entity_events_for_event event_id) (λ w. w) (λ w p. p)
                  (λ x w p. (p, p)))
                λ entity_events.
                  Triple-bind (λ _. Kept) _ _
                    (Triple-lift (compute_rule_score event _ _ _ config) (λ a e w p. p)
                      (λ x e w p. p))
                    λ detail. store_computed-Keeps event_id expected _ detail

  process_failed-Keeps : (x : Exc) → Keeps Kept (process_failed config clock uuid4 meanwhile x)
  unfolding process_failed
  process_failed-Keeps cancelled = record { run = λ e p. p }
  process_failed-Keeps unreachable = record { run = λ e p. p }
  process_failed-Keeps rate_limit = record { run = λ e p. p }
  process_failed-Keeps sapi_error = record { run = λ e p. p }
  process_failed-Keeps other = record { run = λ e p. p }

  process_one-Keeps :
      (event_id message_id : ℕ)
      → Keeps Kept (process_one config clock uuid4 meanwhile event_id message_id)
  unfolding process_one try_process score_event
  process_one-Keeps event_id message_id =
      Triple-catch (λ _. Kept) _ _
        (Triple-bind (λ _. Kept) _ _
          (Triple-bind (λ _. Kept) _ _
            (Triple-request (λ w. fetch_event w.tables event_id) (λ w. w) (λ w p. p)
              (λ x w p. (p, p)))
            λ found. score_found-Keeps event_id found)
          λ _.
            Triple-request (λ w. tt) (λ w. record w { acked = message_id ∷ w.acked }) (λ w p. p)
              (λ x w p. (p, p)))
        process_failed-Keeps

  module _ (parse_uuid : Text → Option ℕ) where
    route_id-Keeps :
        (event_id : Option ℕ) (message_id : ℕ)
        → Keeps Kept (route_id config clock uuid4 meanwhile parse_uuid event_id message_id)
    unfolding route_id
    route_id-Keeps none message_id = Triple-return tt (λ w p. p)
    route_id-Keeps (some event_id) message_id = process_one-Keeps event_id message_id

    route_all-Keeps :
        (messages : List StreamMessage)
        → Keeps Kept (route_all config clock uuid4 meanwhile parse_uuid messages)
    unfolding route_all route
    route_all-Keeps [] = Triple-return tt (λ w p. p)
    route_all-Keeps (message ∷ messages) =
        Triple-bind (λ _. Kept) _ _
          (route_id-Keeps (message_event_id config clock uuid4 meanwhile parse_uuid message)
            message.id)
          λ _. route_all-Keeps messages

    round_failed-Keeps :
        (x : Exc) → Keeps Kept (round_failed config clock uuid4 meanwhile parse_uuid x)
    unfolding round_failed
    round_failed-Keeps unreachable = record { run = λ e p. p }
    round_failed-Keeps cancelled = record { run = λ e p. p }
    round_failed-Keeps rate_limit = record { run = λ e p. p }
    round_failed-Keeps sapi_error = record { run = λ e p. p }
    round_failed-Keeps other = record { run = λ e p. p }

    -- A round of the scoring layer keeps the score of every Event that has one, with its id and the
    -- time of its creation, whatever messages it routes and however the requests end.
    pub consumer_round-Identified :
        (messages : List StreamMessage) (e : Env (Scoring F))
        → Identified id score_id created_at e.state.event_scores
        → Identified id score_id created_at
            (consumer_round config clock uuid4 meanwhile parse_uuid messages e).1.state.event_scores
    unfolding consumer_round
    consumer_round-Identified messages e before =
        let ended = consumer_round config clock uuid4 meanwhile parse_uuid messages e in
        Ends-state Kept ended.0 ended.1 (
          (Triple-catch (λ _. Kept) _ _
              (Triple-bind (λ _. Kept) _ _
                (Triple-request (λ w. messages) (λ w. w) (λ w p. p) (λ x w p. (p, p)))
                route_all-Keeps)
              round_failed-Keeps).run
            e before)
