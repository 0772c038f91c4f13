-- ===== src/EntityAnalysis/Announced.antt =====
-- What the entity analysis has done with an article whose message it acknowledges.
use wealthfinder.Prelude.{
  ℕ, Text, text_eq, ◌≡◌, ◌∙◌, refl, sym, ap, ◌⊎◌, true, false, Option, none, some, List, [], ◌∷◌,
  ◌==◌, nat_eq, elem, inl, inr, Bool-cases, arith, map, ==→eq, ==_refl, subst,
}
use wealthfinder.Prelude.Result.{Exc, unreachable, rate_limit, sapi_error, cancelled, other, Result}
use wealthfinder.Prelude.Action.{Env}
use wealthfinder.Prelude.Action.Triple.{
  Triple, Keeps, Triple-return, Triple-lift, Triple-request, Triple-catch, Triple-bind,
  Triple-weaken, Ends-state,
}
use wealthfinder.RedisStream.Publish.{publish-Triple}
use wealthfinder.Models.{Stock, AnalysisOutcome, EntityEvent}
use wealthfinder.EntityAnalysis.{
  CleanedArticle, Analysis, ids_by_source_url, persist_entities, new_entity_event, publish_all,
  persisted_ids, after_persist, analyse_new, analyse_article, analyse_found, find_entity_events,
  trigger_backoff, analyse_failed, try_analyse, analyse,
}
use wealthfinder.EntityAnalysis.Stored.{persist_entities-ids}

abbrev pub AllIn : List ℕ → List ℕ → Type 0
AllIn ids announced = (i : ℕ) → elem i ids ≡ true → elem i announced ≡ true

elem-later : (i j : ℕ) (xs : List ℕ) → elem i xs ≡ true → elem i (j ∷ xs) ≡ true
unfolding elem
elem-later i j xs h = ground (arith, h)

elem-split :
    (i j : ℕ) (xs : List ℕ) → elem i (j ∷ xs) ≡ true → ((j == i) ≡ true) ⊎ (elem i xs ≡ true)
unfolding elem
elem-split i j xs h = elim (Bool-cases (j == i)) [
  | inl same ↦ inl same
  | inr differs ↦ inr (rw differs at h)
]

elem-first : (i j : ℕ) (xs : List ℕ) → (j == i) ≡ true → elem i (j ∷ xs) ≡ true
unfolding elem
elem-first i j xs h = rw h refl

none_in : (i : ℕ) → elem i [] ≡ false
unfolding elem
none_in i = refl

module _ {F : Type 0} where
  abbrev announce : ℕ → Analysis F → Analysis F
  announce id w = record w { announced = id ∷ w.announced }

  -- `publish_all` announces every id, and keeps what announcements keep.
  publish_all-Triple :
      (ids : List ℕ) (P : Analysis F → Type 0)
      → ((id : ℕ) (w : Analysis F) → P w → P (announce id w))
      → Triple P (publish_all ids) (λ _ w. P w × AllIn ids w.announced) (λ _. P)
  unfolding publish_all
  publish_all-Triple [] P stable =
      Triple-return tt (λ w p. (p, λ i h. absurd (cc (sym h ∙ none_in i))))
  publish_all-Triple (id ∷ ids) P stable =
      Triple-bind (λ _ w. P w × (elem id w.announced ≡ true)) _ _
        (publish-Triple (announce id) P (λ w. P w × (elem id w.announced ≡ true)) (stable id)
          (λ w p. (stable id w p, elem-first id id w.announced (==_refl id))))
        λ _.
          Triple-weaken (publish_all ids) (λ w p. p)
            (λ _ w p. (
              p.0.0,
              λ i h. elim (elem-split i id ids h) [
                | inl own ↦ subst (λ (j : ℕ). elem j w.announced ≡ true) (==→eq id i own) p.0.1
                | inr later ↦ p.1 i later
              ],
            ))
            (λ x w p. p.0)
            (publish_all-Triple ids (λ w. P w × (elem id w.announced ≡ true))
              (λ j w p. (stable j w p.0, elem-later id j w.announced p.1)))

module _ {F : Type 0} (uuid4 clock : ℕ → ℕ) (version : Text)
    (run_skill : CleanedArticle → Result (List (Stock × AnalysisOutcome F))) (acked : List ℕ)
    (cleaned_id : ℕ) where
  abbrev Same : Analysis F → Type 0
  Same w = w.acked ≡ acked

  -- There is no such article, or every EntityEvent stored for its URL was announced.
  abbrev pub Analysed : Analysis F → Type 0
  Analysed w =
      (w.articles cleaned_id ≡ none)
      ⊎ ((article : CleanedArticle) × (w.articles cleaned_id ≡ some article)
          × AllIn (ids_by_source_url article.source_url w.entity_events) w.announced)

  module _ (article : CleanedArticle) where
    abbrev Found : Analysis F → Type 0
    Found w = Same w × (w.articles cleaned_id ≡ some article)

    analyse_new-Analysed :
        Triple
          (λ w. Found w × (ids_by_source_url article.source_url w.entity_events ≡ []))
          (analyse_new uuid4 clock version run_skill article)
          (λ _ w. Same w × Analysed w)
          (λ _. Same)
    unfolding analyse_new
    analyse_new-Analysed =
        Triple-bind (λ _ w. Found w × (ids_by_source_url article.source_url w.entity_events ≡ [])) _
          _ (Triple-lift (run_skill article) (λ a e w p. p) (λ x e w p. p.0.0))
          λ entities.
            Triple-bind
              (λ ids w. Found w × AllIn (ids_by_source_url article.source_url w.entity_events) ids)
              _ _
              (Triple-request
                (persisted_ids uuid4 clock version run_skill
                  (map (new_entity_event version article) entities))
                (after_persist uuid4 clock version run_skill
                  (map (new_entity_event version article) entities))
                (λ w p. (p.0, stored_ids (map (new_entity_event version article) entities) w p.1))
                (λ x w p. (p.0.0, p.0.0)))
              λ ids.
                Triple-weaken (publish_all ids) (λ w p. p)
                  (λ _ w p. (p.0.0.0, inr (article, p.0.0.1, λ i h. p.1 i (p.0.1 i h))))
                  (λ x w p. p.0.0)
                  (publish_all-Triple ids
                    (λ w.
                      Found w × AllIn (ids_by_source_url article.source_url w.entity_events) ids)
                    (λ id w p. p))
      where
        stored_ids :
            (entities : List (EntityEvent F)) (w : Analysis F)
            → ids_by_source_url article.source_url w.entity_events ≡ []
            → AllIn
                (ids_by_source_url article.source_url
                  (persist_entities uuid4 clock w.draws entities w.entity_events).0)
                (persist_entities uuid4 clock w.draws entities w.entity_events).1
        stored_ids entities w empty i h =
            elim (persist_entities-ids uuid4 clock i article.source_url w.draws entities
              w.entity_events h) [
                | inl before ↦ absurd (cc (sym (rw empty at before) ∙ none_in i))
                | inr new ↦ new
              ]

    analyse_article-Analysed :
        (existing : List ℕ)
        → Triple
            (λ w. Found w × (existing ≡ ids_by_source_url article.source_url w.entity_events))
            (analyse_article uuid4 clock version run_skill article existing)
            (λ _ w. Same w × Analysed w)
            (λ _. Same)
    unfolding analyse_article
    analyse_article-Analysed [] =
        Triple-weaken (analyse_new uuid4 clock version run_skill article) (λ w p. (p.0, sym p.1))
          (λ _ w p. p) (λ x w p. p) analyse_new-Analysed
    analyse_article-Analysed (id ∷ ids) =
        Triple-weaken (publish_all (id ∷ ids)) (λ w p. p)
          (λ _ w p. (p.0.0.0, inr (article, p.0.0.1, λ i h. p.1 i (rw (sym p.0.1) at h))))
          (λ x w p. p.0.0)
          (publish_all-Triple (id ∷ ids)
            (λ w. Found w × ((id ∷ ids) ≡ ids_by_source_url article.source_url w.entity_events))
            (λ j w p. p))

  analyse_found-Analysed :
      (found : Option CleanedArticle)
      → Triple
          (λ w. Same w × (found ≡ w.articles cleaned_id))
          (analyse_found uuid4 clock version run_skill found)
          (λ _ w. Same w × Analysed w)
          (λ _. Same)
  unfolding analyse_found
  analyse_found-Analysed none = Triple-return tt (λ w p. (p.0, inl (sym p.1)))
  analyse_found-Analysed (some article) =
      Triple-bind
        (λ existing w.
          Found article w × (existing ≡ ids_by_source_url article.source_url w.entity_events))
        _ _
        (Triple-request (λ w. ids_by_source_url article.source_url w.entity_events) (λ w. w)
          (λ w p. ((p.0, sym p.1), refl)) (λ x w p. (p.0, p.0)))
        λ existing. analyse_article-Analysed article existing

  find_entity_events-Analysed :
      Triple Same
        (find_entity_events uuid4 clock version run_skill cleaned_id)
        (λ _ w. Same w × Analysed w)
        (λ _. Same)
  unfolding find_entity_events
  find_entity_events-Analysed =
      Triple-bind (λ found w. Same w × (found ≡ w.articles cleaned_id)) _ _
        (Triple-request (λ w. w.articles cleaned_id) (λ w. w) (λ w p. (p, refl)) (λ x w p. (p, p)))
        λ found. analyse_found-Analysed found

  module _ (message_id now backoff : ℕ) where
    -- No message is acknowledged, or only this one, whose article is analysed.
    abbrev pub Settled : Analysis F → Type 0
    Settled w = (w.acked ≡ acked) ⊎ ((w.acked ≡ message_id ∷ acked) × Analysed w)

    try_analyse-Settled :
        Triple Same
          (try_analyse uuid4 clock version run_skill now backoff cleaned_id message_id)
          (λ _. Settled)
          (λ _. Settled)
    unfolding try_analyse
    try_analyse-Settled =
        Triple-bind (λ _ w. Same w × Analysed w) _ _
          (Triple-weaken (find_entity_events uuid4 clock version run_skill cleaned_id) (λ w p. p)
            (λ _ w p. p) (λ x w p. inl p) find_entity_events-Analysed)
          λ _.
            Triple-request (λ w. tt) (λ w. record w { acked = message_id ∷ w.acked })
              (λ w p. inr (ap (λ l. message_id ∷ l) p.0, p.1))
              (λ x w p. (inl p.0, inr (ap (λ l. message_id ∷ l) p.0, p.1)))

    analyse_failed-Settled :
        (x : Exc) → Keeps Settled (analyse_failed uuid4 clock version run_skill now backoff x)
    unfolding trigger_backoff
    analyse_failed-Settled cancelled = record { run = λ e p. p }
    analyse_failed-Settled unreachable = record { run = λ e p. p }
    analyse_failed-Settled rate_limit = record { run = λ e p. p }
    analyse_failed-Settled sapi_error = record { run = λ e p. p }
    analyse_failed-Settled other = record { run = λ e p. p }

-- The analysis of a message acknowledges nothing, or that message; and this only when there is no such
-- article, or when every EntityEvent stored for the article's URL was announced, those included that
-- an earlier delivery stored. That holds however the requests and the skill end.
pub analyse-Settled :
    {F : Type 0} (uuid4 clock : ℕ → ℕ) (version : Text)
    (run_skill : CleanedArticle → Result (List (Stock × AnalysisOutcome F)))
    (now backoff cleaned_id message_id : ℕ) (e : Env (Analysis F))
    → Settled uuid4 clock version run_skill e.state.acked cleaned_id message_id now backoff
        (analyse uuid4 clock version run_skill now backoff cleaned_id message_id e).1.state
unfolding analyse
analyse-Settled {F} uuid4 clock version run_skill now backoff cleaned_id message_id e =
    let After : Analysis F → Type 0 =
      Settled uuid4 clock version run_skill e.state.acked cleaned_id message_id now backoff in
    let result = analyse uuid4 clock version run_skill now backoff cleaned_id message_id e in
    Ends-state After result.0 result.1 (
      (Triple-catch (λ _. After) _ _
          (try_analyse-Settled uuid4 clock version run_skill e.state.acked cleaned_id message_id now
            backoff)
          (analyse_failed-Settled uuid4 clock version run_skill e.state.acked cleaned_id message_id
            now backoff)).run
        e refl)
