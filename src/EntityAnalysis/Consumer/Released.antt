-- ===== src/EntityAnalysis/Consumer/Released.antt =====
-- The articles in flight (entity_analysis/cleaned_news_consumer.py): an id that stays in the set makes
-- every redelivery of its article skip.
use wealthfinder.Prelude.{
  ℕ, Text, ◌≡◌, ◌∙◌, refl, ap, false, Option, none, some, List, [], ◌∷◌, ◌==◌, nat_eq, elem, inl,
  inr, Bool-cases, arith, ==_refl,
}
use wealthfinder.Prelude.Result.{Exc, unreachable, rate_limit, sapi_error, cancelled, other, Result}
use wealthfinder.Prelude.Action.{Env}
use wealthfinder.Prelude.Action.Triple.{
  Keeps, Triple-return, Triple-lift, Triple-request, Triple-catch, Triple-bind, Ends-state,
}
use wealthfinder.RedisStream.Publish.{publish-Keeps}
use wealthfinder.Models.{Stock, AnalysisOutcome}
use wealthfinder.Aggregation.Service.{discard}
use wealthfinder.EntityAnalysis.{
  CleanedArticle, Analysis, ids_by_source_url, publish_all, analyse_new, analyse_article,
  analyse_found, find_entity_events, trigger_backoff, analyse_failed, try_analyse, analyse,
}
use wealthfinder.EntityAnalysis.Consumer.{
  wait_for_slot, dispatch, process_new, process_ready, process_one,
}

elem-discard_absent :
    (i id : ℕ) (xs : List ℕ) → elem id xs ≡ false → elem i (discard id xs) ≡ elem i xs
unfolding elem discard
elem-discard_absent i id [] h = refl
elem-discard_absent i id (x ∷ xs) h = ground (arith, elem-discard_absent i id xs)

discard_first : (id : ℕ) (xs : List ℕ) → discard id (id ∷ xs) ≡ discard id xs
unfolding discard
discard_first id xs = rw (==_refl id) refl

module _ {F : Type 0} (uuid4 clock : ℕ → ℕ) (version : Text)
    (run_skill : CleanedArticle → Result (List (Stock × AnalysisOutcome F))) (now backoff : ℕ)
    (processing : List ℕ) where
  abbrev Same : Analysis F → Type 0
  Same w = w.processing_cleaned_ids ≡ processing

  publish_all-Keeps : (ids : List ℕ) → Keeps Same (publish_all ids)
  unfolding publish_all
  publish_all-Keeps [] = Triple-return tt (λ w p. p)
  publish_all-Keeps (id ∷ ids) =
      Triple-bind (λ _. Same) _ _
        (publish-Keeps (λ w. record w { announced = id ∷ w.announced }) Same (λ w p. p))
        λ _. publish_all-Keeps ids

  analyse_new-Keeps :
      (article : CleanedArticle) → Keeps Same (analyse_new uuid4 clock version run_skill article)
  unfolding analyse_new
  analyse_new-Keeps article =
      Triple-bind (λ _. Same) _ _ (Triple-lift (run_skill article) (λ a e w p. p) (λ x e w p. p))
        λ entities.
          Triple-bind (λ _. Same) _ _ (Triple-request _ _ (λ w p. p) (λ x w p. (p, p)))
            λ ids. publish_all-Keeps ids

  analyse_article-Keeps :
      (article : CleanedArticle) (ids : List ℕ)
      → Keeps Same (analyse_article uuid4 clock version run_skill article ids)
  unfolding analyse_article
  analyse_article-Keeps article [] = analyse_new-Keeps article
  analyse_article-Keeps article (id ∷ ids) = publish_all-Keeps (id ∷ ids)

  analyse_found-Keeps :
      (found : Option CleanedArticle)
      → Keeps Same (analyse_found uuid4 clock version run_skill found)
  unfolding analyse_found
  analyse_found-Keeps none = Triple-return tt (λ w p. p)
  analyse_found-Keeps (some article) =
      Triple-bind (λ _. Same) _ _
        (Triple-request (λ w. ids_by_source_url article.source_url w.entity_events) (λ w. w)
          (λ w p. p) (λ x w p. (p, p)))
        λ ids. analyse_article-Keeps article ids

  try_analyse-Keeps :
      (cleaned_id message_id : ℕ)
      → Keeps Same (try_analyse uuid4 clock version run_skill now backoff cleaned_id message_id)
  unfolding try_analyse find_entity_events
  try_analyse-Keeps cleaned_id message_id =
      Triple-bind (λ _. Same) _ _
        (Triple-bind (λ _. Same) _ _
          (Triple-request (λ w. w.articles cleaned_id) (λ w. w) (λ w p. p) (λ x w p. (p, p)))
          λ found. analyse_found-Keeps found)
        λ _.
          Triple-request (λ w. tt) (λ w. record w { acked = message_id ∷ w.acked }) (λ w p. p)
            (λ x w p. (p, p))

  analyse_failed-Keeps :
      (x : Exc) → Keeps Same (analyse_failed uuid4 clock version run_skill now backoff x)
  unfolding trigger_backoff
  analyse_failed-Keeps cancelled = record { run = λ e p. p }
  analyse_failed-Keeps unreachable = record { run = λ e p. p }
  analyse_failed-Keeps rate_limit = record { run = λ e p. p }
  analyse_failed-Keeps sapi_error = record { run = λ e p. p }
  analyse_failed-Keeps other = record { run = λ e p. p }

  dispatch-Keeps :
      (cleaned_id message_id : ℕ)
      → Keeps Same (dispatch uuid4 clock version run_skill now backoff cleaned_id message_id)
  unfolding dispatch wait_for_slot analyse
  dispatch-Keeps cleaned_id message_id =
      Triple-bind (λ _. Same) _ _ (Triple-request (λ w. tt) (λ w. w) (λ w p. p) (λ x w p. (p, p)))
        λ _.
          Triple-catch (λ _. Same) _ _ (try_analyse-Keeps cleaned_id message_id)
            analyse_failed-Keeps

module _ {F : Type 0} (uuid4 clock : ℕ → ℕ) (version : Text)
    (run_skill : CleanedArticle → Result (List (Stock × AnalysisOutcome F))) (now backoff : ℕ) where
  -- Processing a message leaves the same articles in flight as there were before, however the analysis
  -- ends, also if it is cancelled or its acknowledgement fails.
  pub process_one-released :
      (list_size cleaned_id message_id i : ℕ) (e : Env (Analysis F))
      → elem i
          (process_one uuid4 clock version run_skill now backoff list_size cleaned_id message_id
            e).1.state.processing_cleaned_ids
        ≡ elem i e.state.processing_cleaned_ids
  unfolding process_one process_ready process_new
  process_one-released list_size cleaned_id message_id i e = elim (Bool-cases (list_size == 0)) [
    | inl empty ↦ rw empty refl
    | inr ready ↦ rw ready (elim (Bool-cases (elem cleaned_id e.state.processing_cleaned_ids)) [
      | inl there ↦ rw there refl
      | inr new ↦ rw new (kept new)
    ])
  ]
    where
      ids : List ℕ
      ids = e.state.processing_cleaned_ids

      added : Env (Analysis F)
      added = record e { state = record e.state { processing_cleaned_ids = cleaned_id ∷ ids } }

      ended : Result (Unit {0}) × Env (Analysis F)
      ended = dispatch uuid4 clock version run_skill now backoff cleaned_id message_id added

      kept :
          elem cleaned_id ids ≡ false
          → elem i (discard cleaned_id ended.1.state.processing_cleaned_ids) ≡ elem i ids
      kept new =
          ap (λ (l : List ℕ). elem i (discard cleaned_id l))
            (Ends-state (λ (w : Analysis F). w.processing_cleaned_ids ≡ cleaned_id ∷ ids) ended.0
              ended.1
              ((dispatch-Keeps uuid4 clock version run_skill now backoff (cleaned_id ∷ ids)
                  cleaned_id message_id).run
                added refl))
          ∙ ap (λ (l : List ℕ). elem i l) (discard_first cleaned_id ids)
          ∙ elem-discard_absent i cleaned_id ids new
