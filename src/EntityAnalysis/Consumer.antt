-- ===== src/EntityAnalysis/Consumer.antt =====
-- entity_analysis/cleaned_news_consumer.py of stock-assistant-pipeline-intelligence/app: the articles
-- in flight. WorkerPool.dispatch waits for a slot and for the end of a backoff, and then runs the
-- work: `wait_for_slot` is the wait, which only a cancellation ends early.
pub mod Released
use wealthfinder.Prelude.{
  ℕ, Text, Bool, true, false, Option, none, some, List, [], ◌∷◌, elem, ◌==◌, nat_eq, if◌then◌else◌,
}
use wealthfinder.Prelude.Result.{Exc, Result}
use wealthfinder.Prelude.Action.{Env, Action, return, gets, modify, request, finally, ◌>>=◌, ◌>>◌}
use wealthfinder.Models.{Stock, AnalysisOutcome}
use wealthfinder.Aggregation.Service.{discard}
use wealthfinder.EntityAnalysis.{CleanedArticle, Analysis, analyse}

module _ {F : Type 0} (uuid4 clock : ℕ → ℕ) (version : Text)
    (run_skill : CleanedArticle → Result (List (Stock × AnalysisOutcome F))) (now backoff : ℕ) where
  unfoldable pub wait_for_slot : Action (Analysis F) (Unit {0})
  wait_for_slot = request (λ w. tt) (λ w. w)

  -- WorkerPool.dispatch of `_analyse`
  unfoldable pub dispatch : ℕ → ℕ → Action (Analysis F) (Unit {0})
  dispatch cleaned_id message_id = do
    wait_for_slot
    analyse uuid4 clock version run_skill now backoff cleaned_id message_id

  abbrev pub release : ℕ → Analysis F → Analysis F
  release cleaned_id w = record w {
    processing_cleaned_ids = discard cleaned_id w.processing_cleaned_ids;
  }

  unfoldable pub process_new : ℕ → ℕ → Action (Analysis F) (Unit {0})
  process_new cleaned_id message_id = do
    modify (λ w. record w { processing_cleaned_ids = cleaned_id ∷ w.processing_cleaned_ids })
    finally (dispatch cleaned_id message_id) (release cleaned_id)

  unfoldable pub process_ready : ℕ → ℕ → Action (Analysis F) (Unit {0})
  process_ready cleaned_id message_id = do
    in_flight ← gets (λ w. elem cleaned_id w.processing_cleaned_ids)
    if in_flight then return tt else process_new cleaned_id message_id

  -- `_process_one`; `list_size` is the length of the HK Stock List
  unfoldable pub process_one : ℕ → ℕ → ℕ → Action (Analysis F) (Unit {0})
  process_one list_size cleaned_id message_id =
      if list_size == 0 then return tt else process_ready cleaned_id message_id
