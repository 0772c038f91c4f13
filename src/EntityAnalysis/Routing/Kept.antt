-- ===== src/EntityAnalysis/Routing/Kept.antt =====
-- What the routing of a message keeps (entity_analysis/cleaned_news_consumer.py).
use wealthfinder.Prelude.{
  ℕ, Text, Bool, ◌≡◌, ◌∙◌, refl, Option, none, some, List, ◌∷◌, nat_eq, elem,
}
use wealthfinder.Prelude.Result.{
  Exc, unreachable, rate_limit, sapi_error, cancelled, other, Result, ok, raise,
}
use wealthfinder.Prelude.Action.{Env}
use wealthfinder.Prelude.Action.Triple.{
  Keeps, Ends, Triple-request, Triple-catch, Triple-bind, Triple-if, Ends-state,
}
use wealthfinder.RedisStream.Publish.{publish-Keeps}
use wealthfinder.RedisStream.Messages.{Message, content, dead_letter_entry}
use wealthfinder.Models.{Stock, AnalysisOutcome}
use wealthfinder.Aggregation.Consumer.{is_out_of_retries}
use wealthfinder.EntityAnalysis.{CleanedArticle, Analysis}
use wealthfinder.EntityAnalysis.Consumer.Released.{process_one-released}
use wealthfinder.EntityAnalysis.Routing.{
  get_valid_cleaned_id, push_dead_letter, handling_failed, route_cleaned, try_route, route,
}

state-Ends :
    {S A : Type 0} (P : S → Type 0) (r : Result A) (e : Env S)
    → P e.state
    → Ends (λ _. P) (λ _. P) (r, e)
state-Ends P (ok a) e p = p
state-Ends P (raise x) e p = p

module _ {F : Type 0} (uuid4 clock : ℕ → ℕ) (version : Text)
    (run_skill : CleanedArticle → Result (List (Stock × AnalysisOutcome F)))
    (now backoff list_size max_retry failed_at : ℕ) (parse_uuid : Text → Option ℕ) where
  module _ (i : ℕ) (flying : Bool) where
    abbrev InFlight : Analysis F → Type 0
    InFlight w = elem i w.processing_cleaned_ids ≡ flying

    push_dead_letter-Keeps :
        (message : Message) → Keeps InFlight (push_dead_letter failed_at message)
    unfolding push_dead_letter
    push_dead_letter-Keeps message =
        Triple-bind (λ _. InFlight) _ _
          (publish-Keeps
            (λ (w : Analysis F). record w {
              dead_letters = dead_letter_entry message failed_at ∷ w.dead_letters;
            })
            InFlight (λ w p. p))
          λ _.
            Triple-request (λ w. tt) (λ w. record w { acked = (content message).id ∷ w.acked })
              (λ w p. p) (λ x w p. (p, p))

    handling_failed-Keeps : (x : Exc) → Keeps InFlight (handling_failed x)
    unfolding handling_failed
    handling_failed-Keeps cancelled = record { run = λ e p. p }
    handling_failed-Keeps unreachable = record { run = λ e p. p }
    handling_failed-Keeps rate_limit = record { run = λ e p. p }
    handling_failed-Keeps sapi_error = record { run = λ e p. p }
    handling_failed-Keeps other = record { run = λ e p. p }

    route_cleaned-Keeps :
        (found : Option ℕ) (message : Message)
        → Keeps InFlight (
            route_cleaned uuid4 clock version run_skill now backoff list_size max_retry failed_at
              parse_uuid found message)
    unfolding route_cleaned
    route_cleaned-Keeps none message = push_dead_letter-Keeps message
    route_cleaned-Keeps (some cleaned_id) message = record {
      run = λ e p. state-Ends InFlight _ _ (
          process_one-released uuid4 clock version run_skill now backoff list_size cleaned_id
            (content message).id i e
          ∙ p);
    }

  -- Routing a message leaves the same articles in flight as there were before, whether the message is
  -- dead-lettered or its article is analysed, and however that ends, also if it is cancelled or an
  -- acknowledgement fails.
  pub route-released :
      (message : Message) (i : ℕ) (e : Env (Analysis F))
      → elem i
          (route uuid4 clock version run_skill now backoff list_size max_retry failed_at parse_uuid
            message e).1.state.processing_cleaned_ids
        ≡ elem i e.state.processing_cleaned_ids
  unfolding route try_route
  route-released message i e = Ends-state (InFlight i (elem i e.state.processing_cleaned_ids)) _ _ (
      (Triple-catch (λ _. InFlight i (elem i e.state.processing_cleaned_ids)) _ _
          (Triple-if (is_out_of_retries max_retry message) _ _
            (λ _. push_dead_letter-Keeps i (elem i e.state.processing_cleaned_ids) message)
            (λ _.
              route_cleaned-Keeps i (elem i e.state.processing_cleaned_ids)
                (get_valid_cleaned_id parse_uuid message) message))
          (handling_failed-Keeps i (elem i e.state.processing_cleaned_ids))).run
        e refl)
