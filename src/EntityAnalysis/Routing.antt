-- ===== src/EntityAnalysis/Routing.antt =====
-- entity_analysis/cleaned_news_consumer.py of stock-assistant-pipeline-intelligence/app: the routing of
-- one message. A batch's messages are routed concurrently, which is left out here.
pub mod Kept
use wealthfinder.Prelude.{ℕ, Text, text_eq, Option, none, some, List, ◌∷◌, ◌==◌, if◌then◌else◌}
use wealthfinder.Prelude.Assoc.{lookup}
use wealthfinder.Prelude.Result.{Exc, unreachable, rate_limit, sapi_error, cancelled, other, Result}
use wealthfinder.Prelude.Action.{Action, return, fail, request, catch, ◌>>=◌, ◌>>◌}
use wealthfinder.RedisStream.{publish}
use wealthfinder.RedisStream.Messages.{Message, content, dead_letter_entry}
use wealthfinder.Models.{Stock, AnalysisOutcome}
use wealthfinder.Models.EventType.{codes}
use wealthfinder.Aggregation.Consumer.{is_out_of_retries}
use wealthfinder.EntityAnalysis.{CleanedArticle, Analysis}
use wealthfinder.EntityAnalysis.Consumer.{process_one}

-- `_get_valid_cleaned_id`; `parse_uuid` is UUID, none where it raises a ValueError
unfoldable pub get_valid_cleaned_id : (Text → Option ℕ) → Message → Option ℕ
get_valid_cleaned_id parse_uuid message = elim (lookup (codes "v") (content message).fields) [
  | none ↦ none
  | some version ↦
      if version == codes "1"
      then elim (lookup (codes "cleaned_id") (content message).fields) [
        | none ↦ none
        | some text ↦ parse_uuid text
      ]
      else none
]

module _ {F : Type 0} where
  -- `_push_dead_letter` at the time `failed_at`: the dead letter, and then the acknowledgement
  unfoldable pub push_dead_letter : ℕ → Message → Action (Analysis F) (Unit {0})
  push_dead_letter failed_at message = do
    publish (λ w. record w { dead_letters = dead_letter_entry message failed_at ∷ w.dead_letters })
    request (λ w. tt) (λ w. record w { acked = (content message).id ∷ w.acked })

  -- `except Exception` catches neither a cancellation nor what is raised again before it.
  unfoldable pub handling_failed : Exc → Action (Analysis F) (Unit {0})
  handling_failed cancelled = fail cancelled
  handling_failed unreachable = fail unreachable
  handling_failed rate_limit = return tt
  handling_failed sapi_error = return tt
  handling_failed other = return tt

  module _ (uuid4 clock : ℕ → ℕ) (version : Text)
      (run_skill : CleanedArticle → Result (List (Stock × AnalysisOutcome F)))
      (now backoff list_size max_retry failed_at : ℕ) (parse_uuid : Text → Option ℕ) where
    unfoldable pub route_cleaned : Option ℕ → Message → Action (Analysis F) (Unit {0})
    route_cleaned none message = push_dead_letter failed_at message
    route_cleaned (some cleaned_id) message =
        process_one uuid4 clock version run_skill now backoff list_size cleaned_id
          (content message).id

    unfoldable pub try_route : Message → Action (Analysis F) (Unit {0})
    try_route message =
        if is_out_of_retries max_retry message
        then push_dead_letter failed_at message
        else route_cleaned (get_valid_cleaned_id parse_uuid message) message

    -- `_route`
    unfoldable pub route : Message → Action (Analysis F) (Unit {0})
    unfolding try_route
    route message = catch (try_route message) handling_failed
