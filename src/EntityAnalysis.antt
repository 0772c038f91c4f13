-- ===== src/EntityAnalysis.antt =====
-- entity_analysis/entity_analysis_service.py, the analysis of one message in cleaned_news_consumer.py,
-- and persistent/entity_event_repository.py, of stock-assistant-pipeline-intelligence/app. What the
-- skill makes of an article (Skills) is the parameter `run_skill`, which raises the LLM's errors.
pub mod Stored
pub mod Announced
pub mod Consumer
pub mod Routing
use wealthfinder.Prelude.{
  ℕ, suc, Text, text_eq, Bool, true, false, ◌&&◌, ◌||◌, Option, none, some, List, [], ◌∷◌, ◌++◌,
  ◌==◌, nat_eq, if◌then◌else◌, map, ◌+◌, length,
}
use wealthfinder.Prelude.Result.{
  Exc, unreachable, rate_limit, sapi_error, cancelled, other, Result, ok, raise,
}
use wealthfinder.Prelude.Action.{
  Env, Action, return, fail, lift, modify, request, catch, ◌>>=◌, ◌>>◌,
}
use wealthfinder.RedisStream.{publish}
use wealthfinder.RedisStream.Messages.{DeadLetter}
use wealthfinder.Models.{Stock, EntityEvent, AnalysisOutcome, VersionedMetadata}

-- what news_client.py returns of an article
pub record CleanedArticle : Type 0 where
  pub cleaned_id : ℕ
  pub source_url : Text
  pub source_name : Text
  pub published_at : Option ℕ

pub record Analysis (F : Type 0) : Type 0 where
  -- the articles that stock-assistant-data-ingestion has, by cleaned_id
  pub articles : ℕ → Option CleanedArticle
  -- the entity_events table, by entity_event_id
  pub entity_events : List (ℕ × EntityEvent F)
  -- the ids on stream:entity_event_completed, the latest first
  pub announced : List ℕ
  -- the acknowledged messages of stream:raw_news_cleaned, the latest first
  pub acked : List ℕ
  -- stream:entity_analysis_dead_letter, the latest first
  pub dead_letters : List DeadLetter
  -- CleanedNewsConsumer._processing_cleaned_ids
  pub processing_cleaned_ids : List ℕ
  -- WorkerPool._rate_limit_until
  pub rate_limit_until : ℕ
  -- how many rows were tried
  pub draws : ℕ

module _ {F : Type 0} where
  -- ON CONFLICT (source_url, stock_code) DO NOTHING
  unfoldable pub conflicts : EntityEvent F → List (ℕ × EntityEvent F) → Bool
  conflicts entity [] = false
  conflicts entity ((id, row) ∷ rows) =
      (row.source_url == entity.source_url && row.stock.stock_code == entity.stock.stock_code)
      || conflicts entity rows

  -- `_SELECT_ENTITY_EVENT_IDS_BY_SOURCE_URL_SQL`
  unfoldable pub ids_by_source_url : Text → List (ℕ × EntityEvent F) → List ℕ
  ids_by_source_url url [] = []
  ids_by_source_url url ((id, row) ∷ rows) =
      let rest = ids_by_source_url url rows in if row.source_url == url then id ∷ rest else rest

  module _ (uuid4 clock : ℕ → ℕ) where
    -- one round of the loop of persist_entities, the n-th of the process
    abbrev pub stored_row : ℕ → EntityEvent F → ℕ × EntityEvent F
    stored_row n entity =
        (uuid4 n, record entity { entity_event_id = some (uuid4 n); created_at = some (clock n) })

    -- `persist_entities`: the table afterwards, and the ids that are newly stored
    unfoldable pub persist_entities :
        ℕ → List (EntityEvent F) → List (ℕ × EntityEvent F) → List (ℕ × EntityEvent F) × List ℕ
    persist_entities n [] rows = (rows, [])
    persist_entities n (entity ∷ entities) rows =
        if conflicts entity rows
        then persist_entities (suc n) entities rows
        else (let (rows', persisted) =
              persist_entities (suc n) entities (stored_row n entity ∷ rows) in
            (rows', uuid4 n ∷ persisted))

  -- the EntityEvent that the service makes of one verified entity
  unfoldable pub new_entity_event :
      Text → CleanedArticle → Stock × AnalysisOutcome F → EntityEvent F
  new_entity_event version article entity = record {
    source_id = article.cleaned_id;
    source_url = article.source_url;
    source_name = article.source_name;
    published_at = article.published_at;
    analysis_outcome = record { version = version; output = entity.1 };
    stock = entity.0;
    entity_event_id = none;
    created_at = none;
  }

  -- `_publish`
  unfoldable pub publish_all : List ℕ → Action (Analysis F) (Unit {0})
  publish_all [] = return tt
  publish_all (id ∷ ids) = do
    publish (λ w. record w { announced = id ∷ w.announced })
    publish_all ids

  module _ (uuid4 clock : ℕ → ℕ) (version : Text)
      (run_skill : CleanedArticle → Result (List (Stock × AnalysisOutcome F))) where
    abbrev pub persisted_ids : List (EntityEvent F) → Analysis F → List ℕ
    persisted_ids entities w = (persist_entities uuid4 clock w.draws entities w.entity_events).1

    abbrev pub after_persist : List (EntityEvent F) → Analysis F → Analysis F
    after_persist entities w = record w {
      entity_events = (persist_entities uuid4 clock w.draws entities w.entity_events).0;
      draws = w.draws + length entities;
    }

    unfoldable pub analyse_new : CleanedArticle → Action (Analysis F) (Unit {0})
    analyse_new article = do
      entities ← lift (run_skill article)
      persisted ←
          request (persisted_ids (map (new_entity_event version article) entities))
            (after_persist (map (new_entity_event version article) entities))
      publish_all persisted

    -- what is done with an article, given the ids stored for its source_url
    unfoldable pub analyse_article : CleanedArticle → List ℕ → Action (Analysis F) (Unit {0})
    analyse_article article [] = analyse_new article
    analyse_article article (id ∷ ids) = publish_all (id ∷ ids)

    unfoldable pub analyse_found : Option CleanedArticle → Action (Analysis F) (Unit {0})
    analyse_found none = return tt
    analyse_found (some article) = do
      existing ← request (λ w. ids_by_source_url article.source_url w.entity_events) (λ w. w)
      analyse_article article existing

    unfoldable pub find_entity_events : ℕ → Action (Analysis F) (Unit {0})
    find_entity_events cleaned_id = do
      article ← request (λ w. w.articles cleaned_id) (λ w. w)
      analyse_found article

    -- WorkerPool.trigger_backoff at the loop's time `now`
    unfoldable pub trigger_backoff : ℕ → ℕ → Action (Analysis F) (Unit {0})
    trigger_backoff now backoff = modify (λ w. record w { rate_limit_until = now + backoff })

    module _ (now backoff : ℕ) where
      -- the except clauses of `_analyse`
      abbrev pub analyse_failed : Exc → Action (Analysis F) (Unit {0})
      analyse_failed cancelled = fail cancelled
      analyse_failed unreachable = fail unreachable
      analyse_failed rate_limit = trigger_backoff now backoff
      analyse_failed sapi_error = return tt
      analyse_failed other = return tt

      unfoldable pub try_analyse : ℕ → ℕ → Action (Analysis F) (Unit {0})
      try_analyse cleaned_id message_id = do
        find_entity_events cleaned_id
        request (λ w. tt) (λ w. record w { acked = message_id ∷ w.acked })

      -- CleanedNewsConsumer._analyse
      unfoldable pub analyse : ℕ → ℕ → Action (Analysis F) (Unit {0})
      analyse cleaned_id message_id = catch (try_analyse cleaned_id message_id) analyse_failed
