-- ===== src/Lib.antt =====
-- A verification library for wealthfinder, two Python services that turn news into scored stock
-- Events.
--
-- The program. stock-assistant-data-ingestion crawls news, stores it, and publishes cleaned articles
-- on a Redis stream. stock-assistant-pipeline-intelligence reads them: its entity analysis layer has
-- an LLM extract the listed companies of an article, verifies each against the HKEX stock list
-- (app/common/hk_stock_list.py) and stores one EntityEvent per company; its aggregation layer
-- (app/aggregation) merges the EntityEvents of one stock and event type into an active Event, held in
-- a Redis hash, and persists and announces the Events; its scoring layer scores what was announced.
-- Layers pass ids on Redis streams; a message is pending until it is acknowledged.
--
-- The files, and the code that they model, under stock-assistant-pipeline-intelligence/app unless the
-- path says otherwise:
--   Models: models/*.py and common/stock.py, with the enum of event types; Models/EventScore:
--     models/event_score.py.
--   Aggregation/SlidingWindow: aggregation/sliding_window.py (merge_or_create and is_late; ttl_for,
--     whose result is a float cut off to an int, is left out).
--   Aggregation/Store: aggregation/event_aggregation_store.py, over the hashes of
--     redis/state_client.py, on the values of their fields; Aggregation/Store/Wire has the texts that
--     Redis holds, over Python's formats of ids, times and lists.
--   Aggregation/World: the state that the aggregation layer works on, and its configuration.
--   Aggregation/Service: aggregation/aggregation_service.py (_merge, _is_merged,
--     _persist_and_publish, flush), composed as the code composes them, with the callbacks that
--     aggregation_consumer.py gives it.
--   Aggregation/Groups: aggregation/group_coroutine.py, and _get_group and _on_idle of the service, as
--     a step relation between suspensions of the event loop.
--   Aggregation/Consumer: aggregation/aggregation_consumer.py (_route, _route_one, the dead letters),
--     and process_entity_event of the service.
--   Persistent/EventRepository: persistent/event_repository.py, its SQL as functions of tables.
--   Persistent/EventScoreRepository: persistent/event_score_repository.py, whose upsert checks the
--     Event's version.
--   Scoring/Rule: scoring/rule_score.py. Scoring/Service: scoring/scoring_service.py and
--     scoring/scoring_consumer.py; a parameter gives what the aggregation layer writes while an Event
--     is scored.
--   RedisStream: redis/stream_client.py; RedisStream/Messages has its messages and dead letters.
--   StockList: common/hk_stock_list.py (_is_subsequence, _subsequence_span, _parse_hk_stock_list);
--     StockList/Refresh: HKStockListCache and refresh_hk_stock_list; StockList/Search: _best_scoring_codes and _search over any scores in a
--     strict total order, StockList/Search/Scores: _score and the order of its tuples,
--     StockList/Search/Names: _name_variants, the name index, lookup_stock and name_matches_stock.
--   EntityAnalysis: entity_analysis/entity_analysis_service.py, persistent/entity_event_repository.py and
--     _analyse, _process_one and _route of entity_analysis/cleaned_news_consumer.py.
--   Skills/EntityAnalysis: skills/entity_analysis_skill.py, from the LLM's output on.
--   Database: db/connection.py; its retry loop has max_retry + 1 units of fuel, and Database/Retries
--     shows that they are enough.
--   Health: api/routes/health.py.
--   Ingestion/Cleaning: stock-assistant-data-ingestion/app/cleaner (cleaning_service.py and its calls of
--     stream_handler.py).
--   Ingestion/Crawling: stock-assistant-data-ingestion/app/crawl/crawl_service.py, over how a crawler
--     ends.
--   Ingestion/Pages: stock-assistant-data-ingestion/app/crawl/fetchers/page_crawler.py.
--   Ingestion/Connection: stock-assistant-data-ingestion/app/db/connection.py.
--   Lifecycle: stock-assistant-pipeline-intelligence/app/main.py's supervision of the layers and
--     layer_tasks.py, as a step relation.
--   Prelude: what these share: Boolean tests, lists, dictionaries, exceptions, and Action, the monad
--     of methods that change a state and send requests; Action/Triple has the rules for conditions
--     before and after an action.
--   Tests: the theorems at concrete data.
--
-- Requests. A request to Redis or to the database is answered, is refused, or takes effect while its
-- answer is lost; the sequence of outcomes is a list that the world gives, and when it is used up
-- all requests are answered. A theorem for every such list is one for every way in which services
-- fail. publish retries while Redis is unreachable: its loop follows the list, so it needs no fuel.
--
-- Times are exact numbers of microseconds; Python's floats of hours compare the same way at the sizes
-- in use. UUIDs are numbers, the n-th draw being a function of n, and texts are lists of code points.
--
-- Floats are the interface Prelude/Floats: its operations, and laws of IEEE 754 arithmetic as long as
-- nothing overflows, which hundredths with rounding (Tests/Hundredths) meet.
--
-- Not modelled: logging, HTTP and HTML, the LLM, the SQL engine (the statements' effects are written
-- out), the crawlers' parsing of pages, the opening and closing of clients, and the expiry of Redis
-- keys. Proofs of concept, migrations, tests and scripts are no part of the running program.
pub mod Prelude
pub mod Aggregation
pub mod Database
pub mod EntityAnalysis
pub mod Health
pub mod Ingestion
pub mod Lifecycle
pub mod Models
pub mod Persistent
pub mod RedisStream
pub mod Scoring
pub mod Skills
pub mod StockList
pub mod Tests
