-- ===== src/Aggregation/Consumer.antt =====
-- aggregation_consumer.py of stock-assistant-pipeline-intelligence/app/aggregation: how a message of
-- stream:entity_event_completed is routed, up to its group; and process_entity_event of
-- aggregation_service.py. The loops that read, reclaim and flush, and the flush at shutdown, are
-- sequences of these calls and of Service's flush. `parse_uuid` is UUID(text), none for a ValueError.
pub mod InFlight
pub mod Routed
use wealthfinder.Prelude.{
  ℕ, Text, text_eq, Bool, true, false, Option, none, some, List, [], ◌∷◌, ◌++◌, ◌==◌, nat_eq, elem,
  leb, if◌then◌else◌,
}
use wealthfinder.Prelude.Assoc.{lookup}
use wealthfinder.Prelude.Result.{
  Exc, unreachable, rate_limit, sapi_error, cancelled, other, Result, ok,
}
use wealthfinder.Prelude.Action.{
  Env, Action, return, fail, lift, gets, modify, request, catch, ◌>>=◌, ◌>>◌,
}
use wealthfinder.RedisStream.{publish}
use wealthfinder.RedisStream.Messages.{
  StreamMessage, Message, first_delivery, reclaimed, content, dead_letter_entry,
}
use wealthfinder.Models.{EntityEvent}
use wealthfinder.Models.EventType.{codes}
use wealthfinder.Aggregation.World.{World, Setting}
use wealthfinder.Aggregation.Service.{discard, read_clock, on_success}

-- `_get_valid_entity_event_id`
unfoldable pub get_valid_entity_event_id : (Text → Option ℕ) → Message → Option ℕ
get_valid_entity_event_id parse_uuid message = elim (lookup (codes "v") (content message).fields) [
  | none ↦ none
  | some version ↦
      if version == codes "1"
      then elim (lookup (codes "entity_event_id") (content message).fields) [
        | none ↦ none
        | some text ↦ parse_uuid text
      ]
      else none
]

unfoldable pub is_out_of_retries : ℕ → Message → Bool
is_out_of_retries max_retry (first_delivery message) = false
is_out_of_retries max_retry (reclaimed message delivery_count) = leb max_retry delivery_count

module _ {F : Type 0} (setting : Setting) where
  -- RedisStreamClient.dead_letter, which `_push_dead_letter` calls with this layer's streams; the
  -- reason is only logged
  unfoldable pub dead_letter : Message → Action (World F) (Unit {0})
  dead_letter message = do
    now ← read_clock setting
    publish (λ w. record w { dead_letters = dead_letter_entry message now ∷ w.dead_letters })
    request (λ w. tt) (λ w. record w { acked = (content message).id ∷ w.acked })

  -- `_get_group`: it may wait for a permit, and be cancelled there (Groups has its steps)
  unfoldable pub get_group : Action (World F) (Unit {0})
  get_group = request (λ w. tt) (λ w. w)

  unfoldable pub hand_over : EntityEvent F → ℕ → ℕ → Action (World F) (Unit {0})
  hand_over entity entity_event_id message_id = do
    get_group
    modify (λ w. record w { queued = w.queued ++ (entity, entity_event_id, message_id) ∷ [] })

  -- what process_entity_event does with the row that fetch_entity_event returns
  unfoldable pub process_row : Option (EntityEvent F) → ℕ → ℕ → Action (World F) (Unit {0})
  process_row none entity_event_id message_id = on_success setting entity_event_id message_id
  process_row (some entity) entity_event_id message_id = hand_over entity entity_event_id message_id

  unfoldable pub process_entity_event : ℕ → ℕ → Action (World F) (Unit {0})
  process_entity_event entity_event_id message_id = do
    row ← request (λ w. lookup entity_event_id w.entity_events) (λ w. w)
    process_row row entity_event_id message_id

  abbrev pub not_in_flight : ℕ → Action (World F) (Unit {0})
  not_in_flight entity_event_id =
      modify (λ w. record w { enqueued = discard entity_event_id w.enqueued })

  -- the except clauses of `_route_one`
  unfoldable pub route_one_failed : ℕ → Exc → Action (World F) (Unit {0})
  route_one_failed id cancelled = not_in_flight id >> fail cancelled
  route_one_failed id unreachable = not_in_flight id >> fail unreachable
  route_one_failed id rate_limit = not_in_flight id
  route_one_failed id sapi_error = not_in_flight id
  route_one_failed id other = not_in_flight id

  unfoldable pub route_new : ℕ → ℕ → Action (World F) (Unit {0})
  route_new entity_event_id message_id = do
    modify (λ w. record w { enqueued = entity_event_id ∷ w.enqueued })
    catch (process_entity_event entity_event_id message_id) (route_one_failed entity_event_id)

  unfoldable pub route_one : ℕ → ℕ → Action (World F) (Unit {0})
  route_one entity_event_id message_id = do
    in_flight ← gets (λ w. elem entity_event_id w.enqueued)
    if in_flight then return tt else route_new entity_event_id message_id

  module _ (parse_uuid : Text → Option ℕ) where
    unfoldable pub route_valid : Option ℕ → Message → Action (World F) (Unit {0})
    route_valid none message = dead_letter message
    route_valid (some entity_event_id) message = route_one entity_event_id (content message).id

    -- `except Exception` catches neither a cancellation nor what is raised again before it.
    unfoldable pub route_failed : Exc → Action (World F) (Unit {0})
    route_failed cancelled = fail cancelled
    route_failed unreachable = fail unreachable
    route_failed rate_limit = return tt
    route_failed sapi_error = return tt
    route_failed other = return tt

    -- `_route`
    unfoldable pub route : Message → Action (World F) (Unit {0})
    route message =
        catch
          (if is_out_of_retries setting.config.max_retry message
            then dead_letter message
            else route_valid (get_valid_entity_event_id parse_uuid message) message)
          route_failed

    -- the loop over a batch; an exception leaves the rest of it unrouted
    unfoldable pub route_all : List Message → Action (World F) (Unit {0})
    route_all [] = return tt
    route_all (message ∷ messages) = route message >> route_all messages
