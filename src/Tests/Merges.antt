-- ===== src/Tests/Merges.antt =====
-- Tests of aggregation_service.py's theorems, on a merge that replaces the active Event.
use mathlib.Core.Option.{some-injective}
use wealthfinder.Prelude.{◌≡◌, refl, sym, ap, arith, [], inl, elem, text_eq, list_beq}
use wealthfinder.Models.EventType.{type_name}
use wealthfinder.Prelude.Assoc.{lookup}
use wealthfinder.Models.{Event}
use wealthfinder.Aggregation.Store.{get_active_event, decode, get_key}
use wealthfinder.Aggregation.Service.{merge_entity_event}
use wealthfinder.Aggregation.Service.Recorded.{group_of, Held}
use wealthfinder.Aggregation.Service.Acks.{Recorded, Fresh, merge_entity_event-Recorded}
use wealthfinder.Aggregation.Service.Acked.{Acked, merge_entity_event-acked}
use wealthfinder.Tests.Data.{setting, env, redis, entity_at, active_hash, group, world}

fresh : Fresh setting (group_of (entity_at 2 453600000000)) world
unfolding get_active_event lookup decode list_beq get_key type_name
fresh n a at drawn same =
    let own : a.event_id ≡ 5 = sym (ap (λ (x : Event). x.event_id) (some-injective _ _ at)) in
    omega (arith, own, same)

held : Held 1 redis
unfolding lookup elem list_beq get_key type_name
held = (get_key group, active_hash, refl, refl)

merge_entity_event-Recorded_example :
    Recorded 1
      (merge_entity_event setting
        (entity_at 2 453600000000)
        (group_of (entity_at 2 453600000000))
        2
        77
        env).1.state
merge_entity_event-Recorded_example =
    merge_entity_event-Recorded setting (entity_at 2 453600000000) 2 77 1 env fresh (inl held)

merge_entity_event-acked_example :
    Acked setting
      (entity_at 2 453600000000)
      redis
      []
      2
      77
      (merge_entity_event setting
        (entity_at 2 453600000000)
        (group_of (entity_at 2 453600000000))
        2
        77
        env).1.state
merge_entity_event-acked_example =
    merge_entity_event-acked setting (entity_at 2 453600000000) 2 77 env
