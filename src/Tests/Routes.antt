-- ===== src/Tests/Routes.antt =====
-- Tests of the routing theorems, on a batch of a message that is out of retries and a valid one.
use wealthfinder.Prelude.{ℕ, Text, Option, some, [], ◌∷◌, length, elem}
use wealthfinder.Models.EventType.{codes}
use wealthfinder.RedisStream.Messages.{StreamMessage, first_delivery, reclaimed}
use wealthfinder.Aggregation.World.{World}
use wealthfinder.Aggregation.Consumer.{route, route_all}
use wealthfinder.Aggregation.Consumer.InFlight.{Handed, route_all-Handed}
use wealthfinder.Aggregation.Consumer.Routed.{Routed, route-Routed}
use wealthfinder.Prelude.Action.{Env}
use wealthfinder.Tests.Data.{Float, setting, world}

abbrev parse_uuid : Text → Option ℕ
parse_uuid text = some (length text)

abbrev message : StreamMessage
message = record {
  id = 9;
  fields = (codes "v", codes "1") ∷ (codes "entity_event_id", codes "ab") ∷ [];
}

abbrev start : Env (World Float)
start = record { state = record world { enqueued = [] }; outcomes = [] }

route_all-Handed_example :
    Handed
      (route_all setting parse_uuid
        (reclaimed message 3 ∷ first_delivery message ∷ [])
        start).1.state
route_all-Handed_example =
    route_all-Handed setting parse_uuid (reclaimed message 3 ∷ first_delivery message ∷ []) start
      (unfold elem in λ i h. absurd (cc))

route-Routed_example :
    Routed setting parse_uuid
      (reclaimed message 3)
      []
      (route setting parse_uuid (reclaimed message 3) start).1.state
route-Routed_example = route-Routed setting parse_uuid (reclaimed message 3) start
