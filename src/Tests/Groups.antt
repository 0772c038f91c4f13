-- ===== src/Tests/Groups.antt =====
-- Tests of the groups' theorems: with one permit, a second group waits until the first is idle.
use wealthfinder.Prelude.{refl, arith, [], ◌≤◌, ◌⊎◌}
use wealthfinder.Prelude.Assoc.{lookup, insert, remove}
use wealthfinder.Prelude.{list_beq}
use wealthfinder.Models.EventType.{buyback, codes}
use wealthfinder.Aggregation.Store.{GroupKey}
use wealthfinder.Aggregation.Groups.{
  Groups, group_key_eq, enqueue, process, granted, take_work, finish_work, on_idle, waiting_without,
  no_groups, Step, called, admitted, taken, ended, idled, Reachable, initial, after,
}
use wealthfinder.Aggregation.Groups.Permits.{Balanced, Reachable-Balanced}
use wealthfinder.Aggregation.Groups.Order.{InOrder, Reachable-InOrder}
use wealthfinder.Aggregation.Groups.Queues.{Serves, servers, Step-Serves}
use wealthfinder.Aggregation.Groups.Drained.{
  Runs, moved, unmoved, remaining, CanMove, IsDrained, Reachable_drains,
}
use wealthfinder.Tests.Data.{group}

abbrev buybacks : GroupKey
buybacks = record {
  exchange = codes "HKEX";
  stock_code = codes "0700";
  event_type_primary = buyback;
}

abbrev busy : Groups
busy = process buybacks 2 (process group 1 (no_groups 1))

abbrev idle : Groups
idle = on_idle group (finish_work group 1 [] (take_work group 1 [] busy))

abbrev next : Groups
next = granted buybacks 2 (waiting_without [] [] idle)

run : Reachable 1 next
unfolding process enqueue take_work finish_work on_idle lookup insert remove list_beq
run =
    after
      (after
        (after
          (after (after (after initial (called group 1)) (called buybacks 2))
            (taken group 1 [] refl))
          (ended group 1 [] refl))
        (idled group refl))
      (admitted buybacks 2 [] [] refl (omega arith))

Reachable-Balanced_example : Balanced 1 next
Reachable-Balanced_example = Reachable-Balanced 1 run

Reachable-InOrder_example : InOrder next buybacks
Reachable-InOrder_example = Reachable-InOrder buybacks run

take_next : Step next (take_work buybacks 2 [] next)
unfolding granted enqueue on_idle finish_work take_work process waiting_without lookup insert remove
    list_beq
take_next = taken buybacks 2 [] refl

taking : Runs next 1 (take_work buybacks 2 [] next)
unfolding take_next
taking = moved unmoved take_next tt

Step-Serves_example : Serves (servers next) (servers (take_work buybacks 2 [] next))
Step-Serves_example = Step-Serves take_next

Reachable_drains_example :
    (1 ≤ remaining next)
    × (CanMove (take_work buybacks 2 [] next) ⊎ IsDrained (take_work buybacks 2 [] next))
Reachable_drains_example = Reachable_drains (omega arith) run taking
