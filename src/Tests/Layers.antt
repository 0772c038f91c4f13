-- ===== src/Tests/Layers.antt =====
-- A test of the layers' supervision: a layer that crashed.
use wealthfinder.Prelude.{refl}
use wealthfinder.Lifecycle.{
  aggregation, crashed, started, on_done, Process, Reachable, initial, after, ended,
}
use wealthfinder.Lifecycle.Supervised.{AllSupervised, Reachable-AllSupervised}

abbrev one_down : Process
one_down = on_done aggregation crashed started

abbrev crash : Reachable one_down
crash = after initial (ended aggregation crashed refl refl)

Reachable-AllSupervised_example : AllSupervised one_down
Reachable-AllSupervised_example = Reachable-AllSupervised crash
