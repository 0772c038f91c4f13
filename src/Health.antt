-- ===== src/Health.antt =====
-- api/routes/health.py of stock-assistant-pipeline-intelligence/app: the status of the layers and the
-- overall status. A probe is given by how it ended before its time was over.
use wealthfinder.Prelude.{
  ℕ, ◌≡◌, ◌↔◌, ◌⊎◌, refl, Bool, true, false, ◌&&◌, ◌||◌, not, Option, none, some, List, [], ◌∷◌,
  inl, inr, if◌then◌else◌, arith,
}
pub mod Overall

pub data ComponentStatus : Type 0 where
  ok error : ComponentStatus

-- `ready` is OK
pub data HkStockListStatus : Type 0 where
  ready not_ready : HkStockListStatus

pub data HealthStatus : Type 0 where
  healthy degraded unhealthy : HealthStatus

-- A layer's task: registered and running, done, or not registered yet.
pub data LayerTask : Type 0 where
  running done absent : LayerTask

pub record LayerTasks : Type 0 where
  pub entity_analysis : LayerTask
  pub aggregation : LayerTask
  pub scoring : LayerTask
  pub cache : LayerTask

pub record LayerStatus : Type 0 where
  pub entity_analysis : ComponentStatus
  pub aggregation : ComponentStatus
  pub scoring : ComponentStatus
  pub cache : ComponentStatus

-- how the task of a probe stands after `asyncio.wait`
pub data ProbeEnd : Type 0 where
  timed_out probe_cancelled raised returned : ProbeEnd

unfoldable pub check : ProbeEnd → ComponentStatus
check timed_out = error
check probe_cancelled = error
check raised = error
check returned = ok

unfoldable pub get_layer_status : LayerTask → ComponentStatus
get_layer_status running = ok
get_layer_status done = error
get_layer_status absent = error

unfoldable pub get_layers_status : LayerTasks → LayerStatus
get_layers_status t = record {
  entity_analysis = get_layer_status t.entity_analysis;
  aggregation = get_layer_status t.aggregation;
  scoring = get_layer_status t.scoring;
  cache = get_layer_status t.cache;
}

abbrev pub is_error : ComponentStatus → Bool
is_error ok = false
is_error error = true

-- `ComponentStatus.ERROR in statuses`
unfoldable pub error_in : List ComponentStatus → Bool
error_in [] = false
error_in (status ∷ statuses) = is_error status || error_in statuses

abbrev pub is_not_ready : HkStockListStatus → Bool
is_not_ready ready = false
is_not_ready not_ready = true

unfoldable pub overall_status :
    ComponentStatus
    → ComponentStatus
    → ComponentStatus
    → HkStockListStatus
    → LayerStatus
    → HealthStatus
overall_status database redis_stream redis_state hk_stock_list layers =
    if error_in (database ∷ redis_stream ∷ redis_state ∷ []) || is_not_ready hk_stock_list
    then unhealthy
    else if error_in
        (layers.entity_analysis ∷ layers.aggregation ∷ layers.scoring ∷ layers.cache ∷ [])
    then degraded
    else healthy
