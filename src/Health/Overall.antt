-- ===== src/Health/Overall.antt =====
-- When the service reports itself healthy (api/routes/health.py).
use wealthfinder.Prelude.{◌≡◌, ◌↔◌, refl, true, false, Bool, if◌then◌else◌, ◌||◌, arith}
use wealthfinder.Health.{
  HkStockListStatus, ready, not_ready, HealthStatus, healthy, degraded, unhealthy, LayerTask,
  running, done, absent, LayerTasks, ProbeEnd, timed_out, probe_cancelled, raised, returned, check,
  get_layer_status, get_layers_status, error_in, overall_status, is_error, is_not_ready,
}

abbrev pub AllRunning : LayerTasks → Type 0
AllRunning t =
    (t.entity_analysis ≡ running)
    × (t.aggregation ≡ running)
    × (t.scoring ≡ running)
    × (t.cache ≡ running)

-- What the service reads from its probes and its stock list.
abbrev pub AllUp : ProbeEnd → ProbeEnd → ProbeEnd → HkStockListStatus → Type 0
AllUp database stream state list =
    (database ≡ returned) × (stream ≡ returned) × (state ≡ returned) × (list ≡ ready)

abbrev pub report : ProbeEnd → ProbeEnd → ProbeEnd → HkStockListStatus → LayerTasks → HealthStatus
report database stream state list tasks =
    overall_status (check database) (check stream) (check state) list (get_layers_status tasks)

up_iff : (p : ProbeEnd) → (p ≡ returned) ↔ (is_error (check p) ≡ false)
unfolding check
up_iff timed_out = (λ h. cc, λ h. cc)
up_iff probe_cancelled = (λ h. cc, λ h. cc)
up_iff raised = (λ h. cc, λ h. cc)
up_iff returned = (λ h. refl, λ h. refl)

runs_iff : (t : LayerTask) → (t ≡ running) ↔ (is_error (get_layer_status t) ≡ false)
unfolding get_layer_status
runs_iff running = (λ h. refl, λ h. refl)
runs_iff done = (λ h. cc, λ h. cc)
runs_iff absent = (λ h. cc, λ h. cc)

ready_iff : (l : HkStockListStatus) → (l ≡ ready) ↔ (is_not_ready l ≡ false)
ready_iff ready = (λ h. refl, λ h. refl)
ready_iff not_ready = (λ h. cc, λ h. cc)

-- four flags that are all down
four_iff :
    (P Q R S : Type 0) (p q r s : Bool)
    → P ↔ (p ≡ false)
    → Q ↔ (q ≡ false)
    → R ↔ (r ≡ false)
    → S ↔ (s ≡ false)
    → (P × Q × R × S) ↔ ((p || (q || (r || s))) ≡ false)
four_iff P Q R S false false false false f g h k =
    (λ x. refl, λ x. (f.1 refl, g.1 refl, h.1 refl, k.1 refl))
four_iff P Q R S true q r s f g h k = (λ x. let (a, _, _, _) = x in f.0 a, λ x. cc)
four_iff P Q R S false true r s f g h k = (λ x. let (_, b, _, _) = x in g.0 b, λ x. cc)
four_iff P Q R S false false true s f g h k = (λ x. let (_, _, c, _) = x in h.0 c, λ x. cc)
four_iff P Q R S false false false true f g h k = (λ x. let (_, _, _, d) = x in k.0 d, λ x. cc)

-- what the two tests of `_overall_status` make of what they stand for
tests_iff :
    (U R : Type 0) (down stopped : Bool)
    → U ↔ (down ≡ false)
    → R ↔ (stopped ≡ false)
    → (((if down then unhealthy else if stopped then degraded else healthy) ≡ healthy) ↔ (U × R))
      × (((if down then unhealthy else if stopped then degraded else healthy) ≡ degraded)
          ↔ (U × (¬ R)))
      × (((if down then unhealthy else if stopped then degraded else healthy) ≡ unhealthy) ↔ (¬ U))
tests_iff U R true stopped u r = (
  (λ h. cc, λ x. absurd (cc (u.0 x.0))),
  (λ h. cc, λ x. absurd (cc (u.0 x.0))),
  (λ h x. cc (u.0 x), λ x. refl),
)
tests_iff U R false true u r = (
  (λ h. cc, λ x. absurd (cc (r.0 x.1))),
  (λ h. (u.1 refl, λ x. cc (r.0 x)), λ x. refl),
  (λ h. cc, λ x. absurd (x (u.1 refl))),
)
tests_iff U R false false u r = (
  (λ h. (u.1 refl, r.1 refl), λ x. refl),
  (λ h. cc, λ x. absurd (x.1 (r.1 refl))),
  (λ h. cc, λ x. absurd (x (u.1 refl))),
)

module _ (database stream state : ProbeEnd) (list : HkStockListStatus) (tasks : LayerTasks) where
  -- The service reports itself healthy exactly when every probe returned in time, the stock list is
  -- loaded and every layer's task runs; degraded exactly when the probes and the list are so and some
  -- layer's task does not run; and unhealthy exactly when a probe did not return or the list is not
  -- loaded.
  pub report_iff :
      ((report database stream state list tasks ≡ healthy)
        ↔ (AllUp database stream state list × AllRunning tasks))
      × ((report database stream state list tasks ≡ degraded)
          ↔ (AllUp database stream state list × (¬ AllRunning tasks)))
      × ((report database stream state list tasks ≡ unhealthy)
          ↔ (¬ AllUp database stream state list))
  unfolding overall_status error_in get_layers_status
  report_iff =
      tests_iff (AllUp database stream state list) (AllRunning tasks) _ _
        (up_test (is_error (check database)) (is_error (check stream)) (is_error (check state))
          (is_not_ready list)
          (four_iff (database ≡ returned) (stream ≡ returned) (state ≡ returned) (list ≡ ready) _ _
            _ _ (up_iff database) (up_iff stream) (up_iff state) (ready_iff list)))
        (running_test (is_error (get_layer_status tasks.entity_analysis))
          (is_error (get_layer_status tasks.aggregation))
          (is_error (get_layer_status tasks.scoring)) (is_error (get_layer_status tasks.cache))
          (four_iff (tasks.entity_analysis ≡ running) (tasks.aggregation ≡ running)
            (tasks.scoring ≡ running) (tasks.cache ≡ running) _ _ _ _
            (runs_iff tasks.entity_analysis) (runs_iff tasks.aggregation) (runs_iff tasks.scoring)
            (runs_iff tasks.cache)))
    where
      up_test :
          {U : Type 0} (p q r s : Bool)
          → U ↔ ((p || (q || (r || s))) ≡ false)
          → U ↔ (((p || (q || (r || false))) || s) ≡ false)
      up_test p q r s f = (λ u. ground (arith, f.0 u), λ h. f.1 (ground (arith, h)))

      running_test :
          {U : Type 0} (p q r s : Bool)
          → U ↔ ((p || (q || (r || s))) ≡ false)
          → U ↔ ((p || (q || (r || (s || false)))) ≡ false)
      running_test p q r s f = (λ u. ground (arith, f.0 u), λ h. f.1 (ground (arith, h)))
