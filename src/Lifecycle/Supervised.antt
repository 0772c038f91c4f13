-- ===== src/Lifecycle/Supervised.antt =====
-- When a layer is restarted (main.py).
use wealthfinder.Prelude.{
  ℕ, zero, suc, ◌-◌, ◌≡◌, ◌≢◌, ◌≤◌, ◌<◌, ◌∙◌, refl, sym, ap, Bool, true, false, ◌&&◌, not,
  if◌then◌else◌, inl, inr, Bool-cases, arith, subst,
}
use wealthfinder.Lifecycle.{
  Layer, entity_analysis, aggregation, scoring, same_layer, Task, running, stopped, crashed,
  has_failed, is_monitored, Process, set, on_done, restart, shut_down, Step, ended, left, restarted,
  shut, Reachable, initial, after,
}

-- One layer's task, the number of its timers, and whether the service shuts down and monitors it: a
-- restart is scheduled at most once, and then the task has crashed; and while the service is not
-- shutting down, a monitored layer whose task crashed has one.
abbrev pub IsSupervised : Task → ℕ → Bool → Bool → Type 0
IsSupervised task timers shutting_down monitored =
    (timers ≤ 1)
    × (0 < timers → task ≡ crashed)
    × (monitored ≡ false → timers ≡ 0)
    × (shutting_down ≡ false → monitored ≡ true → task ≡ crashed → timers ≡ 1)

abbrev pub AllSupervised : Process → Type 0
AllSupervised p =
    (layer : Layer)
    → IsSupervised (p.layer_tasks layer) (p.timers layer) p.shutting_down (is_monitored layer)

same_layer-eq : (j k : Layer) → same_layer j k ≡ true → j ≡ k
same_layer-eq entity_analysis entity_analysis h = refl
same_layer-eq entity_analysis aggregation h = cc
same_layer-eq entity_analysis scoring h = cc
same_layer-eq aggregation entity_analysis h = cc
same_layer-eq aggregation aggregation h = refl
same_layer-eq aggregation scoring h = cc
same_layer-eq scoring entity_analysis h = cc
same_layer-eq scoring aggregation h = cc
same_layer-eq scoring scoring h = refl

no_timer : (n : ℕ) (b m : Bool) → IsSupervised running n b m → n ≡ 0
no_timer zero b m s = refl
no_timer (suc n) b m (_, of_crash, _, _) = absurd (cc (of_crash (omega arith)))

-- a task that ran ends
ended-IsSupervised :
    (end : Task) (n : ℕ) (b m : Bool)
    → end ≢ running
    → IsSupervised running n b m
    → IsSupervised end (if (m && has_failed end) && not b then suc n else n) b m
ended-IsSupervised running n b m h s = absurd (h refl)
ended-IsSupervised stopped n b true h s =
    rw (no_timer n b true s) (omega arith, λ x. absurd (omega arith), λ x. cc, λ x y z. cc)
ended-IsSupervised stopped n b false h s =
    rw (no_timer n b false s) (omega arith, λ x. absurd (omega arith), λ x. refl, λ x y z. cc)
ended-IsSupervised crashed n true true h s =
    rw (no_timer n true true s) (omega arith, λ x. refl, λ x. cc, λ x y z. cc)
ended-IsSupervised crashed n false true h s =
    rw (no_timer n false true s) (omega arith, λ x. refl, λ x. cc, λ x y z. refl)
ended-IsSupervised crashed n b false h s =
    rw (no_timer n b false s) (omega arith, λ x. refl, λ x. refl, λ x y z. cc)

-- a timer fires
restart-IsSupervised :
    (task : Task) (n : ℕ) (b m : Bool)
    → 0 < n
    → IsSupervised task n b m
    → IsSupervised (if b then task else running) (n - 1) b m
restart-IsSupervised task n true m h (once, of_crash, _, _) = (
  omega (arith, once),
  λ x. absurd (omega (arith, once, x)),
  λ x. omega (arith, once),
  λ x y z. cc,
)
restart-IsSupervised task n false m h (once, of_crash, _, _) = (
  omega (arith, once),
  λ x. absurd (omega (arith, once, x)),
  λ x. omega (arith, once),
  λ x y z. cc,
)

-- A layer gets a state that is supervised, and the others stay.
set-IsSupervised :
    (which : Layer) (task : Task) (n : ℕ) (b : Bool) (tasks : Layer → Task) (timers : Layer → ℕ)
    → ((layer : Layer) → IsSupervised (tasks layer) (timers layer) b (is_monitored layer))
    → IsSupervised task n b (is_monitored which)
    → (layer : Layer)
    → IsSupervised (set which task tasks layer) (set which n timers layer) b (is_monitored layer)
set-IsSupervised which task n b tasks timers s new layer =
    elim (Bool-cases (same_layer which layer)) [
      | inl own ↦ rw own (
          subst (λ (l : Layer). IsSupervised task n b (is_monitored l))
            (same_layer-eq which layer own) new)
      | inr differs ↦ rw differs (s layer)
    ]

on_done-AllSupervised :
    (which : Layer) (end : Task) (p : Process)
    → p.layer_tasks which ≡ running
    → end ≢ running
    → AllSupervised p
    → AllSupervised (on_done which end p)
unfolding on_done
on_done-AllSupervised which end p runs really s =
    set-IsSupervised which end _ p.shutting_down p.layer_tasks p.timers s (
      ended-IsSupervised end (p.timers which) p.shutting_down (is_monitored which) really (
        subst (λ (t : Task). IsSupervised t (p.timers which) p.shutting_down (is_monitored which))
          runs (s which)))

Step-AllSupervised : {p q : Process} → Step p q → AllSupervised p → AllSupervised q
unfolding restart shut_down
Step-AllSupervised (ended which end {p} runs failed) s =
    on_done-AllSupervised which end p runs (λ e. cc (sym failed ∙ ap has_failed e)) s
Step-AllSupervised (left which {p} runs) s =
    on_done-AllSupervised which stopped p runs (λ e. cc e) s
Step-AllSupervised (restarted which {p} some_timer) s =
    set-IsSupervised which (if p.shutting_down then p.layer_tasks which else running) _
      p.shutting_down p.layer_tasks p.timers s
      (restart-IsSupervised (p.layer_tasks which) (p.timers which) p.shutting_down
        (is_monitored which) some_timer (s which))
Step-AllSupervised (shut {p} serving) s = λ layer.
    let (once, of_crash, only_monitored, _) = s layer in
    (once, of_crash, only_monitored, λ x y z. cc x)

-- In every state that the service reaches, a layer has at most one restart scheduled, and only if its
-- task crashed; a layer that is not monitored has none; and a monitored layer whose task crashed has
-- one, unless the service is shutting down.
pub Reachable-AllSupervised : {p : Process} → Reachable p → AllSupervised p
Reachable-AllSupervised initial =
    λ layer. (omega arith, λ x. absurd (omega arith), λ x. refl, λ x y z. cc z)
Reachable-AllSupervised (after r step) = Step-AllSupervised step (Reachable-AllSupervised r)

running_after :
    (which : Layer) (task : Task) (tasks : Layer → Task) (layer : Layer)
    → (task ≡ running → tasks which ≡ running)
    → set which task tasks layer ≡ running
    → tasks layer ≡ running
running_after which task tasks layer h e = elim (Bool-cases (same_layer which layer)) [
  | inl own ↦
      subst (λ (l : Layer). tasks l ≡ running) (same_layer-eq which layer own) (h (rw own at e))
  | inr differs ↦ rw differs at e
]

-- Once the service is shutting down no step starts a task: a layer that runs afterwards ran before,
-- and the shutdown stays.
pub Step-shutting_down :
    {p q : Process}
    → Step p q
    → p.shutting_down ≡ true
    → (q.shutting_down ≡ true)
      × ((layer : Layer) → q.layer_tasks layer ≡ running → p.layer_tasks layer ≡ running)
unfolding on_done restart shut_down
Step-shutting_down (ended which end {p} runs failed) h =
    (h, λ layer. running_after which end p.layer_tasks layer (λ e. runs))
Step-shutting_down (left which {p} runs) h =
    (h, λ layer. running_after which stopped p.layer_tasks layer (λ e. runs))
Step-shutting_down (restarted which {p} some_timer) h = (
  h,
  λ layer.
      running_after which (if p.shutting_down then p.layer_tasks which else running) p.layer_tasks
        layer (λ e. rw h at e),
)
Step-shutting_down (shut {p} serving) h = absurd (cc (sym h ∙ serving))
