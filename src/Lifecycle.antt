-- ===== src/Lifecycle.antt =====
-- The supervision of the layers in main.py of stock-assistant-pipeline-intelligence/app: the layers'
-- tasks and their restarts, as steps of the event loop between start-up and the end of shutdown.
pub mod Supervised
use wealthfinder.Prelude.{
  ℕ, suc, ◌-◌, ◌+◌, ◌≡◌, ◌<◌, Bool, true, false, ◌&&◌, not, ◌==◌, if◌then◌else◌, Eq, nat_eq,
  nat_beq, nat_beq_iff, ◌↔◌, refl,
}

-- layer_tasks.py's Layer, of which start-up creates these
pub data Layer : Type 0 where
  entity_analysis aggregation scoring : Layer

abbrev pub same_layer : Layer → Layer → Bool
same_layer entity_analysis entity_analysis = true
same_layer aggregation aggregation = true
same_layer scoring scoring = true
same_layer _ _ = false

-- A layer's task runs, ended without an exception (returned or cancelled), or with one.
pub data Task : Type 0 where
  running stopped crashed : Task

abbrev pub has_failed : Task → Bool
has_failed running = false
has_failed stopped = false
has_failed crashed = true

-- the layers that start-up makes by `_make_monitored`
unfoldable pub is_monitored : Layer → Bool
is_monitored entity_analysis = true
is_monitored aggregation = true
is_monitored scoring = false

pub record Process : Type 0 where
  -- the task of each layer in `layer_tasks`
  pub layer_tasks : Layer → Task
  -- how many calls of `_restart` are scheduled for each layer
  pub timers : Layer → ℕ
  pub shutting_down : Bool

abbrev pub set {ℓ} : {A : Type ℓ} → Layer → A → (Layer → A) → Layer → A
set layer value f other = if same_layer layer other then value else f other

-- `_on_done` of a task that ended, where the layer has it
unfoldable pub on_done : Layer → Task → Process → Process
unfolding is_monitored
on_done layer end p = record p {
  layer_tasks = set layer end p.layer_tasks;
  timers =
      set layer
        (if (is_monitored layer && has_failed end) && not p.shutting_down
          then suc (p.timers layer)
          else p.timers layer)
        p.timers;
}

-- `_restart`, which the loop calls after the delay
unfoldable pub restart : Layer → Process → Process
restart layer p = record p {
  layer_tasks = set layer (if p.shutting_down then p.layer_tasks layer else running) p.layer_tasks;
  timers = set layer (p.timers layer - 1) p.timers;
}

-- what `_cancel_layer_tasks` does before it waits: the tasks then end in steps of their own
unfoldable pub shut_down : Process → Process
shut_down p = record p { shutting_down = true }

pub data Step : Process → Process → Type 0 where
  ended :
      (layer : Layer) (end : Task) {p : Process}
      → p.layer_tasks layer ≡ running
      → has_failed end ≡ true
      → Step p (on_done layer end p)
  left :
      (layer : Layer) {p : Process}
      → p.layer_tasks layer ≡ running
      → Step p (on_done layer stopped p)
  restarted : (layer : Layer) {p : Process} → 0 < p.timers layer → Step p (restart layer p)
  shut : {p : Process} → p.shutting_down ≡ false → Step p (shut_down p)

abbrev pub started : Process
started = record { layer_tasks = λ layer. running; timers = λ layer. 0; shutting_down = false }

pub data Reachable : Process → Type 0 where
  initial : Reachable started
  after : {p q : Process} → Reachable p → Step p q → Reachable q
