-- ===== src/Aggregation/Groups.antt =====
-- The groups of aggregation_service.py (process_entity_event, _get_group, _on_idle) and
-- group_coroutine.py: one coroutine per live group, which runs the group's work one unit at a time,
-- and a permit per live group. A step is what runs between two suspensions of the event loop. A unit
-- of work is named by a number; `enqueued`, `started` and `finished` are the history of the units, in
-- order. close(), which abandons work at shutdown, is left out.
pub mod Permits
pub mod Order
pub mod Drained
pub mod Queues
use wealthfinder.Prelude.{
  ℕ, suc, ◌-◌, ◌≡◌, refl, ◌<◌, ◌↔◌, Bool, true, false, ◌&&◌, ◌||◌, Option, none, some, List, [],
  ◌∷◌, ◌++◌, ◌==◌, nat_eq, text_eq, Eq, arith, if◌then◌else◌, ltb, ap, list_beq_iff, ==→eq, ==_refl,
}
use wealthfinder.Prelude.Assoc.{lookup, insert, remove}
use wealthfinder.Models.{is_some}
use wealthfinder.Models.EventType.{type_eq}
use wealthfinder.Aggregation.Store.{GroupKey}

-- `==` of the frozen dataclass
abbrev same_group : GroupKey → GroupKey → Bool
same_group j k =
    (j.exchange == k.exchange && j.stock_code == k.stock_code)
    && j.event_type_primary == k.event_type_primary

pub same_group_iff : (j k : GroupKey) → (same_group j k ≡ true) ↔ (j ≡ k)
same_group_iff j k = (
  λ h.
      let (first, type) = both (j.exchange == k.exchange && j.stock_code == k.stock_code) _ h in
      let (exchange, code) = both (j.exchange == k.exchange) (j.stock_code == k.stock_code) first in
      cc (
        ==→eq j.exchange k.exchange exchange,
        ==→eq j.stock_code k.stock_code code,
        ==→eq j.event_type_primary k.event_type_primary type,
      ),
  λ e. rw e (rw (==_refl k.exchange, ==_refl k.stock_code, ==_refl k.event_type_primary) refl),
)
  where
    both : (a b : Bool) → a && b ≡ true → (a ≡ true) × (b ≡ true)
    both a b h = ground arith

instance abbrev pub group_key_eq : Eq GroupKey
group_key_eq = record { beq = same_group; beq_iff = same_group_iff }

pub record GroupCoroutine : Type 0 where
  -- `_queue`, the next unit first
  pub queue : List ℕ
  -- the unit that `_run` awaits
  pub running : Option ℕ

pub record Groups : Type 0 where
  -- AggregationService._groups
  pub live : List (GroupKey × GroupCoroutine)
  -- the value of `_group_semaphore`
  pub permits : ℕ
  -- the calls of `_get_group` that wait for a permit, each with the unit it is to enqueue
  pub waiting : List (GroupKey × ℕ)
  pub enqueued : List (GroupKey × ℕ)
  pub started : List (GroupKey × ℕ)
  pub finished : List (GroupKey × ℕ)

abbrev pub new_group : GroupCoroutine
new_group = record { queue = []; running = none }

-- GroupCoroutine.enqueue
unfoldable pub enqueue : GroupKey → GroupCoroutine → ℕ → Groups → Groups
enqueue key group work s = record s {
  live = insert key (record group { queue = group.queue ++ work ∷ [] }) s.live;
  enqueued = s.enqueued ++ (key, work) ∷ [];
}

abbrev first_call : List (GroupKey × ℕ) → Option (GroupKey × ℕ)
first_call [] = none
first_call (call ∷ calls) = some call

-- What process_entity_event does from the call of `_get_group` to its end, or to its suspension in
-- `acquire`: the semaphore has no permit for a call that comes while others wait.
unfoldable pub process : GroupKey → ℕ → Groups → Groups
process key work s = elim (lookup key s.live) [
  | some group ↦ enqueue key group work s
  | none ↦
      if s.permits == 0 || is_some (first_call s.waiting)
      then record s { waiting = s.waiting ++ (key, work) ∷ [] }
      else enqueue key new_group work (record s { permits = s.permits - 1 })
]

-- What a call of `_get_group` does from its return from `acquire`, which took a permit. Another call
-- may have started the group in the meantime; then the permit is given back.
unfoldable pub granted : GroupKey → ℕ → Groups → Groups
granted key work s = elim (lookup key s.live) [
  | some group ↦ enqueue key group work s
  | none ↦ enqueue key new_group work (record s { permits = s.permits - 1 })
]

-- `_run` takes the next unit from its queue.
unfoldable pub take_work : GroupKey → ℕ → List ℕ → Groups → Groups
take_work key work queue s = record s {
  live = insert key (record { queue = queue; running = some work }) s.live;
  started = s.started ++ (key, work) ∷ [];
}

-- The unit that `_run` awaits returns or raises.
unfoldable pub finish_work : GroupKey → ℕ → List ℕ → Groups → Groups
finish_work key work queue s = record s {
  live = insert key (record { queue = queue; running = none }) s.live;
  finished = s.finished ++ (key, work) ∷ [];
}

-- `_on_idle`
unfoldable pub on_idle : GroupKey → Groups → Groups
on_idle key s = record s { live = remove key s.live; permits = suc s.permits }

unfoldable pub waiting_without : List (GroupKey × ℕ) → List (GroupKey × ℕ) → Groups → Groups
waiting_without before after s = record s { waiting = before ++ after }

pub data Step : Groups → Groups → Type 0 where
  called : (key : GroupKey) (work : ℕ) {s : Groups} → Step s (process key work s)
  -- the semaphore gives some waiting call a permit when there is one
  admitted :
      (key : GroupKey) (work : ℕ) (before after : List (GroupKey × ℕ)) {s : Groups}
      → s.waiting ≡ before ++ (key, work) ∷ after
      → 0 < s.permits
      → Step s (granted key work (waiting_without before after s))
  taken :
      (key : GroupKey) (work : ℕ) (queue : List ℕ) {s : Groups}
      → lookup key s.live ≡ some (record { queue = work ∷ queue; running = none })
      → Step s (take_work key work queue s)
  ended :
      (key : GroupKey) (work : ℕ) (queue : List ℕ) {s : Groups}
      → lookup key s.live ≡ some (record { queue = queue; running = some work })
      → Step s (finish_work key work queue s)
  -- the idle timeout fires while the queue is empty
  idled :
      (key : GroupKey) {s : Groups}
      → lookup key s.live ≡ some (record { queue = []; running = none })
      → Step s (on_idle key s)

abbrev pub no_groups : ℕ → Groups
no_groups max_concurrent = record {
  live = [];
  permits = max_concurrent;
  waiting = [];
  enqueued = [];
  started = [];
  finished = [];
}

-- The states that the service reaches from its start.
pub data Reachable (max_concurrent : ℕ) : Groups → Type 0 where
  initial : Reachable max_concurrent (no_groups max_concurrent)
  after : {s s' : Groups} → Reachable max_concurrent s → Step s s' → Reachable max_concurrent s'
