-- ===== src/Aggregation/Groups/Drained.antt =====
-- That the groups' work comes to an end (group_coroutine.py, aggregation_service.py): when no more
-- calls come, every order of the steps is finite, and it stops only when all the work is finished.
use wealthfinder.Prelude.{
  ℕ, suc, ◌+◌, ◌*◌, ◌≤◌, ◌<◌, ◌≡◌, ◌∙◌, ◌⊎◌, refl, ap, Option, none, some, List, [], ◌∷◌, ◌++◌,
  ◌==◌, nat_eq, inl, inr, Option-cases, Bool-cases, length, length-append, arith, ==→eq, ==_refl,
}
use mathlib.Core.List.{append-nil}
use wealthfinder.Prelude.Assoc.{lookup, insert, remove}
use wealthfinder.Prelude.Assoc.Distinct.{Distinct}
use wealthfinder.Aggregation.Store.{GroupKey}
use wealthfinder.Aggregation.Groups.{
  GroupCoroutine, Groups, group_key_eq, enqueue, granted, take_work, finish_work, on_idle,
  waiting_without, Step, called, admitted, taken, ended, idled, Reachable, after,
}
use wealthfinder.Aggregation.Groups.Permits.{Balanced, Reachable-Balanced}
use wealthfinder.Aggregation.Groups.Order.{
  units, running_unit, queue_of, running_of, Reachable-InOrder,
}

-- a step other than a new call
abbrev pub IsInner : {s s' : Groups} → Step s s' → Type 0
IsInner (called key work) = ⊥
IsInner (admitted key work before rest at some_left) = Unit
IsInner (taken key work queue found) = Unit
IsInner (ended key work queue found) = Unit
IsInner (idled key found) = Unit

-- so many steps without a new call
pub data Runs (s : Groups) : ℕ → Groups → Type 0 where
  unmoved : Runs s 0 s
  moved :
      {n : ℕ} {s' s'' : Groups}
      → Runs s n s'
      → (step : Step s' s'') → IsInner step
      → Runs s (suc n) s''

-- The steps that a live group, and all of them, still need at most.
abbrev cost : GroupCoroutine → ℕ
cost group = 1 + 2 * length group.queue + length (running_unit group.running)

abbrev load : List (GroupKey × GroupCoroutine) → ℕ
load [] = 0
load ((key, group) ∷ rest) = cost group + load rest

abbrev pub remaining : Groups → ℕ
remaining s = 5 * length s.waiting + load s.live

cost_found : {g h : GroupCoroutine} → some g ≡ some h → cost g ≡ cost h
cost_found {g} {h} e = ap cost (let same : g ≡ h = cc e in same)

load-insert_new :
    (key : GroupKey) (group : GroupCoroutine) (live : List (GroupKey × GroupCoroutine))
    → lookup key live ≡ none
    → load (insert key group live) ≡ cost group + load live
unfolding insert lookup
load-insert_new key group [] h = refl
load-insert_new key group ((k, g) ∷ rest) h = elim (Bool-cases (k == key)) [
  | inl same ↦ absurd (cc (rw same at h))
  | inr differs ↦ rw differs (omega (arith, load-insert_new key group rest (rw differs at h)))
]

load-insert_old :
    (key : GroupKey) (old group : GroupCoroutine) (live : List (GroupKey × GroupCoroutine))
    → lookup key live ≡ some old
    → load (insert key group live) + cost old ≡ load live + cost group
unfolding insert lookup
load-insert_old key old group [] h = absurd (cc h)
load-insert_old key old group ((k, g) ∷ rest) h = elim (Bool-cases (k == key)) [
  | inl same ↦ rw same (omega (arith, cost_found (rw same at h)))
  | inr differs ↦ rw differs (omega (arith, load-insert_old key old group rest (rw differs at h)))
]

load-remove_missing :
    (key : GroupKey) (live : List (GroupKey × GroupCoroutine))
    → lookup key live ≡ none
    → load (remove key live) ≡ load live
unfolding remove lookup
load-remove_missing key [] h = refl
load-remove_missing key ((k, g) ∷ rest) h = elim (Bool-cases (k == key)) [
  | inl same ↦ absurd (cc (rw same at h))
  | inr differs ↦ rw differs (omega (arith, load-remove_missing key rest (rw differs at h)))
]

load-remove :
    (key : GroupKey) (old : GroupCoroutine) (live : List (GroupKey × GroupCoroutine))
    → Distinct live
    → lookup key live ≡ some old
    → load (remove key live) + cost old ≡ load live
unfolding remove lookup
load-remove key old [] d h = absurd (cc h)
load-remove key old ((k, g) ∷ rest) (fresh, d) h = elim (Bool-cases (k == key)) [
  | inl same ↦ rw same (
      omega (
        arith,
        cost_found (rw same at h),
        load-remove_missing key rest (rw (==→eq k key same) at fresh),
      ))
  | inr differs ↦ rw differs (omega (arith, load-remove key old rest d (rw differs at h)))
]

-- a group with one more unit in its queue
cost-queued :
    (group : GroupCoroutine) (work : ℕ)
    → cost (record group { queue = group.queue ++ work ∷ [] }) ≡ cost group + 2
cost-queued group work = omega (arith, length-append group.queue (work ∷ []))

remaining-granted :
    (key : GroupKey) (work : ℕ) (s : Groups) → remaining (granted key work s) ≤ remaining s + 3
unfolding granted enqueue
remaining-granted key work s = elim (Option-cases (lookup key s.live)) [
  | inl missing ↦
      rw (missing, granted)
        (omega (
          arith,
          load-insert_new key (record { queue = work ∷ []; running = none }) s.live missing,
        ))
  | inr (group, found) ↦
      rw (found, granted)
        (omega (
          arith,
          load-insert_old key group (record group { queue = group.queue ++ work ∷ [] }) s.live
              found,
          cost-queued group work,
        ))
]

-- Every inner step leaves less to do.
Step-remaining :
    {s s' : Groups} (max_concurrent : ℕ) (step : Step s s')
    → IsInner step
    → Balanced max_concurrent s
    → remaining s' < remaining s
unfolding take_work finish_work on_idle waiting_without
Step-remaining max_concurrent (called key work) inner b = absurd inner
Step-remaining max_concurrent (admitted key work before rest {s} at some_left) inner b = omega (
  arith,
  remaining-granted key work (waiting_without before rest s),
  ap length at,
  length-append before ((key, work) ∷ rest),
  length-append before rest,
)
Step-remaining max_concurrent (taken key work queue {s} found) inner b = omega (
  arith,
  load-insert_old key (record { queue = work ∷ queue; running = none })
      (record { queue = queue; running = some work }) s.live found,
)
Step-remaining max_concurrent (ended key work queue {s} found) inner b = omega (
  arith,
  load-insert_old key (record { queue = queue; running = some work })
      (record { queue = queue; running = none }) s.live found,
)
Step-remaining max_concurrent (idled key {s} found) inner b =
    omega (arith, load-remove key (record { queue = []; running = none }) s.live b.once found)

Runs-Reachable :
    {max_concurrent : ℕ} {s : Groups} {n : ℕ} {s' : Groups}
    → Reachable max_concurrent s
    → Runs s n s'
    → Reachable max_concurrent s' × (n + remaining s' ≤ remaining s)
Runs-Reachable r unmoved = (r, omega arith)
Runs-Reachable {max_concurrent} r (moved runs step inner) =
    let (reached, bound) = Runs-Reachable r runs in
    (
      after reached step,
      omega (
        arith,
        bound,
        Step-remaining max_concurrent step inner (Reachable-Balanced max_concurrent reached),
      ),
    )

-- No call waits, no group is live, and every unit that was ever enqueued is finished.
abbrev pub IsDrained : Groups → Type 0
IsDrained s =
    (s.waiting ≡ [])
    × (s.live ≡ [])
    × ((key : GroupKey) → units key s.enqueued ≡ units key s.finished)

abbrev pub CanMove : Groups → Type 0
CanMove s = (s' : Groups) × (step : Step s s') × IsInner step

lookup_first :
    (key : GroupKey) (group : GroupCoroutine) (rest : List (GroupKey × GroupCoroutine))
    → lookup key ((key, group) ∷ rest) ≡ some group
unfolding lookup
lookup_first key group rest = rw (==_refl key) refl

live_moves :
    (s : Groups) (key : GroupKey) (queue : List ℕ) (running : Option ℕ)
    → lookup key s.live ≡ some (record { queue = queue; running = running })
    → CanMove s
live_moves s key queue (some work) found = (_, ended key work queue found, tt)
live_moves s key (work ∷ queue) none found = (_, taken key work queue found, tt)
live_moves s key [] none found = (_, idled key found, tt)

finished_units :
    {max_concurrent : ℕ} (s : Groups)
    → Reachable max_concurrent s
    → s.live ≡ []
    → (key : GroupKey) → units key s.enqueued ≡ units key s.finished
unfolding lookup
finished_units s r empty key =
    let order = Reachable-InOrder key r in
    let gone = ap (lookup key) empty in
    order.queued
    ∙ ap (λ (o : Option GroupCoroutine). units key s.started ++ queue_of o) gone
    ∙ append-nil (units key s.started)
    ∙ order.one_running
    ∙ ap (λ (o : Option GroupCoroutine). units key s.finished ++ running_of o) gone
    ∙ append-nil (units key s.finished)

moves :
    {max_concurrent : ℕ} (s : Groups)
    → 0 < max_concurrent
    → Reachable max_concurrent s
    → (live : List (GroupKey × GroupCoroutine)) → s.live ≡ live
    → (waiting : List (GroupKey × ℕ)) → s.waiting ≡ waiting
    → CanMove s ⊎ IsDrained s
moves s pos r ((key, group) ∷ rest) at_live waiting at_waiting = inl (
    live_moves s key group.queue group.running
      (ap (lookup key) at_live ∙ lookup_first key group rest))
moves {max_concurrent} s pos r [] at_live ((key, work) ∷ rest) at_waiting = inl (
  _,
  admitted key work [] rest at_waiting
      (omega (arith, (Reachable-Balanced max_concurrent r).balance, ap length at_live, pos)),
  tt,
)
moves s pos r [] at_live [] at_waiting = inr (at_waiting, at_live, finished_units s r at_live)

-- Provided that max_concurrent is positive: if no more calls come, the groups come to rest. Whatever
-- order the steps take from a reachable state, there are at most five for every waiting call, one for
-- every live group, two for every unit in a queue and one for every running unit; and as long as a
-- call waits, a group is live or a unit is unfinished another step can be taken.
pub Reachable_drains :
    {max_concurrent n : ℕ} {s s' : Groups}
    → 0 < max_concurrent
    → Reachable max_concurrent s
    → Runs s n s'
    → (n ≤ remaining s) × (CanMove s' ⊎ IsDrained s')
Reachable_drains {max_concurrent} {n} {s} {s'} pos r runs =
    let (reached, bound) = Runs-Reachable r runs in
    (omega (arith, bound), moves s' pos reached s'.live refl s'.waiting refl)
