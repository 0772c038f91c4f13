-- ===== src/Aggregation/Groups/Queues.antt =====
-- What the groups promise (aggregation_service.py, group_coroutine.py): one queue and one server for
-- each group, whatever permits, waiting calls and idle groups there are.
use wealthfinder.Prelude.{
  ℕ, ◌≡◌, ◌∙◌, refl, sym, ap, ◌-◌, ◌||◌, Bool, true, false, Option, none, some, List, [], ◌∷◌, ◌++◌,
  ◌==◌, ==→eq, subst, nat_eq, inl, inr, Option-cases, Bool-cases, if◌then◌else◌,
}
use wealthfinder.Prelude.Assoc.{lookup, insert, remove, lookup-insert, lookup-remove}
use wealthfinder.Models.{is_some}
use wealthfinder.Aggregation.Store.{GroupKey}
use wealthfinder.Aggregation.Groups.{
  GroupCoroutine, Groups, group_key_eq, enqueue, new_group, process, granted, take_work,
  finish_work, on_idle, waiting_without, first_call, Step, called, admitted, taken, ended, idled,
}

-- a group's units that wait, in order, and the one that runs
abbrev pub Server : Type 0
Server = List ℕ × Option ℕ

abbrev pub Servers : Type 0
Servers = GroupKey → Server

abbrev pub Same : Servers → Servers → Type 0
Same p q = (key : GroupKey) → p key ≡ q key

abbrev pub updated : Servers → GroupKey → Server → Servers
updated p key server k = if key == k then server else p k

-- A unit joins the end of its group's queue, a group that is free starts the first unit of its queue,
-- or its unit ends; and the other groups stay as they are.
pub data Serves (p q : Servers) : Type 0 where
  joins :
      (key : GroupKey) (work : ℕ) (queue : List ℕ) (running : Option ℕ)
      → p key ≡ (queue, running)
      → Same q (updated p key (queue ++ work ∷ [], running))
      → Serves p q
  starts :
      (key : GroupKey) (work : ℕ) (queue : List ℕ)
      → p key ≡ (work ∷ queue, none)
      → Same q (updated p key (queue, some work))
      → Serves p q
  ends :
      (key : GroupKey) (work : ℕ) (queue : List ℕ)
      → p key ≡ (queue, some work)
      → Same q (updated p key (queue, none))
      → Serves p q
  stays : Same q p → Serves p q

abbrev server_of : Option GroupCoroutine → Server
server_of none = ([], none)
server_of (some group) = (group.queue, group.running)

-- the servers that a state stands for
abbrev pub servers : Groups → Servers
servers s key = server_of (lookup key s.live)

inserted :
    (live : List (GroupKey × GroupCoroutine)) (key : GroupKey) (group : GroupCoroutine)
    → Same
        (λ k. server_of (lookup k (insert key group live)))
        (updated (λ k. server_of (lookup k live)) key (group.queue, group.running))
inserted live key group k =
    ap server_of (lookup-insert key k group live) ∙ branch (key == k) (lookup k live)
  where
    branch :
        (b : Bool) (o : Option GroupCoroutine)
        → server_of (if b then some group else o)
          ≡ (if b then (group.queue, group.running) else server_of o)
    branch true o = refl
    branch false o = refl

-- a group without work stands for the same server as no group
removed :
    (live : List (GroupKey × GroupCoroutine)) (key : GroupKey)
    → lookup key live ≡ some (record { queue = []; running = none })
    → Same (λ k. server_of (lookup k (remove key live))) (λ k. server_of (lookup k live))
removed live key found k = ap server_of (lookup-remove key k live) ∙ elim (Bool-cases (key == k)) [
  | inl own ↦
      rw own
        (sym (ap server_of (ap (λ (j : GroupKey). lookup j live) (sym (==→eq key k own)) ∙ found)))
  | inr differs ↦ rw differs refl
]

enqueue-Serves :
    (key : GroupKey) (work : ℕ) (s t : Groups) (group : GroupCoroutine)
    → t.live ≡ s.live
    → servers s key ≡ (group.queue, group.running)
    → Serves (servers s) (servers (enqueue key group work t))
unfolding enqueue
enqueue-Serves key work s t group same at = joins key work group.queue group.running at (
    subst
      (λ (live : List (GroupKey × GroupCoroutine)).
        Same
          (λ k.
            server_of
              (lookup k (insert key (record group { queue = group.queue ++ work ∷ [] }) live)))
          (updated (servers s) key (group.queue ++ work ∷ [], group.running)))
      (sym same) (inserted s.live key (record group { queue = group.queue ++ work ∷ [] })))

granted-Serves :
    (key : GroupKey) (work : ℕ) (s t : Groups)
    → t.live ≡ s.live
    → Serves (servers s) (servers (granted key work t))
unfolding granted
granted-Serves key work s t same = elim (Option-cases (lookup key t.live)) [
  | inl missing ↦
      rw (missing, granted)
        (enqueue-Serves key work s (record t { permits = t.permits - 1 }) new_group same
          (ap server_of (ap (lookup key) (sym same) ∙ missing)))
  | inr (group, found) ↦
      rw (found, granted)
        (enqueue-Serves key work s t group same (ap server_of (ap (lookup key) (sym same) ∙ found)))
]

process-Serves :
    (key : GroupKey) (work : ℕ) (s : Groups) → Serves (servers s) (servers (process key work s))
unfolding process
process-Serves key work s = elim (Option-cases (lookup key s.live)) [
  | inl missing ↦ elim (Bool-cases (s.permits == 0 || is_some (first_call s.waiting))) [
    | inl full ↦ rw (missing, process, full) (stays (λ k. refl))
    | inr free ↦
        rw (missing, process, free)
          (enqueue-Serves key work s (record s { permits = s.permits - 1 }) new_group refl
            (ap server_of missing))
  ]
  | inr (group, found) ↦
      rw (found, process) (enqueue-Serves key work s s group refl (ap server_of found))
]

-- Every step of the groups is one of the servers, or changes nothing that a server shows: a unit joins
-- the end of its own group's queue, a group starts the first unit of its queue only while none of
-- its units runs, and no step of a group touches another. Permits, calls that wait and groups that
-- start and go idle are not seen.
pub Step-Serves : {s s' : Groups} → Step s s' → Serves (servers s) (servers s')
unfolding take_work finish_work on_idle waiting_without
Step-Serves (called key work {s}) = process-Serves key work s
Step-Serves (admitted key work before rest {s} at some_left) =
    granted-Serves key work s (waiting_without before rest s) refl
Step-Serves (taken key work queue {s} found) =
    starts key work queue (ap server_of found)
      (inserted s.live key (record { queue = queue; running = some work }))
Step-Serves (ended key work queue {s} found) =
    ends key work queue (ap server_of found)
      (inserted s.live key (record { queue = queue; running = none }))
Step-Serves (idled key {s} found) = stays (removed s.live key found)
