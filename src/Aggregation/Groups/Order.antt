-- ===== src/Aggregation/Groups/Order.antt =====
-- The order in which a group's work runs (group_coroutine.py).
use mathlib.Core.List.{append_assoc, append-nil}
use wealthfinder.Prelude.{
  ℕ, ◌-◌, ◌≡◌, refl, sym, ap, ◌∙◌, true, false, ◌||◌, Option, none, some, List, [], ◌∷◌, ◌++◌, ◌==◌,
  nat_eq, inl, inr, Option-cases, Bool-cases, if◌then◌else◌, ==→eq,
}
use wealthfinder.Prelude.Assoc.{lookup, insert, remove, lookup-insert, lookup-remove}
use wealthfinder.Models.{is_some}
use wealthfinder.Aggregation.Store.{GroupKey}
use wealthfinder.Aggregation.Groups.{
  GroupCoroutine, Groups, group_key_eq, enqueue, new_group, process, granted, take_work,
  finish_work, on_idle, waiting_without, first_call, Step, called, admitted, taken, ended, idled,
  Reachable, initial, after,
}

-- one group's units of a history
unfoldable pub units : GroupKey → List (GroupKey × ℕ) → List ℕ
units key [] = []
units key ((k, work) ∷ history) =
    let rest = units key history in if k == key then work ∷ rest else rest

abbrev pub queue_of : Option GroupCoroutine → List ℕ
queue_of none = []
queue_of (some group) = group.queue

abbrev pub running_unit : Option ℕ → List ℕ
running_unit none = []
running_unit (some work) = work ∷ []

abbrev pub running_of : Option GroupCoroutine → List ℕ
running_of none = []
running_of (some group) = running_unit group.running

-- One group's enqueued units are those started, then those in its queue, in this order; those started
-- are those finished and then the one that runs, if there is one.
pub record InOrder (s : Groups) (key : GroupKey) : Type 0 where
  pub queued : units key s.enqueued ≡ units key s.started ++ queue_of (lookup key s.live)
  pub one_running : units key s.started ≡ units key s.finished ++ running_of (lookup key s.live)

units-last :
    (key k : GroupKey) (work : ℕ) (history : List (GroupKey × ℕ))
    → units key (history ++ (k, work) ∷ [])
      ≡ units key history ++ (if k == key then work ∷ [] else [])
unfolding units
units-last key k work [] = elim (Bool-cases (k == key)) [
  | inl same ↦ rw same refl
  | inr differs ↦ rw differs refl
]
units-last key k work ((j, w) ∷ history) = elim (Bool-cases (j == key)) [
  | inl same ↦ rw (same, units-last key k work history) refl
  | inr differs ↦ rw (differs, units-last key k work history) refl
]

module _ (j key : GroupKey) (work : ℕ) where
  other-append :
      (xs : List (GroupKey × ℕ))
      → (key == j) ≡ false
      → units j (xs ++ (key, work) ∷ []) ≡ units j xs
  other-append xs h = units-last j key work xs ∙ rw h (append-nil (units j xs))

  own-append :
      (xs : List (GroupKey × ℕ))
      → (key == j) ≡ true
      → units j (xs ++ (key, work) ∷ []) ≡ units j xs ++ work ∷ []
  own-append xs h = units-last j key work xs ∙ rw h refl

  other-insert :
      (g : GroupCoroutine) (live : List (GroupKey × GroupCoroutine))
      → (key == j) ≡ false
      → lookup j (insert key g live) ≡ lookup j live
  other-insert g live h = rw (lookup-insert key j g live, h) refl

  own-insert :
      (g : GroupCoroutine) (live : List (GroupKey × GroupCoroutine))
      → (key == j) ≡ true
      → lookup j (insert key g live) ≡ some g
  own-insert g live h = rw (lookup-insert key j g live, h) refl

  own-lookup :
      (live : List (GroupKey × GroupCoroutine))
      → (key == j) ≡ true
      → lookup key live ≡ lookup j live
  own-lookup live h = ap (λ (k : GroupKey). lookup k live) (==→eq key j h)

enqueue-InOrder :
    (key : GroupKey) (group : GroupCoroutine) (work : ℕ) (s : Groups) (j : GroupKey)
    → queue_of (lookup key s.live) ≡ group.queue
    → running_of (lookup key s.live) ≡ running_unit group.running
    → InOrder s j
    → InOrder (enqueue key group work s) j
unfolding enqueue
enqueue-InOrder key group work s j same_queue same_running o = elim (Bool-cases (key == j)) [
  | inl same ↦ record {
    queued =
        rw
          (
            own-append j key work s.enqueued same,
            own-insert j key work _ s.live same,
            o.queued,
            sym (own-lookup j key work s.live same),
            same_queue,
          )
          (append_assoc (units j s.started) group.queue (work ∷ []));
    one_running =
        rw (own-insert j key work _ s.live same)
          (o.one_running ∙ rw (sym (own-lookup j key work s.live same), same_running) refl);
  }
  | inr differs ↦ record {
    queued =
        rw (other-append j key work s.enqueued differs, other-insert j key work _ s.live differs)
          o.queued;
    one_running = rw (other-insert j key work _ s.live differs) o.one_running;
  }
]

module _ (key : GroupKey) (work : ℕ) (queue : List ℕ) (s : Groups) (j : GroupKey)
    (o : InOrder s j) where
  take_work-InOrder :
      lookup key s.live ≡ some (record { queue = work ∷ queue; running = none })
      → InOrder (take_work key work queue s) j
  unfolding take_work
  take_work-InOrder found = elim (Bool-cases (key == j)) [
    | inl same ↦
        let at : lookup j s.live ≡ some (record { queue = work ∷ queue; running = none }) =
          sym (own-lookup j key work s.live same) ∙ found in
        record {
          queued =
              rw (own-append j key work s.started same, own-insert j key work _ s.live same)
                (o.queued ∙ rw at (sym (append_assoc (units j s.started) (work ∷ []) queue)));
          one_running =
              rw (own-append j key work s.started same, own-insert j key work _ s.live same)
                (ap (λ (l : List ℕ). l ++ work ∷ [])
                  (o.one_running ∙ rw at (append-nil (units j s.finished))));
        }
    | inr differs ↦ record {
      queued =
          rw (other-append j key work s.started differs, other-insert j key work _ s.live differs)
            o.queued;
      one_running =
          rw (other-append j key work s.started differs, other-insert j key work _ s.live differs)
            o.one_running;
    }
  ]

  finish_work-InOrder :
      lookup key s.live ≡ some (record { queue = queue; running = some work })
      → InOrder (finish_work key work queue s) j
  unfolding finish_work
  finish_work-InOrder found = elim (Bool-cases (key == j)) [
    | inl same ↦
        let at : lookup j s.live ≡ some (record { queue = queue; running = some work }) =
          sym (own-lookup j key work s.live same) ∙ found in
        record {
          queued = rw (own-insert j key work _ s.live same) (o.queued ∙ rw at refl);
          one_running =
              rw (own-append j key work s.finished same, own-insert j key work _ s.live same)
                (o.one_running ∙ rw at (sym (append-nil (units j s.finished ++ work ∷ []))));
        }
    | inr differs ↦ record {
      queued = rw (other-insert j key work _ s.live differs) o.queued;
      one_running =
          rw (other-append j key work s.finished differs, other-insert j key work _ s.live differs)
            o.one_running;
    }
  ]

on_idle-InOrder :
    (key : GroupKey) (s : Groups) (j : GroupKey)
    → InOrder s j
    → lookup key s.live ≡ some new_group
    → InOrder (on_idle key s) j
unfolding on_idle
on_idle-InOrder key s j o found = elim (Bool-cases (key == j)) [
  | inl same ↦
      let at : lookup j s.live ≡ some new_group = sym (own-lookup j key 0 s.live same) ∙ found in
      let gone : lookup j (remove key s.live) ≡ none = rw (lookup-remove key j s.live, same) refl in
      record {
        queued = rw gone (o.queued ∙ rw at refl);
        one_running = rw gone (o.one_running ∙ rw at refl);
      }
  | inr differs ↦
      let kept : lookup j (remove key s.live) ≡ lookup j s.live =
        rw (lookup-remove key j s.live, differs) refl in
      record { queued = rw kept o.queued; one_running = rw kept o.one_running }
]

granted-InOrder :
    (key : GroupKey) (work : ℕ) (s : Groups) (j : GroupKey)
    → InOrder s j
    → InOrder (granted key work s) j
unfolding granted
granted-InOrder key work s j o = elim (Option-cases (lookup key s.live)) [
  | inl missing ↦
      rw (missing, granted)
        (enqueue-InOrder key new_group work (record s { permits = s.permits - 1 }) j
          (rw missing refl) (rw missing refl)
          (record { queued = o.queued; one_running = o.one_running }))
  | inr (group, found) ↦
      rw (found, granted) (enqueue-InOrder key group work s j (rw found refl) (rw found refl) o)
]

process-InOrder :
    (key : GroupKey) (work : ℕ) (s : Groups) (j : GroupKey)
    → InOrder s j
    → InOrder (process key work s) j
unfolding process
process-InOrder key work s j o = elim (Option-cases (lookup key s.live)) [
  | inl missing ↦ elim (Bool-cases (s.permits == 0 || is_some (first_call s.waiting))) [
    | inl full ↦
        rw (missing, process, full) (record { queued = o.queued; one_running = o.one_running })
    | inr free ↦
        rw (missing, process, free)
          (enqueue-InOrder key new_group work (record s { permits = s.permits - 1 }) j
            (rw missing refl) (rw missing refl)
            (record { queued = o.queued; one_running = o.one_running }))
  ]
  | inr (group, found) ↦
      rw (found, process) (enqueue-InOrder key group work s j (rw found refl) (rw found refl) o)
]

Step-InOrder : {s s' : Groups} (j : GroupKey) → Step s s' → InOrder s j → InOrder s' j
unfolding waiting_without
Step-InOrder j (called key work {s}) o = process-InOrder key work s j o
Step-InOrder j (admitted key work before rest {s} at some_left) o =
    granted-InOrder key work (waiting_without before rest s) j
      (record { queued = o.queued; one_running = o.one_running })
Step-InOrder j (taken key work queue {s} found) o = take_work-InOrder key work queue s j o found
Step-InOrder j (ended key work queue {s} found) o = finish_work-InOrder key work queue s j o found
Step-InOrder j (idled key {s} found) o = on_idle-InOrder key s j o found

-- In every state that the service reaches, and for every group: the units of work that were enqueued
-- for the group are those that were started and then those in its queue, in the order of their
-- enqueuing, and those that were started are those that finished and then at most one that runs. So
-- no unit is lost or overtaken, also where the group ends and is started again, and no two run at
-- once.
pub Reachable-InOrder :
    {max_concurrent : ℕ} {s : Groups} (key : GroupKey) → Reachable max_concurrent s → InOrder s key
unfolding units lookup
Reachable-InOrder key initial = record { queued = refl; one_running = refl }
Reachable-InOrder key (after r step) = Step-InOrder key step (Reachable-InOrder key r)
