-- ===== src/Aggregation/Groups/Permits.antt =====
-- The permits of the groups (aggregation_service.py): AGG_MAX_CONCURRENT bounds the live groups.
use wealthfinder.Prelude.{
  ℕ, ◌+◌, ◌-◌, ◌≡◌, ◌<◌, ◌||◌, none, some, ◌==◌, nat_eq, arith, inl, inr, Option-cases, Bool-cases,
  length,
}
use wealthfinder.Prelude.Assoc.{lookup}
use wealthfinder.Prelude.Assoc.Distinct.{
  Distinct, insert-Distinct, remove-Distinct, length-insert_new, length-insert_old, length-remove,
}
use wealthfinder.Models.{is_some}
use wealthfinder.Aggregation.Store.{GroupKey}
use wealthfinder.Aggregation.Groups.{
  GroupCoroutine, Groups, group_key_eq, enqueue, new_group, process, granted, take_work,
  finish_work, on_idle, waiting_without, first_call, Step, called, admitted, taken, ended, idled,
  Reachable, initial, after,
}

-- Each group is live once, and the permits left and the live groups make up the maximum.
pub record Balanced (max_concurrent : ℕ) (s : Groups) : Type 0 where
  pub once : Distinct s.live
  pub balance : s.permits + length s.live ≡ max_concurrent

module _ (max_concurrent : ℕ) where
  enqueue_live :
      (key : GroupKey) (work : ℕ) (s : Groups) {group : GroupCoroutine}
      → lookup key s.live ≡ some group
      → Balanced max_concurrent s
      → Balanced max_concurrent (enqueue key group work s)
  unfolding enqueue
  enqueue_live key work s found b = record {
    once = insert-Distinct key _ s.live b.once;
    balance = rw (length-insert_old key _ s.live found) b.balance;
  }

  enqueue_new :
      (key : GroupKey) (work : ℕ) (s : Groups)
      → lookup key s.live ≡ none
      → 0 < s.permits
      → Balanced max_concurrent s
      → Balanced max_concurrent (enqueue key new_group work (record s { permits = s.permits - 1 }))
  unfolding enqueue
  enqueue_new key work s missing some_left b = record {
    once = insert-Distinct key _ s.live b.once;
    balance = rw (length-insert_new key _ s.live missing) (omega (arith, b.balance, some_left));
  }

  granted-Balanced :
      (key : GroupKey) (work : ℕ) (s : Groups)
      → 0 < s.permits
      → Balanced max_concurrent s
      → Balanced max_concurrent (granted key work s)
  unfolding granted
  granted-Balanced key work s some_left b = elim (Option-cases (lookup key s.live)) [
    | inl missing ↦ rw (missing, granted) (enqueue_new key work s missing some_left b)
    | inr (group, found) ↦ rw (found, granted) (enqueue_live key work s found b)
  ]

  process-Balanced :
      (key : GroupKey) (work : ℕ) (s : Groups)
      → Balanced max_concurrent s
      → Balanced max_concurrent (process key work s)
  unfolding process
  process-Balanced key work s b = elim (Option-cases (lookup key s.live)) [
    | inl missing ↦ elim (Bool-cases (s.permits == 0 || is_some (first_call s.waiting))) [
      | inl full ↦ rw (missing, process, full) (record { once = b.once; balance = b.balance })
      | inr free ↦ rw (missing, process, free) (enqueue_new key work s missing (ground arith) b)
    ]
    | inr (group, found) ↦ rw (found, process) (enqueue_live key work s found b)
  ]

  Step-Balanced :
      {s s' : Groups} → Step s s' → Balanced max_concurrent s → Balanced max_concurrent s'
  unfolding take_work finish_work on_idle waiting_without
  Step-Balanced (called key work {s}) b = process-Balanced key work s b
  Step-Balanced (admitted key work before rest {s} at some_left) b =
      granted-Balanced key work (waiting_without before rest s) some_left
        (record { once = b.once; balance = b.balance })
  Step-Balanced (taken key work queue {s} found) b = record {
    once = insert-Distinct key _ s.live b.once;
    balance = rw (length-insert_old key _ s.live found) b.balance;
  }
  Step-Balanced (ended key work queue {s} found) b = record {
    once = insert-Distinct key _ s.live b.once;
    balance = rw (length-insert_old key _ s.live found) b.balance;
  }
  Step-Balanced (idled key {s} found) b = record {
    once = remove-Distinct key s.live b.once;
    balance = omega (arith, length-remove key s.live b.once found, b.balance);
  }

  -- In every state that the service reaches, each group is live at most once, and the permits that
  -- are left and the live groups add up to the maximum: no permit is lost or given back twice.
  pub Reachable-Balanced : {s : Groups} → Reachable max_concurrent s → Balanced max_concurrent s
  Reachable-Balanced initial = record { once = tt; balance = omega arith }
  Reachable-Balanced (after r step) = Step-Balanced step (Reachable-Balanced r)
