-- ===== src/Aggregation/SlidingWindow/Window.antt =====
-- The window that the active Event of a group keeps (sliding_window.py), and what follows from it.
use wealthfinder.Prelude.{
  ℕ, ◌-◌, ◌≤◌, ◌<◌, ◌≡◌, ◌⊎◌, refl, true, false, Option, none, some, List, [], ◌∷◌, ◌++◌, arith,
  Bool-cases, inl, inr, sym, ◌&&◌,
}
use wealthfinder.Prelude.Result.{ok, raise, sapi_error, ok_injective, bind-eq-ok, assert_some-eq-ok}
use wealthfinder.Models.{
  Event, EntityEvent, is_active_event, is_some, or_else, is_persistent_event, get_published_at,
}
use wealthfinder.Aggregation.SlidingWindow.{
  AggregationConfig, hours, accepts, in_window, extended, started, merge, merge_or_create,
}

-- The Event's times are in order and its span is below the maximum; it has constituents, and a time
-- of its last change.
pub record IsWindow (c : AggregationConfig) (e : Event) : Type 0 where
  pub ordered : e.first_seen_at ≤ e.last_seen_at
  pub short : e.last_seen_at - e.first_seen_at < hours c.event_max_timespan_hours
  pub constituents : is_active_event e ≡ true
  pub stamped : is_some e.aggregation_updated_at ≡ true

abbrev pub WindowOf : AggregationConfig → Option Event → Type 0
WindowOf c none = Unit
WindowOf c (some e) = IsWindow c e

is_active-snoc :
    (e : Event) (ids : List ℕ) (i : ℕ)
    → e.entity_event_ids ≡ some (ids ++ i ∷ [])
    → is_active_event e ≡ true
unfolding is_active_event
is_active-snoc e [] i h = rw h
is_active-snoc e (j ∷ ids) i h = rw h

-- An active Event has constituents.
pub ids_of_active :
    (e : Event) → is_active_event e ≡ true → (ids : List ℕ) × (e.entity_event_ids ≡ some ids)
unfolding is_active_event
ids_of_active e h = ground arith

module _ (c : AggregationConfig) (now : ℕ) where
  extended-IsWindow :
      (active : Event) (published_at id : ℕ) (ids : List ℕ)
      → in_window c active published_at ≡ true
      → IsWindow c (extended now active published_at id ids)
  unfolding extended in_window
  extended-IsWindow active p i ids h = record {
    ordered = omega arith;
    short = ground arith;
    constituents = is_active-snoc _ ids i refl;
    stamped = refl;
  }

stored_parts :
    (id created published : Option ℕ)
    → (elim id [ none ↦ false | some _ ↦ is_some created ]) ≡ true
    → (p : ℕ) × (i : ℕ) × (or_else published created ≡ some p) × (id ≡ some i)
stored_parts none created published h = absurd (cc)
stored_parts (some i) none published h = absurd (cc)
stored_parts (some i) (some t) none h = (t, i, refl, refl)
stored_parts (some i) (some t) (some p) h = (p, i, refl, refl)

module _ {F : Type 0} where
  persisted_parts :
      (entity : EntityEvent F)
      → is_persistent_event entity ≡ true
      → (p : ℕ) × (i : ℕ) × (get_published_at entity ≡ some p) × (entity.entity_event_id ≡ some i)
  unfolding is_persistent_event get_published_at
  persisted_parts entity h =
      stored_parts entity.entity_event_id entity.created_at entity.published_at h

module _ {F : Type 0} (c : AggregationConfig) (now new_id : ℕ) where
  started-IsWindow :
      (entity : EntityEvent F) (published_at id : ℕ)
      → 0 < c.event_max_timespan_hours
      → IsWindow c (started now new_id entity published_at id)
  unfolding started is_active_event
  started-IsWindow entity p i h = record {
    ordered = omega arith;
    short = omega arith;
    constituents = refl;
    stamped = refl;
  }

  -- The two ways in which a merge ends: it extends the active Event, or starts a new one.
  pub merge_cases :
      (a : Event) (entity : EntityEvent F) (p i : ℕ) {e : Event}
      → merge c now new_id (some a) entity p i ≡ ok e
      → (in_window c a p ≡ true)
          × ((ids : List ℕ) × (a.entity_event_ids ≡ some ids) × (e ≡ extended now a p i ids))
        ⊎ (in_window c a p ≡ false) × (e ≡ started now new_id entity p i)
  unfolding merge
  merge_cases a entity p i h = elim (Bool-cases (in_window c a p)) [
    | inl within ↦
        let (ids, found, e) = bind-eq-ok _ _ (rw within at h) in
        inl (within, (ids, assert_some-eq-ok found, sym (ok_injective e)))
    | inr outside ↦ inr (outside, sym (ok_injective (rw outside at h)))
  ]

  merge-IsWindow :
      (active : Option Event) (entity : EntityEvent F) (published_at id : ℕ) {e : Event}
      → 0 < c.event_max_timespan_hours
      → merge c now new_id active entity published_at id ≡ ok e
      → IsWindow c e
  merge-IsWindow none entity p i some_span h =
      unfold merge in rw (← ok_injective h) (started-IsWindow entity p i some_span)
  merge-IsWindow (some a) entity p i some_span h = elim (merge_cases a entity p i h) [
    | inl (within, (ids, _, e)) ↦ rw e (extended-IsWindow c now a p i ids within)
    | inr (_, e) ↦ rw e (started-IsWindow entity p i some_span)
  ]

  -- A successful call passed both guards, and merged at the EntityEvent's time and id.
  pub merge_or_create_inv :
      (active : Option Event) (entity : EntityEvent F) {e : Event}
      → merge_or_create c now new_id active entity ≡ ok e
      → (p : ℕ) × (i : ℕ) × (get_published_at entity ≡ some p)
        × (entity.entity_event_id ≡ some i)
        × (accepts active ≡ true)
        × (merge c now new_id active entity p i ≡ ok e)
  unfolding merge_or_create
  merge_or_create_inv active entity h = elim (Bool-cases (accepts active)) [
    | inl fit ↦ elim (Bool-cases (is_persistent_event entity)) [
      | inl stored ↦
          let (p, i, at, id) = persisted_parts entity stored in
          (p, i, at, id, fit, simp (fit, stored, at, id) at h)
      | inr not_stored ↦ absurd (cc (simp (fit, not_stored) at h))
    ]
    | inr unfit ↦ absurd (cc (simp unfit at h))
  ]

  -- Whatever the active Event was, the Event that `merge_or_create` returns has its times in order,
  -- a span below the maximum, a constituent and a time of its last change, provided that the
  -- maximum is positive.
  pub merge_or_create-IsWindow :
      (active : Option Event) (entity : EntityEvent F) {e : Event}
      → 0 < c.event_max_timespan_hours
      → merge_or_create c now new_id active entity ≡ ok e
      → IsWindow c e
  merge_or_create-IsWindow active entity some_span h =
      let (p, i, _, _, _, merged) = merge_or_create_inv active entity h in
      merge-IsWindow active entity p i some_span merged

  merge_total :
      (active : Option Event) (entity : EntityEvent F) (p i : ℕ)
      → accepts active ≡ true
      → (e : Event) × (ids : List ℕ) × (merge c now new_id active entity p i ≡ ok e)
        × (e.entity_event_ids ≡ some (ids ++ i ∷ []))
  unfolding merge accepts extended started
  merge_total none entity p i h = (started now new_id entity p i, [], refl, refl)
  merge_total (some a) entity p i h = elim (Bool-cases (in_window c a p)) [
    | inl within ↦
        let (ids, found) = ids_of_active a h in
        (extended now a p i ids, ids, simp (within, found), refl)
    | inr outside ↦ (started now new_id entity p i, [], rw outside, refl)
  ]

  -- The call returns an Event exactly when the group's Event, if there is one, is active and the
  -- EntityEvent is persisted; otherwise it raises a SAPIError. The new constituent is the last one.
  pub merge_or_create_outcome :
      (active : Option Event) (entity : EntityEvent F)
      → (accepts active && is_persistent_event entity ≡ true)
          × ((e : Event) × (ids : List ℕ) × (i : ℕ) × (merge_or_create c now new_id active entity
                ≡ ok e)
              × (entity.entity_event_id ≡ some i)
              × (e.entity_event_ids ≡ some (ids ++ i ∷ [])))
        ⊎ (accepts active && is_persistent_event entity ≡ false)
          × (merge_or_create c now new_id active entity ≡ raise sapi_error)
  unfolding merge_or_create
  merge_or_create_outcome active entity = elim (Bool-cases (accepts active)) [
    | inl fit ↦ elim (Bool-cases (is_persistent_event entity)) [
      | inl stored ↦
          let (p, i, at, id) = persisted_parts entity stored in
          let (e, ids, merged, last) = merge_total active entity p i fit in
          inl (rw (fit, stored), (e, ids, i, simp (fit, stored, at, id) merged, id, last))
      | inr not_stored ↦ inr (rw (fit, not_stored), rw (fit, not_stored))
    ]
    | inr unfit ↦ inr (rw unfit, rw unfit)
  ]
