-- ===== src/Aggregation/SlidingWindow/Arrivals.antt =====
-- EntityEvents that arrive one after another (sliding_window.py): what an Event that several were
-- merged into says of them, in whatever order they came, and what a late arrival is.
use mathlib.Core.List.Perm
use mathlib.Core.List.{Perm, Permᴰ, append_assoc, append-nil}
use mathlib.Core.Option.{some-injective}
use mathlib.Core.Logic.{∥∥₁_elim}
use native.Mathlib.Nat.{ℕ_set}
use wealthfinder.Prelude.{
  ℕ, ◌+◌, ◌-◌, ◌≤◌, ◌<◌, ◌≡◌, ◌≢◌, ◌∙◌, ◌⊎◌, refl, ap, sym, true, false, Bool, Option, none, some,
  List, [], ◌∷◌, ◌++◌, map, arith, inl, inr, min, max, ltb,
}
use wealthfinder.Prelude.Result.{ok, ok_injective}
use wealthfinder.Models.{Event, EntityEvent, get_published_at}
use wealthfinder.Aggregation.SlidingWindow.{
  AggregationConfig, hours, in_window, extended, started, merge_or_create, is_late,
}
use wealthfinder.Aggregation.SlidingWindow.Window.{merge_cases, merge_or_create_inv}

abbrev or_zero : Option ℕ → ℕ
or_zero none = 0
or_zero (some n) = n

late-outside :
    (c : AggregationConfig) (a : Event) (p : ℕ)
    → ltb (hours c.sliding_window_hours) (a.last_seen_at - p) ≡ true
    → (in_window c a p ≡ false) × (p + hours c.sliding_window_hours < a.last_seen_at)
unfolding in_window
late-outside c a p h = ground arith

not_late-outside :
    (c : AggregationConfig) (a : Event) (p : ℕ)
    → ltb (hours c.sliding_window_hours) (a.last_seen_at - p) ≡ false
    → in_window c a p ≡ false
    → (a.last_seen_at + hours c.sliding_window_hours < p)
      ⊎ (hours c.event_max_timespan_hours ≤ max p a.last_seen_at - min p a.first_seen_at)
unfolding in_window
not_late-outside c a p h k = ground arith

module _ {F : Type 0} where
  -- the time at which an EntityEvent was published, and its id
  abbrev pub time_of : EntityEvent F → ℕ
  time_of e = or_zero (get_published_at e)

  abbrev pub id_of : EntityEvent F → ℕ
  id_of e = or_zero e.entity_event_id

  abbrev pub earliest : ℕ → List (EntityEvent F) → ℕ
  earliest t [] = t
  earliest t (e ∷ es) = min (time_of e) (earliest t es)

  abbrev pub latest : ℕ → List (EntityEvent F) → ℕ
  latest t [] = t
  latest t (e ∷ es) = max (time_of e) (latest t es)

  -- `Joins c a es b`: each of `es` was merged in turn by `merge_or_create`, which kept the Event each
  -- time (it did not give it the new id), and `b` is the Event in the end.
  pub data Joins (c : AggregationConfig) : Event → List (EntityEvent F) → Event → Type 0 where
    done : {a : Event} → Joins c a [] a
    join :
        {a a' b : Event} {e : EntityEvent F} {es : List (EntityEvent F)} (now new_id : ℕ)
        → merge_or_create c now new_id (some a) e ≡ ok a'
        → a.event_id ≢ new_id
        → a'.event_id ≡ a.event_id
        → Joins c a' es b
        → Joins c a (e ∷ es) b

  -- A merge that keeps the Event extends it by the EntityEvent.
  extends :
      (c : AggregationConfig) (now new_id : ℕ) (a : Event) (e : EntityEvent F) {a' : Event}
      → merge_or_create c now new_id (some a) e ≡ ok a'
      → a.event_id ≢ new_id
      → a'.event_id ≡ a.event_id
      → (ids : List ℕ) × (a.entity_event_ids ≡ some ids)
        × (a' ≡ extended now a (time_of e) (id_of e) ids)
  unfolding started
  extends c now new_id a e h fresh same =
      let (p, i, at, id, _, merged) = merge_or_create_inv c now new_id (some a) e h in
      elim (merge_cases c now new_id a e p i merged) [
        | inl (_, (ids, found, e')) ↦ (ids, found, rw (at, id) e')
        | inr (_, e') ↦ absurd (fresh (sym same ∙ ap (λ (x : Event). x.event_id) e'))
      ]

  earliest-min :
      (t x : ℕ) (es : List (EntityEvent F)) → earliest (min t x) es ≡ min x (earliest t es)
  earliest-min t x [] = omega arith
  earliest-min t x (e ∷ es) = omega (arith, earliest-min t x es)

  latest-max : (t x : ℕ) (es : List (EntityEvent F)) → latest (max t x) es ≡ max x (latest t es)
  latest-max t x [] = omega arith
  latest-max t x (e ∷ es) = omega (arith, latest-max t x es)

  -- An Event that EntityEvents were merged into keeps its id. It was first seen at the earliest and
  -- last seen at the latest of their publication times and its own, and its constituents are its
  -- own, then theirs in order of arrival.
  pub Joins-summary :
      (c : AggregationConfig) {a b : Event} {es : List (EntityEvent F)} (ids : List ℕ)
      → Joins c a es b
      → a.entity_event_ids ≡ some ids
      → (b.event_id ≡ a.event_id)
        × (b.first_seen_at ≡ earliest a.first_seen_at es)
        × (b.last_seen_at ≡ latest a.last_seen_at es)
        × (b.entity_event_ids ≡ some (ids ++ map id_of es))
  Joins-summary c ids done own = (refl, refl, refl, rw append-nil own)
  Joins-summary c {a} {b} ids (join {a' = a'} {e = e} {es = es} now new_id h fresh same rest) own =
      let (ids', own', e') = extends c now new_id a e h fresh same in
      let same_ids : ids' ≡ ids = some-injective _ _ (sym own' ∙ own) in
      let (i, first, last, all) = Joins-summary c (ids ++ id_of e ∷ []) rest (
        ap (λ (x : Event). x.entity_event_ids) e'
        ∙ unfold extended in ap (λ (l : List ℕ). some (l ++ id_of e ∷ [])) same_ids) in
      (
        i ∙ same,
        first
            ∙ ap (λ (x : Event). earliest x.first_seen_at es) e'
            ∙ unfold extended in earliest-min a.first_seen_at (time_of e) es,
        last
            ∙ ap (λ (x : Event). latest x.last_seen_at es) e'
            ∙ unfold extended in latest-max a.last_seen_at (time_of e) es,
        all ∙ ap some (append_assoc ids (id_of e ∷ []) (map id_of es)),
      )

  earliest-permᴰ :
      (t : ℕ) {es es' : List (EntityEvent F)} → Permᴰ es es' → earliest t es ≡ earliest t es'
  earliest-permᴰ t Permᴰ.nil = refl
  earliest-permᴰ t (Permᴰ.cons p q) = omega (arith, ap time_of p, earliest-permᴰ t q)
  earliest-permᴰ t (Permᴰ.swap p q) = omega (arith, ap time_of p, ap time_of q)
  earliest-permᴰ t (Permᴰ.trans p q) = earliest-permᴰ t p ∙ earliest-permᴰ t q

  latest-permᴰ : (t : ℕ) {es es' : List (EntityEvent F)} → Permᴰ es es' → latest t es ≡ latest t es'
  latest-permᴰ t Permᴰ.nil = refl
  latest-permᴰ t (Permᴰ.cons p q) = omega (arith, ap time_of p, latest-permᴰ t q)
  latest-permᴰ t (Permᴰ.swap p q) = omega (arith, ap time_of p, ap time_of q)
  latest-permᴰ t (Permᴰ.trans p q) = latest-permᴰ t p ∙ latest-permᴰ t q

  earliest-perm :
      (t : ℕ) {es es' : List (EntityEvent F)} → Perm es es' → earliest t es ≡ earliest t es'
  earliest-perm t p = ∥∥₁_elim p (ℕ_set _ _) (earliest-permᴰ t)

  latest-perm : (t : ℕ) {es es' : List (EntityEvent F)} → Perm es es' → latest t es ≡ latest t es'
  latest-perm t p = ∥∥₁_elim p (ℕ_set _ _) (latest-permᴰ t)

  -- The order of arrival does not matter: if the same EntityEvents all join an Event in two orders,
  -- the two results have the same id and the same first and last times, and the same constituents
  -- up to their order.
  pub Joins-perm :
      (c : AggregationConfig) {a b b' : Event} {es es' : List (EntityEvent F)} (ids : List ℕ)
      → Joins c a es b
      → Joins c a es' b'
      → a.entity_event_ids ≡ some ids
      → Perm es es'
      → (b.event_id ≡ b'.event_id)
        × (b.first_seen_at ≡ b'.first_seen_at)
        × (b.last_seen_at ≡ b'.last_seen_at)
        × ((l l' : List ℕ) × (b.entity_event_ids ≡ some l)
            × (b'.entity_event_ids ≡ some l')
            × Perm l l')
  Joins-perm c {a} {es = es} {es' = es'} ids j j' own p =
      let (same, first, last, all) = Joins-summary c ids j own in
      let (same', first', last', all') = Joins-summary c ids j' own in
      (
        same ∙ sym same',
        first ∙ earliest-perm a.first_seen_at p ∙ sym first',
        last ∙ latest-perm a.last_seen_at p ∙ sym last',
        (
          ids ++ map id_of es,
          ids ++ map id_of es',
          all,
          all',
          Perm.append (Perm.refl ids) (Perm.map id_of p),
        ),
      )

  late_time :
      (c : AggregationConfig) (a : Event) (e : EntityEvent F) {p : ℕ} {b : Bool}
      → is_late c a e ≡ ok b
      → get_published_at e ≡ some p
      → ltb (hours c.sliding_window_hours) (a.last_seen_at - p) ≡ b
  unfolding is_late
  late_time c a e late at = ok_injective (simp at at late)

  -- A late EntityEvent never joins the active Event: merging it would start a new Event, last seen
  -- before the active one by more than the sliding window.
  pub merge_or_create-late :
      (c : AggregationConfig) (now new_id : ℕ) (a : Event) (e : EntityEvent F) {a' : Event}
      → is_late c a e ≡ ok true
      → merge_or_create c now new_id (some a) e ≡ ok a'
      → (a'.event_id ≡ new_id) × (a'.last_seen_at + hours c.sliding_window_hours < a.last_seen_at)
  unfolding started
  merge_or_create-late c now new_id a e late h =
      let (p, i, at, id, _, merged) = merge_or_create_inv c now new_id (some a) e h in
      let (outside, before) = late-outside c a p (late_time c a e late at) in
      elim (merge_cases c now new_id a e p i merged) [
        | inl (within, _) ↦ absurd (cc)
        | inr (_, e') ↦ (ap (λ (x : Event). x.event_id) e', rw e' before)
      ]

  -- An EntityEvent that is not late starts a new Event only if it was published later than the
  -- active Event's last one by more than the sliding window, or if the span would reach the maximum.
  pub merge_or_create-not_late :
      (c : AggregationConfig) (now new_id : ℕ) (a : Event) (e : EntityEvent F) {a' : Event}
      → is_late c a e ≡ ok false
      → merge_or_create c now new_id (some a) e ≡ ok a'
      → a.event_id ≢ new_id
      → a'.event_id ≢ a.event_id
      → (a.last_seen_at + hours c.sliding_window_hours < time_of e)
        ⊎ (hours c.event_max_timespan_hours
            ≤ max (time_of e) a.last_seen_at - min (time_of e) a.first_seen_at)
  unfolding extended
  merge_or_create-not_late c now new_id a e late h fresh changed =
      let (p, i, at, id, _, merged) = merge_or_create_inv c now new_id (some a) e h in
      elim (merge_cases c now new_id a e p i merged) [
        | inl (_, (ids, _, e')) ↦ absurd (changed (ap (λ (x : Event). x.event_id) e'))
        | inr (outside, _) ↦ rw at (not_late-outside c a p (late_time c a e late at) outside)
      ]
