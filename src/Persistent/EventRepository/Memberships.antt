-- ===== src/Persistent/EventRepository/Memberships.antt =====
-- The memberships that persistent/event_repository.py writes: which EntityEvents are mapped to an
-- Event, before and after.
use mathlib.Core.Option.{some-injective}
use wealthfinder.Prelude.{
  ℕ, ◌≡◌, ◌∙◌, ◌⊎◌, ap, sym, true, Option, some, List, [], ◌∷◌, ◌==◌, nat_eq, elem, arith, inl, inr,
  Option-cases, Bool-cases, ==→eq, subst, nat_beq_iff,
}
use wealthfinder.Prelude.Assoc.{lookup, lookup-insert, lookup-insert_self}
use wealthfinder.Prelude.Result.{Result-cases, ok, ok_injective}
use wealthfinder.Models.{Event, is_some}
use wealthfinder.Persistent.EventRepository.{
  Tables, EventRow, Computed, upsert, add_membership, insert_memberships, persist_event,
  persist_events, fetch_mapped_event_id, written_row,
}

abbrev pub Mapped : ℕ → Tables → Type 0
Mapped id t = is_some (fetch_mapped_event_id t id) ≡ true

-- The EntityEvent is a constituent of one of the Events.
abbrev pub InEvents : ℕ → List Event → Type 0
InEvents id [] = ⊥
InEvents id (e ∷ es) =
    ((ids : List ℕ) × (e.entity_event_ids ≡ some ids) × (elem id ids ≡ true)) ⊎ InEvents id es

module _ (event_id id : ℕ) (m : List (ℕ × ℕ)) where
  add_membership-keeps :
      (j : ℕ) {x : ℕ} → lookup j m ≡ some x → lookup j (add_membership event_id id m) ≡ some x
  unfolding add_membership
  add_membership-keeps j h = ground (arith, lookup-insert id j event_id m, nat_beq_iff id j)

  add_membership-adds : (x : ℕ) × (lookup id (add_membership event_id id m) ≡ some x)
  unfolding add_membership
  add_membership-adds = elim (Option-cases (lookup id m)) [
    | inl fresh ↦ (event_id, rw (fresh, add_membership) (lookup-insert_self id event_id m))
    | inr (x, found) ↦ (x, add_membership-keeps id found)
  ]

insert_memberships-keeps :
    (event_id : ℕ) (ids : List ℕ) (m : List (ℕ × ℕ)) (j : ℕ) {x : ℕ}
    → lookup j m ≡ some x
    → lookup j (insert_memberships event_id ids m) ≡ some x
unfolding insert_memberships
insert_memberships-keeps event_id [] m j h = h
insert_memberships-keeps event_id (id ∷ ids) m j h =
    insert_memberships-keeps event_id ids (add_membership event_id id m) j
      (add_membership-keeps event_id id m j h)

insert_memberships-adds :
    (event_id : ℕ) (ids : List ℕ) (m : List (ℕ × ℕ)) (j : ℕ)
    → elem j ids ≡ true
    → (x : ℕ) × (lookup j (insert_memberships event_id ids m) ≡ some x)
unfolding insert_memberships elem
insert_memberships-adds event_id [] m j h = absurd (cc)
insert_memberships-adds event_id (id ∷ ids) m j h = elim (Bool-cases (id == j)) [
  | inl here ↦
      let (x, added) = add_membership-adds event_id id m in
      (
        x,
        insert_memberships-keeps event_id ids (add_membership event_id id m) j (
            subst (λ (k : ℕ). lookup k (add_membership event_id id m) ≡ some x) (==→eq id j here)
              added),
      )
  | inr there ↦
      insert_memberships-adds event_id ids (add_membership event_id id m) j (rw there at h)
]

module _ (computed : Computed) (now : ℕ) where
  map-upsert :
      (t : Tables) (event : Event) (version : ℕ) (ids : List ℕ)
      → (upsert computed now t event version ids).0.event_entity_map ≡ t.event_entity_map
  unfolding upsert
  map-upsert t event version ids = ground arith

  -- what a successful `persist_event` does to the tables
  pub persist_event_inv :
      (t : Tables) (event : Event) {t' : Tables} {row : Option EventRow}
      → persist_event computed now t event ≡ ok (t', row)
      → (version : ℕ) × (ids : List ℕ) × (event.aggregation_updated_at ≡ some version)
        × (event.entity_event_ids ≡ some ids)
        × (t'.event_entity_map ≡ insert_memberships event.event_id ids t.event_entity_map)
        × (t'.events ≡ (upsert computed now t event version ids).0.events)
        × (row ≡ (upsert computed now t event version ids).1)
  unfolding persist_event
  persist_event_inv t event {t'} {row} h = elim (Option-cases event.aggregation_updated_at) [
    | inl missing ↦ absurd (cc (simp missing at h))
    | inr (version, stamped) ↦ elim (Option-cases event.entity_event_ids) [
      | inl missing ↦ absurd (cc (simp (stamped, missing) at h))
      | inr (ids, found) ↦
          let e = ok_injective (simp (stamped, found) at h) in
          (
            version,
            ids,
            stamped,
            found,
            ap (λ (p : Tables × Option EventRow). p.0.event_entity_map) (sym e)
                ∙ ap (insert_memberships event.event_id ids) (map-upsert t event version ids),
            ap (λ (p : Tables × Option EventRow). p.0.events) (sym e),
            ap (λ (p : Tables × Option EventRow). p.1) (sym e),
          )
    ]
  ]

  -- a successful `persist_events` persisted its Events one after another
  pub persist_events_inv :
      (t : Tables) (event : Event) (events : List Event) {t'' : Tables} {written : List Event}
      → persist_events computed now t (event ∷ events) ≡ ok (t'', written)
      → (t' : Tables) × (row : Option EventRow) × (rest : List Event) × (persist_event computed now
            t event
          ≡ ok (t', row))
        × (persist_events computed now t' events ≡ ok (t'', rest))
        × (written ≡ written_row computed now row rest)
  unfolding persist_events
  persist_events_inv t event events {t''} {written} h =
      elim (Result-cases (persist_event computed now t event)) [
        | inr (x, bad) ↦ absurd (cc (simp bad at h))
        | inl ((t', row), first) ↦ elim (Result-cases (persist_events computed now t' events)) [
          | inr (x, bad) ↦ absurd (cc (simp (first, bad) at h))
          | inl ((t₂, rest), then_) ↦
              let e = ok_injective (simp (first, then_) at h) in
              (
                t',
                row,
                rest,
                first,
                then_ ∙ ap (λ (p : Tables × List Event). ok (p.0, rest)) e,
                ap (λ (p : Tables × List Event). p.1) (sym e),
              )
        ]
      ]

  -- `persist_events` keeps every membership that is there, to the same Event, and gives one to every
  -- constituent of the Events persisted.
  pub persist_events_memberships :
      (t : Tables) (events : List Event) (j : ℕ) {t' : Tables} {written : List Event}
      → persist_events computed now t events ≡ ok (t', written)
      → ((x : ℕ) → fetch_mapped_event_id t j ≡ some x → fetch_mapped_event_id t' j ≡ some x)
        × (InEvents j events → (x : ℕ) × (fetch_mapped_event_id t' j ≡ some x))
  unfolding fetch_mapped_event_id
  persist_events_memberships t [] j h =
      unfold persist_events in
      (λ x k. rw (← ap (λ (p : Tables × List Event). p.0) (ok_injective h)) k, λ k. absurd k)
  persist_events_memberships t (event ∷ events) j h =
      let (t₁, row, rest, first, then_, _) = persist_events_inv t event events h in
      let (keeps, adds) = persist_events_memberships t₁ events j then_ in
      let (_, ids, _, own, map', _, _) = persist_event_inv t event first in
      (
        λ x k.
            keeps x (rw map' (insert_memberships-keeps event.event_id ids t.event_entity_map j k)),
        λ k. elim k [
          | inl (ids', own', here) ↦
              let (x, added) = insert_memberships-adds event.event_id ids t.event_entity_map j (
                subst (λ (l : List ℕ). elem j l ≡ true) (some-injective ids' ids (sym own' ∙ own))
                  here) in
              (x, keeps x (rw map' added))
          | inr later ↦ adds later
        ],
      )
