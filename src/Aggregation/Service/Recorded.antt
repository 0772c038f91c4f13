-- ===== src/Aggregation/Service/Recorded.antt =====
-- Where an EntityEvent that was merged is to be found, and that no later merge loses it
-- (aggregation_service.py).
use mathlib.Core.Option
use mathlib.Core.Option.{some-injective}
use wealthfinder.Prelude.{
  ℕ, Text, text_eq, ◌≡◌, ◌≢◌, ◌∙◌, ◌⊎◌, refl, ap, sym, true, Option, none, some, List, [], ◌∷◌,
  ◌++◌, ◌==◌, nat_eq, elem, arith, inl, inr, Bool-cases, ==→eq, ==_ne, subst,
}
use wealthfinder.Prelude.Assoc.{lookup, lookup-insert, lookup-insert_self}
use wealthfinder.Prelude.Result.{ok, ok_injective}
use wealthfinder.Models.{Event, EntityEvent}
use wealthfinder.Persistent.EventRepository.Memberships.{InEvents}
use wealthfinder.Aggregation.SlidingWindow.{
  AggregationConfig, merge_or_create, extended, started, merge,
}
use wealthfinder.Aggregation.SlidingWindow.Window.{merge_or_create_inv, merge_cases}
use wealthfinder.Aggregation.Store.{
  GroupKey, Hash, Redis, decode, get_key, key_of, hash_of, get_active_event, upsert_hash,
}
use wealthfinder.Aggregation.Store.Keys.{get_active_event-eq, key_of-get_active_event}
use wealthfinder.Aggregation.Service.{replaced}

-- Some group's active Event has the EntityEvent.
abbrev pub Held : ℕ → Redis → Type 0
Held i r = (key : Text) × (h : Hash) × (lookup key r ≡ some h) × (elem i h.entity_event_ids ≡ true)

module _ {F : Type 0} where
  -- the group that `process_entity_event` queues the EntityEvent in
  abbrev pub group_of : EntityEvent F → GroupKey
  group_of entity = record {
    exchange = entity.stock.exchange;
    stock_code = entity.stock.stock_code;
    event_type_primary = entity.analysis_outcome.output.event_type_primary;
  }

elem-append : (i : ℕ) (xs ys : List ℕ) → elem i xs ≡ true → elem i (xs ++ ys) ≡ true
unfolding elem
elem-append i [] ys h = absurd (cc)
elem-append i (x ∷ xs) ys h = ground (arith, elem-append i xs ys)

pub elem_last : (i : ℕ) (xs : List ℕ) → elem i (xs ++ i ∷ []) ≡ true
unfolding elem
elem_last i [] = ground arith
elem_last i (x ∷ xs) = rw (elem_last i xs) (ground arith)

-- the ids of the Event that a merge returns
module _ {F : Type 0} (c : AggregationConfig) (now new_id : ℕ) (entity : EntityEvent F) where
  -- A merge into the group's active Event returns an Event of the group. It keeps the active Event's
  -- constituents, or has the new id.
  pub merge_or_create-group :
      (active : Option Event) {e : Event}
      → merge_or_create c now new_id active entity ≡ ok e
      → ((a : Event) → active ≡ some a → key_of a ≡ group_of entity)
      → (key_of e ≡ group_of entity)
        × ((a : Event) (ids : List ℕ) (i : ℕ)
            → active ≡ some a
            → a.entity_event_ids ≡ some ids
            → elem i ids ≡ true
            → ((ids' : List ℕ) × (e.entity_event_ids ≡ some ids') × (elem i ids' ≡ true))
              ⊎ (e.event_id ≡ new_id))
  unfolding merge started extended
  merge_or_create-group none h group =
      let (p, id, _, _, _, merged) = merge_or_create_inv c now new_id none entity h in
      (ap key_of (sym (ok_injective merged)), λ a ids i e. absurd (cc))
  merge_or_create-group (some a) {e} h group =
      let (p, id, _, _, _, merged) = merge_or_create_inv c now new_id (some a) entity h in
      elim (merge_cases c now new_id a entity p id merged) [
        | inl (_, (ids, own, made)) ↦ (
          ap key_of made ∙ group a refl,
          λ a' ids' i same own' here. inl (
            ids ++ id ∷ [],
            ap (λ (x : Event). x.entity_event_ids) made,
            elem-append i (ids) (id ∷ []) (
                subst (λ (l : List ℕ). elem i l ≡ true)
                  (some-injective ids' ids (
                    sym own'
                    ∙ ap (λ (x : Event). x.entity_event_ids) (sym (some-injective a a' same))
                    ∙ own))
                  here),
          ),
        )
        | inr (_, made) ↦
            (ap key_of made, λ a' ids' i same own' here. inr (ap (λ (x : Event). x.event_id) made))
      ]

pub ids-hash_of :
    (e : Event) (h : Hash) → hash_of e ≡ ok h → e.entity_event_ids ≡ some h.entity_event_ids
unfolding hash_of
ids-hash_of e h made = ground arith

-- the Event in the place of the one that is replaced
replaced-ne : (e a : Event) → e.event_id ≢ a.event_id → replaced e (some a) ≡ a ∷ []
unfolding replaced
replaced-ne e a h = rw (==_ne e.event_id a.event_id h)

module _ {F : Type 0} (c : AggregationConfig) (now new_id : ℕ) (entity : EntityEvent F)
    (r : Redis) where
  -- Storing a merged Event loses no EntityEvent that a group's active Event has, except those of the
  -- Event that it replaces.
  pub upsert_hash-Held :
      {e : Event} {h : Hash} (i : ℕ)
      → merge_or_create c now new_id (get_active_event (group_of entity) r) entity ≡ ok e
      → ((a : Event) → get_active_event (group_of entity) r ≡ some a → new_id ≢ a.event_id)
      → hash_of e ≡ ok h
      → Held i r
      → Held i (upsert_hash e h r) ⊎ InEvents i (replaced e (get_active_event (group_of entity) r))
  unfolding upsert_hash
  upsert_hash-Held {e} {h} i merged fresh made (k, h₀, found, here) =
      let (same_group, ids) =
        merge_or_create-group c now new_id entity (get_active_event (group_of entity) r) merged
          (key_of-get_active_event (group_of entity) r) in
      elim (Bool-cases (get_key (key_of e) == k)) [
        | inr differs ↦
            inl (k, h₀, rw (lookup-insert (get_key (key_of e)) k h r, differs) found, here)
        | inl same ↦
            let k_eq : k ≡ get_key (group_of entity) =
              sym (==→eq (get_key (key_of e)) k same) ∙ ap get_key same_group in
            let at : get_active_event (group_of entity) r ≡ some (decode (group_of entity) h₀) =
              get_active_event-eq (group_of entity) r
              ∙ ap (λ (o : Option Hash). Option.map (decode (group_of entity)) o)
                  (ap (λ (x : Text). lookup x r) (sym k_eq) ∙ found) in
            elim (ids (decode (group_of entity) h₀) h₀.entity_event_ids i at (unfold decode in refl)
              here) [
                | inl (ids', own, in_ids) ↦ inl (
                  get_key (key_of e),
                  h,
                  lookup-insert_self (get_key (key_of e)) h r,
                  subst (λ (l : List ℕ). elem i l ≡ true)
                      (some-injective ids' h.entity_event_ids (sym own ∙ ids-hash_of e h made))
                      in_ids,
                )
                | inr renewed ↦ inr (
                    rw
                      (
                        at,
                        replaced-ne e (decode (group_of entity) h₀)
                            (λ q. fresh _ at (sym renewed ∙ q)),
                      )
                      (inl (h₀.entity_event_ids, (unfold decode in refl), here)))
              ]
      ]
