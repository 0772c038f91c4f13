-- ===== src/Aggregation/Service/Acked.antt =====
-- What `_merge` (aggregation_service.py) has done when it acknowledges a message.
use mathlib.Core.Option.{some-injective}
use wealthfinder.Prelude.{
  ℕ, ◌≡◌, ◌∙◌, ◌⊎◌, refl, ap, sym, true, Option, some, List, [], ◌∷◌, ◌++◌, inl, inr, Option-cases,
  subst, nat_eq, text_eq,
}
use wealthfinder.Prelude.Assoc.{lookup, lookup-insert_self}
use wealthfinder.Prelude.Result.{
  Exc, unreachable, rate_limit, sapi_error, cancelled, other, ok, ok_injective, assert_some,
  assert_some-eq-ok,
}
use wealthfinder.Prelude.Action.{Env, request, return, ◌>>=◌}
use wealthfinder.Prelude.Action.Triple.{
  Triple, Keeps, Triple-return, Triple-lift, Triple-request, Triple-if, Triple-catch, Triple-modify,
  Triple-bind, Triple-weaken, Triple-given, Ends-state,
}
use wealthfinder.Models.{Event, EntityEvent, is_some}
use wealthfinder.Persistent.EventRepository.{fetch_mapped_event_id}
use wealthfinder.Aggregation.SlidingWindow.{merge_or_create}
use wealthfinder.Aggregation.SlidingWindow.Window.{merge_or_create_outcome}
use wealthfinder.Aggregation.Store.{
  GroupKey, Hash, Redis, get_key, key_of, hash_of, decode, get_active_event, upsert_hash,
}
use wealthfinder.Aggregation.Store.Keys.{get_active_event-eq}
use wealthfinder.Aggregation.World.{World, Setting}
use wealthfinder.Aggregation.Service.{
  read_clock, draw_uuid, on_success, on_failure, is_merged, in_active, late, replaced,
  persist_replaced, upsert_active_event, store_merged, merge_unless_late, try_merge, failed,
  merge_entity_event,
}
use wealthfinder.Aggregation.Service.Recorded.{Held, group_of, ids-hash_of, elem_last}
use wealthfinder.Aggregation.Service.Frames.{Stable, persist_replaced_Triple}
use wealthfinder.Aggregation.Service.Acks.{Recorded}

in_active-Held :
    (g : GroupKey) (r : Redis) (id : ℕ) → in_active id (get_active_event g r) ≡ ok true → Held id r
unfolding decode
in_active-Held g r id h = elim (Option-cases (lookup (get_key g) r)) [
  | inl missing ↦ absurd (cc (rw (get_active_event-eq g r, missing) at h))
  | inr (hash, found) ↦
      (get_key g, hash, found, ok_injective (rw (get_active_event-eq g r, found) at h))
]

module _ {F : Type 0} (setting : Setting) (entity : EntityEvent F) (r : Redis)
    (acked : List ℕ) where
  abbrev pub Decided : World F → Type 0
  Decided w =
      ((own : ℕ) × (entity.entity_event_id ≡ some own) × Recorded own w)
      ⊎ (late setting entity (get_active_event (group_of entity) r) ≡ ok true)

  -- no message is acknowledged, and the hashes are still `r`
  abbrev Before : World F → Type 0
  Before w = (w.redis ≡ r) × (w.acked ≡ acked)

  abbrev Ready : World F → Type 0
  Ready w = (w.acked ≡ acked) × Decided w

  Before-Stable : Stable setting Before
  Before-Stable = record {
    at_read = λ w p. p;
    at_announce = λ w id p. p;
    at_mark = λ w id v p. p;
    at_persist = λ w now es written t e p. p;
  }

  abbrev active_in : Option Event
  active_in = get_active_event (group_of entity) r

  stored :
      (now new_id : ℕ) (updated : Event) (h : Hash)
      → merge_or_create setting.config now new_id active_in entity ≡ ok updated
      → hash_of updated ≡ ok h
      → (w : World F) → Before w
      → Ready (record w { redis = upsert_hash updated h w.redis })
  unfolding upsert_hash
  stored now new_id updated h merged made w p =
      elim (merge_or_create_outcome setting.config now new_id active_in entity) [
        | inl (_, (e, ids, i, merged', own, last)) ↦
            let same : e ≡ updated = ok_injective (sym merged' ∙ merged) in
            let all : h.entity_event_ids ≡ ids ++ i ∷ [] =
              some-injective h.entity_event_ids (ids ++ i ∷ []) (
                sym (ids-hash_of updated h made)
                ∙ ap (λ (x : Event). x.entity_event_ids) (sym same)
                ∙ last) in
            (
              p.1,
              inl (
                i,
                own,
                inl (
                  get_key (key_of updated),
                  h,
                  lookup-insert_self (get_key (key_of updated)) h w.redis,
                  rw all (elem_last i ids),
                ),
              ),
            )
        | inr (_, raised) ↦ absurd (cc)
      ]

  upsert-Ready :
      (now new_id : ℕ) (updated : Event)
      → merge_or_create setting.config now new_id active_in entity ≡ ok updated
      → Triple Before (upsert_active_event setting updated) (λ _. Ready) (λ _ w. w.acked ≡ acked)
  unfolding upsert_active_event
  upsert-Ready now new_id updated merged =
      Triple-bind (λ h w. Before w × (hash_of updated ≡ ok h)) _ _
        (Triple-lift (hash_of updated) (λ h made w p. (p, made)) (λ x made w p. p.1))
        λ h. Triple-given _ λ made.
          Triple-request (λ w. tt) (λ w. record w { redis = upsert_hash updated h w.redis })
            (stored now new_id updated h merged made) (λ x w p. (p.1, p.1))

  read_Keeps : Triple Before (read_clock setting) (λ _. Before) (λ _ w. w.acked ≡ acked)
  unfolding read_clock
  read_Keeps = record { run = λ e p. p }

  draw_Keeps : Triple Before (draw_uuid setting) (λ _. Before) (λ _ w. w.acked ≡ acked)
  unfolding draw_uuid
  draw_Keeps = record { run = λ e p. p }

  replaced_Keeps :
      (events : List Event)
      → Triple Before (persist_replaced setting events) (λ _. Before) (λ _ w. w.acked ≡ acked)
  replaced_Keeps events =
      Triple-weaken _ (λ w p. p) (λ _ w p. p.0) (λ x w p. p.1)
        (persist_replaced_Triple setting Before Before-Stable 0 events)

  store_merged-Ready :
      Triple Before (store_merged setting entity active_in) (λ _. Ready) (λ _ w. w.acked ≡ acked)
  unfolding store_merged
  store_merged-Ready =
      Triple-bind (λ _. Before) _ _ read_Keeps
        λ now.
          Triple-bind (λ _. Before) _ _ draw_Keeps
            λ new_id.
              Triple-bind
                (λ updated w.
                  Before w
                  × (merge_or_create setting.config now new_id active_in entity ≡ ok updated))
                _ _
                (Triple-lift (merge_or_create setting.config now new_id active_in entity)
                  (λ updated merged w p. (p, merged)) (λ x e w p. p.1))
                λ updated. Triple-given _ λ merged.
                  Triple-bind (λ _. Before) _ _ (replaced_Keeps (replaced updated active_in))
                    λ _. upsert-Ready now new_id updated merged

  merge_unless_late-Ready :
      Triple Before
        (merge_unless_late setting entity active_in)
        (λ _. Ready)
        (λ _ w. w.acked ≡ acked)
  unfolding merge_unless_late
  merge_unless_late-Ready =
      Triple-bind (λ b w. Before w × (late setting entity active_in ≡ ok b)) _ _
        (Triple-lift (late setting entity active_in) (λ b e w p. (p, e)) (λ x e w p. p.1))
        λ too_late. Triple-given _ λ tested.
          Triple-if too_late _ _ (λ yes. Triple-return tt (λ w p. (p.1, inr (tested ∙ ap ok yes))))
            (λ _. store_merged-Ready)

  is_merged-Before :
      Triple Before
        (is_merged setting entity active_in)
        (λ b w.
          Before w × (b ≡ true → (own : ℕ) × (entity.entity_event_id ≡ some own) × Recorded own w))
        (λ _ w. w.acked ≡ acked)
  unfolding is_merged
  is_merged-Before =
      Triple-bind (λ id w. Before w × (assert_some entity.entity_event_id ≡ ok id)) _ _
        (Triple-lift (assert_some entity.entity_event_id) (λ a e w p. (p, e)) (λ x e w p. p.1))
        λ id. Triple-given _ λ own.
          Triple-bind (λ b w. Before w × (in_active id active_in ≡ ok b)) _ _
            (Triple-lift (in_active id active_in) (λ a e w p. (p, e)) (λ x e w p. p.1))
            λ found. Triple-given _ λ tested.
              Triple-if found _
                (request (λ w. fetch_mapped_event_id w.tables id) (λ w. w) >>= λ m.
                  return (is_some m))
                (λ yes. Triple-return true (λ w p. (
                  p,
                  λ _. (
                    id,
                    assert_some-eq-ok own,
                    inl (
                        subst (Held id) (sym p.0)
                          (in_active-Held (group_of entity) r id (tested ∙ ap ok yes))),
                  ),
                )))
                λ _.
                  Triple-bind (λ m w. Before w × (m ≡ fetch_mapped_event_id w.tables id)) _ _
                    (Triple-request (λ w. fetch_mapped_event_id w.tables id) (λ w. w)
                      (λ w p. (p, refl)) (λ x w p. (p.1, p.1)))
                    λ m. Triple-return (is_some m) (λ w p.
                      (p.0, λ yes. (id, assert_some-eq-ok own, inr (ap is_some (sym p.1) ∙ yes))))

  module _ (id message_id : ℕ) where
    abbrev pub Acked : World F → Type 0
    Acked w = (w.acked ≡ acked) ⊎ ((w.acked ≡ message_id ∷ acked) × Decided w)

    on_success-Acked :
        Triple Ready (on_success {F = F} setting id message_id) (λ _. Acked) (λ _. Acked)
    unfolding on_success
    on_success-Acked =
        Triple-bind (λ _. Ready) _ _ (Triple-modify _ (λ w p. p))
          λ _.
            Triple-request _ (λ w. record w { acked = message_id ∷ w.acked })
              (λ w p. inr (ap (λ l. message_id ∷ l) p.0, p.1))
              (λ x w p. (inl p.0, inr (ap (λ l. message_id ∷ l) p.0, p.1)))

    failed-Acked : (x : Exc) → Keeps Acked (failed {F = F} setting id x)
    unfolding on_failure
    failed-Acked cancelled = record { run = λ e p. p }
    failed-Acked unreachable = record { run = λ e p. p }
    failed-Acked rate_limit = record { run = λ e p. p }
    failed-Acked sapi_error = record { run = λ e p. p }
    failed-Acked other = record { run = λ e p. p }

    try_merge-Acked :
        Triple Before
          (try_merge setting entity (group_of entity) id message_id)
          (λ _. Acked)
          (λ _. Acked)
    unfolding try_merge
    try_merge-Acked =
        Triple-bind (λ active w. Before w × (active ≡ active_in)) _ _
          (Triple-request _ _ (λ w p. (p, ap (get_active_event (group_of entity)) p.0))
            (λ x w p. (inl p.1, inl p.1)))
          λ active. Triple-given _ λ same.
            Triple-bind
              (λ b w.
                Before w
                × (b ≡ true → (own : ℕ) × (entity.entity_event_id ≡ some own) × Recorded own w))
              _ _
              (Triple-weaken (is_merged setting entity active) (λ w p. p) (λ _ w p. p)
                (λ x w p. inl p) (rw same is_merged-Before))
              λ merged.
                Triple-bind (λ _. Ready) _ _
                  (Triple-if merged _ _ (λ yes. Triple-return tt (λ w p. (p.0.1, inl (p.1 yes))))
                    (λ _.
                      Triple-weaken (merge_unless_late setting entity active) (λ w p. p.0)
                        (λ _ w p. p) (λ x w p. inl p) (rw same merge_unless_late-Ready)))
                  λ _. on_success-Acked

-- A merge acknowledges no message but the one it was given, and that one only when the EntityEvent is
-- in some group's active Event or mapped to a persisted Event, or when it was too late for the
-- active Event that its group had at the start; whatever becomes of the requests of the merge.
pub merge_entity_event-acked :
    {F : Type 0} (setting : Setting) (entity : EntityEvent F) (id message_id : ℕ)
    (e : Env (World F))
    → Acked setting entity e.state.redis e.state.acked id message_id
        (merge_entity_event setting entity (group_of entity) id message_id e).1.state
unfolding merge_entity_event
merge_entity_event-acked {F} setting entity id message_id e =
    let After : World F → Type 0 = Acked setting entity e.state.redis e.state.acked id message_id in
    let result = merge_entity_event setting entity (group_of entity) id message_id e in
    Ends-state After result.0 result.1 (
      (Triple-catch (λ _. After) _ _
          (try_merge-Acked setting entity e.state.redis e.state.acked id message_id)
          (failed-Acked setting entity e.state.redis e.state.acked id message_id)).run
        e (refl, refl))
