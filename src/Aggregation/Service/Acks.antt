-- ===== src/Aggregation/Service/Acks.antt =====
-- The delivery guarantees of `_merge` (aggregation_service.py), whatever becomes of its requests.
use native.Mathlib.Nat.{le_refl}
use wealthfinder.Prelude.{
  ℕ, ◌≤◌, ◌≡◌, ◌≢◌, ◌⊎◌, refl, ap, sym, Bool, true, Option, some, ◌∷◌, inl, inr, subst, nat_eq,
}
use wealthfinder.Prelude.Result.{
  Exc, unreachable, rate_limit, sapi_error, cancelled, other, ok, assert_some,
}
use wealthfinder.Prelude.Action.{Env, request, return, ◌>>=◌}
use wealthfinder.Prelude.Action.Triple.{
  Triple, Keeps, Triple-return, Triple-lift, Triple-request, Triple-if, Triple-catch, Triple-modify,
  Triple-bind, Triple-weaken, Triple-given, Ends-state,
}
use wealthfinder.Models.{Event, EntityEvent, is_some}
use wealthfinder.Persistent.EventRepository.{fetch_mapped_event_id}
use wealthfinder.Persistent.EventRepository.Memberships.{Mapped, InEvents}
use wealthfinder.Aggregation.SlidingWindow.{merge_or_create}
use wealthfinder.Aggregation.Store.{GroupKey, Hash, Redis, hash_of, get_active_event, upsert_hash}
use wealthfinder.Aggregation.World.{World, Setting}
use wealthfinder.Aggregation.Service.{
  read_clock, draw_uuid, on_success, on_failure, is_merged, in_active, replaced,
  upsert_active_event, store_merged, merge_unless_late, try_merge, failed, merge_entity_event,
}
use wealthfinder.Aggregation.Service.Recorded.{Held, group_of, upsert_hash-Held}
use wealthfinder.Aggregation.Service.Frames.{Stable, Mapped-Stable, persist_replaced_Triple}

-- The EntityEvent is in some group's active Event, or mapped to a persisted Event.
abbrev pub Recorded : {F : Type 0} → ℕ → World F → Type 0
Recorded i w = Held i w.redis ⊎ Mapped i w.tables

-- The UUIDs that are still to be drawn differ from the id of the group's active Event.
abbrev pub Fresh : {F : Type 0} → Setting → GroupKey → World F → Type 0
Fresh setting g w =
    (n : ℕ) (a : Event)
    → get_active_event g w.redis ≡ some a
    → w.draws ≤ n
    → setting.uuid4 n ≢ a.event_id

module _ {F : Type 0} (setting : Setting) (entity : EntityEvent F) (i : ℕ) (r : Redis) (d : ℕ)
    (fresh : (a : Event)
      → get_active_event (group_of entity) r ≡ some a
      → setting.uuid4 d ≢ a.event_id) where
  -- before the merged Event is stored, the hashes are still `r`
  abbrev Still : World F → Type 0
  Still w = (w.redis ≡ r) × (Held i r ⊎ Mapped i w.tables)

  Still-Stable : Stable setting Still
  Still-Stable =
      let m = Mapped-Stable {F = F} setting i in
      record {
        at_read = λ w p. p;
        at_announce = λ w id p. p;
        at_mark = λ w id v p. (p.0, elim p.1 [ inl h ↦ inl h | inr h ↦ inr (m.at_mark w id v h) ]);
        at_persist = λ w now es written t e p.
            (p.0, elim p.1 [ inl h ↦ inl h | inr h ↦ inr (m.at_persist w now es written t e h) ]);
      }

  Still→Recorded : (w : World F) → Still w → Recorded i w
  Still→Recorded w (same, inl held) = inl (subst (Held i) (sym same) held)
  Still→Recorded w (same, inr mapped) = inr mapped

  abbrev active_in : Option Event
  active_in = get_active_event (group_of entity) r

  stored :
      (now : ℕ) (updated : Event) (h : Hash)
      → merge_or_create setting.config now (setting.uuid4 d) active_in entity ≡ ok updated
      → hash_of updated ≡ ok h
      → (w : World F) → Still w × (InEvents i (replaced updated active_in) → Mapped i w.tables)
      → Recorded i (record w { redis = upsert_hash updated h w.redis })
  stored now updated h merged made w ((same, inr mapped), persisted) = inr mapped
  stored now updated h merged made w ((same, inl held), persisted) =
      elim (upsert_hash-Held setting.config now (setting.uuid4 d) entity r i merged fresh made
        held) [
          | inl held' ↦
              inl (subst (λ (q : Redis). Held i (upsert_hash updated h q)) (sym same) held')
          | inr k ↦ inr (persisted k)
        ]

  upsert-Recorded :
      (now : ℕ) (updated : Event)
      → merge_or_create setting.config now (setting.uuid4 d) active_in entity ≡ ok updated
      → Triple
          (λ w. Still w × (InEvents i (replaced updated active_in) → Mapped i w.tables))
          (upsert_active_event setting updated)
          (λ _. Recorded i)
          (λ _. Recorded i)
  unfolding upsert_active_event
  upsert-Recorded now updated merged =
      Triple-bind
        (λ h w.
          (Still w × (InEvents i (replaced updated active_in) → Mapped i w.tables))
          × (hash_of updated ≡ ok h))
        _ _ (Triple-lift _ (λ h made w p. (p, made)) (λ x made w p. Still→Recorded w p.0))
        λ h. Triple-given _ λ made.
          Triple-request _ _ (stored now updated h merged made)
            (λ x w p. (Still→Recorded w p.0, stored now updated h merged made w p))

  read_Triple :
      Triple
        (λ w. Still w × (w.draws ≡ d))
        (read_clock setting)
        (λ _ w. Still w × (w.draws ≡ d))
        (λ _. Recorded i)
  unfolding read_clock
  read_Triple = record { run = λ e p. p }

  draw_Triple :
      Triple
        (λ w. Still w × (w.draws ≡ d))
        (draw_uuid setting)
        (λ n w. Still w × (n ≡ setting.uuid4 d))
        (λ _. Recorded i)
  unfolding draw_uuid
  draw_Triple = record { run = λ e p. (p.0, ap setting.uuid4 p.1) }

  store_merged-Recorded :
      Triple
        (λ w. Still w × (w.draws ≡ d))
        (store_merged setting entity active_in)
        (λ _. Recorded i)
        (λ _. Recorded i)
  unfolding store_merged
  store_merged-Recorded =
      Triple-bind (λ _ w. Still w × (w.draws ≡ d)) _ _ read_Triple
        λ now.
          Triple-bind (λ n w. Still w × (n ≡ setting.uuid4 d)) _ _ draw_Triple
            λ n. Triple-given _ λ drawn.
              Triple-bind
                (λ updated w.
                  Still w
                  × (merge_or_create setting.config now (setting.uuid4 d) active_in entity
                      ≡ ok updated))
                _ _
                (Triple-lift _ (λ updated merged w p. (p, rw drawn at merged))
                  (λ x e w p. Still→Recorded w p))
                λ updated. Triple-given _ λ merged.
                  Triple-bind
                    (λ _ w. Still w × (InEvents i (replaced updated active_in) → Mapped i w.tables))
                    _ _
                    (Triple-weaken _ (λ w p. p) (λ _ w p. p) (λ x w p. Still→Recorded w p)
                      (persist_replaced_Triple setting Still Still-Stable i
                        (replaced updated active_in)))
                    λ _. upsert-Recorded now updated merged

  merge_unless_late-Recorded :
      Triple
        (λ w. Still w × (w.draws ≡ d))
        (merge_unless_late setting entity active_in)
        (λ _. Recorded i)
        (λ _. Recorded i)
  unfolding merge_unless_late
  merge_unless_late-Recorded =
      Triple-bind (λ _ w. Still w × (w.draws ≡ d)) _ _
        (Triple-lift _ (λ b e w p. p) (λ x e w p. Still→Recorded w p.0))
        λ too_late.
          Triple-if too_late _ _ (λ _. Triple-return tt (λ w p. Still→Recorded w p.0))
            (λ _. store_merged-Recorded)

module _ {F : Type 0} (setting : Setting) (entity : EntityEvent F) where
  -- The question whether an EntityEvent is merged changes nothing.
  is_merged-Keeps :
      (active : Option Event) (P : World F → Type 0) → Keeps P (is_merged setting entity active)
  unfolding is_merged
  is_merged-Keeps active P =
      Triple-bind (λ (_ : ℕ). P) _ _
        (Triple-lift (assert_some entity.entity_event_id) (λ a e w p. p) (λ x e w p. p))
        λ id.
          Triple-bind (λ (_ : Bool). P) _ _
            (Triple-lift (in_active id active) (λ a e w p. p) (λ x e w p. p))
            λ found.
              Triple-if found _
                (request (λ w. fetch_mapped_event_id w.tables id) (λ w. w) >>= λ m.
                  return (is_some m))
                (λ _. Triple-return true (λ w p. p))
                λ _.
                  Triple-bind (λ (_ : Option ℕ). P) _ _
                    (Triple-request (λ w. fetch_mapped_event_id w.tables id) (λ w. w) (λ w p. p)
                      (λ x w p. (p, p)))
                    λ mapped. Triple-return (is_some mapped) (λ w p. p)

  module _ (id message_id i : ℕ) where
    on_success-Recorded : Keeps (Recorded i) (on_success {F = F} setting id message_id)
    unfolding on_success
    on_success-Recorded =
        Triple-bind (λ _. Recorded i) _ _ (Triple-modify _ (λ w p. p))
          λ _.
            Triple-request _ (λ w. record w { acked = message_id ∷ w.acked }) (λ w p. p)
              (λ x w p. (p, p))

    failed-Recorded : (x : Exc) → Keeps (Recorded i) (failed {F = F} setting id x)
    unfolding on_failure
    failed-Recorded cancelled = record { run = λ e p. p }
    failed-Recorded unreachable = record { run = λ e p. p }
    failed-Recorded rate_limit = record { run = λ e p. p }
    failed-Recorded sapi_error = record { run = λ e p. p }
    failed-Recorded other = record { run = λ e p. p }

    module _ (r : Redis) (d : ℕ)
        (fresh : (a : Event)
          → get_active_event (group_of entity) r ≡ some a
          → setting.uuid4 d ≢ a.event_id) where
      try_merge-Recorded :
          Triple
            (λ w. Still setting entity i r d fresh w × (w.draws ≡ d))
            (try_merge setting entity (group_of entity) id message_id)
            (λ _. Recorded i)
            (λ _. Recorded i)
      unfolding try_merge
      try_merge-Recorded =
          let P : World F → Type 0 = λ w. Still setting entity i r d fresh w × (w.draws ≡ d) in
          Triple-bind (λ active w. P w × (active ≡ get_active_event (group_of entity) r)) _ _
            (Triple-request _ _ (λ w p. (p, ap (get_active_event (group_of entity)) p.0.0))
              (λ x w p. (
                Still→Recorded setting entity i r d fresh w p.0,
                Still→Recorded setting entity i r d fresh w p.0,
              )))
            λ active. Triple-given _ λ same.
              Triple-bind (λ _. P) _ _
                (Triple-weaken _ (λ w p. p) (λ _ w p. p)
                  (λ x w p. Still→Recorded setting entity i r d fresh w p.0)
                  (is_merged-Keeps active P))
                λ merged.
                  Triple-bind (λ _. Recorded i) _ _
                    (Triple-if merged _ _
                      (λ _.
                        Triple-return tt (λ w p. Still→Recorded setting entity i r d fresh w p.0))
                      (λ _. rw same (merge_unless_late-Recorded setting entity i r d fresh)))
                    λ _. on_success-Recorded

    -- A merge loses no EntityEvent: whatever becomes of its requests, and whether it returns or
    -- raises, an EntityEvent that was in some group's active Event or mapped to a persisted Event is
    -- so afterwards, provided that the UUIDs still to be drawn differ from the active Event's id.
    pub merge_entity_event-Recorded :
        (e : Env (World F))
        → Fresh setting (group_of entity) e.state
        → Recorded i e.state
        → Recorded i (merge_entity_event setting entity (group_of entity) id message_id e).1.state
    unfolding merge_entity_event
    merge_entity_event-Recorded e fresh start =
        let result = merge_entity_event setting entity (group_of entity) id message_id e in
        Ends-state (Recorded i) result.0 result.1 (
          (Triple-catch (λ _. Recorded i) _ _
              (try_merge-Recorded e.state.redis e.state.draws
                (λ a at. fresh e.state.draws a at (le_refl e.state.draws)))
              failed-Recorded).run
            e ((refl, start), refl))
