-- ===== src/Aggregation/Service/Frames.antt =====
-- What `_persist_and_publish` of aggregation_service.py leaves alone, and what it has persisted when
-- it returns.
use wealthfinder.Prelude.{ℕ, suc, ◌≡◌, refl, List, [], ◌∷◌, Option-cases, inl, inr, arith}
use wealthfinder.Prelude.Result.{Result, ok, raise}
use wealthfinder.Prelude.Action.Triple.{
  Triple, Keeps, Triple-return, Triple-lift, Triple-request, Triple-bind, Triple-weaken,
}
use wealthfinder.RedisStream.Publish.{publish-Keeps}
use wealthfinder.Models.{Event}
use wealthfinder.Persistent.EventRepository.{
  Tables, persist_events, mark_published, fetch_mapped_event_id,
}
use wealthfinder.Persistent.EventRepository.Memberships.{
  Mapped, InEvents, persist_events_memberships,
}
use wealthfinder.Aggregation.World.{World, Setting}
use wealthfinder.Aggregation.Service.{
  read_clock, persist, persisted_list, persisted_tables, announce_all, persist_and_publish,
  persist_replaced,
}

module _ {F : Type 0} (setting : Setting) where
  -- A condition that reading the clock, announcing, marking and persisting keep.
  pub record Stable (P : World F → Type 0) : Type 0 where
    pub at_read : (w : World F) → P w → P (record w { reads = suc w.reads })
    pub at_announce : (w : World F) (id : ℕ) → P w → P (record w { announced = id ∷ w.announced })
    pub at_mark :
        (w : World F) (id version : ℕ)
        → P w
        → P (record w { tables = mark_published w.tables id version })
    pub at_persist :
        (w : World F) (now : ℕ) (events written : List Event) (t : Tables)
        → persist_events setting.computed now w.tables events ≡ ok (t, written)
        → P w
        → P (record w { tables = t })

  module _ (P : World F → Type 0) (stable : Stable P) where
    pub read_clock-Keeps : Keeps P (read_clock setting)
    unfolding read_clock
    read_clock-Keeps = record { run = λ e p. stable.at_read e.state p }

    announce_all-Keeps : (events : List Event) → Keeps P (announce_all setting events)
    unfolding announce_all
    announce_all-Keeps [] = Triple-return tt (λ s p. p)
    announce_all-Keeps (event ∷ events) =
        Triple-bind (λ _. P) _ _ (Triple-lift _ (λ a e s p. p) (λ x e s p. p))
          λ version.
            Triple-bind (λ _. P) _ _
              (publish-Keeps _ P (λ s p. stable.at_announce s event.event_id p))
              λ _.
                Triple-bind (λ _. P) _ _
                  (Triple-request _ _ (λ s p. stable.at_mark s event.event_id version p)
                    (λ x s p. (p, stable.at_mark s event.event_id version p)))
                  λ _. announce_all-Keeps events

    -- `i` is mapped, if it is a constituent of the Events and the result is no exception
    abbrev Persisted : ℕ → List Event → Result (List Event) → World F → Type 0
    Persisted i events result w =
        P w × ((written : List Event) → result ≡ ok written → InEvents i events → Mapped i w.tables)

    Persisted-at :
        (i now : ℕ) (events : List Event) (w : World F) (result : Result (Tables × List Event))
        → persist_events setting.computed now w.tables events ≡ result
        → P w
        → Persisted i events (persisted_list result) (persisted_tables setting result w)
    Persisted-at i now events w (raise x) e p = (p, λ written h. absurd (cc))
    Persisted-at i now events w (ok (t, written)) e p = (
      stable.at_persist w now events written t e p,
      λ _ _ k.
          let (x, found) =
            (persist_events_memberships setting.computed now w.tables events i e).1 k in
          rw found refl,
    )

    persist_Triple :
        (i : ℕ) (events : List Event)
        → Triple P
            (persist setting events)
            (λ _ w. P w × (InEvents i events → Mapped i w.tables))
            (λ _. P)
    unfolding persist
    persist_Triple i events =
        Triple-bind (λ _. P) _ _ read_clock-Keeps
          λ now.
            Triple-bind (Persisted i events) _ _
              (Triple-request _ _ (λ w p. Persisted-at i now events w _ refl p)
                (λ x w p. (p, (Persisted-at i now events w _ refl p).0)))
              λ result. Triple-lift result (λ written e w q. (q.0, q.1 written e)) (λ x e w q. q.0)

Mapped-mark :
    (i : ℕ) (t : Tables) (id version : ℕ) → Mapped i t → Mapped i (mark_published t id version)
unfolding mark_published fetch_mapped_event_id
Mapped-mark i t id version h = ground arith

module _ {F : Type 0} (setting : Setting) where
  pub Mapped-Stable : (i : ℕ) → Stable {F = F} setting (λ w. Mapped i w.tables)
  Mapped-Stable i = record {
    at_read = λ w p. p;
    at_announce = λ w id p. p;
    at_mark = λ w id version p. Mapped-mark i w.tables id version p;
    at_persist = λ w now events written t e p.
        elim (Option-cases (fetch_mapped_event_id w.tables i)) [
          | inl missing ↦ absurd (cc (rw missing at p))
          | inr (x, found) ↦
              rw ((persist_events_memberships setting.computed now w.tables events i e).0 x found)
                refl
        ];
  }

  module _ (P : World F → Type 0) (stable : Stable setting P) (i : ℕ) where
    also-Stable : (T : Type 0) → Stable setting (λ w. P w × (T → Mapped i w.tables))
    also-Stable T =
        let m = Mapped-Stable i in
        record {
          at_read = λ w p. (stable.at_read w p.0, λ t. m.at_read w (p.1 t));
          at_announce = λ w id p. (stable.at_announce w id p.0, λ t. m.at_announce w id (p.1 t));
          at_mark = λ w id v p. (stable.at_mark w id v p.0, λ t. m.at_mark w id v (p.1 t));
          at_persist = λ w now es written t e p. (
            stable.at_persist w now es written t e p.0,
            λ k. m.at_persist w now es written t e (p.1 k),
          );
        }

    -- Whatever becomes of the requests, a stable condition stays; if the call returns, every
    -- constituent of the Events is mapped.
    pub persist_and_publish_Triple :
        (events : List Event)
        → Triple P
            (persist_and_publish setting events)
            (λ _ w. P w × (InEvents i events → Mapped i w.tables))
            (λ _. P)
    unfolding persist_and_publish
    persist_and_publish_Triple events =
        let Q : World F → Type 0 = λ w. P w × (InEvents i events → Mapped i w.tables) in
        Triple-bind (λ _. Q) _ _ (persist_Triple setting P stable i events)
          λ persisted.
            Triple-bind (λ _. Q) _ _ (Triple-request _ _ (λ w q. q) (λ x w q. (q.0, q.0)))
              λ pending.
                Triple-bind (λ _. Q) _ _
                  (Triple-weaken _ (λ w q. q) (λ _ w q. q) (λ x w q. q.0)
                    (announce_all-Keeps setting Q (also-Stable (InEvents i events)) pending))
                  λ _. Triple-return _ (λ w q. q)

    pub persist_replaced_Triple :
        (events : List Event)
        → Triple P
            (persist_replaced setting events)
            (λ _ w. P w × (InEvents i events → Mapped i w.tables))
            (λ _. P)
    unfolding persist_replaced
    persist_replaced_Triple [] = Triple-return tt (λ w p. (p, λ k. absurd k))
    persist_replaced_Triple (e ∷ es) =
        Triple-bind (λ _ w. P w × (InEvents i (e ∷ es) → Mapped i w.tables)) _ _
          (persist_and_publish_Triple (e ∷ es)) λ _. Triple-return tt (λ w q. q)
