-- ===== src/Aggregation/Consumer/InFlight.antt =====
-- The in-flight set of aggregation_consumer.py: an id that stays in it makes every redelivery of its
-- message skip, so only an id whose work was handed to a group may stay.
use wealthfinder.Prelude.{
  ℕ, Text, ◌≡◌, refl, Bool, true, false, Option, none, some, List, [], ◌∷◌, ◌++◌, ◌==◌, nat_eq,
  elem, arith, inl, inr, Bool-cases, ◌||◌,
}
use wealthfinder.Prelude.Assoc.{lookup}
use wealthfinder.Prelude.Result.{Exc, unreachable, rate_limit, sapi_error, cancelled, other}
use wealthfinder.Prelude.Action.{Env, return}
use wealthfinder.Prelude.Action.Triple.{
  Triple, Keeps, Triple-return, Triple-request, Triple-if, Triple-catch, Triple-modify, Triple-bind,
  Ends-state,
}
use wealthfinder.RedisStream.Publish.{publish-Keeps}
use wealthfinder.RedisStream.Messages.{Message, content, dead_letter_entry}
use wealthfinder.Models.{EntityEvent}
use wealthfinder.Aggregation.World.{World, Setting}
use wealthfinder.Aggregation.Service.{discard, read_clock, on_success}
use wealthfinder.Aggregation.Consumer.{
  get_valid_entity_event_id, is_out_of_retries, dead_letter, get_group, hand_over, process_row,
  process_entity_event, route_one_failed, route_new, route_one, route_valid, route_failed, route,
  route_all,
}

-- The id's work is among what was handed to the groups.
unfoldable pub is_queued : {F : Type 0} → ℕ → List (EntityEvent F × ℕ × ℕ) → Bool
is_queued i [] = false
is_queued i ((entity, id, message_id) ∷ units) = (id == i) || is_queued i units

-- Every id in flight was handed to a group; `Except id` of every other id.
abbrev pub Handed : {F : Type 0} → World F → Type 0
Handed w = (i : ℕ) → elem i w.enqueued ≡ true → is_queued i w.queued ≡ true

abbrev Except : {F : Type 0} → ℕ → World F → Type 0
Except id w = (i : ℕ) → (id == i) ≡ false → elem i w.enqueued ≡ true → is_queued i w.queued ≡ true

elem-discard :
    (i id : ℕ) (xs : List ℕ)
    → elem i (discard id xs) ≡ true
    → ((id == i) ≡ false) × (elem i xs ≡ true)
unfolding elem discard
elem-discard i id [] h = absurd (cc)
elem-discard i id (x ∷ xs) h = ground (arith, elem-discard i id xs)

elem_other :
    (i id : ℕ) (xs : List ℕ) → (id == i) ≡ false → elem i (id ∷ xs) ≡ true → elem i xs ≡ true
unfolding elem
elem_other i id xs differs h = ground arith

module _ {F : Type 0} (i id message_id : ℕ) (entity : EntityEvent F) where
  is_queued-append :
      (units : List (EntityEvent F × ℕ × ℕ))
      → is_queued i units ≡ true
      → is_queued i (units ++ (entity, id, message_id) ∷ []) ≡ true
  unfolding is_queued
  is_queued-append [] h = absurd (cc)
  is_queued-append ((e, j, m) ∷ units) h = ground (arith, is_queued-append units)

  is_queued_last :
      (units : List (EntityEvent F × ℕ × ℕ))
      → (id == i) ≡ true
      → is_queued i (units ++ (entity, id, message_id) ∷ []) ≡ true
  unfolding is_queued
  is_queued_last [] h = rw h refl
  is_queued_last ((e, j, m) ∷ units) h = ground (arith, is_queued_last units)

module _ {F : Type 0} (setting : Setting) (id : ℕ) where
  weaker : (w : World F) → Handed w → Except id w
  weaker w p i _ h = p i h

  without : (w : World F) → Except id w → Handed (record w { enqueued = discard id w.enqueued })
  without w p i h = let (differs, there) = elem-discard i id w.enqueued h in p i differs there

  on_success-Handed :
      (message_id : ℕ)
      → Triple (Except {F = F} id) (on_success setting id message_id) (λ _. Handed) (λ _. Except id)
  unfolding on_success
  on_success-Handed message_id =
      Triple-bind (λ _. Handed) _ _
        (Triple-modify (λ w. record w { enqueued = discard id w.enqueued }) without)
        λ _.
          Triple-request (λ w. tt) (λ w. record w { acked = message_id ∷ w.acked }) (λ w p. p)
            (λ x w p. (weaker w p, weaker w p))

  hand_over-Handed :
      (entity : EntityEvent F) (message_id : ℕ)
      → Triple (Except id) (hand_over setting entity id message_id) (λ _. Handed) (λ _. Except id)
  unfolding hand_over get_group
  hand_over-Handed entity message_id =
      Triple-bind (λ _. Except id) _ _
        (Triple-request (λ w. tt) (λ w. w) (λ w p. p) (λ x w p. (p, p)))
        λ _.
          Triple-modify (λ w. record w { queued = w.queued ++ (entity, id, message_id) ∷ [] })
            (λ w p i h. elim (Bool-cases (id == i)) [
              | inl same ↦ is_queued_last i id message_id entity w.queued same
              | inr differs ↦ is_queued-append i id message_id entity w.queued (p i differs h)
            ])

  process_row-Handed :
      (row : Option (EntityEvent F)) (message_id : ℕ)
      → Triple (Except id) (process_row setting row id message_id) (λ _. Handed) (λ _. Except id)
  unfolding process_row
  process_row-Handed none message_id = on_success-Handed message_id
  process_row-Handed (some entity) message_id = hand_over-Handed entity message_id

  process_entity_event-Handed :
      (message_id : ℕ)
      → Triple
          (Except {F = F} id)
          (process_entity_event setting id message_id)
          (λ _. Handed)
          (λ _. Except id)
  unfolding process_entity_event
  process_entity_event-Handed message_id =
      Triple-bind (λ _. Except id) _ _
        (Triple-request (λ w. lookup id w.entity_events) (λ w. w) (λ w p. p) (λ x w p. (p, p)))
        λ row. process_row-Handed row message_id

  route_one_failed-Handed :
      (x : Exc)
      → Triple (Except {F = F} id) (route_one_failed setting id x) (λ _. Handed) (λ _. Handed)
  unfolding route_one_failed
  route_one_failed-Handed cancelled = record { run = λ e p. without e.state p }
  route_one_failed-Handed unreachable = record { run = λ e p. without e.state p }
  route_one_failed-Handed rate_limit = record { run = λ e p. without e.state p }
  route_one_failed-Handed sapi_error = record { run = λ e p. without e.state p }
  route_one_failed-Handed other = record { run = λ e p. without e.state p }

  route_new-Handed : (message_id : ℕ) → Keeps (Handed {F = F}) (route_new setting id message_id)
  unfolding route_new
  route_new-Handed message_id =
      Triple-bind (λ _. Except id) _ _
        (Triple-modify (λ w. record w { enqueued = id ∷ w.enqueued })
          (λ w p i differs h. p i (elem_other i id w.enqueued differs h)))
        λ _.
          Triple-catch (λ _. Except id) _ _ (process_entity_event-Handed message_id)
            route_one_failed-Handed

  route_one-Handed : (message_id : ℕ) → Keeps (Handed {F = F}) (route_one setting id message_id)
  unfolding route_one
  route_one-Handed message_id = record {
    run = λ e p.
        (Triple-if (elem id e.state.enqueued) (return tt) (route_new setting id message_id)
            (λ _. Triple-return tt (λ w q. q)) (λ _. route_new-Handed message_id)).run
          e p;
  }

module _ {F : Type 0} (setting : Setting) where
  read_Keeps : Keeps (Handed {F = F}) (read_clock setting)
  unfolding read_clock
  read_Keeps = record { run = λ e p. p }

  dead_letter-Handed : (message : Message) → Keeps (Handed {F = F}) (dead_letter setting message)
  unfolding dead_letter
  dead_letter-Handed message =
      Triple-bind (λ _. Handed) _ _ read_Keeps
        λ now.
          Triple-bind (λ _. Handed) _ _
            (publish-Keeps
              (λ w. record w { dead_letters = dead_letter_entry message now ∷ w.dead_letters })
              Handed (λ w p. p))
            λ _.
              Triple-request (λ w. tt) (λ w. record w { acked = (content message).id ∷ w.acked })
                (λ w p. p) (λ x w p. (p, p))

  module _ (parse_uuid : Text → Option ℕ) where
    route_valid-Handed :
        (o : Option ℕ) (message : Message)
        → Keeps (Handed {F = F}) (route_valid setting parse_uuid o message)
    unfolding route_valid
    route_valid-Handed none message = dead_letter-Handed message
    route_valid-Handed (some id) message = route_one-Handed setting id (content message).id

    route_failed-Handed : (x : Exc) → Keeps (Handed {F = F}) (route_failed setting parse_uuid x)
    unfolding route_failed
    route_failed-Handed cancelled = record { run = λ e p. p }
    route_failed-Handed unreachable = record { run = λ e p. p }
    route_failed-Handed rate_limit = record { run = λ e p. p }
    route_failed-Handed sapi_error = record { run = λ e p. p }
    route_failed-Handed other = record { run = λ e p. p }

    route-Handed : (message : Message) → Keeps (Handed {F = F}) (route setting parse_uuid message)
    unfolding route
    route-Handed message =
        Triple-catch (λ _. Handed) _ _
          (Triple-if (is_out_of_retries setting.config.max_retry message) _ _
            (λ _. dead_letter-Handed message)
            (λ _. route_valid-Handed (get_valid_entity_event_id parse_uuid message) message))
          route_failed-Handed

    route_all_Triple :
        (messages : List Message) → Keeps (Handed {F = F}) (route_all setting parse_uuid messages)
    unfolding route_all
    route_all_Triple [] = Triple-return tt (λ w p. p)
    route_all_Triple (message ∷ messages) =
        Triple-bind (λ _. Handed) _ _ (route-Handed message) λ _. route_all_Triple messages

    -- Routing a batch leaves no id in flight but those whose work was handed to a group, however the
    -- requests end and wherever in the batch an exception or a cancellation comes, if that held of
    -- the ids in flight before.
    pub route_all-Handed :
        (messages : List Message) (e : Env (World F))
        → Handed e.state
        → Handed (route_all setting parse_uuid messages e).1.state
    route_all-Handed messages e start =
        let result = route_all setting parse_uuid messages e in
        Ends-state Handed result.0 result.1 ((route_all_Triple messages).run e start)
