-- ===== src/Aggregation/Consumer/Routed.antt =====
-- What routing a message acknowledges (aggregation_consumer.py).
use wealthfinder.Prelude.{
  ℕ, Text, ◌≡◌, refl, sym, ap, ◌⊎◌, Bool, true, Option, none, some, List, ◌∷◌, nat_eq, elem, inl,
  inr,
}
use wealthfinder.Prelude.Assoc.{lookup}
use wealthfinder.Prelude.Result.{Exc, unreachable, rate_limit, sapi_error, cancelled, other}
use wealthfinder.Prelude.Action.{Env, return}
use wealthfinder.Prelude.Action.Triple.{
  Triple, Keeps, Triple-return, Triple-request, Triple-if, Triple-catch, Triple-modify, Triple-bind,
  Triple-weaken, Ends-state,
}
use wealthfinder.RedisStream.Publish.{publish-Triple}
use wealthfinder.RedisStream.Messages.{Message, DeadLetter, content, dead_letter_entry}
use wealthfinder.Models.{EntityEvent}
use wealthfinder.Aggregation.World.{World, Setting}
use wealthfinder.Aggregation.Service.{discard, read_clock, on_success}
use wealthfinder.Aggregation.Consumer.{
  get_valid_entity_event_id, is_out_of_retries, dead_letter, get_group, hand_over, process_row,
  process_entity_event, route_one_failed, route_new, route_one, route_valid, route_failed, route,
}

abbrev pub valid_id : (Text → Option ℕ) → Message → Option ℕ
valid_id parse_uuid message = get_valid_entity_event_id parse_uuid message

abbrev pub out_of_retries : Setting → Message → Bool
out_of_retries setting message = is_out_of_retries setting.config.max_retry message

module _ {F : Type 0} (setting : Setting) (parse_uuid : Text → Option ℕ) (message : Message)
    (acked : List ℕ) where
  abbrev Same : World F → Type 0
  Same w = w.acked ≡ acked

  -- The message is the latest dead letter.
  abbrev DeadLettered : World F → Type 0
  DeadLettered w =
      (now : ℕ) × (before : List DeadLetter) × (w.dead_letters
        ≡ dead_letter_entry message now ∷ before)

  -- The message's EntityEvent has no row.
  abbrev Missing : World F → Type 0
  Missing w =
      (id : ℕ) × (valid_id parse_uuid message ≡ some id) × (lookup id w.entity_events ≡ none)

  abbrev pub Settled : World F → Type 0
  Settled w =
      ((out_of_retries setting message ≡ true) ⊎ (valid_id parse_uuid message ≡ none))
        × DeadLettered w
      ⊎ Missing w

  -- No message is acknowledged, or only this one, which is settled.
  abbrev pub Routed : World F → Type 0
  Routed w = (w.acked ≡ acked) ⊎ ((w.acked ≡ (content message).id ∷ acked) × Settled w)

  read_Same : Keeps Same (read_clock setting)
  unfolding read_clock
  read_Same = record { run = λ e p. p }

  dead_letter-Routed :
      (out_of_retries setting message ≡ true) ⊎ (valid_id parse_uuid message ≡ none)
      → Triple Same (dead_letter setting message) (λ _. Routed) (λ _. Routed)
  unfolding dead_letter
  dead_letter-Routed reason =
      Triple-bind (λ _. Same) _ _
        (Triple-weaken (read_clock setting) (λ w p. p) (λ _ w p. p) (λ x w p. inl p) read_Same)
        λ now.
          Triple-bind (λ _ w. Same w × DeadLettered w) _ _
            (Triple-weaken _ (λ w p. p) (λ _ w p. p) (λ x w p. inl p)
              (publish-Triple
                (λ w. record w { dead_letters = dead_letter_entry message now ∷ w.dead_letters })
                Same (λ w. Same w × DeadLettered w) (λ w p. p)
                (λ w p. (p, (now, w.dead_letters, refl)))))
            λ _.
              Triple-request (λ w. tt) (λ w. record w { acked = (content message).id ∷ w.acked })
                (λ w p. inr (ap (λ l. (content message).id ∷ l) p.0, inl (reason, p.1)))
                (λ x w p.
                  (inl p.0, inr (ap (λ l. (content message).id ∷ l) p.0, inl (reason, p.1))))

  module _ (id : ℕ) (valid : valid_id parse_uuid message ≡ some id) where
    on_success-Routed :
        Triple
          (λ w. Same w × (lookup id w.entity_events ≡ none))
          (on_success {F = F} setting id (content message).id)
          (λ _. Routed)
          (λ _. Routed)
    unfolding on_success
    on_success-Routed =
        Triple-bind (λ _ w. Same w × (lookup id w.entity_events ≡ none)) _ _
          (Triple-modify (λ w. record w { enqueued = discard id w.enqueued }) (λ w p. p))
          λ _.
            Triple-request (λ w. tt) (λ w. record w { acked = (content message).id ∷ w.acked })
              (λ w p. inr (ap (λ l. (content message).id ∷ l) p.0, inr (id, valid, p.1)))
              (λ x w p.
                (inl p.0, inr (ap (λ l. (content message).id ∷ l) p.0, inr (id, valid, p.1))))

    hand_over-Same :
        (entity : EntityEvent F) → Keeps Same (hand_over setting entity id (content message).id)
    unfolding hand_over get_group
    hand_over-Same entity =
        Triple-bind (λ _. Same) _ _ (Triple-request (λ w. tt) (λ w. w) (λ w p. p) (λ x w p. (p, p)))
          λ _. Triple-modify _ (λ w p. p)

    process_row-Routed :
        (row : Option (EntityEvent F))
        → Triple
            (λ w. Same w × (row ≡ lookup id w.entity_events))
            (process_row setting row id (content message).id)
            (λ _. Routed)
            (λ _. Routed)
    unfolding process_row
    process_row-Routed none =
        Triple-weaken (on_success setting id (content message).id) (λ w p. (p.0, sym p.1))
          (λ _ w p. p) (λ x w p. p) on_success-Routed
    process_row-Routed (some entity) =
        Triple-weaken (hand_over setting entity id (content message).id) (λ w p. p.0)
          (λ _ w p. inl p) (λ x w p. inl p) (hand_over-Same entity)

    process_entity_event-Routed :
        Triple Same
          (process_entity_event {F = F} setting id (content message).id)
          (λ _. Routed)
          (λ _. Routed)
    unfolding process_entity_event
    process_entity_event-Routed =
        Triple-bind (λ row w. Same w × (row ≡ lookup id w.entity_events)) _ _
          (Triple-request (λ w. lookup id w.entity_events) (λ w. w) (λ w p. (p, refl))
            (λ x w p. (inl p, inl p)))
          λ row. process_row-Routed row

    route_one_failed-Routed : (x : Exc) → Keeps Routed (route_one_failed {F = F} setting id x)
    unfolding route_one_failed
    route_one_failed-Routed cancelled = record { run = λ e p. p }
    route_one_failed-Routed unreachable = record { run = λ e p. p }
    route_one_failed-Routed rate_limit = record { run = λ e p. p }
    route_one_failed-Routed sapi_error = record { run = λ e p. p }
    route_one_failed-Routed other = record { run = λ e p. p }

    route_new-Routed :
        Triple Same (route_new {F = F} setting id (content message).id) (λ _. Routed) (λ _. Routed)
    unfolding route_new
    route_new-Routed =
        Triple-bind (λ _. Same) _ _
          (Triple-modify (λ w. record w { enqueued = id ∷ w.enqueued }) (λ w p. p))
          λ _. Triple-catch (λ _. Routed) _ _ process_entity_event-Routed route_one_failed-Routed

    route_one-Routed :
        Triple Same (route_one {F = F} setting id (content message).id) (λ _. Routed) (λ _. Routed)
    unfolding route_one
    route_one-Routed = record {
      run = λ e p.
          (Triple-if (elem id e.state.enqueued) (return tt)
              (route_new setting id (content message).id) (λ _. Triple-return tt (λ w q. inl q))
              (λ _. route_new-Routed)).run
            e p;
    }

  route_valid-Routed :
      (o : Option ℕ)
      → valid_id parse_uuid message ≡ o
      → Triple Same (route_valid setting parse_uuid o message) (λ _. Routed) (λ _. Routed)
  unfolding route_valid
  route_valid-Routed none invalid = dead_letter-Routed (inr invalid)
  route_valid-Routed (some id) valid = route_one-Routed id valid

  route_failed-Routed : (x : Exc) → Keeps Routed (route_failed {F = F} setting parse_uuid x)
  unfolding route_failed
  route_failed-Routed cancelled = record { run = λ e p. p }
  route_failed-Routed unreachable = record { run = λ e p. p }
  route_failed-Routed rate_limit = record { run = λ e p. p }
  route_failed-Routed sapi_error = record { run = λ e p. p }
  route_failed-Routed other = record { run = λ e p. p }

  route_Triple : Triple Same (route setting parse_uuid message) (λ _. Routed) (λ _. Routed)
  unfolding route
  route_Triple =
      Triple-catch (λ _. Routed) _ _
        (Triple-if (out_of_retries setting message) _ _ (λ yes. dead_letter-Routed (inl yes))
          (λ _. route_valid-Routed (valid_id parse_uuid message) refl))
        route_failed-Routed

-- Routing a message acknowledges nothing, or this message alone; and this only when it is the latest
-- dead letter, being out of retries or malformed, or when its EntityEvent has no row. That holds
-- however the requests end.
pub route-Routed :
    {F : Type 0} (setting : Setting) (parse_uuid : Text → Option ℕ) (message : Message)
    (e : Env (World F))
    → Routed setting parse_uuid message e.state.acked (route setting parse_uuid message e).1.state
route-Routed {F} setting parse_uuid message e =
    let After : World F → Type 0 = Routed setting parse_uuid message e.state.acked in
    let result = route setting parse_uuid message e in
    Ends-state After result.0 result.1
      ((route_Triple setting parse_uuid message e.state.acked).run e refl)
