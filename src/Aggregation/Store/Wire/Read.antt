-- ===== src/Aggregation/Store/Wire/Read.antt =====
-- What is written of an active Event is read back (aggregation/event_aggregation_store.py).
use wealthfinder.Prelude.{
  ℕ, Text, text_eq, list_beq, ◌≡◌, ◌≢◌, ◌∙◌, refl, sym, ap, false, Option, none, some, List, [],
  ◌∷◌, ◌==◌, map, inl, inr, Bool-cases, ==_ne,
}
use wealthfinder.Prelude.Assoc.{lookup, insert, lookup-insert, lookup-insert_self}
use wealthfinder.Prelude.Result.{Result, ok, assert_some, ◌>>=◌, ok_injective}
use wealthfinder.Models.{Event}
use wealthfinder.Models.EventType.{codes}
use wealthfinder.Aggregation.Store.{GroupKey, get_key, key_of}
use wealthfinder.Aggregation.Store.Keys.{Plain, get_key_injective}
use wealthfinder.Aggregation.Store.Wire.{
  Formats, Fields, Hashes, parsed, get_field, set_fields, fields_at, hgetall, parse_uuids,
  parse_time, parse_event_id, parse_entity_event_ids, decode_fields, decode_found,
  read_active_event, mapping_of, write_active_event,
}

-- What Python documents of its formats: each parser reads what its printer writes.
pub record RoundTrips (formats : Formats) : Type 0 where
  pub uuid : (id : ℕ) → formats.parse_uuid (formats.str_uuid id) ≡ some id
  pub time : (t : ℕ) → formats.fromisoformat (formats.isoformat t) ≡ some t
  pub json : (texts : List Text) → formats.loads (formats.dumps texts) ≡ some texts

lookup-set_fields :
    (name text : Text) (mapping fields : Fields)
    → lookup name mapping ≡ some text
    → lookup name (set_fields mapping fields) ≡ some text
unfolding set_fields lookup
lookup-set_fields name text [] fields h = absurd (cc h)
lookup-set_fields name text ((n, t) ∷ mapping) fields h =
    lookup-insert n name t (set_fields mapping fields) ∙ elim (Bool-cases (n == name)) [
      | inl same ↦ rw same (rw same at h)
      | inr differs ↦ rw differs (lookup-set_fields name text mapping fields (rw differs at h))
    ]

hgetall-insert :
    (name text : Text) (fields : Fields)
    → hgetall (some (insert name text fields)) ≡ some (insert name text fields)
unfolding hgetall insert
hgetall-insert name text [] = refl
hgetall-insert name text ((n, t) ∷ fields) = elim (Bool-cases (n == name)) [
  | inl same ↦ rw same refl
  | inr differs ↦ rw differs refl
]

-- the two assertions of a write that succeeded
pub asserted :
    (o : Option ℕ) (p : Option (List ℕ)) (make : ℕ → List ℕ → Hashes) {h : Hashes}
    → (assert_some o >>= λ (u : ℕ). assert_some p >>= λ (i : List ℕ). ok (make u i)) ≡ ok h
    → (u : ℕ) × (i : List ℕ) × (o ≡ some u) × (p ≡ some i) × (make u i ≡ h)
asserted none p make h = absurd (cc h)
asserted (some u) none make h = absurd (cc h)
asserted (some u) (some i) make h = (u, i, refl, refl, ok_injective h)

module _ (formats : Formats) (laws : RoundTrips formats) where
  parse_uuids-map : (ids : List ℕ) → parse_uuids formats (map formats.str_uuid ids) ≡ ok ids
  unfolding parse_uuids
  parse_uuids-map [] = refl
  parse_uuids-map (id ∷ ids) = rw (laws.uuid id, parse_uuids-map ids) refl

  module _ (e : Event) (updated : ℕ) (ids : List ℕ) (old : Fields) where
    abbrev stored : Fields
    stored = set_fields (mapping_of formats e updated ids) old

    own_field :
        (name text : Text)
        → lookup name (mapping_of formats e updated ids) ≡ some text
        → get_field name stored ≡ ok text
    unfolding get_field
    own_field name text h =
        ap parsed (lookup-set_fields name text (mapping_of formats e updated ids) old h)

    own_time :
        (name : Text) (t : ℕ)
        → lookup name (mapping_of formats e updated ids) ≡ some (formats.isoformat t)
        → parse_time formats name stored ≡ ok t
    unfolding parse_time
    own_time name t h = rw (own_field name (formats.isoformat t) h, laws.time t) refl

    own_event_id : parse_event_id formats stored ≡ ok e.event_id
    unfolding parse_event_id mapping_of lookup list_beq
    own_event_id =
        rw (own_field (codes "event_id") (formats.str_uuid e.event_id) refl, laws.uuid e.event_id)
          refl

    own_entity_event_ids : parse_entity_event_ids formats stored ≡ ok ids
    unfolding parse_entity_event_ids mapping_of lookup list_beq
    own_entity_event_ids =
        rw
          (
            own_field (codes "entity_event_ids") (formats.dumps (map formats.str_uuid ids)) refl,
            laws.json (map formats.str_uuid ids),
          )
          (parse_uuids-map ids)

    first_seen : parse_time formats (codes "first_seen_at") stored ≡ ok e.first_seen_at
    unfolding mapping_of lookup list_beq
    first_seen = own_time (codes "first_seen_at") e.first_seen_at refl

    last_seen : parse_time formats (codes "last_seen_at") stored ≡ ok e.last_seen_at
    unfolding mapping_of lookup list_beq
    last_seen = own_time (codes "last_seen_at") e.last_seen_at refl

    last_updated : parse_time formats (codes "aggregation_updated_at") stored ≡ ok updated
    unfolding mapping_of lookup list_beq
    last_updated = own_time (codes "aggregation_updated_at") updated refl

    decode_fields-set_fields :
        decode_fields formats (key_of e) stored
        ≡ ok (record e {
          event_type_secondary = none;
          source_list = none;
          aggregation_updated_at = some updated;
          updated_at = none;
          created_at = none;
          entity_event_ids = some ids;
        })
    unfolding decode_fields
    decode_fields-set_fields =
        rw (own_event_id, first_seen, last_seen, last_updated, own_entity_event_ids) refl

  hgetall-mapping :
      (e : Event) (updated : ℕ) (ids : List ℕ) (old : Fields)
      → hgetall (some (set_fields (mapping_of formats e updated ids) old))
        ≡ some (set_fields (mapping_of formats e updated ids) old)
  unfolding set_fields mapping_of
  hgetall-mapping e updated ids old =
      hgetall-insert (codes "event_id") (formats.str_uuid e.event_id) _

  read_own :
      (e : Event) (updated : ℕ) (ids : List ℕ) (hashes : Hashes)
      → let key = get_key (key_of e) in
        read_active_event formats (key_of e) (
          insert key
            (set_fields (mapping_of formats e updated ids) (fields_at (lookup key hashes)))
            hashes)
        ≡ ok (
            some (record e {
              event_type_secondary = none;
              source_list = none;
              aggregation_updated_at = some updated;
              updated_at = none;
              created_at = none;
              entity_event_ids = some ids;
            }))
  unfolding read_active_event decode_found
  read_own e updated ids hashes =
      let key = get_key (key_of e) in
      let fields : Fields =
        set_fields (mapping_of formats e updated ids) (fields_at (lookup key hashes)) in
      ap (λ (o : Option Fields). decode_found formats (key_of e) (hgetall o))
        (lookup-insert_self key fields hashes)
      ∙ ap (decode_found formats (key_of e))
          (hgetall-mapping e updated ids (fields_at (lookup key hashes)))
      ∙ ap (λ (r : Result Event). r >>= λ (a : Event). ok (some a))
          (decode_fields-set_fields e updated ids (fields_at (lookup key hashes)))

  read_other :
      (e : Event) (fields : Fields) (hashes : Hashes) (k : GroupKey)
      → Plain (key_of e)
      → Plain k
      → k ≢ key_of e
      → read_active_event formats k (insert (get_key (key_of e)) fields hashes)
        ≡ read_active_event formats k hashes
  unfolding read_active_event
  read_other e fields hashes k plain kp ne =
      let other_key : (get_key (key_of e) == get_key k) ≡ false =
        ==_ne (get_key (key_of e)) (get_key k)
          (λ same. ne (sym (get_key_injective (key_of e) k plain kp same))) in
      ap (λ (o : Option Fields). decode_found formats k (hgetall o))
        (lookup-insert (get_key (key_of e)) (get_key k) fields hashes ∙ rw other_key refl)

  -- What `upsert_active_event` wrote of an Event, as texts into the fields of its group's hash, over
  -- whatever was there, `get_active_event` reads back: the same id, times and constituents, and no
  -- field that is set only once the Event is persisted. What it reads for every other group stays. The
  -- exchanges and stock codes have no colon, and Python's formats are read back as they were printed.
  pub read_active_event-write :
      (e : Event) (hashes hashes' : Hashes)
      → write_active_event formats e hashes ≡ ok hashes'
      → Plain (key_of e)
      → (read_active_event formats (key_of e) hashes'
          ≡ ok (
              some (record e {
                event_type_secondary = none;
                source_list = none;
                updated_at = none;
                created_at = none;
              })))
        × ((k : GroupKey)
            → Plain k
            → k ≢ key_of e
            → read_active_event formats k hashes' ≡ read_active_event formats k hashes)
  unfolding write_active_event
  read_active_event-write e hashes hashes' written plain =
      let (updated, ids, at_updated, at_ids, result) =
        asserted e.aggregation_updated_at e.entity_event_ids
          (λ u i.
            insert (get_key (key_of e))
              (set_fields (mapping_of formats e u i)
                (fields_at (lookup (get_key (key_of e)) hashes)))
              hashes)
          written in
      (
        ap (read_active_event formats (key_of e)) (sym result)
            ∙ read_own e updated ids hashes
            ∙ rw (at_updated, at_ids) refl,
        λ k kp ne.
            ap (read_active_event formats k) (sym result) ∙ read_other e _ hashes k plain kp ne,
      )
