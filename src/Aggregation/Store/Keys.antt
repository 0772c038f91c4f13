-- ===== src/Aggregation/Store/Keys.antt =====
-- The keys of the aggregation store: what `scan_all` reads out of a key is what `_get_key` wrote.
use mathlib.Core.Option
use mathlib.Core.Option.{some-injective}
use wealthfinder.Prelude.{
  Text, ◌≡◌, ◌∙◌, refl, ap, sym, ◌≢◌, Bool, false, none, some, [], ◌∷◌, ◌++◌, ◌==◌, nat_eq, elem,
  text_eq, Option-cases, inl, inr, ==_ne, ◌||◌, arith,
}
use wealthfinder.Prelude.Assoc.{lookup, lookup-insert, lookup-insert_self}
use wealthfinder.Prelude.Result.{ok, ok_injective}
use wealthfinder.Models.{Event}
use wealthfinder.Models.EventType.{EventTypeEnum, earnings, type_name, parse_type-name}
use wealthfinder.Aggregation.Store.{
  GroupKey, Hash, Redis, decode, key_of, hash_of, get_active_event, upsert_hash, get_key,
  split_colon, unpack, parse_key,
}

-- A text without a colon.
abbrev pub NoColon : Text → Type 0
NoColon text = elem b':' text ≡ false

or_false : (a b : Bool) → a || b ≡ false → (a ≡ false) × (b ≡ false)
or_false a b h = ground arith

split_colon-part :
    (part rest : Text) → NoColon part → split_colon (part ++ b':' ∷ rest) ≡ part ∷ split_colon rest
unfolding split_colon elem
split_colon-part [] rest h = refl
split_colon-part (c ∷ part) rest h =
    let (colon, tail) = or_false (c == b':') (elem b':' part) h in
    rw (colon, split_colon-part part rest tail)

split_colon-last : (part : Text) → NoColon part → split_colon part ≡ part ∷ []
unfolding split_colon elem
split_colon-last [] h = refl
split_colon-last (c ∷ part) h =
    let (colon, tail) = or_false (c == b':') (elem b':' part) h in
    rw (colon, split_colon-last part tail)

type_name-NoColon : (t : EventTypeEnum) → NoColon (type_name t)
unfolding type_name elem
type_name-NoColon earnings = refl
type_name-NoColon _ = refl

-- A key's group is read back from it, provided that neither the exchange nor the stock code has a
-- colon.
pub parse_key-get_key :
    (k : GroupKey) → NoColon k.exchange → NoColon k.stock_code → parse_key (get_key k) ≡ ok k
unfolding parse_key get_key
parse_key-get_key k he hc =
    rw
      (
        split_colon-part k.exchange (k.stock_code ++ b':' ∷ type_name k.event_type_primary) he,
        split_colon-part k.stock_code (type_name k.event_type_primary) hc,
        split_colon-last (type_name k.event_type_primary) (type_name-NoColon k.event_type_primary),
      )
      (rw (parse_type-name k.event_type_primary, unpack))

abbrev pub Plain : GroupKey → Type 0
Plain k = NoColon k.exchange × NoColon k.stock_code

pub get_key_injective : (j k : GroupKey) → Plain j → Plain k → get_key j ≡ get_key k → j ≡ k
get_key_injective j k (je, jc) (ke, kc) h =
    ok_injective (sym (parse_key-get_key j je jc) ∙ ap parse_key h ∙ parse_key-get_key k ke kc)

decode-hash_of :
    (e : Event) (h : Hash)
    → hash_of e ≡ ok h
    → decode (key_of e) h ≡ record e {
      event_type_secondary = none;
      source_list = none;
      updated_at = none;
      created_at = none;
    }
unfolding decode hash_of
decode-hash_of e h made = ground arith

pub get_active_event-eq :
    (k : GroupKey) (r : Redis) → get_active_event k r ≡ Option.map (decode k) (lookup (get_key k) r)
unfolding get_active_event
get_active_event-eq k r = elim (Option-cases (lookup (get_key k) r)) [
  | inl missing ↦ rw (missing, get_active_event)
  | inr (h, found) ↦ rw (found, get_active_event)
]

-- What `upsert_active_event` stored is what `get_active_event` returns for its group, and no other
-- group's active Event changes, provided that the groups' exchanges and stock codes have no colon.
-- (An active Event has no field that is set only once it is persisted.)
pub get_active_event-upsert :
    (e : Event) (h : Hash) (r : Redis)
    → hash_of e ≡ ok h
    → Plain (key_of e)
    → (get_active_event (key_of e) (upsert_hash e h r)
        ≡ some (record e {
          event_type_secondary = none;
          source_list = none;
          updated_at = none;
          created_at = none;
        }))
      × ((k : GroupKey)
          → Plain k
          → k ≢ key_of e
          → get_active_event k (upsert_hash e h r) ≡ get_active_event k r)
unfolding upsert_hash
get_active_event-upsert e h r made plain = (
  get_active_event-eq (key_of e) (upsert_hash e h r)
      ∙ rw (lookup-insert_self (get_key (key_of e)) h r) (ap some (decode-hash_of e h made)),
  λ k kp ne.
      let other_key : (get_key (key_of e) == get_key k) ≡ false =
        ==_ne (get_key (key_of e)) (get_key k)
          (λ same. ne (sym (get_key_injective (key_of e) k plain kp same))) in
      get_active_event-eq k (upsert_hash e h r)
      ∙ rw (lookup-insert (get_key (key_of e)) (get_key k) h r, other_key)
          (sym (get_active_event-eq k r)),
)

-- A group's active Event is one of the group.
pub key_of-get_active_event :
    (k : GroupKey) (r : Redis) (a : Event) → get_active_event k r ≡ some a → key_of a ≡ k
unfolding decode
key_of-get_active_event k r a h = elim (Option-cases (lookup (get_key k) r)) [
  | inl missing ↦ absurd (cc (get_active_event-eq k r ∙ ap (Option.map (decode k)) missing))
  | inr (hash, found) ↦ ap key_of (
      some-injective a (decode k hash)
        (sym h ∙ get_active_event-eq k r ∙ ap (Option.map (decode k)) found))
]
