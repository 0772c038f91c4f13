-- ===== src/Tests/Hashes.antt =====
-- Tests of the texts that Redis holds, with formats of one code point for ids and times, and marks
-- before every code point of a list's texts and at their ends.
use wealthfinder.Prelude.{
  ℕ, zero, suc, Text, list_beq, nat_eq, elem, ◌≡◌, ◌≢◌, refl, Option, none, some, List, [], ◌∷◌,
  ◌++◌,
}
use wealthfinder.Prelude.Assoc.{lookup, insert}
use wealthfinder.Prelude.Result.{ok}
use wealthfinder.Models.EventType.{type_name}
use wealthfinder.Aggregation.Store.{GroupKey, get_key, key_of}
use wealthfinder.Aggregation.Store.Keys.{Plain}
use wealthfinder.Aggregation.Store.Wire.{
  Formats, Hashes, set_fields, mapping_of, read_active_event, write_active_event,
}
use wealthfinder.Aggregation.Store.Wire.Read.{RoundTrips, read_active_event-write}
use wealthfinder.Tests.Data.{active}

abbrev printed : ℕ → Text
printed n = n ∷ []

abbrev scanned : Text → Option ℕ
scanned (n ∷ []) = some n
scanned _ = none

abbrev marked : Text → Text
marked [] = 0 ∷ []
marked (c ∷ text) = 1 ∷ c ∷ marked text

abbrev dumps : List Text → Text
dumps [] = []
dumps (text ∷ texts) = marked text ++ dumps texts

abbrev end_first : Option (List Text) → Option (List Text)
end_first none = none
end_first (some texts) = some ([] ∷ texts)

abbrev add_first : ℕ → Option (List Text) → Option (List Text)
add_first c (some (text ∷ texts)) = some ((c ∷ text) ∷ texts)
add_first c _ = none

abbrev loads : Text → Option (List Text)
loads [] = some []
loads (zero ∷ rest) = end_first (loads rest)
loads (suc n ∷ c ∷ rest) = add_first c (loads rest)
loads (suc n ∷ []) = none

loads-marked :
    (text rest : Text) (texts : List Text)
    → loads rest ≡ some texts
    → loads (marked text ++ rest) ≡ some (text ∷ texts)
loads-marked [] rest texts h = rw h refl
loads-marked (c ∷ text) rest texts h = rw (loads-marked text rest texts h) refl

loads-dumps : (texts : List Text) → loads (dumps texts) ≡ some texts
loads-dumps [] = refl
loads-dumps (text ∷ texts) = loads-marked text (dumps texts) texts (loads-dumps texts)

abbrev formats : Formats
formats = record {
  str_uuid = printed;
  parse_uuid = scanned;
  isoformat = printed;
  fromisoformat = scanned;
  dumps = dumps;
  loads = loads;
}

formats-RoundTrips : RoundTrips formats
formats-RoundTrips = record { uuid = λ id. refl; time = λ t. refl; json = loads-dumps }

-- a hash with an older Event of the group
abbrev hashes : Hashes
hashes =
    (get_key (key_of active), mapping_of formats (record active { event_id = 4 }) 7 (8 ∷ [])) ∷ []

abbrev hashes' : Hashes
hashes' = (get_key (key_of active), mapping_of formats active 9 (1 ∷ [])) ∷ []

written : write_active_event formats active hashes ≡ ok hashes'
unfolding write_active_event lookup insert set_fields mapping_of list_beq get_key type_name
written = refl

read_active_event-write_example :
    (read_active_event formats (key_of active) hashes'
      ≡ ok (
          some (record active {
            event_type_secondary = none;
            source_list = none;
            updated_at = none;
            created_at = none;
          })))
    × ((k : GroupKey)
        → Plain k
        → k ≢ key_of active
        → read_active_event formats k hashes' ≡ read_active_event formats k hashes)
read_active_event-write_example =
    read_active_event-write formats formats-RoundTrips active hashes hashes' written
      (unfold elem in refl, unfold elem in refl)

-- no hash yet
abbrev first_hashes : Hashes
first_hashes = (get_key (key_of active), set_fields (mapping_of formats active 9 (1 ∷ [])) []) ∷ []
