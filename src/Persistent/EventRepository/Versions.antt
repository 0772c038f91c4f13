-- ===== src/Persistent/EventRepository/Versions.antt =====
-- The two versions of a row of the events table (persistent/event_repository.py): the one stored and
-- the one announced.
use wealthfinder.Prelude.{
  ℕ, ◌≡◌, refl, ◌&&◌, Option, none, some, List, nat_eq, ltb, arith, inl, inr, Option-cases,
  Bool-cases, if◌then◌else◌,
}
use wealthfinder.Prelude.Assoc.{lookup, lookup-insert_self}
use wealthfinder.Models.{Event}
use wealthfinder.Persistent.EventRepository.{
  EventRow, Tables, Computed, new_row, updated_row, upsert, is_before, mark_published,
}

-- the later of the stored version, if there is one, and a new one
abbrev pub newest : Option EventRow → ℕ → ℕ
newest none version = version
newest (some old) version =
    if ltb old.aggregation_updated_at version then version else old.aggregation_updated_at

abbrev pub published : Option EventRow → Option ℕ
published none = none
published (some old) = old.published_aggregation_updated_at

-- After an upsert the table has a row for the Event; its version is the later of the one that was
-- stored, if there was one, and the Event's, and what was announced of it is unchanged.
pub upsert-newest :
    (computed : Computed) (now : ℕ) (t : Tables) (event : Event) (version : ℕ) (ids : List ℕ)
    → (row : EventRow) × (lookup event.event_id (upsert computed now t event version ids).0.events
        ≡ some row)
      × (row.aggregation_updated_at ≡ newest (lookup event.event_id t.events) version)
      × (row.published_aggregation_updated_at ≡ published (lookup event.event_id t.events))
unfolding upsert new_row updated_row
upsert-newest computed now t event version ids =
    elim (Option-cases (lookup event.event_id t.events)) [
      | inl missing ↦
          rw (missing, upsert)
            (
              new_row computed now event version ids (some now) none,
              lookup-insert_self event.event_id _ t.events,
              refl,
              refl,
            )
      | inr (old, found) ↦ elim (Bool-cases (ltb old.aggregation_updated_at version)) [
        | inl newer ↦
            rw (found, upsert, newer)
              (
                updated_row computed now old
                    (new_row computed now event version ids (some now) none),
                lookup-insert_self event.event_id _ t.events,
                refl,
                refl,
              )
        | inr older ↦ rw (found, upsert, older) (old, found, refl, refl)
      ]
    ]

-- `_MARK_PUBLISHED_SQL` leaves a row to announce exactly when it was one before and the version that
-- was announced is older than the one stored, so an announcement of an older version hides no newer
-- one. The stored version is unchanged.
pub mark_published-pending :
    (t : Tables) (event_id version : ℕ) (row : EventRow)
    → lookup event_id t.events ≡ some row
    → (row' : EventRow) × (lookup event_id (mark_published t event_id version).events ≡ some row')
      × (row'.aggregation_updated_at ≡ row.aggregation_updated_at)
      × (is_before row'.published_aggregation_updated_at row'.aggregation_updated_at ≡ (
          is_before row.published_aggregation_updated_at row.aggregation_updated_at
          && ltb version row.aggregation_updated_at))
unfolding mark_published is_before
mark_published-pending t event_id version row found =
    elim (Option-cases row.published_aggregation_updated_at) [
      | inl never ↦
          rw (found, mark_published)
            (simp never (
              record row { published_aggregation_updated_at = some version },
              lookup-insert_self event_id _ t.events,
              refl,
              ground arith,
            ))
      | inr (p, announced) ↦ elim (Bool-cases (ltb p version)) [
        | inl newer ↦
            rw (found, mark_published)
              (simp (announced, newer)
                (
                  record row { published_aggregation_updated_at = some version },
                  lookup-insert_self event_id _ t.events,
                  refl,
                  ground arith,
                ))
        | inr older ↦
            rw (found, mark_published) (simp (announced, older) (row, found, refl, ground arith))
      ]
    ]
