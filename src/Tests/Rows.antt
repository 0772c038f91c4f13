-- ===== src/Tests/Rows.antt =====
-- Tests of the theorems on the tables and on the Redis hashes.
use wealthfinder.Prelude.{ℕ, ◌≡◌, refl, ◌&&◌, some, [], ◌∷◌, ltb, nat_eq}
use wealthfinder.Prelude.Assoc.{lookup}
use wealthfinder.Persistent.EventRepository.{
  Tables, EventRow, is_before, upsert, mark_published, persist_events, persist_event,
  fetch_mapped_event_id, insert_memberships, add_membership,
}
use wealthfinder.Persistent.EventRepository.Memberships.{InEvents, persist_events_memberships}
use wealthfinder.Persistent.EventRepository.Versions.{
  newest, published, upsert-newest, mark_published-pending,
}
use wealthfinder.Tests.Data.{computed, active, tables, row, no_tables}

abbrev tables_after : Tables
tables_after = (upsert computed 20 no_tables active 9 (1 ∷ [])).0

persist_events_memberships_example :
    ((x : ℕ) → fetch_mapped_event_id tables 1 ≡ some x → fetch_mapped_event_id tables 1 ≡ some x)
    × (InEvents 1 (active ∷ []) → (x : ℕ) × (fetch_mapped_event_id tables 1 ≡ some x))
persist_events_memberships_example =
    persist_events_memberships computed 20 tables (active ∷ []) 1 {t' = tables} {written = []}
      (unfold persist_events persist_event upsert insert_memberships add_membership lookup in refl)

upsert-newest_example :
    (r : EventRow) × (lookup 5 (upsert computed 20 tables active 12 (1 ∷ [])).0.events ≡ some r)
    × (r.aggregation_updated_at ≡ newest (lookup 5 tables.events) 12)
    × (r.published_aggregation_updated_at ≡ published (lookup 5 tables.events))
upsert-newest_example = upsert-newest computed 20 tables active 12 (1 ∷ [])

mark_published-pending_example :
    (r : EventRow) × (lookup 5 (mark_published tables 5 9).events ≡ some r)
    × (r.aggregation_updated_at ≡ row.aggregation_updated_at)
    × (is_before r.published_aggregation_updated_at r.aggregation_updated_at ≡ (
        is_before row.published_aggregation_updated_at row.aggregation_updated_at
        && ltb 9 row.aggregation_updated_at))
mark_published-pending_example = mark_published-pending tables 5 9 row (unfold lookup in refl)
