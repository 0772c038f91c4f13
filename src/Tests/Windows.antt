-- ===== src/Tests/Windows.antt =====
-- Tests of sliding_window.py's theorems.
use wealthfinder.Prelude.{ℕ, ◌≡◌, ◌⊎◌, refl, arith, true, false, some, List, [], ◌∷◌, ◌&&◌, ◌++◌}
use mathlib.Core.List.Perm
use mathlib.Core.List.{Perm}
use wealthfinder.Prelude.Result.{ok, raise, sapi_error}
use wealthfinder.Models.{Event, EntityEvent, is_persistent_event, is_active_event, get_published_at}
use wealthfinder.Aggregation.SlidingWindow.{accepts, in_window, extended, merge, merge_or_create}
use wealthfinder.Aggregation.SlidingWindow.Window.{
  IsWindow, merge_or_create-IsWindow, merge_or_create_outcome,
}
use wealthfinder.Aggregation.SlidingWindow.Arrivals.{Joins, done, join, Joins-perm}
use wealthfinder.Tests.Data.{Float, config, active, entity_at}

abbrev soon : EntityEvent Float
soon = entity_at 2 363600000000

abbrev early : EntityEvent Float
early = entity_at 3 356400000000

-- a whole sliding window and an hour before, and after
abbrev long_before : EntityEvent Float
long_before = entity_at 4 266400000000

abbrev long_after : EntityEvent Float
long_after = entity_at 6 453600000000

abbrev with_soon : Event
with_soon = extended 50 active 363600000000 2 (1 ∷ [])

abbrev with_early : Event
with_early = extended 50 active 356400000000 3 (1 ∷ [])

abbrev soon_early : Event
soon_early = extended 51 with_soon 356400000000 3 (1 ∷ 2 ∷ [])

abbrev early_soon : Event
early_soon = extended 51 with_early 363600000000 2 (1 ∷ 3 ∷ [])

merged-soon : merge_or_create config 50 9 (some active) soon ≡ ok with_soon
unfolding merge_or_create merge accepts in_window is_persistent_event get_published_at
    is_active_event extended
merged-soon = refl

merged-early : merge_or_create config 50 9 (some active) early ≡ ok with_early
unfolding merge_or_create merge accepts in_window is_persistent_event get_published_at
    is_active_event extended
merged-early = refl

merged-soon_early : merge_or_create config 51 9 (some with_soon) early ≡ ok soon_early
unfolding merge_or_create merge accepts in_window is_persistent_event get_published_at
    is_active_event extended
merged-soon_early = refl

merged-early_soon : merge_or_create config 51 9 (some with_early) soon ≡ ok early_soon
unfolding merge_or_create merge accepts in_window is_persistent_event get_published_at
    is_active_event extended
merged-early_soon = refl

merge_or_create-IsWindow_example : IsWindow config with_soon
merge_or_create-IsWindow_example =
    merge_or_create-IsWindow config 50 9 (some active) soon (omega arith) merged-soon

merge_or_create_outcome_example :
    (accepts (some active) && is_persistent_event soon ≡ true)
      × ((e : Event) × (ids : List ℕ) × (i : ℕ) × (merge_or_create config 50 9 (some active) soon
            ≡ ok e)
          × (soon.entity_event_id ≡ some i)
          × (e.entity_event_ids ≡ some (ids ++ i ∷ [])))
    ⊎ (accepts (some active) && is_persistent_event soon ≡ false)
      × (merge_or_create config 50 9 (some active) soon ≡ raise sapi_error)
merge_or_create_outcome_example = merge_or_create_outcome config 50 9 (some active) soon

soon_then_early : Joins config active (soon ∷ early ∷ []) soon_early
unfolding extended
soon_then_early =
    join 50 9 merged-soon (λ e. absurd (omega (arith, e))) refl
      (join 51 9 merged-soon_early (λ e. absurd (omega (arith, e))) refl done)

early_then_soon : Joins config active (early ∷ soon ∷ []) early_soon
unfolding extended
early_then_soon =
    join 50 9 merged-early (λ e. absurd (omega (arith, e))) refl
      (join 51 9 merged-early_soon (λ e. absurd (omega (arith, e))) refl done)

Joins-perm_example :
    (soon_early.event_id ≡ early_soon.event_id)
    × (soon_early.first_seen_at ≡ early_soon.first_seen_at)
    × (soon_early.last_seen_at ≡ early_soon.last_seen_at)
    × ((l l' : List ℕ) × (soon_early.entity_event_ids ≡ some l)
        × (early_soon.entity_event_ids ≡ some l')
        × Perm l l')
Joins-perm_example =
    Joins-perm config (1 ∷ []) soon_then_early early_then_soon refl (Perm.swap early soon [])
