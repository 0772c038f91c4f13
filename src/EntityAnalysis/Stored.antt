-- ===== src/EntityAnalysis/Stored.antt =====
-- What `persist_entities` (persistent/entity_event_repository.py) stores.
use wealthfinder.Prelude.{
  ℕ, suc, Text, text_eq, ◌≡◌, refl, true, List, [], ◌∷◌, ◌==◌, nat_eq, elem, inl, inr, ◌⊎◌,
  Bool-cases, arith,
}
use wealthfinder.Models.{EntityEvent}
use wealthfinder.EntityAnalysis.{conflicts, ids_by_source_url, stored_row, persist_entities}

module _ {F : Type 0} (uuid4 clock : ℕ → ℕ) (i : ℕ) (url : Text) where
  -- An id that the table has for a URL afterwards was there before, or is among those newly stored.
  pub persist_entities-ids :
      (n : ℕ) (entities : List (EntityEvent F)) (rows : List (ℕ × EntityEvent F))
      → elem i (ids_by_source_url url (persist_entities uuid4 clock n entities rows).0) ≡ true
      → (elem i (ids_by_source_url url rows) ≡ true)
        ⊎ (elem i (persist_entities uuid4 clock n entities rows).1 ≡ true)
  unfolding persist_entities
  persist_entities-ids n [] rows h = inl h
  persist_entities-ids n (entity ∷ entities) rows h = elim (Bool-cases (conflicts entity rows)) [
    | inl there ↦ rw there (persist_entities-ids (suc n) entities rows (rw there at h))
    | inr new ↦
        rw new
          (elim (persist_entities-ids (suc n) entities (stored_row uuid4 clock n entity ∷ rows)
            (rw new at h)) [
              | inr stored ↦ inr (unfold elem in ground (arith, stored))
              | inl before ↦ elim (Bool-cases (entity.source_url == url)) [
                | inl same ↦ elim (Bool-cases (uuid4 n == i)) [
                  | inl own ↦ inr (unfold elem in rw own refl)
                  | inr differs ↦
                      inl (unfold ids_by_source_url elem in (rw (same, differs) at before))
                ]
                | inr other ↦ inl (unfold ids_by_source_url in (rw other at before))
              ]
            ])
  ]
