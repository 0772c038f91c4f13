-- ===== src/Ingestion/Cleaning/Recorded.antt =====
-- What the cleaner has done with a message that it acknowledges (cleaning_service.py).
use wealthfinder.Prelude.{
  ℕ, Text, ◌≡◌, ◌∙◌, refl, sym, ap, ◌⊎◌, true, Option, none, some, List, ◌∷◌, nat_eq, inl, inr,
  Option-cases, ==_refl,
}
use wealthfinder.Prelude.Assoc.{lookup, lookup-insert_self}
use wealthfinder.Prelude.Result.{
  Exc, unreachable, rate_limit, sapi_error, cancelled, other, ok, assert_some, assert_some-eq-ok,
}
use wealthfinder.Prelude.Action.{Env}
use wealthfinder.Prelude.Action.Triple.{
  Triple, Keeps, Triple-return, Triple-lift, Triple-request, Triple-if, Triple-catch, Triple-bind,
  Triple-weaken, Triple-given, Ends-state,
}
use wealthfinder.Ingestion.Cleaning.{
  DeletedReason, empty_field, body_too_short, RawNews, Cleaner, StreamMessage, select_raw_news,
  update_deleted, has_cleaned, insert_cleaned, next_record, new_cleaned, store_cleaned, store_once,
  lacks_field, is_short, mark_deleted, clean_row, process_record, try_clean, clean_failed,
  work_once,
}

-- The record has no row that is not deleted, or it is cleaned.
abbrev pub Recorded : ℕ → Cleaner → Type 0
Recorded raw_id s = (select_raw_news raw_id s ≡ none) ⊎ (has_cleaned raw_id s.cleaned_news ≡ true)

update_deleted-Recorded :
    (raw_id : ℕ) (reason : DeletedReason) (s : Cleaner)
    → select_raw_news raw_id (update_deleted raw_id reason s) ≡ none
unfolding select_raw_news update_deleted
update_deleted-Recorded raw_id reason s = elim (Option-cases (lookup raw_id s.raw_news)) [
  | inl missing ↦ rw (missing, update_deleted) (rw missing refl)
  | inr (raw, found) ↦ rw (found, update_deleted) (rw (lookup-insert_self raw_id _ s.raw_news) refl)
]

update_deleted_acked :
    (raw_id : ℕ) (reason : DeletedReason) (s : Cleaner)
    → (update_deleted raw_id reason s).acked ≡ s.acked
unfolding update_deleted
update_deleted_acked raw_id reason s = elim (Option-cases (lookup raw_id s.raw_news)) [
  | inl missing ↦ rw (missing, update_deleted) refl
  | inr (raw, found) ↦ rw (found, update_deleted) refl
]

module _ (normalise : Text → Text) (body_min_length : ℕ) (uuid4 clock : ℕ → ℕ) (acked : List ℕ)
    (raw_id : ℕ) where
  abbrev Same : Cleaner → Type 0
  Same s = s.acked ≡ acked

  abbrev Done : Cleaner → Type 0
  Done s = Same s × Recorded raw_id s

  next_Same :
      Triple Same (next_record normalise body_min_length uuid4 clock) (λ _. Same) (λ _. Same)
  unfolding next_record
  next_Same = record { run = λ e p. p }

  store_cleaned-Done :
      (raw : RawNews)
      → Triple Same
          (store_cleaned normalise body_min_length uuid4 clock raw_id raw)
          (λ _. Done)
          (λ _. Same)
  unfolding store_cleaned select_raw_news
  store_cleaned-Done raw =
      Triple-bind (λ _. Same) _ _ next_Same
        λ n.
          Triple-bind (λ _. Done) _ _
            (Triple-request (λ s. tt)
              (insert_cleaned (new_cleaned normalise body_min_length uuid4 clock n raw_id raw))
              (inserted n) (λ x s p. (p, (inserted n s p).0)))
            λ _.
              Triple-request (λ s. tt) (λ s. record s { announced = uuid4 n ∷ s.announced })
                (λ s p. p) (λ x s p. (p.0, p.0))
    where
      inserted :
          (n : ℕ) (s : Cleaner)
          → Same s
          → Done (insert_cleaned (new_cleaned normalise body_min_length uuid4 clock n raw_id raw) s)
      inserted n s p = (
        unfold insert_cleaned in p,
        inr (unfold insert_cleaned has_cleaned new_cleaned in rw (==_refl raw_id) refl),
      )

  store_once-Done :
      (raw : RawNews)
      → Triple Same
          (store_once normalise body_min_length uuid4 clock raw_id raw)
          (λ _. Done)
          (λ _. Same)
  unfolding store_once
  store_once-Done raw =
      Triple-bind (λ b s. Same s × (b ≡ has_cleaned raw_id s.cleaned_news)) _ _
        (Triple-request (λ s. has_cleaned raw_id s.cleaned_news) (λ s. s) (λ s p. (p, refl))
          (λ x s p. (p, p)))
        λ already.
          Triple-if already _ _ (λ yes. Triple-return tt (λ s p. (p.0, inr (sym p.1 ∙ yes))))
            (λ _.
              Triple-weaken (store_cleaned normalise body_min_length uuid4 clock raw_id raw)
                (λ s p. p.0) (λ _ s p. p) (λ x s p. p) (store_cleaned-Done raw))

  mark_deleted-Done :
      (reason : DeletedReason)
      → Triple Same
          (mark_deleted normalise body_min_length uuid4 clock raw_id reason)
          (λ _. Done)
          (λ _. Same)
  unfolding mark_deleted
  mark_deleted-Done reason =
      Triple-request (λ s. tt) (update_deleted raw_id reason)
        (λ s p.
          (update_deleted_acked raw_id reason s ∙ p, inl (update_deleted-Recorded raw_id reason s)))
        (λ x s p. (p, update_deleted_acked raw_id reason s ∙ p))

  clean_row-Done :
      (row : Option RawNews)
      → Triple
          (λ s. Same s × (row ≡ select_raw_news raw_id s))
          (clean_row normalise body_min_length uuid4 clock raw_id row)
          (λ _. Done)
          (λ _. Same)
  unfolding clean_row
  clean_row-Done none = Triple-return tt (λ s p. (p.0, inl (sym p.1)))
  clean_row-Done (some raw) =
      Triple-if (lacks_field normalise body_min_length uuid4 clock raw) _ _
        (λ _.
          Triple-weaken _ (λ s p. p.0) (λ _ s p. p) (λ x s p. p) (mark_deleted-Done empty_field))
        λ _.
          Triple-if (is_short normalise body_min_length uuid4 clock raw) _ _
            (λ _.
              Triple-weaken _ (λ s p. p.0) (λ _ s p. p) (λ x s p. p)
                (mark_deleted-Done body_too_short))
            (λ _. Triple-weaken _ (λ s p. p.0) (λ _ s p. p) (λ x s p. p) (store_once-Done raw))

  process_record-Done :
      Triple Same
        (process_record normalise body_min_length uuid4 clock raw_id)
        (λ _. Done)
        (λ _. Same)
  unfolding process_record
  process_record-Done =
      Triple-bind (λ row s. Same s × (row ≡ select_raw_news raw_id s)) _ _
        (Triple-request (select_raw_news raw_id) (λ s. s) (λ s p. (p, refl)) (λ x s p. (p, p)))
        λ row. clean_row-Done row

module _ (normalise : Text → Text) (body_min_length : ℕ) (uuid4 clock : ℕ → ℕ)
    (parse_uuid : Text → Option ℕ) where
  abbrev pub Settled : List ℕ → StreamMessage → Cleaner → Type 0
  Settled acked message s =
      (s.acked ≡ acked)
      ⊎ ((s.acked ≡ message.message_id ∷ acked)
          × ((raw_id : ℕ) × (parse_uuid message.raw_id ≡ some raw_id) × Recorded raw_id s))

  try_clean-Settled :
      (acked : List ℕ) (message : StreamMessage)
      → Triple
          (λ s. s.acked ≡ acked)
          (try_clean normalise body_min_length uuid4 clock parse_uuid message)
          (λ _. Settled acked message)
          (λ _. Settled acked message)
  unfolding try_clean select_raw_news
  try_clean-Settled acked message =
      Triple-bind
        (λ raw_id s. (s.acked ≡ acked) × (assert_some (parse_uuid message.raw_id) ≡ ok raw_id)) _ _
        (Triple-lift (assert_some (parse_uuid message.raw_id)) (λ raw_id e s p. (p, e))
          (λ x e s p. inl p))
        λ raw_id. Triple-given _ λ parsed.
          Triple-bind (λ _ s. (s.acked ≡ acked) × Recorded raw_id s) _ _
            (Triple-weaken (process_record normalise body_min_length uuid4 clock raw_id) (λ s p. p)
              (λ _ s p. p) (λ x s p. inl p)
              (process_record-Done normalise body_min_length uuid4 clock acked raw_id))
            λ _.
              Triple-request (λ s. tt) (λ s. record s { acked = message.message_id ∷ s.acked })
                (λ s p.
                  inr
                    (ap (λ l. message.message_id ∷ l) p.0, (raw_id, assert_some-eq-ok parsed, p.1)))
                (λ x s p. (
                  inl p.0,
                  inr (
                    ap (λ l. message.message_id ∷ l) p.0,
                    (raw_id, assert_some-eq-ok parsed, p.1),
                  ),
                ))

  clean_failed-Settled :
      (acked : List ℕ) (message : StreamMessage) (x : Exc)
      → Keeps
          (Settled acked message)
          (clean_failed normalise body_min_length uuid4 clock parse_uuid x)
  clean_failed-Settled acked message cancelled = record { run = λ e p. p }
  clean_failed-Settled acked message unreachable = record { run = λ e p. p }
  clean_failed-Settled acked message rate_limit = record { run = λ e p. p }
  clean_failed-Settled acked message sapi_error = record { run = λ e p. p }
  clean_failed-Settled acked message other = record { run = λ e p. p }

  -- A worker acknowledges nothing, or the message that it took; and this only when the record has no
  -- row that is not deleted, or has a row in cleaned_news. That holds however the requests end.
  pub work_once-Settled :
      (message : StreamMessage) (e : Env Cleaner)
      → Settled e.state.acked message
          (work_once normalise body_min_length uuid4 clock parse_uuid message e).1.state
  unfolding work_once
  work_once-Settled message e =
      let result = work_once normalise body_min_length uuid4 clock parse_uuid message e in
      Ends-state (Settled e.state.acked message) result.0 result.1 (
        (Triple-catch (λ _. Settled e.state.acked message) _ _
            (try_clean-Settled e.state.acked message)
            (clean_failed-Settled e.state.acked message)).run
          e refl)
