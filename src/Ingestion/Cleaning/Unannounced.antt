-- ===== src/Ingestion/Cleaning/Unannounced.antt =====
-- The redelivery of a message whose record was stored and not announced (cleaning_service.py).
use wealthfinder.Prelude.{
  ℕ, suc, Text, ◌≡◌, ◌∙◌, ap, refl, true, false, Option, some, List, [], ◌∷◌, nat_eq, ==_refl,
}
use wealthfinder.Prelude.Result.{unreachable}
use wealthfinder.Prelude.Action.{Outcome, answered, refused, Env, request}
use wealthfinder.Ingestion.Cleaning.{
  RawNews, Cleaner, StreamMessage, select_raw_news, has_cleaned, insert_cleaned, next_record,
  new_cleaned, store_cleaned, store_once, lacks_field, is_short, clean_row, process_record,
  try_clean, work_once,
}

-- the announcement is refused, and the requests before it are answered
abbrev pub announcement_refused : List Outcome
announcement_refused = answered ∷ answered ∷ answered ∷ refused unreachable ∷ []

module _ (normalise : Text → Text) (body_min_length : ℕ) (uuid4 clock : ℕ → ℕ)
    (parse_uuid : Text → Option ℕ) where
  abbrev work : StreamMessage → Env Cleaner → Env Cleaner
  work message e = (work_once normalise body_min_length uuid4 clock parse_uuid message e).1

  -- what is left behind by a worker whose announcement is refused
  abbrev stored : ℕ → RawNews → Cleaner → Cleaner
  stored raw_id raw s = record s {
    cleaned_news =
        new_cleaned normalise body_min_length uuid4 clock s.draws raw_id raw ∷ s.cleaned_news;
    draws = suc s.draws;
  }

  -- A worker takes the message, and takes it again when it is redelivered.
  abbrev pub redelivered : StreamMessage → Cleaner → Cleaner
  redelivered message s =
      (work message (work message (record { state = s; outcomes = announcement_refused }))).state

  module _ (message : StreamMessage) (raw_id : ℕ) (raw : RawNews) (s : Cleaner)
      (parsed : parse_uuid message.raw_id ≡ some raw_id)
      (found : select_raw_news raw_id s ≡ some raw)
      (complete : lacks_field normalise body_min_length uuid4 clock raw ≡ false)
      (long : is_short normalise body_min_length uuid4 clock raw ≡ false)
      (fresh : has_cleaned raw_id s.cleaned_news ≡ false) where
    work-refused :
        work message (record { state = s; outcomes = announcement_refused })
        ≡ record { state = stored raw_id raw s; outcomes = [] }
    unfolding work_once try_clean process_record clean_row store_once store_cleaned next_record
        request insert_cleaned
    work-refused =
        rw (parsed, work, work_once)
          (rw (found, work, work_once)
            (rw (complete, work, work_once)
              (rw (long, work, work_once) (rw (fresh, work, work_once) refl))))

    found_again : select_raw_news raw_id (stored raw_id raw s) ≡ some raw
    unfolding select_raw_news
    found_again = found

    now_cleaned : has_cleaned raw_id (stored raw_id raw s).cleaned_news ≡ true
    unfolding has_cleaned new_cleaned
    now_cleaned = rw (==_refl raw_id) refl

    work-again : work message (record { state = stored raw_id raw s; outcomes = [] }) ≡ record {
      state = record (stored raw_id raw s) { acked = message.message_id ∷ s.acked };
      outcomes = [];
    }
    unfolding work_once try_clean process_record clean_row store_once request
    work-again =
        rw (parsed, work, work_once)
          (rw (found_again, work, work_once)
            (rw (complete, work, work_once)
              (rw (long, work, work_once) (rw (now_cleaned, work, work_once) refl))))

    -- A worker takes a message of a valid record that is not cleaned, and Redis is unreachable when it
    -- announces the cleaned record; then the message is redelivered, and every request is answered. At
    -- the end the record is cleaned and the message is acknowledged, and nothing was announced.
    pub work_once-unannounced :
        (has_cleaned raw_id (redelivered message s).cleaned_news ≡ true)
        × ((redelivered message s).acked ≡ message.message_id ∷ s.acked)
        × ((redelivered message s).announced ≡ s.announced)
    work_once-unannounced =
        let ends : work message
              (work message (record { state = s; outcomes = announcement_refused }))
            ≡ record {
              state = record (stored raw_id raw s) { acked = message.message_id ∷ s.acked };
              outcomes = [];
            } =
          ap (work message) work-refused ∙ work-again in
        (
          ap (λ (e : Env Cleaner). has_cleaned raw_id e.state.cleaned_news) ends ∙ now_cleaned,
          ap (λ (e : Env Cleaner). e.state.acked) ends,
          ap (λ (e : Env Cleaner). e.state.announced) ends,
        )
