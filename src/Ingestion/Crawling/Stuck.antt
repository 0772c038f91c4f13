-- ===== src/Ingestion/Crawling/Stuck.antt =====
-- An article that was stored and whose signal was lost (crawl/crawl_service.py, `_persist_successes`).
use wealthfinder.Prelude.{
  ℕ, ◌≤◌, ◌≡◌, ◌≢◌, refl, Text, text_eq, false, Option, some, List, ◌∷◌, ◌==◌, nat_eq, elem, ==_ne,
  arith, inl, inr, Bool-cases, ==→eq, ◌∙◌, sym, ap,
}
use wealthfinder.Prelude.Result.{Exc}
use wealthfinder.Prelude.Action.{Env}
use wealthfinder.Ingestion.Crawling.{
  CrawlEnd, RawRow, Crawl, Insertion, inserted, absorbed, violated, stored_id, insertion,
  after_insertion, execute,
}
use wealthfinder.Ingestion.Crawling.Frame.{Frame, execute-Triple}
use wealthfinder.Ingestion.Crawling.Signals.{ended, insertion-inserted}

-- The article's row has this id, which was not signalled, and will not be drawn again.
abbrev pub IsUnsignalled : (ℕ → ℕ) → Text → ℕ → Crawl → Type 0
IsUnsignalled uuid4 url id w =
    (stored_id url w.raw_news ≡ some id)
    × (elem id w.inserted_signals ≡ false)
    × ((n : ℕ) → w.draws ≤ n → uuid4 n ≢ id)

elem-other : (i j : ℕ) (xs : List ℕ) → j ≢ i → elem i xs ≡ false → elem i (j ∷ xs) ≡ false
unfolding elem
elem-other i j xs differs h = rw (==_ne j i differs) h

-- A row that is inserted has another URL.
after_stored :
    (ending : Insertion) (url : Text) (id : ℕ) (row : RawRow) (rows : List RawRow)
    → insertion row rows ≡ ending
    → stored_id url rows ≡ some id
    → stored_id url (after_insertion ending row rows) ≡ some id
unfolding stored_id
after_stored absorbed url id row rows e h = h
after_stored violated url id row rows e h = h
after_stored inserted url id row rows e h = elim (Bool-cases (row.source_url == url)) [
  | inl same ↦ absurd (
      cc (
        sym h
        ∙ sym (ap (λ (u : Text). stored_id u rows) (==→eq row.source_url url same))
        ∙ insertion-inserted row rows e))
  | inr differs ↦ rw differs h
]

module _ (uuid4 : ℕ → ℕ) (url : Text) (id : ℕ) where
  IsUnsignalled-Frame : Frame uuid4 (IsUnsignalled uuid4 url id) (λ i _. i ≢ id) (λ i _. i ≢ id)
  IsUnsignalled-Frame = record {
    at_draw = λ w (stored, silent, fresh).
        ((stored, silent, λ n h. fresh n (omega arith)), fresh w.draws (omega arith));
    at_insert = λ row w (stored, silent, fresh) differs. (
      (after_stored (insertion row w.raw_news) url id row w.raw_news refl stored, silent, fresh),
      λ _. differs,
    );
    at_signal = λ i w (stored, silent, fresh) differs.
        (stored, elem-other id i w.inserted_signals differs silent, fresh);
    at_error = λ rows w p. p;
    at_completed = λ entries w p. p;
  }

  -- An article whose row was stored and not signalled stays so: no execution signals it, whatever its
  -- crawler finds and however its requests end, if no UUID is drawn twice.
  pub execute-IsUnsignalled :
      (title_hash : Text → Option Text) (detail : Exc → Text) (execution_id source_name : Text)
      (run : CrawlEnd) (e : Env Crawl)
      → IsUnsignalled uuid4 url id e.state
      → IsUnsignalled uuid4 url id
          (execute uuid4 title_hash detail execution_id source_name run e).1.state
  execute-IsUnsignalled title_hash detail execution_id source_name run e before =
      let after = execute uuid4 title_hash detail execution_id source_name run e in
      (ended (IsUnsignalled uuid4 url id) after.0 after.1 (
        (execute-Triple uuid4 title_hash (IsUnsignalled uuid4 url id) _ _ IsUnsignalled-Frame detail
            execution_id source_name run).run
          e before)).1
