-- ===== src/Ingestion/Crawling/Signals.antt =====
-- How an execution ends and what its signals stand for (crawl/crawl_service.py).
use wealthfinder.Prelude.{
  ℕ, ◌≡◌, ◌⊎◌, refl, Text, text_eq, true, Option, none, List, [], ◌∷◌, ◌==◌, nat_eq, elem, inl, inr,
  Bool-cases, Option-cases, ==→eq, subst, ap,
}
use wealthfinder.Prelude.Result.{Exc, cancelled, Result, ok, raise}
use wealthfinder.Prelude.Action.{Env}
use wealthfinder.Prelude.Action.Triple.{Ends}
use wealthfinder.Ingestion.Crawling.{
  CrawlEnd, RawRow, Crawl, Insertion, inserted, absorbed, violated, stored_id, insertion,
  after_insertion, execute,
}
use wealthfinder.Ingestion.Crawling.Frame.{Frame, execute-Triple}

abbrev pub IsStored : ℕ → List RawRow → Type 0
IsStored i [] = ⊥
IsStored i (row ∷ rows) = (row.raw_id ≡ i) ⊎ IsStored i rows

-- no two rows have the same URL
abbrev pub HaveOwnUrls : List RawRow → Type 0
HaveOwnUrls [] = Unit
HaveOwnUrls (row ∷ rows) = (stored_id row.source_url rows ≡ none) × HaveOwnUrls rows

-- Every signalled id is that of a row, and no two rows have the same URL.
abbrev pub IsSound : Crawl → Type 0
IsSound w =
    ((i : ℕ) → elem i w.inserted_signals ≡ true → IsStored i w.raw_news) × HaveOwnUrls w.raw_news

pub insertion-inserted :
    (row : RawRow) (rows : List RawRow)
    → insertion row rows ≡ inserted
    → stored_id row.source_url rows ≡ none
unfolding insertion
insertion-inserted row rows h = elim (Option-cases (stored_id row.source_url rows)) [
  | inl fresh ↦ fresh
  | inr (id, there) ↦ absurd (cc (rw there at h))
]

after-HaveOwnUrls :
    (ending : Insertion) (row : RawRow) (rows : List RawRow)
    → insertion row rows ≡ ending
    → HaveOwnUrls rows
    → HaveOwnUrls (after_insertion ending row rows)
after-HaveOwnUrls inserted row rows e h = (insertion-inserted row rows e, h)
after-HaveOwnUrls absorbed row rows e h = h
after-HaveOwnUrls violated row rows e h = h

after-IsStored :
    (ending : Insertion) (i : ℕ) (row : RawRow) (rows : List RawRow)
    → IsStored i rows
    → IsStored i (after_insertion ending row rows)
after-IsStored inserted i row rows h = inr h
after-IsStored absorbed i row rows h = h
after-IsStored violated i row rows h = h

new-IsStored :
    (ending : Insertion) (row : RawRow) (rows : List RawRow)
    → ending ≡ inserted
    → IsStored row.raw_id (after_insertion ending row rows)
new-IsStored inserted row rows e = inl refl
new-IsStored absorbed row rows e = absurd (cc e)
new-IsStored violated row rows e = absurd (cc e)

elem-cases : (i j : ℕ) (xs : List ℕ) → elem i (j ∷ xs) ≡ true → (j ≡ i) ⊎ (elem i xs ≡ true)
unfolding elem
elem-cases i j xs h = elim (Bool-cases (j == i)) [
  | inl same ↦ inl (==→eq j i same)
  | inr differs ↦ inr (rw differs at h)
]

IsSound-Frame :
    (uuid4 : ℕ → ℕ) → Frame uuid4 IsSound (λ _ _. Unit {0}) (λ i w. IsStored i w.raw_news)
IsSound-Frame uuid4 = record {
  at_draw = λ w p. (p, tt);
  at_insert = λ row w p _. (
    (
      λ i h. after-IsStored (insertion row w.raw_news) i row w.raw_news (p.0 i h),
      after-HaveOwnUrls (insertion row w.raw_news) row w.raw_news refl p.1,
    ),
    new-IsStored (insertion row w.raw_news) row w.raw_news,
  );
  at_signal = λ i w p stored. (
    λ j h. elim (elem-cases j i w.inserted_signals h) [
      | inl own ↦ subst (λ (k : ℕ). IsStored k w.raw_news) own stored
      | inr before ↦ p.0 j before
    ],
    p.1,
  );
  at_error = λ rows w p. p;
  at_completed = λ entries w p. p;
}

pub ended :
    (P : Crawl → Type 0) (r : Result (Unit {0})) (e : Env Crawl)
    → Ends (λ _. P) (λ x w. (x ≡ cancelled) × P w) (r, e)
    → ((r ≡ ok tt) ⊎ (r ≡ raise cancelled)) × P e.state
ended P (ok tt) e h = (inl refl, h)
ended P (raise x) e h = (inr (ap raise h.0), h.1)

-- However its crawler and its requests end, an execution returns or is cancelled, and raises nothing
-- else; every id that is signalled as inserted is that of a row of raw_news, and no two rows have the
-- same URL, if this held before.
pub execute_outcome :
    (uuid4 : ℕ → ℕ) (title_hash : Text → Option Text) (detail : Exc → Text)
    (execution_id source_name : Text) (run : CrawlEnd) (e : Env Crawl)
    → IsSound e.state
    → let after = execute uuid4 title_hash detail execution_id source_name run e in
      ((after.0 ≡ ok tt) ⊎ (after.0 ≡ raise cancelled)) × IsSound after.1.state
execute_outcome uuid4 title_hash detail execution_id source_name run e sound =
    let after = execute uuid4 title_hash detail execution_id source_name run e in
    ended IsSound after.0 after.1 (
      (execute-Triple uuid4 title_hash IsSound _ _ (IsSound-Frame uuid4) detail execution_id
          source_name run).run
        e sound)
