-- ===== src/Tests/Crawls.antt =====
-- Tests of the theorems on crawl executions: an article whose signal Redis refuses.
use wealthfinder.Prelude.{
  ℕ, ◌+◌, ◌≡◌, ◌⊎◌, refl, none, some, Option, [], ◌∷◌, Text, text_eq, nat_eq, elem, arith, list_beq,
}
use wealthfinder.Prelude.Result.{Exc, unreachable, cancelled, ok, raise}
use wealthfinder.Prelude.Action.{Env, answered, refused, request}
use wealthfinder.Models.EventType.{codes}
use wealthfinder.Ingestion.Crawling.{
  CrawlEnd, finished, RawRow, Crawl, success, stored_id, execute, insertion,
}
use wealthfinder.Ingestion.Crawling.Signals.{IsSound, execute_outcome}
use wealthfinder.Ingestion.Crawling.Stuck.{IsUnsignalled, execute-IsUnsignalled}

abbrev title_hash : Text → Option Text
title_hash title = some title

abbrev detail : Exc → Text
detail x = codes "down"

abbrev uuid4 : ℕ → ℕ
uuid4 n = n + 50

abbrev url : Text
url = codes "u"

abbrev run : CrawlEnd
run = finished (record {
  successes =
      record { title = codes "t"; body = codes "b"; source_url = url; published_at = none } ∷ [];
  failures = [];
})

abbrev empty : Crawl
empty = record {
  raw_news = [];
  crawl_error_log = [];
  inserted_signals = [];
  completed = [];
  draws = 0;
}

-- the row is written, the signal is refused, and SUCCESS is published
abbrev unlucky : Env Crawl
unlucky = record { state = empty; outcomes = answered ∷ refused unreachable ∷ answered ∷ [] }

abbrev row : RawRow
row = record {
  raw_id = 50;
  source_name = codes "HKEX";
  source_url = url;
  title = codes "t";
  body = codes "b";
  published_at = none;
  raw_hash = codes "t";
}

abbrev stuck : Crawl
stuck = record {
  raw_news = row ∷ [];
  crawl_error_log = [];
  inserted_signals = [];
  completed = record { execution_id = codes "e"; status = success; error_detail = none } ∷ [];
  draws = 1;
}

unlucky_ends :
    (execute uuid4 title_hash detail (codes "e") (codes "HKEX") run unlucky).1.state ≡ stuck
unfolding execute request insertion
unlucky_ends = refl

execute_outcome_example :
    let after = execute uuid4 title_hash detail (codes "e") (codes "HKEX") run unlucky in
    ((after.0 ≡ ok tt) ⊎ (after.0 ≡ raise cancelled)) × IsSound after.1.state
execute_outcome_example =
    execute_outcome uuid4 title_hash detail (codes "e") (codes "HKEX") run unlucky
      (λ i h. absurd (unfold elem in cc h), tt)

execute-IsUnsignalled_example :
    IsUnsignalled uuid4
      (codes "u")
      50
      (execute uuid4 title_hash detail
        (codes "f")
        (codes "HKEX")
        run
        (record { state = stuck; outcomes = [] })).1.state
execute-IsUnsignalled_example =
    execute-IsUnsignalled uuid4 (codes "u") 50 title_hash detail (codes "f") (codes "HKEX") run
      (record { state = stuck; outcomes = [] })
      (unfold stored_id list_beq in refl, unfold elem in refl, λ n h e. omega arith)
