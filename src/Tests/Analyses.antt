-- ===== src/Tests/Analyses.antt =====
-- Tests of the theorems on the entity analysis and on the health endpoint.
use wealthfinder.Prelude.{ℕ, ◌+◌, ◌≡◌, ◌↔◌, some, List, [], ◌∷◌, text_eq}
use wealthfinder.Prelude.Result.{Result}
use wealthfinder.Models.{Stock, AnalysisOutcome}
use wealthfinder.Models.EventType.{codes}
use wealthfinder.EntityAnalysis.{CleanedArticle, Analysis, analyse}
use wealthfinder.EntityAnalysis.Announced.{Settled, analyse-Settled}
use wealthfinder.EntityAnalysis.Routing.{route}
use wealthfinder.EntityAnalysis.Routing.Kept.{route-released}
use wealthfinder.RedisStream.Messages.{Message, reclaimed}
use wealthfinder.Prelude.{nat_eq, elem}
use wealthfinder.Health.{healthy, degraded, unhealthy, ready, LayerTasks, running, done, returned}
use wealthfinder.Health.Overall.{AllUp, AllRunning, report, report_iff}
use wealthfinder.Tests.Data.{Float, entity_at, tencent}

abbrev article : CleanedArticle
article = record {
  cleaned_id = 7;
  source_url = codes "http://a/b";
  source_name = codes "HKEX";
  published_at = some 5;
}

abbrev later : ℕ → ℕ
later n = n + 50

abbrev run_skill : CleanedArticle → Result (List (Stock × AnalysisOutcome Float))
run_skill a = Result.ok ((tencent, (entity_at 1 1).analysis_outcome.output) ∷ [])

abbrev before : Analysis Float
before = record {
  articles = λ id. some article;
  entity_events = [];
  announced = [];
  acked = [];
  dead_letters = [];
  processing_cleaned_ids = 3 ∷ [];
  rate_limit_until = 0;
  draws = 0;
}

analyse-Settled_example :
    Settled later later
      (codes "v1.0.0")
      run_skill
      []
      7
      9
      1000
      60
      (analyse later later
        (codes "v1.0.0")
        run_skill
        1000
        60
        7
        9
        (record { state = before; outcomes = [] })).1.state
analyse-Settled_example =
    analyse-Settled later later (codes "v1.0.0") run_skill 1000 60 7 9
      (record { state = before; outcomes = [] })

abbrev tasks : LayerTasks
tasks = record { entity_analysis = running; aggregation = running; scoring = done; cache = running }

report_iff_example :
    ((report returned returned returned ready tasks ≡ healthy)
      ↔ (AllUp returned returned returned ready × AllRunning tasks))
    × ((report returned returned returned ready tasks ≡ degraded)
        ↔ (AllUp returned returned returned ready × (¬ AllRunning tasks)))
    × ((report returned returned returned ready tasks ≡ unhealthy)
        ↔ (¬ AllUp returned returned returned ready))
report_iff_example = report_iff returned returned returned ready tasks

abbrev article_message : Message
article_message =
    reclaimed
      (record { id = 9; fields = (codes "v", codes "1") ∷ (codes "cleaned_id", codes "7") ∷ [] }) 1

route-released_example :
    elem {A = ℕ} 3
      (route later later
        (codes "v1.0.0")
        run_skill
        1000
        60
        2
        5
        20
        (λ text. some 7)
        article_message
        (record { state = before; outcomes = [] })).1.state.processing_cleaned_ids
    ≡ elem {A = ℕ} 3 (3 ∷ [])
route-released_example =
    route-released later later (codes "v1.0.0") run_skill 1000 60 2 5 20 (λ text. some 7)
      article_message 3 (record { state = before; outcomes = [] })
