-- ===== src/Tests/Pages.antt =====
-- Tests of the fetch of pages: two failures before a page.
use wealthfinder.Prelude.{ℕ, zero, suc, ◌≡◌, ◌⊎◌, refl, Bool, not, ◌&&◌, leb, ltb, [], ◌∷◌}
use wealthfinder.Ingestion.Pages.{
  Answer, responded, request_error, response, rate_limited, blocked, after_failure, fetch,
}
use wealthfinder.Ingestion.Pages.Fetched.{Settles, Exhausts, fetch_outcome}

-- httpx refuses a response that is no success.
unfoldable refused : ℕ → Bool
refused status_code = not (leb 200 status_code && ltb status_code 300)

unfoldable get : ℕ → Answer
get (suc zero) = request_error
get (suc (suc zero)) = responded 503
get _ = responded 200

fetch_third : fetch refused 3 500 get ≡ record { end = response 200; waits = 500 ∷ 1000 ∷ [] }
unfolding fetch get refused after_failure
fetch_third = refl

fetch_exhausted : fetch refused 2 500 get ≡ record { end = blocked; waits = 500 ∷ [] }
unfolding fetch get refused after_failure
fetch_exhausted = refl

fetch_limited :
    fetch refused 3 500 (λ attempt. responded 429) ≡ record { end = rate_limited; waits = [] }
unfolding fetch refused
fetch_limited = refl

fetch_outcome_example :
    Settles refused 3 500 get 0 3 (fetch refused 3 500 get)
    ⊎ Exhausts refused 3 500 get 0 3 (fetch refused 3 500 get)
fetch_outcome_example = fetch_outcome refused 3 500 get
