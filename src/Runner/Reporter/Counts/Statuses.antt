-- ===== src/Runner/Reporter/Counts/Statuses.antt =====
-- runner/reporter.go, `Run`: the status distribution, status by status.
use ghz.Prelude.{ℕ, ◌+◌, ◌≡◌, ◌∙◌, List, [], ◌∷◌, arith, if◌then◌else◌, drop}
use ghz.Prelude.Int.{ℤ}
use ghz.Prelude.Float.{Float64}
use ghz.Prelude.Text.{Str, str_eq, str_eq-same}
use ghz.Runner.Reporter.{CallResult, Tally, tally, Reporter, new_reporter, on_result}
use ghz.Runner.Reporter.Counts.{run_all, reported, reported-drop}

-- The count of a key, and the number of results that have a status.
abbrev pub count_of : Str → Tally → ℕ
count_of k [] = 0
count_of k ((j, n) ∷ m) = (if str_eq j k then n else 0) + count_of k m

abbrev pub having : Str → List CallResult → ℕ
having s [] = 0
having s (res ∷ results) = (if str_eq res.status s then 1 else 0) + having s results

count_of-tally :
    (j k : Str) (m : Tally) → count_of k (tally j m) ≡ count_of k m + (if str_eq j k then 1 else 0)
unfolding tally
count_of-tally j k [] = ground arith
count_of-tally j k ((i, n) ∷ m) = ground (arith, count_of-tally j k m, str_eq-same i j k)

statuses-run_all :
    {F : Type 0} (f : Float64 F) (intn : ℕ → ℕ) (s : Str) (results : List CallResult)
    (r : Reporter F)
    → count_of s (run_all f intn results r).status_code_dist
      ≡ count_of s r.status_code_dist + having s results
unfolding run_all on_result
statuses-run_all f intn s [] r = omega arith
statuses-run_all f intn s (res ∷ results) r =
    statuses-run_all f intn s results (on_result f intn res r)
    ∙ omega (arith, count_of-tally res.status s r.status_code_dist)

module _ {F : Type 0} (f : Float64 F) (intn : ℕ → ℕ) (nought : F) (max : ℤ) (k : ℕ)
    (results : List CallResult) where
  -- The status distribution is right for every status: it counts the results that have it.
  pub run_results-statuses :
      (s : Str)
      → count_of s (reported f intn nought max k results).status_code_dist
        ≡ having s (drop k results)
  unfolding new_reporter
  run_results-statuses s =
      rw (reported-drop f intn nought max k results)
        (statuses-run_all f intn s (drop k results) (new_reporter nought max) ∙ omega arith)
