-- ===== src/Examples/Reports.antt =====
-- runner/reporter.go: four results, the first of them skipped.
use ghz.Prelude.{ℕ, ◌≡◌, ◌≤◌, List, [], ◌∷◌, none, some, length}
use ghz.Prelude.Int.{pos, pos_part}
use ghz.Prelude.Float.{Fixed, fixed_float}
use ghz.Prelude.Text.{codes, str_eq}
use ghz.Runner.Reporter.{CallResult, ResultDetail}
use ghz.Runner.Reporter.Counts.{IsValid, limit, reported, run_results-IsValid}
use ghz.Runner.Reporter.Counts.Statuses.{count_of, run_results-statuses}
use ghz.Runner.Reporter.Histogram.{Bucket, histogram}
use ghz.Runner.Reporter.Histogram.Total.{bucket_total, histogram-total}

abbrev good : ℕ → CallResult
good t = record { error = none; status = codes "OK"; duration = pos 5; timestamp = pos t }

abbrev bad : ℕ → CallResult
bad t = record {
  error = some (codes "lost");
  status = codes "Unavailable";
  duration = pos 9;
  timestamp = pos t;
}

abbrev results : List CallResult
results = bad 1 ∷ good 2 ∷ bad 3 ∷ good 4 ∷ []

abbrev half : ℕ → ℕ
half n = 1

run_results-IsValid_example :
    IsValid fixed_float half 3 (reported fixed_float half 0 (pos 2) 1 results)
    × ((reported fixed_float half 0 (pos 2) 1 results).max_results ≡ limit (pos 2))
run_results-IsValid_example = run_results-IsValid fixed_float half 0 (pos 2) 1 results

-- A detail that is not from the first result.
abbrev Later : ResultDetail → Type 0
Later d = 2 ≤ pos_part d.timestamp

run_results-statuses_example :
    count_of (codes "OK") (reported fixed_float half 0 (pos 2) 1 results).status_code_dist ≡ 2
unfolding str_eq
run_results-statuses_example =
    run_results-statuses fixed_float half 0 (pos 2) 1 results (codes "OK")

histogram-total_example :
    (bs : List (Bucket Fixed)) × (histogram fixed_float (1 ∷ 2 ∷ 40 ∷ []) 40 1 40 ≡ some bs)
    × (length bs ≡ 10)
    × (bucket_total fixed_float bs ≡ 3)
histogram-total_example = histogram-total fixed_float (1 ∷ 2 ∷ 40 ∷ []) 40 1 40
