-- ===== src/Runner/Reporter/Finalize/Totals.antt =====
-- runner/reporter.go, `Finalize`: the numbers of the report add up.
use ghz.Prelude.{
  ℕ, ◌+◌, ◌≤◌, ◌<◌, ◌≡◌, refl, sym, ◌∙◌, subst, Bool, true, List, [], ◌∷◌, Option, some, arith, ltb,
  lt→ltb, ◌||◌, if◌then◌else◌, length, get_elem?-some,
}
use ghz.Prelude.Int.{ℤ}
use ghz.Prelude.Float.{Float64}
use ghz.Prelude.Text.{Str, is_empty}
use ghz.Runner.Config.{RunConfig}
use ghz.Runner.Reporter.{ResultDetail, Reporter}
use ghz.Runner.Reporter.Histogram.{LatencyDistribution, pctls, entry, rank, latencies, latencies_at}
use ghz.Runner.Reporter.Histogram.Total.{bucket_total, histogram-total}
use ghz.Runner.Reporter.Finalize.{
  Report, ok_latencies, as_duration, tail_percentile, last_of, with_latencies, blank, with_details,
  finalize,
}

-- The number of details that the histogram counts.
abbrev pub ok_count : Bool → List ResultDetail → ℕ
ok_count count_errors [] = 0
ok_count count_errors (d ∷ ds) =
    (if is_empty d.error || count_errors then 1 else 0) + ok_count count_errors ds

module _ {F : Type 0} (f : Float64 F) where
  length-ok_latencies :
      (e : Bool) (ds : List ResultDetail) → length (ok_latencies f e ds) ≡ ok_count e ds
  unfolding ok_latencies
  length-ok_latencies e [] = refl
  length-ok_latencies e (d ∷ ds) = ground (arith, length-ok_latencies e ds)

ok_count-le : (e : Bool) (ds : List ResultDetail) → ok_count e ds ≤ length ds
ok_count-le e [] = omega arith
ok_count-le e (d ∷ ds) = ground (arith, ok_count-le e ds)

-- The report counts `n` latencies in its histogram, and has the count and the details given.
pub record AddsUp {H F : Type 0} (f : Float64 F) (n k : ℕ) (ds : List ResultDetail)
    (rep : Report H F) : Type 0 where
  pub counted : bucket_total f rep.histogram ≡ n
  pub same_count : rep.count ≡ k
  pub same_details : rep.details ≡ ds

module _ {F : Type 0} (f : Float64 F) where
  -- Each percentile's index is in the list.
  abbrev pub InRange : ℕ → List F → Type 0
  InRange n [] = Unit {0}
  InRange n (p ∷ ps) = (rank f p n < n) × InRange n ps

  latencies_at-made :
      (xs ps : List F)
      → InRange (length xs) ps
      → (ls : List (LatencyDistribution F)) × (latencies_at f xs ps ≡ some ls)
  unfolding latencies_at
  latencies_at-made xs [] h = ([], refl)
  latencies_at-made xs (p ∷ ps) h =
      let (v, got) = get_elem?-some xs (rank f p (length xs)) h.0 in
      let (ls, made) = latencies_at-made xs ps h.1 in
      (entry f p v ∷ ls, rw (latencies_at, got, made))

module _ {H F : Type 0} (f : Float64 F) where
  with_latencies-AddsUp :
      (xs : List F) (include : Bool) (rep : Report H F)
      → 0 < length xs
      → InRange f (length xs) (pctls f include)
      → (out : Report H F) × (with_latencies f xs include rep ≡ some out)
        × AddsUp f (length xs) rep.count rep.details out
  unfolding with_latencies latencies
  with_latencies-AddsUp [] include rep z h = absurd (omega arith)
  with_latencies-AddsUp (x ∷ xs) include rep z h =
      let (ls, e) = latencies_at-made f (x ∷ xs) (pctls f include) h in
      let (bs, made, ten, sum) =
        histogram-total f (x ∷ xs) (last_of f x xs) x (tail_percentile f ls (last_of f x xs)) in
      let out : Report H F = record rep {
        fastest = as_duration f x;
        slowest = as_duration f (last_of f x xs);
        latency_distribution = ls;
        histogram = bs;
      } in
      (
        out,
        rw (with_latencies, latencies, e, made),
        record { counted = sum; same_count = refl; same_details = refl },
      )

module _ {H F : Type 0} (f : Float64 F) (sort : List F → List F) (value_of : Str → Option H)
    (map_of : Str → Option (List (Str × Str))) (c : RunConfig H F) (r : Reporter F) where
  -- The report of a run with at least one latency to count: `Finalize` gives it, its histogram's buckets
  -- add up to the stored details without an error (to all of them, if errors count), and its count and
  -- details are the reporter's. `sort` keeps the length, and the floats put each percentile in range.
  pub finalize-AddsUp :
      (stop_reason : Str) (total date : ℤ)
      → ((xs : List F) → length (sort xs) ≡ length xs)
      → 0 < ok_count c.count_errors r.details
      → InRange f (ok_count c.count_errors r.details) (pctls f c.p99_9)
      → (rep : Report H F) × (finalize f sort value_of map_of c r stop_reason total date ≡ some rep)
        × AddsUp f (ok_count c.count_errors r.details) r.total_count r.details rep
  unfolding finalize with_details blank
  finalize-AddsUp stop_reason total date keeps some_ok h =
      let oks : List F = ok_latencies f c.count_errors r.details in
      let all : length (sort oks) ≡ ok_count c.count_errors r.details =
        keeps oks ∙ length-ok_latencies f c.count_errors r.details in
      let range : InRange f (length (sort oks)) (pctls f c.p99_9) =
        subst (λ n. InRange f n (pctls f c.p99_9)) (sym all) h in
      let (rep, made, sums) =
        with_latencies-AddsUp f (sort oks) c.p99_9
          (with_details f sort value_of map_of c r stop_reason total date) (omega (arith, all))
          range in
      let any : ltb 0 (length r.details) ≡ true =
        lt→ltb 0 (length r.details) (omega (arith, ok_count-le c.count_errors r.details)) in
      (rep, rw any made, rw all at sums)
