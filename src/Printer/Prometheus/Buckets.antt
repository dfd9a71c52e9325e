-- ===== src/Printer/Prometheus/Buckets.antt =====
-- printer/prometheus.go, the buckets of the histogram: their counts, and the cumulative ones.
use ghz.Prelude.{ℕ, ◌+◌, ◌≡◌, refl, ap, ◌∙◌, ◌↔◌, List, [], ◌∷◌, arith}
use ghz.Prelude.Float.{Float64}
use ghz.Runner.Reporter.Histogram.{Bucket}
use ghz.Printer.Prometheus.{PromBucket, prom_buckets}

module _ {F : Type 0} (f : Float64 F) where
  -- What Prometheus wants: the count of a bucket and of all before it; `n` are counted before the first.
  abbrev pub running : ℕ → List (Bucket F) → List (PromBucket F)
  running n [] = []
  running n (v ∷ vs) =
      record { cumulative_count = n + v.count; upper_bound = v.mark } ∷ running (n + v.count) vs

  abbrev pub OnlyLast : List (Bucket F) → Type 0
  OnlyLast [] = Unit {0}
  OnlyLast (v ∷ []) = Unit {0}
  OnlyLast (v ∷ u ∷ vs) = (v.count ≡ 0) × OnlyLast (u ∷ vs)

  OnlyLast-running : (vs : List (Bucket F)) → OnlyLast vs → prom_buckets f vs ≡ running 0 vs
  unfolding prom_buckets
  OnlyLast-running [] h = refl
  OnlyLast-running (v ∷ []) h = ground arith
  OnlyLast-running (v ∷ u ∷ vs) h = ground (arith, OnlyLast-running (u ∷ vs) h.1)

  second_count : List (PromBucket F) → ℕ
  second_count [] = 0
  second_count (v ∷ []) = 0
  second_count (v ∷ u ∷ vs) = u.cumulative_count

  tail : List (PromBucket F) → List (PromBucket F)
  tail [] = []
  tail (v ∷ vs) = vs

  running-OnlyLast : (vs : List (Bucket F)) → prom_buckets f vs ≡ running 0 vs → OnlyLast vs
  unfolding prom_buckets second_count tail
  running-OnlyLast [] h = tt
  running-OnlyLast (v ∷ []) h = tt
  running-OnlyLast (v ∷ u ∷ vs) h =
      let next : u.count ≡ v.count + u.count = ap second_count h ∙ omega arith in
      let empty : v.count ≡ 0 = omega (arith, next) in
      let rest : prom_buckets f (u ∷ vs) ≡ running (0 + v.count) (u ∷ vs) = ap tail h in
      let start : 0 + v.count ≡ 0 = omega (arith, empty) in
      (empty, running-OnlyLast (u ∷ vs) (rest ∙ ap (λ n. running n (u ∷ vs)) start))

  -- The buckets that are printed are the cumulative ones exactly if all buckets but the last are empty.
  prom_buckets-OnlyLast : (vs : List (Bucket F)) → (prom_buckets f vs ≡ running 0 vs) ↔ OnlyLast vs
  prom_buckets-OnlyLast vs = (running-OnlyLast vs, OnlyLast-running vs)
