-- ===== src/Runner/Reporter/Histogram/Tail.antt =====
-- runner/reporter.go, `Histogram`: where the latencies above the last mark are counted.
use ghz.Prelude.{
  ℕ, zero, suc, ◌-◌, ◌<◌, ◌≡◌, refl, false, List, [], ◌∷◌, some, arith, length, get_or,
}
use ghz.Prelude.Float.{Float64}
use ghz.Runner.Reporter.Histogram.{increment, fill}

-- `counts[i]++`, `n` times.
abbrev pub increments : ℕ → ℕ → List ℕ → List ℕ
increments zero i counts = counts
increments (suc n) i counts = increments n i (increment i counts)

module _ {F : Type 0} (f : Float64 F) where
  abbrev pub AllAbove : F → List F → Type 0
  AllAbove mark [] = Unit {0}
  AllAbove mark (l ∷ lats) = (f.le l mark ≡ false) × AllAbove mark lats

  -- Once the loop has reached the last bucket, latencies that are all above its mark are each counted in
  -- the bucket before it, given more rounds than latencies.
  fill-above :
      (fuel : ℕ) (buckets : List F) (lats : List F) (counts : List ℕ)
      → length lats < fuel
      → AllAbove (get_or buckets (length buckets - 1) (f.of_uint64 0)) lats
      → fill f fuel buckets (length buckets - 1) lats counts
        ≡ some (increments (length lats) (length buckets - 1 - 1) counts)
  unfolding fill
  fill-above zero buckets lats counts h a = absurd (omega arith)
  fill-above (suc fuel) buckets [] counts h a = refl
  fill-above (suc fuel) buckets (l ∷ lats) counts h a = ground (
    arith,
    fill-above fuel buckets lats (increment (length buckets - 1 - 1) counts) (omega arith) a.1,
  )
