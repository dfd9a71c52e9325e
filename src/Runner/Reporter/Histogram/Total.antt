-- ===== src/Runner/Reporter/Histogram/Total.antt =====
-- runner/reporter.go, `Histogram`: the loop ends, and every latency is counted once.
use ghz.Prelude.{
  ℕ, zero, suc, ◌+◌, ◌-◌, ◌≤◌, ◌<◌, ◌≡◌, refl, ◌∙◌, sym, inl, inr, List, [], ◌∷◌, some, arith,
  Bool-cases, ltb, ltb→lt, length, length-set, get_or, replicate,
}
use ghz.Prelude.Float.{Float64}
use ghz.Runner.Reporter.Histogram.{
  Bucket, bc, marks, increment, fill, to_buckets, graph_slowest, histogram,
}

abbrev pub total : List ℕ → ℕ
total [] = 0
total (n ∷ ns) = n + total ns

total-increment :
    (i : ℕ) (counts : List ℕ) → i < length counts → total (increment i counts) ≡ total counts + 1
total-increment i [] h = elim h [ ]
total-increment zero (n ∷ ns) h = omega arith
total-increment (suc i) (n ∷ ns) h = omega (arith, total-increment i ns (omega arith))

length-increment : (i : ℕ) (counts : List ℕ) → length (increment i counts) ≡ length counts
length-increment i counts = length-set counts i (get_or counts i 0 + 1)

total-replicate : (n : ℕ) → total (replicate n 0) ≡ 0
total-replicate zero = refl
total-replicate (suc n) = omega (arith, total-replicate n)

module _ {F : Type 0} (f : Float64 F) where
  -- Enough fuel: the rounds still to come.
  fill_lem :
      (fuel : ℕ) (buckets : List F) (bi : ℕ) (lats : List F) (counts : List ℕ)
      → 0 < length buckets
      → length counts ≡ length buckets
      → bi < length buckets
      → length lats + length buckets ≤ fuel + bi
      → (filled : List ℕ) × (fill f fuel buckets bi lats counts ≡ some filled)
        × (total filled ≡ total counts + length lats)
        × (length filled ≡ length buckets)
  unfolding fill
  fill_lem zero buckets bi lats counts p e b h = absurd (omega arith)
  fill_lem (suc fuel) buckets bi [] counts p e b h = (counts, refl, omega arith, e)
  fill_lem (suc fuel) buckets bi (l ∷ lats) counts p e b h =
      elim (Bool-cases (f.le l (get_or buckets bi (f.of_uint64 0)))) [
        | inl i ↦
            let (filled, made, sum, len) =
              fill_lem fuel buckets bi lats (increment bi counts) p (length-increment bi counts ∙ e)
                b (omega arith) in
            (filled, rw i made, omega (arith, sum, total-increment bi counts (omega arith)), len)
        | inr o ↦ elim (Bool-cases (ltb bi (length buckets - 1))) [
          | inl m ↦
              let (filled, made, sum, len) =
                fill_lem fuel buckets (bi + 1) (l ∷ lats) counts p e
                  (omega (arith, ltb→lt bi (length buckets - 1) m)) (omega arith) in
              (filled, rw (o, m) made, sum, len)
          | inr z ↦
              let (filled, made, sum, len) =
                fill_lem fuel buckets bi lats (increment (bi - 1) counts) p
                  (length-increment (bi - 1) counts ∙ e) b (omega arith) in
              (
                filled,
                rw (o, z) made,
                omega (arith, sum, total-increment (bi - 1) counts (omega arith)),
                len,
              )
        ]
      ]

  abbrev pub bucket_total : List (Bucket F) → ℕ
  bucket_total [] = 0
  bucket_total (b ∷ bs) = b.count + bucket_total bs

  to_buckets-total :
      (n : ℕ) (ms : List F) (counts : List ℕ)
      → length ms ≡ length counts
      → (bucket_total (to_buckets f n ms counts) ≡ total counts)
        × (length (to_buckets f n ms counts) ≡ length counts)
  unfolding to_buckets
  to_buckets-total n [] [] h = (refl, refl)
  to_buckets-total n [] (c ∷ cs) h = absurd (omega arith)
  to_buckets-total n (m ∷ ms) [] h = absurd (omega arith)
  to_buckets-total n (m ∷ ms) (c ∷ cs) h =
      let (sum, len) = to_buckets-total n ms cs (omega arith) in
      (omega (arith, sum), omega (arith, len))

  -- `Histogram` ends for every list of latencies, whatever their order and the marks are: it gives ten
  -- buckets, whose counts add up to the number of latencies.
  pub histogram-total :
      (lats : List F) (slowest fastest tail : F)
      → (bs : List (Bucket F)) × (histogram f lats slowest fastest tail ≡ some bs)
        × (length bs ≡ bc)
        × (bucket_total bs ≡ length lats)
  unfolding histogram
  histogram-total lats slowest fastest tail =
      let buckets : List F = marks f (graph_slowest f lats slowest tail) fastest in
      let (filled, made, sum, len) =
        fill_lem (length lats + bc) buckets 0 lats (replicate bc 0) (omega arith) refl (omega arith)
          (omega arith) in
      let (all, ten) = to_buckets-total (length lats) buckets filled (sym len) in
      (
        to_buckets f (length lats) buckets filled,
        rw (histogram, made),
        ten ∙ len,
        all ∙ sum ∙ omega arith,
      )
