-- ===== src/Runner/Reporter/Histogram.antt =====
-- runner/reporter.go, `Latencies` and `Histogram`, over abstract floats. The text of the marks
-- (`fmt.Sprintf`) is not modelled. The histogram's loop takes fuel: it ends after at most one round for
-- each latency and one for each of the last nine buckets.
pub mod Total
pub mod Tail
use ghz.Prelude.{
  ℕ, zero, suc, ◌+◌, ◌-◌, Bool, true, false, List, [], ◌∷◌, ◌++◌, Option, none, some, ltb, leb,
  ◌==◌, if◌then◌else◌, length, get_or, get_elem?, set, replicate, map,
}
use ghz.Prelude.Int.{ℤ, pos}
use ghz.Prelude.Float.{Float64, nano}

pub record LatencyDistribution (F : Type 0) : Type 0 where
  pub percentage : F
  pub latency : ℤ

pub record Bucket (F : Type 0) : Type 0 where
  pub mark : F
  pub count : ℕ
  pub frequency : F

abbrev pub bc : ℕ
bc = 10

-- `counts[i]++`.
abbrev pub increment : ℕ → List ℕ → List ℕ
increment i counts = set counts i (get_or counts i 0 + 1)

module _ {F : Type 0} (f : Float64 F) where
  abbrev pub p99_9 : F
  p99_9 = f.div (f.of_uint64 999) (f.of_uint64 10)

  abbrev pub pctls : Bool → List F
  pctls include =
      map f.of_uint64 (10 ∷ 25 ∷ 50 ∷ 75 ∷ 90 ∷ 95 ∷ 99 ∷ [])
      ++ (if include then p99_9 ∷ [] else [])

  -- The index of the percentile `p` in a list of `n` latencies. `int(ip)` is not negative here, so the
  -- subtraction at 0 is the test `di < 0`.
  unfoldable pub rank : F → ℕ → ℕ
  rank p n =
      let ip = f.mul (f.div p (f.of_uint64 100)) (f.of_uint64 n) in
      let di = f.to_uint64 ip in if f.eq ip (f.of_uint64 di) then di - 1 else di

  -- One entry of `Latencies`: one that is not positive leaves the entry zero.
  abbrev pub entry : F → F → LatencyDistribution F
  entry p value =
      if f.lt (f.of_uint64 0) value
      then record { percentage = p; latency = f.to_int64 (f.mul value (f.of_uint64 nano)) }
      else record { percentage = f.of_uint64 0; latency = pos 0 }

  -- `none` is an index out of range.
  unfoldable pub latencies_at : List F → List F → Option (List (LatencyDistribution F))
  latencies_at lats [] = some []
  latencies_at lats (p ∷ ps) =
      let rest = latencies_at lats ps in
      elim (get_elem? lats (rank p (length lats))) [
        | none ↦ none
        | some value ↦ elim rest [ none ↦ none | some ds ↦ some (entry p value ∷ ds) ]
      ]

  unfoldable pub latencies : List F → Bool → Option (List (LatencyDistribution F))
  unfolding latencies_at
  latencies lats include = latencies_at lats (pctls include)

  -- The lower marks from `i` on, `n` of them; the last bucket's mark is `slowest`.
  abbrev pub marks_from : F → F → ℕ → ℕ → List F
  marks_from fastest bs i zero = []
  marks_from fastest bs i (suc n) =
      f.add fastest (f.mul bs (f.of_uint64 i)) ∷ marks_from fastest bs (i + 1) n

  abbrev pub marks : F → F → List F
  marks slowest fastest =
      set (marks_from fastest (f.div (f.sub slowest fastest) (f.of_uint64 bc)) 0 bc) (bc - 1)
        slowest

  -- The loop that counts: `bi` is the bucket, the latencies are those from `i` on.
  unfoldable pub fill : ℕ → List F → ℕ → List F → List ℕ → Option (List ℕ)
  fill zero buckets bi lats counts = none
  fill (suc fuel) buckets bi [] counts = some counts
  fill (suc fuel) buckets bi (l ∷ lats) counts =
      let inside = fill fuel buckets bi lats (increment bi counts) in
      let next = fill fuel buckets (bi + 1) (l ∷ lats) counts in
      let beyond = fill fuel buckets bi lats (increment (bi - 1) counts) in
      if f.le l (get_or buckets bi (f.of_uint64 0))
      then inside
      else if ltb bi (length buckets - 1)
      then next
      else beyond

  unfoldable pub to_buckets : ℕ → List F → List ℕ → List (Bucket F)
  to_buckets total (mark ∷ marks) (count ∷ counts) =
      record {
        mark = mark;
        count = count;
        frequency = f.div (f.of_uint64 count) (f.of_uint64 total);
      }
      ∷ to_buckets total marks counts
  to_buckets total _ _ = []

  -- With 100 latencies or more the graph ends at the tail percentile.
  unfoldable pub graph_slowest : List F → F → F → F
  graph_slowest lats slowest tail = if leb 100 (length lats) then tail else slowest

  unfoldable pub histogram : List F → F → F → F → Option (List (Bucket F))
  histogram lats slowest fastest tail =
      let buckets = marks (graph_slowest lats slowest tail) fastest in
      elim (fill (length lats + bc) buckets 0 lats (replicate bc 0)) [
        | none ↦ none
        | some counts ↦ some (to_buckets (length lats) buckets counts)
      ]
