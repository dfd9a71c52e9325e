-- ===== src/Runner/Reporter/Counts.antt =====
-- runner/reporter.go, `Run`: what the counts and the stored results say of the results received.
pub mod Statuses
use ghz.Prelude.{
  ℕ, zero, suc, ◌+◌, ◌%◌, ◌≤◌, ◌<◌, ◌≡◌, refl, ap, ◌∙◌, sym, inl, inr, List, [], ◌∷◌, ◌++◌, arith,
  Bool-cases, ltb, if◌then◌else◌, length, length-append, length-set, length-replicate, set, drop,
  map, min,
}
use native.Mathlib.Nat.{add-zero}
use mathlib.Core.List.{append_assoc, append-nil}
use ghz.Prelude.Int.{ℤ, pos, leb_ℤ, pos_part}
use ghz.Prelude.Float.{Float64}
use ghz.Prelude.Text.{Str, str_eq, str_eq-same}
use ghz.Runner.Reporter.{
  CallResult, ResultDetail, Tally, tally, Reporter, last_n, new_reporter, detail_of, on_result,
  run_results, no_detail,
}

abbrev pub tally_sum : Tally → ℕ
tally_sum [] = 0
tally_sum ((k, n) ∷ m) = n + tally_sum m

tally_sum-tally : (k : Str) (m : Tally) → tally_sum (tally k m) ≡ tally_sum m + 1
unfolding tally
tally_sum-tally k [] = omega arith
tally_sum-tally k ((j, n) ∷ m) = ground (arith, tally_sum-tally k m)

abbrev pub All : (ResultDetail → Type 0) → List ResultDetail → Type 0
All P [] = Unit {0}
All P (d ∷ ds) = P d × All P ds

All-append :
    (P : ResultDetail → Type 0) (xs ys : List ResultDetail) → All P xs → All P ys → All P (xs ++ ys)
All-append P [] ys hx hy = hy
All-append P (x ∷ xs) ys hx hy = (hx.0, All-append P xs ys hx.1 hy)

All-set :
    (P : ResultDetail → Type 0) (xs : List ResultDetail) (i : ℕ) (d : ResultDetail)
    → All P xs
    → P d
    → All P (set xs i d)
All-set P [] i d h p = tt
All-set P (x ∷ xs) zero d h p = (p, h.1)
All-set P (x ∷ xs) (suc i) d h p = (h.0, All-set P xs i d h.1 p)

module _ {F : Type 0} (f : Float64 F) (intn : ℕ → ℕ) where
  run_all : List CallResult → Reporter F → Reporter F
  run_all [] r = r
  run_all (res ∷ results) r = run_all results (on_result f intn res r)

  keeps :
      (k skipped : ℕ) (res : CallResult) (results : List CallResult) (r : Reporter F)
      → k ≤ skipped
      → run_results f intn (pos k) skipped (res ∷ results) r
        ≡ run_results f intn (pos k) skipped results (on_result f intn res r)
  unfolding run_results
  keeps k skipped res results r h = ground arith

  skips :
      (k skipped : ℕ) (res : CallResult) (results : List CallResult) (r : Reporter F)
      → skipped < k
      → run_results f intn (pos k) skipped (res ∷ results) r
        ≡ run_results f intn (pos k) (skipped + 1) results r
  unfolding run_results
  skips k skipped res results r h = ground arith

  -- Skipping is dropping: the rest of the loop sees the results behind the first `SkipFirst`.
  run_results-drop :
      (k skipped : ℕ) (results : List CallResult) (r : Reporter F)
      → run_results f intn (pos (skipped + k)) skipped results r ≡ run_all (drop k results) r
  unfolding run_results run_all
  run_results-drop zero skipped [] r = refl
  run_results-drop (suc k) skipped [] r = refl
  run_results-drop zero skipped (res ∷ results) r =
      keeps (skipped + 0) skipped res results r (omega arith)
      ∙ run_results-drop zero skipped results (on_result f intn res r)
  run_results-drop (suc k) skipped (res ∷ results) r =
      let next : skipped + suc k ≡ skipped + 1 + k = omega arith in
      skips (skipped + suc k) skipped res results r (omega arith)
      ∙ rw next (run_results-drop k (skipped + 1) results r)

  -- What holds between two results; `n` results have been counted.
  pub record IsValid (n : ℕ) (r : Reporter F) : Type 0 where
    pub counted : r.total_count ≡ n
    pub statuses : tally_sum r.status_code_dist ≡ n
    pub stored : length r.details ≡ min n r.max_results
    pub ring : length r.last_n_details ≡ last_n
    pub ring_index : r.last_n_index ≡ n % last_n

  on_result-IsValid :
      {n : ℕ} {r : Reporter F} (res : CallResult)
      → IsValid n r
      → IsValid (suc n) (on_result f intn res r)
  unfolding on_result
  on_result-IsValid {n} {r} res v = record {
    counted = omega (arith, v.counted);
    statuses = tally_sum-tally res.status r.status_code_dist ∙ omega (arith, v.statuses);
    stored = ground (
      arith,
      length-append r.details (detail_of res ∷ []),
      length-set r.details (intn (r.total_count + 1)) (detail_of res),
      v.stored,
    );
    ring = length-set r.last_n_details r.last_n_index (detail_of res) ∙ v.ring;
    ring_index = omega (arith, v.ring_index);
  }

  run_all-IsValid :
      (results : List CallResult) {n : ℕ} {r : Reporter F}
      → IsValid n r
      → IsValid (n + length results) (run_all results r)
  unfolding run_all
  run_all-IsValid [] v = rw add-zero v
  run_all-IsValid (res ∷ results) {n} v =
      let next : n + suc (length results) ≡ suc n + length results = omega arith in
      rw next (run_all-IsValid results (on_result-IsValid res v))

  max_results-on_result :
      (res : CallResult) (r : Reporter F) → (on_result f intn res r).max_results ≡ r.max_results
  unfolding on_result
  max_results-on_result res r = refl

  max_results-run_all :
      (results : List CallResult) (r : Reporter F) → (run_all results r).max_results ≡ r.max_results
  unfolding run_all
  max_results-run_all [] r = refl
  max_results-run_all (res ∷ results) r =
      max_results-run_all results (on_result f intn res r) ∙ max_results-on_result res r

  stores :
      (res : CallResult) (r : Reporter F)
      → length r.details < r.max_results
      → (on_result f intn res r).details ≡ r.details ++ detail_of res ∷ []
  unfolding on_result
  stores res r h = ground arith

  -- While there is room every result is stored, in order.
  details-run_all :
      (results : List CallResult) (r : Reporter F)
      → length r.details + length results ≤ r.max_results
      → (run_all results r).details ≡ r.details ++ map detail_of results
  unfolding run_all
  details-run_all [] r h = sym (append-nil r.details)
  details-run_all (res ∷ results) r h =
      let stored : (on_result f intn res r).details ≡ r.details ++ detail_of res ∷ [] =
        stores res r (omega arith) in
      let more : length (r.details ++ detail_of res ∷ []) ≡ length r.details + 1 =
        length-append r.details (detail_of res ∷ []) in
      details-run_all results (on_result f intn res r)
        (rw (max_results-on_result res r) (omega (arith, ap length stored, more)))
      ∙ rw stored (append_assoc r.details (detail_of res ∷ []) (map detail_of results))

  All-on_result :
      (P : ResultDetail → Type 0) (res : CallResult) (r : Reporter F)
      → All P r.details
      → P (detail_of res)
      → All P (on_result f intn res r).details
  unfolding on_result
  All-on_result P res r h p = elim (Bool-cases (ltb (length r.details) r.max_results)) [
    | inl e ↦ rw e (All-append P r.details (detail_of res ∷ []) h (p, tt))
    | inr e ↦ elim (Bool-cases (ltb (intn (r.total_count + 1)) r.max_results)) [
      | inl i ↦ rw (e, i) (All-set P r.details (intn (r.total_count + 1)) (detail_of res) h p)
      | inr o ↦ rw (e, o) h
    ]
  ]

  -- The results that a stored detail may come from.
  All-details :
      (P : ResultDetail → Type 0) (results : List CallResult) (r : Reporter F)
      → All P r.details
      → All P (map detail_of results)
      → All P (run_all results r).details
  unfolding run_all
  All-details P [] r h k = h
  All-details P (res ∷ results) r h k =
      All-details P results (on_result f intn res r) (All-on_result P res r h k.0) k.1

new-IsValid :
    {F : Type 0} (f : Float64 F) (intn : ℕ → ℕ) (nought : F) (max : ℤ)
    → IsValid f intn 0 (new_reporter nought max)
unfolding new_reporter
new-IsValid f intn nought max = record {
  counted = refl;
  statuses = refl;
  stored = omega arith;
  ring = length-replicate last_n no_detail;
  ring_index = refl;
}

abbrev pub limit : ℤ → ℕ
limit max = if leb_ℤ max (pos 0) then 100_000_000 else pos_part max

module _ {F : Type 0} (f : Float64 F) (intn : ℕ → ℕ) (nought : F) (max : ℤ) (k : ℕ)
    (results : List CallResult) where
  -- The reporter after all results, `k` of them to be skipped.
  abbrev pub reported : Reporter F
  reported = run_results f intn (pos k) 0 results (new_reporter nought max)

  reported-drop : reported ≡ run_all f intn (drop k results) (new_reporter nought max)
  reported-drop =
      let start : 0 + k ≡ k = omega arith in
      rw start at (run_results-drop f intn k 0 results (new_reporter nought max))

  -- After a run the counts agree: `Count` is the number of results behind the skipped ones, the status
  -- distribution adds up to it, the details hold as many results as fit in `maxResults` (its default, if
  -- that is not positive), and the ring of the last results is whole, its index the count modulo 10000.
  pub run_results-IsValid :
      IsValid f intn (length (drop k results)) reported × (reported.max_results ≡ limit max)
  unfolding new_reporter
  run_results-IsValid =
      let counted : 0 + length (drop k results) ≡ length (drop k results) = omega arith in
      rw reported-drop (
        rw counted at (run_all-IsValid f intn (drop k results) (new-IsValid f intn nought max)),
        max_results-run_all f intn (drop k results) (new_reporter nought max),
      )

  -- When all results fit, the details are exactly the results behind the skipped ones, in order.
  run_results-details :
      length (drop k results) ≤ limit max → reported.details ≡ map detail_of (drop k results)
  unfolding new_reporter
  run_results-details h =
      rw reported-drop
        (details-run_all f intn (drop k results) (new_reporter nought max) (omega arith))

  -- Whatever the reservoir replaces, a property of all the counted results holds of every stored detail:
  -- skipped results leave no trace, and no detail is made up.
  pub run_results-All :
      (P : ResultDetail → Type 0) → All P (map detail_of (drop k results)) → All P reported.details
  unfolding new_reporter
  run_results-All P h =
      rw reported-drop (All-details f intn P (drop k results) (new_reporter nought max) tt h)
