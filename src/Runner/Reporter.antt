-- ===== src/Runner/Reporter.antt =====
-- runner/reporter.go: `newReporter`, the loops of `Run`, `Latencies` and `Histogram`.
-- A result's error is the text of `err.Error()`. `intn` stands for the random generator: what
-- `rng.Intn` answers when the total count is its argument, which it is at most once. The capacity of a
-- slice is not modelled.
pub mod Counts
pub mod Histogram
pub mod Finalize
use ghz.Prelude.{
  ℕ, zero, suc, ◌+◌, ◌-◌, ◌%◌, Bool, true, false, List, [], ◌∷◌, ◌++◌, Option, none, some, ltb, leb,
  ◌==◌, if◌then◌else◌, length, set, replicate,
}
use ghz.Prelude.Int.{ℤ, pos, ltb_ℤ, leb_ℤ, pos_part}
use ghz.Prelude.Float.{Float64, seconds}
use ghz.Prelude.Text.{Str, str_eq}

pub record CallResult : Type 0 where
  pub error : Option Str
  pub status : Str
  pub duration : ℤ
  pub timestamp : ℤ

pub record SampledResult : Type 0 where
  pub error : Option Str
  pub status : Str
  pub duration : ℤ
  pub timestamp : ℤ
  pub request_payload : Str
  pub response_payload : Str

pub record ResultDetail : Type 0 where
  pub timestamp : ℤ
  pub latency : ℤ
  pub error : Str
  pub status : Str
  pub request_payload : Str
  pub response_payload : Str

abbrev pub no_detail : ResultDetail
no_detail = record {
  timestamp = pos 0;
  latency = pos 0;
  error = [];
  status = [];
  request_payload = [];
  response_payload = [];
}

-- A Go map from texts to counts.
abbrev pub Tally : Type 0
Tally = List (Str × ℕ)

-- `m[k]++`.
unfoldable pub tally : Str → Tally → Tally
tally k [] = (k, 1) ∷ []
tally k ((j, n) ∷ m) = if str_eq j k then (j, n + 1) ∷ m else (j, n) ∷ tally k m

pub record Reporter (F : Type 0) : Type 0 where
  pub total_count : ℕ
  pub total_latencies_sec : F
  pub max_results : ℕ
  pub details : List ResultDetail
  pub sampled_details : List ResultDetail
  pub last_n_details : List ResultDetail
  pub last_n_index : ℕ
  pub error_dist : Tally
  pub status_code_dist : Tally

abbrev pub last_n : ℕ
last_n = 10000

-- `newReporter`; a `maxResults` that is not positive stands for the default.
unfoldable pub new_reporter : {F : Type 0} → F → ℤ → Reporter F
new_reporter nought max_results = record {
  total_count = 0;
  total_latencies_sec = nought;
  max_results = if leb_ℤ max_results (pos 0) then 100_000_000 else pos_part max_results;
  details = [];
  sampled_details = [];
  last_n_details = replicate last_n no_detail;
  last_n_index = 0;
  error_dist = [];
  status_code_dist = [];
}

abbrev pub error_text : Option Str → Str
error_text none = []
error_text (some e) = e

abbrev pub detail_of : CallResult → ResultDetail
detail_of res = record {
  timestamp = res.timestamp;
  latency = res.duration;
  error = error_text res.error;
  status = res.status;
  request_payload = [];
  response_payload = [];
}

abbrev pub tally_error : Option Str → Tally → Tally
tally_error none m = m
tally_error (some e) m = tally e m

-- Algorithm R: the details are full, and `j` is the number drawn.
abbrev pub reservoir : ℕ → ℕ → ResultDetail → List ResultDetail → List ResultDetail
reservoir max j d details = if ltb j max then set details j d else details

module _ {F : Type 0} (f : Float64 F) (intn : ℕ → ℕ) where
  -- One round of the loop over the results, after the skipped ones.
  unfoldable pub on_result : CallResult → Reporter F → Reporter F
  on_result res r =
      let count = r.total_count + 1 in
      let detail = detail_of res in
      record r {
        total_count = count;
        total_latencies_sec = f.add r.total_latencies_sec (seconds ⦃f = f⦄ res.duration);
        status_code_dist = tally res.status r.status_code_dist;
        error_dist = tally_error res.error r.error_dist;
        details =
            if ltb (length r.details) r.max_results
            then r.details ++ detail ∷ []
            else reservoir r.max_results (intn count) detail r.details;
        last_n_details = set r.last_n_details r.last_n_index detail;
        last_n_index = (r.last_n_index + 1) % last_n;
      }

  -- The loop over the results; the count is `skipCount`.
  unfoldable pub run_results : ℤ → ℕ → List CallResult → Reporter F → Reporter F
  run_results skip_first skipped [] r = r
  run_results skip_first skipped (res ∷ results) r =
      let kept = run_results skip_first skipped results (on_result res r) in
      let next = run_results skip_first (skipped + 1) results r in
      if ltb_ℤ (pos skipped) skip_first then next else kept

abbrev pub sampled_detail : SampledResult → ResultDetail
sampled_detail res = record {
  timestamp = res.timestamp;
  latency = res.duration;
  error = error_text res.error;
  status = res.status;
  request_payload = res.request_payload;
  response_payload = res.response_payload;
}

-- The loop of the goroutine over the sampled results.
unfoldable pub run_sampled : {F : Type 0} → List SampledResult → Reporter F → Reporter F
run_sampled [] r = r
run_sampled (res ∷ results) r =
    run_sampled results
      (record r { sampled_details = r.sampled_details ++ sampled_detail res ∷ [] })
