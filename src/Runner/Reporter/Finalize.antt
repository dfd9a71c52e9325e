-- ===== src/Runner/Reporter/Finalize.antt =====
-- runner/reporter.go, `Finalize`. `sort` is `sort.Float64s`, `value_of` and `map_of` are what
-- `json.Unmarshal` gives for the data, and for the metadata and the tags (an error leaves nothing there).
-- `Aggs`, `RPS`, `P50`, `P95` and `P99` of a report are never set here, and are left out.
pub mod Totals
use ghz.Prelude.{
  ℕ, Bool, true, false, List, [], ◌∷◌, Option, none, some, ◌||◌, ltb, if◌then◌else◌, length,
}
use ghz.Prelude.Int.{ℤ, pos, to_int64}
use ghz.Prelude.Float.{Float64, seconds, nano}
use ghz.Prelude.Text.{Str, is_empty}
use ghz.Runner.Config.{RunConfig}
use ghz.Runner.Reporter.{ResultDetail, Tally, Reporter}
use ghz.Runner.Reporter.Histogram.{LatencyDistribution, Bucket, p99_9, latencies, histogram}

pub record Options (H F : Type 0) : Type 0 where
  pub call : Str
  pub host : Str
  pub proto : Str
  pub protoset : Str
  pub import_paths : List Str
  pub enable_compression : Bool
  pub cacert : Str
  pub cert : Str
  pub key : Str
  pub cname : Str
  pub skip_tls : Bool
  pub insecure : Bool
  pub authority : Str
  pub rps : ℤ
  pub load_schedule : Str
  pub load_start : ℤ
  pub load_end : ℤ
  pub load_step : ℤ
  pub load_step_duration : ℤ
  pub load_max_duration : ℤ
  pub concurrency : ℤ
  pub c_schedule : Str
  pub c_start : ℤ
  pub c_end : ℤ
  pub c_step : ℤ
  pub c_step_duration : ℤ
  pub c_max_duration : ℤ
  pub total : ℤ
  pub async : Bool
  pub connections : ℤ
  pub duration : ℤ
  pub timeout : ℤ
  pub dial_timeout : ℤ
  pub keepalive_time : ℤ
  pub binary : Bool
  pub cpus : ℤ
  pub name : Str
  pub skip_first : ℤ
  pub count_errors : Bool
  pub data_sampling_rate : F
  pub payload : Option H
  pub metadata : Option (List (Str × Str))

pub record Report (H F : Type 0) : Type 0 where
  pub name : Str
  pub end_reason : Str
  pub date : ℤ
  pub options : Options H F
  pub count : ℕ
  pub total : ℤ
  pub average : ℤ
  pub fastest : ℤ
  pub slowest : ℤ
  pub rps : F
  pub error_dist : Tally
  pub status_code_dist : Tally
  pub latency_distribution : List (LatencyDistribution F)
  pub histogram : List (Bucket F)
  pub details : List ResultDetail
  pub sample_details : List ResultDetail
  pub p99_9 : Bool
  pub tags : Option (List (Str × Str))

-- The latencies that the report counts: those of the details without an error, or of all.
module _ {F : Type 0} (f : Float64 F) where
  unfoldable pub ok_latencies : Bool → List ResultDetail → List F
  ok_latencies count_errors [] = []
  ok_latencies count_errors (d ∷ ds) =
      let rest = ok_latencies count_errors ds in
      if is_empty d.error || count_errors then seconds ⦃f = f⦄ d.latency ∷ rest else rest

  -- The latency of the first entry of a percentile.
  unfoldable pub latency_of : F → List (LatencyDistribution F) → Option ℤ
  latency_of p [] = none
  latency_of p (l ∷ ls) =
      let rest = latency_of p ls in if f.eq l.percentage p then some l.latency else rest

  -- 99.9 if it is there, or else 99, or else the slowest.
  unfoldable pub tail_percentile : List (LatencyDistribution F) → F → F
  unfolding latency_of
  tail_percentile ls slowest = elim (latency_of (p99_9 f) ls) [
    | some l ↦ seconds ⦃f = f⦄ l
    | none ↦ elim (latency_of (f.of_uint64 99) ls) [ some l ↦ seconds ⦃f = f⦄ l | none ↦ slowest ]
  ]

  abbrev pub last_of : F → List F → F
  last_of x [] = x
  last_of x (y ∷ ys) = last_of y ys

  abbrev pub as_duration : F → ℤ
  as_duration x = f.to_int64 (f.mul x (f.of_uint64 nano))

  module _ {H : Type 0} where
    -- The part of the report that the sorted latencies give; `none` is an index out of range.
    unfoldable pub with_latencies : List F → Bool → Report H F → Option (Report H F)
    unfolding tail_percentile
    with_latencies [] include rep = some rep
    with_latencies (x ∷ xs) include rep = elim (latencies f (x ∷ xs) include) [
      | none ↦ none
      | some ls ↦ elim (histogram f (x ∷ xs) (last_of x xs) x (tail_percentile ls (last_of x xs))) [
        | none ↦ none
        | some bs ↦ some (record rep {
          fastest = as_duration x;
          slowest = as_duration (last_of x xs);
          latency_distribution = ls;
          histogram = bs;
        })
      ]
    ]

    module _ (sort : List F → List F) (value_of : Str → Option H)
        (map_of : Str → Option (List (Str × Str))) where
      unfoldable pub report_options : RunConfig H F → Options H F
      report_options c = record {
        call = c.call;
        host = c.host;
        proto = c.proto;
        protoset = c.protoset;
        import_paths = c.import_paths;
        enable_compression = c.enable_compression;
        cacert = c.cacert;
        cert = c.cert;
        key = c.key;
        cname = c.cname;
        skip_tls = c.skip_verify;
        insecure = c.insecure;
        authority = c.authority;
        rps = c.rps;
        load_schedule = c.load_schedule;
        load_start = to_int64 c.load_start;
        load_end = to_int64 c.load_end;
        load_step = c.load_step;
        load_step_duration = c.load_step_duration;
        load_max_duration = c.load_duration;
        concurrency = c.c;
        c_schedule = c.c_schedule;
        c_start = to_int64 c.c_start;
        c_end = to_int64 c.c_end;
        c_step = c.c_step;
        c_step_duration = c.c_step_duration;
        c_max_duration = c.c_max_duration;
        total = c.n;
        async = c.async;
        connections = c.n_conns;
        duration = c.z;
        timeout = c.timeout;
        dial_timeout = c.dial_timeout;
        keepalive_time = c.keepalive_time;
        binary = c.binary;
        cpus = c.cpus;
        name = c.name;
        skip_first = c.skip_first;
        count_errors = c.count_errors;
        data_sampling_rate = c.data_sampling_rate;
        payload = value_of c.payload;
        metadata = map_of c.metadata;
      }

      -- The report of a run with no details.
      unfoldable pub blank : RunConfig H F → Reporter F → Str → ℤ → ℤ → Report H F
      unfolding report_options
      blank c r stop_reason total date = record {
        name = c.name;
        end_reason = stop_reason;
        date = date;
        options = report_options c;
        count = r.total_count;
        total = total;
        average = pos 0;
        fastest = pos 0;
        slowest = pos 0;
        rps = f.of_uint64 0;
        error_dist = r.error_dist;
        status_code_dist = r.status_code_dist;
        latency_distribution = [];
        histogram = [];
        details = [];
        sample_details = [];
        p99_9 = c.p99_9;
        tags = map_of c.tags;
      }

      -- The report of a run with details, but for what the latencies give.
      unfoldable pub with_details : RunConfig H F → Reporter F → Str → ℤ → ℤ → Report H F
      unfolding blank
      with_details c r stop_reason total date = record (blank c r stop_reason total date) {
        average = as_duration (f.div r.total_latencies_sec (f.of_uint64 r.total_count));
        rps = f.div (f.of_uint64 r.total_count) (seconds ⦃f = f⦄ total);
        details = r.details;
        sample_details = r.sampled_details;
      }

      unfoldable pub finalize : RunConfig H F → Reporter F → Str → ℤ → ℤ → Option (Report H F)
      unfolding ok_latencies
      finalize c r stop_reason total date =
          if ltb 0 (length r.details)
          then with_latencies (sort (ok_latencies c.count_errors r.details)) c.p99_9
              (with_details c r stop_reason total date)
          else some (blank c r stop_reason total date)
