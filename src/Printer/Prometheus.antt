-- ===== src/Printer/Prometheus.antt =====
-- printer/prometheus.go: the report as metrics. The encoder of the metrics, and how numbers are written, are
-- parameters. A map is an association list.
pub mod Labels
pub mod Buckets
use ghz.Prelude.{
  ℕ, ◌+◌, Bool, true, false, List, [], ◌∷◌, ◌++◌, Option, none, some, map, not, ◌==◌, if◌then◌else◌,
}
use ghz.Prelude.Int.{ℤ, pos, eq_ℤ}
use ghz.Prelude.Float.{Float64}
use ghz.Prelude.Text.{Str, codes, is_empty, str_eq}
use ghz.Runner.Reporter.Histogram.{Bucket, LatencyDistribution}
use ghz.Runner.Reporter.Finalize.{Options, Report}
use ghz.Printer.Influx.{error_count, flag, join}

-- A member of a JSON object.
pub data Member : Type 0 where
  text : Str → Member
  bool : Bool → Member
  number : Member

-- `json.Unmarshal` of an object into a map from texts to texts: it fails on a member that is no text.
unfoldable pub put_label : Str → Str → List (Str × Str) → List (Str × Str)
put_label k v [] = (k, v) ∷ []
put_label k v ((j, u) ∷ m) =
    let rest = put_label k v m in if str_eq j k then (k, v) ∷ m else (j, u) ∷ rest

unfoldable pub unmarshal_labels : List (Str × Member) → List (Str × Str) → Option (List (Str × Str))
unfolding put_label
unmarshal_labels [] m = some m
unmarshal_labels ((k, text v) ∷ ms) m = unmarshal_labels ms (put_label k v m)
unmarshal_labels ((k, bool b) ∷ ms) m = none
unmarshal_labels ((k, number) ∷ ms) m = none

-- `omitempty`.
abbrev pub text_member : Str → Str → List (Str × Member)
text_member k v = if is_empty v then [] else (k, text v) ∷ []

abbrev pub set_member : Str → Str → List (Str × Member)
set_member k v = (k, text v) ∷ []

abbrev pub bool_member : Str → Bool → List (Str × Member)
bool_member k b = if b then (k, bool true) ∷ [] else []

abbrev pub number_member : Str → Bool → List (Str × Member)
number_member k is_zero = if is_zero then [] else (k, number) ∷ []

abbrev pub underscored : Str → Str
underscored s = map (λ c. if c == 45 then 95 else c) s

abbrev pub has_key : List Str → Str → Bool
has_key [] j = false
has_key (k ∷ ks) j = if str_eq k j then true else has_key ks j

-- The labels but those with the given names.
unfoldable pub delete_all : List Str → List (Str × Str) → List (Str × Str)
delete_all ks [] = []
delete_all ks ((j, v) ∷ m) =
    let rest = delete_all ks m in if has_key ks j then rest else (j, v) ∷ rest

abbrev pub c_keys : List Str
c_keys =
    codes "concurrency-schedule"
    ∷ codes "concurrency-start"
    ∷ codes "concurrency-end"
    ∷ codes "concurrency-step"
    ∷ codes "concurrency-step-duration"
    ∷ codes "concurrency-max-duration"
    ∷ []

abbrev pub load_keys : List Str
load_keys =
    codes "load-schedule"
    ∷ codes "load-start"
    ∷ codes "load-end"
    ∷ codes "load-step"
    ∷ codes "load-step-duration"
    ∷ codes "load-max-duration"
    ∷ []

module _ {H F : Type 0} (f : Float64 F) (itoa : ℤ → Str) where
  -- The members that the code writes as texts.
  abbrev pub own_members : Options H F → List (Str × Member)
  own_members o =
      set_member (codes "import-paths") (join o.import_paths)
      ++ (set_member (codes "skipTLS") (flag o.skip_tls)
          ++ (set_member (codes "insecure") (flag o.insecure)
              ++ (set_member (codes "async") (flag o.async)
                  ++ (set_member (codes "binary") (flag o.binary)
                      ++ set_member (codes "count-errors") (flag o.count_errors)))))

  abbrev pub number_members : Options H F → List (Str × Member)
  number_members o =
      map (λ (e : Str × ℤ). (e.0, text (itoa e.1)))
        ((codes "rps", o.rps)
          ∷ (codes "load-start", o.load_start)
          ∷ (codes "load-end", o.load_end)
          ∷ (codes "load-step", o.load_step)
          ∷ (codes "concurrency", o.concurrency)
          ∷ (codes "concurrency-start", o.c_start)
          ∷ (codes "concurrency-end", o.c_end)
          ∷ (codes "concurrency-step", o.c_step)
          ∷ (codes "total", o.total)
          ∷ (codes "connections", o.connections)
          ∷ (codes "CPUs", o.cpus)
          ∷ (codes "skipFirst", o.skip_first)
          ∷ (codes "load-step-duration", o.load_step_duration)
          ∷ (codes "load-max-duration", o.load_max_duration)
          ∷ (codes "concurrency-step-duration", o.c_step_duration)
          ∷ (codes "concurrency-max-duration", o.c_max_duration)
          ∷ (codes "duration", o.duration)
          ∷ (codes "timeout", o.timeout)
          ∷ (codes "dial-timeout", o.dial_timeout)
          ∷ (codes "keepalive", o.keepalive_time)
          ∷ [])

  -- The members of the options that the code does not write itself.
  abbrev pub alias_members : Options H F → List (Str × Member)
  alias_members o =
      text_member (codes "call") o.call
      ++ (text_member (codes "host") o.host
          ++ (text_member (codes "proto") o.proto
              ++ (text_member (codes "protoset") o.protoset
                  ++ (text_member (codes "cacert") o.cacert
                      ++ (text_member (codes "cert") o.cert
                          ++ (text_member (codes "key") o.key
                              ++ (text_member (codes "cname") o.cname
                                  ++ (text_member (codes "authority") o.authority
                                      ++ (set_member (codes "load-schedule") o.load_schedule
                                          ++ (set_member (codes "concurrency-schedule") o.c_schedule
                                              ++ text_member (codes "name") o.name))))))))))

  -- The members that are no texts, where they are not left out.
  abbrev pub other_members : Options H F → List (Str × Member)
  other_members o =
      bool_member (codes "enable-compression") o.enable_compression
      ++ number_member (codes "data-sampling-rate") (f.eq o.data_sampling_rate (f.of_uint64 0))

  abbrev pub members : Options H F → List (Str × Member)
  members o = own_members o ++ (number_members o ++ (alias_members o ++ other_members o))

  abbrev pub labels_of : Report H F → List (Str × Str) → List (Str × Str)
  labels_of rep options =
      let c =
        if str_eq rep.options.c_schedule (codes "const")
        then delete_all c_keys options
        else options in
      let load =
        if str_eq rep.options.load_schedule (codes "const") then delete_all load_keys c else c in
      map (λ (e : Str × Str). (underscored e.0, e.1)) load

  -- `getCommonPrometheusLabels`; `none` is the error of `json.Unmarshal`.
  unfoldable pub get_common_prometheus_labels : Report H F → Option (List (Str × Str))
  unfolding unmarshal_labels delete_all
  get_common_prometheus_labels rep =
      elim (unmarshal_labels (members rep.options)
        ((codes "name", rep.name) ∷ (codes "end_reason", rep.end_reason) ∷ [])) [
          | none ↦ none
          | some options ↦ some (labels_of rep options)
        ]

-- A bucket and a quantile of the metrics.
pub record PromBucket (F : Type 0) : Type 0 where
  pub cumulative_count : ℕ
  pub upper_bound : F

pub record Quantile (F : Type 0) : Type 0 where
  pub quantile : F
  pub value : F

pub data Metric (F : Type 0) : Type 0 where
  gauge : Str → F → Metric F
  histogram : Str → ℕ → F → List (PromBucket F) → Metric F
  summary : Str → ℕ → F → List (Quantile F) → Metric F

module _ {F : Type 0} (f : Float64 F) where
  unfoldable pub prom_buckets : List (Bucket F) → List (PromBucket F)
  prom_buckets [] = []
  prom_buckets (v ∷ vs) =
      record { cumulative_count = v.count; upper_bound = v.mark } ∷ prom_buckets vs

  unfoldable pub quantiles : List (LatencyDistribution F) → List (Quantile F)
  quantiles [] = []
  quantiles (v ∷ vs) =
      record { quantile = f.div v.percentage (f.of_uint64 100); value = f.of_int64 v.latency }
      ∷ quantiles vs

  module _ {H : Type 0} where
    unfoldable pub metrics : Report H F → List (Metric F)
    unfolding prom_buckets quantiles
    metrics rep =
        gauge (codes "ghz_run_count") (f.of_uint64 rep.count)
        ∷ gauge (codes "ghz_run_total") (f.of_int64 rep.total)
        ∷ gauge (codes "ghz_run_average") (f.of_int64 rep.average)
        ∷ gauge (codes "ghz_run_fastest") (f.of_int64 rep.fastest)
        ∷ gauge (codes "ghz_run_slowest") (f.of_int64 rep.slowest)
        ∷ gauge (codes "ghz_run_rps") rep.rps
        ∷ Metric.histogram (codes "ghz_run_histogram") rep.count (f.of_int64 rep.total)
            (prom_buckets rep.histogram)
        ∷ summary (codes "ghz_run_latency") rep.count (f.of_int64 rep.total)
            (quantiles rep.latency_distribution)
        ∷ gauge (codes "ghz_run_errors") (f.of_uint64 (error_count rep.error_dist))
        ∷ []

    -- `printPrometheus`: the labels that all metrics have, and the metrics, which the encoder takes one by
    -- one; `none` is the error of the labels.
    unfoldable pub print_prometheus :
        (ℤ → Str) → Report H F → Option (List (Str × Str) × List (Metric F))
    unfolding get_common_prometheus_labels metrics
    print_prometheus itoa rep = elim (get_common_prometheus_labels f itoa rep) [
      | none ↦ none
      | some labels ↦ some (labels, metrics rep)
    ]
