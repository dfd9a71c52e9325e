-- ===== src/Examples/Printers.antt =====
-- printer: a report of two buckets, as lines, metrics and text.
use ghz.Prelude.{
  ℕ, zero, ◌≡◌, true, false, List, [], ◌∷◌, none, some, replicate, length-replicate, arith,
}
use ghz.Prelude.Int.{ℤ, pos, negsuc}
use ghz.Prelude.Float.{Fixed, fixed_float}
use ghz.Prelude.Text.{Str, codes}
use ghz.Runner.Reporter.{ResultDetail}
use ghz.Runner.Reporter.Histogram.{Bucket}
use ghz.Runner.Reporter.Finalize.{Options, Report}
use ghz.Printer.Influx.{Notation, clean_influx_string}
use ghz.Printer.Influx.Escape.{unescape, unescape-clean_influx_string}
use ghz.Printer.Prometheus.{print_prometheus}
use ghz.Printer.Prometheus.Labels.{is_error, print_prometheus-is_error}
use ghz.Printer.Text.{alternative_marks, histogram}
use ghz.Printer.Text.Widths.{IsMonotone, histogram-alternative_marks}

unescape-clean_influx_string_example :
    unescape (clean_influx_string (codes "a=1, b\\")) ≡ codes "a=1, b\\"
unescape-clean_influx_string_example = unescape-clean_influx_string (codes "a=1, b\\")

abbrev options : Options ℕ Fixed
options = record {
  call = codes "a.B/c";
  host = codes "h:1";
  proto = codes "a.proto";
  protoset = [];
  import_paths = [];
  enable_compression = true;
  cacert = [];
  cert = [];
  key = [];
  cname = [];
  skip_tls = false;
  insecure = true;
  authority = [];
  rps = pos 0;
  load_schedule = codes "const";
  load_start = pos 0;
  load_end = pos 0;
  load_step = pos 0;
  load_step_duration = pos 0;
  load_max_duration = pos 0;
  concurrency = pos 5;
  c_schedule = codes "step";
  c_start = pos 0;
  c_end = pos 0;
  c_step = pos 0;
  c_step_duration = pos 0;
  c_max_duration = pos 0;
  total = pos 9;
  async = false;
  connections = pos 1;
  duration = pos 0;
  timeout = pos 0;
  dial_timeout = pos 0;
  keepalive_time = pos 0;
  binary = false;
  cpus = pos 1;
  name = [];
  skip_first = pos 0;
  count_errors = false;
  data_sampling_rate = 0;
  payload = some 3;
  metadata = none;
}

abbrev bucket : ℕ → ℕ → Bucket Fixed
bucket m n = record { mark = m; count = n; frequency = 0 }

abbrev buckets : List (Bucket Fixed)
buckets = bucket 7 3 ∷ bucket 9 12 ∷ []

abbrev rep : Report ℕ Fixed
rep = record {
  name = codes "a name, here";
  end_reason = codes "normal";
  date = pos 4;
  options = options;
  count = 15;
  total = pos 30;
  average = pos 2;
  fastest = pos 1;
  slowest = pos 3;
  rps = 0;
  error_dist = (codes "a b", 2) ∷ [];
  status_code_dist = [];
  latency_distribution = [];
  histogram = buckets;
  details = [];
  sample_details = [];
  p99_9 = false;
  tags = some ((codes "t", codes "u v") ∷ []);
}

abbrev detail : ResultDetail
detail = record {
  timestamp = pos 1;
  latency = pos 5;
  error = codes "lost, it is";
  status = codes "Unknown";
  request_payload = [];
  response_payload = [];
}

print_prometheus-is_error_example :
    is_error (print_prometheus fixed_float (λ z. codes "1") rep) ≡ true
print_prometheus-is_error_example = print_prometheus-is_error fixed_float (λ z. codes "1") rep

-- Numbers as strokes.
abbrev strokes : ℤ → Str
strokes (pos n) = 43 ∷ replicate n 49
strokes (negsuc n) = 45 ∷ replicate n 49

abbrev stroke : ℕ → Str
stroke n = replicate n 49

abbrev notation : Notation ℕ Fixed
notation = record {
  integer = strokes;
  float = λ x. 48 ∷ replicate x 49;
  duration = strokes;
  two_places = λ x. 48 ∷ replicate x 49;
  data_json = λ d. some (codes "{}");
  map_json = λ m. some (codes "{ }");
  text_json = λ s. some (codes "\"\"");
}

AnyMark : Fixed → Type 0
AnyMark x = Unit {0}

stroke-IsMonotone : IsMonotone fixed_float stroke stroke AnyMark
unfolding AnyMark
stroke-IsMonotone = record {
  zero = tt;
  less =
      λ x y h k l. ground (arith, length-replicate {A = ℕ} x 49, length-replicate {A = ℕ} y 49, l);
  not_less =
      λ x y h k l. ground (arith, length-replicate {A = ℕ} x 49, length-replicate {A = ℕ} y 49, l);
  counts = λ m n l. ground (arith, length-replicate {A = ℕ} m 49, length-replicate {A = ℕ} n 49, l);
}

histogram-alternative_marks_example :
    (text : Str) × (histogram fixed_float stroke stroke
        (alternative_marks fixed_float stroke (some (codes ">=P99")) buckets)
      ≡ some text)
unfolding AnyMark
histogram-alternative_marks_example =
    histogram-alternative_marks fixed_float stroke stroke AnyMark stroke-IsMonotone
      (some (codes ">=P99")) buckets (tt, (tt, tt))
