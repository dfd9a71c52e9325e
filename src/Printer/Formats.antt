-- ===== src/Printer/Formats.antt =====
-- printer/printer.go: `Print` and the parquet files. The templates, and the encoders of JSON and of parquet,
-- are parameters. What is written, and to which file, is the result; that the write itself succeeds is not
-- modelled, and the report is not nil.
pub mod Paths
use ghz.Prelude.{
  ℕ, ◌/◌, Bool, true, false, List, [], ◌∷◌, ◌++◌, Option, none, some, ◌==◌, if◌then◌else◌,
}
use mathlib.Core.List.{reverse}
use ghz.Prelude.Int.{ℤ, quot_ℤ, pos}
use ghz.Prelude.Text.{Str, codes, is_empty, str_eq}
use ghz.Prelude.Float.{Float64}
use ghz.Runner.Reporter.{ResultDetail}
use ghz.Runner.Reporter.Finalize.{Report}
use ghz.Printer.Influx.{Notation, print_influx_line, print_influx_details}
use ghz.Printer.Prometheus.{Metric, print_prometheus}

pub record ParquetResultDetail : Type 0 where
  pub timestamp : ℤ
  pub latency : ℤ
  pub error : Str
  pub status : Str
  pub request_payload : Str
  pub response_payload : Str

-- `Time.UnixMilli` of nanoseconds, rounded down.
unfoldable pub unix_milli : ℤ → ℤ
unix_milli (pos n) = quot_ℤ (pos n) (pos 1_000_000)
unix_milli (ℤ.negsuc n) = ℤ.negsuc (n / 1_000_000)

unfoldable pub to_parquet_format : List ResultDetail → List ParquetResultDetail
unfolding unix_milli
to_parquet_format [] = []
to_parquet_format (d ∷ ds) =
    record {
      timestamp = unix_milli d.timestamp;
      latency = d.latency;
      error = d.error;
      status = d.status;
      request_payload = d.request_payload;
      response_payload = d.response_payload;
    }
    ∷ to_parquet_format ds

-- What is after the prefix, if it is one.
unfoldable pub after_prefix : Str → Str → Option Str
after_prefix [] s = some s
after_prefix (c ∷ t) [] = none
after_prefix (c ∷ t) (d ∷ s) = let rest = after_prefix t s in if c == d then rest else none

-- What is before the suffix, if it is one: `strings.HasSuffix` and `strings.TrimSuffix`.
unfoldable pub before_suffix : Str → Str → Option Str
unfolding after_prefix
before_suffix s suffix = elim (after_prefix (reverse suffix) (reverse s)) [
  | none ↦ none
  | some t ↦ some (reverse t)
]

abbrev pub html_suffix : Str
html_suffix = codes ".html"

abbrev pub parquet_suffix : Str
parquet_suffix = codes ".parquet"

-- The path that `writeParquetFile` chooses.
unfoldable pub parquet_path : Str → Str
unfolding before_suffix
parquet_path output_path = elim (before_suffix output_path html_suffix) [
  | some stem ↦ stem ++ parquet_suffix
  | none ↦ elim (before_suffix output_path parquet_suffix) [
    | some stem ↦ output_path
    | none ↦ output_path ++ parquet_suffix
  ]
]

pub data Template : Type 0 where
  default csv html : Template

pub data PrintError : Type 0 where
  template_failed json_failed prometheus_failed parquet_failed no_file : PrintError
  unknown_format : Str → PrintError

-- What is written: a text, metrics with their labels, or a file of its own.
pub data Printed (F : Type 0) : Type 0 where
  text : Str → Printed F
  labelled_metrics : List (Str × Str) → List (Metric F) → Printed F
  parquet_file : Str → Str → Printed F
  failed : PrintError → Printed F

pub record Encoders (H F : Type 0) : Type 0 where
  pub execute : Template → Report H F → Option Str
  pub json : Report H F → Option Str
  pub indent : Str → Option Str
  pub parquet : List ParquetResultDetail → Option Str

module _ {H F : Type 0} (encoders : Encoders H F) where
  -- `generateParquetBytes`: no details are no bytes.
  unfoldable pub generate_parquet_bytes : List ResultDetail → Option Str
  unfolding to_parquet_format
  generate_parquet_bytes [] = some []
  generate_parquet_bytes (d ∷ ds) = encoders.parquet (to_parquet_format (d ∷ ds))

  unfoldable pub write_parquet_file : Str → List ResultDetail → Printed F
  unfolding parquet_path generate_parquet_bytes
  write_parquet_file output_path details = elim (generate_parquet_bytes details) [
    | none ↦ failed PrintError.parquet_failed
    | some bytes ↦ parquet_file (parquet_path output_path) bytes
  ]

  abbrev pub write_parquet_sample_file : Str → Report H F → Printed F
  write_parquet_sample_file output_path rep = write_parquet_file output_path rep.sample_details

  abbrev pub or_failed : PrintError → Option Str → Printed F
  or_failed e none = failed e
  or_failed e (some s) = text s

  abbrev pub print_template : Template → Report H F → Printed F
  print_template t rep = or_failed template_failed (encoders.execute t rep)

  abbrev pub print_json : Bool → Report H F → Printed F
  print_json pretty rep = elim (encoders.json rep) [
    | none ↦ failed json_failed
    | some s ↦ if pretty then or_failed json_failed (encoders.indent s) else text s
  ]

  -- In HTML the details are those of the sample.
  abbrev pub print_html : Report H F → Printed F
  print_html rep = print_template html (record rep { details = rep.sample_details })

  module _ (f : Float64 F) (w : Notation H F) (itoa : ℤ → Str) where
    abbrev pub print_metrics : Report H F → Printed F
    print_metrics rep = elim (print_prometheus f itoa rep) [
      | none ↦ failed prometheus_failed
      | some e ↦ labelled_metrics e.0 e.1
    ]

    -- `Print`; `file` is the name of the file that the output is, if it is one.
    unfoldable pub print : Option Str → Str → Report H F → Printed F
    unfolding write_parquet_file print_influx_line print_influx_details print_prometheus
    print file format rep =
        if is_empty format
        then print_template default rep
        else if str_eq format (codes "summary")
        then print_template default rep
        else if str_eq format (codes "csv")
        then print_template csv rep
        else if str_eq format (codes "json")
        then print_json false rep
        else if str_eq format (codes "pretty")
        then print_json true rep
        else if str_eq format (codes "html")
        then print_html rep
        else if str_eq format (codes "influx-summary")
        then text (print_influx_line f w rep)
        else if str_eq format (codes "influx-details")
        then text (print_influx_details f w rep)
        else if str_eq format (codes "prometheus")
        then print_metrics rep
        else if str_eq format (codes "parquet")
        then elim file [ none ↦ failed no_file | some name ↦ write_parquet_file name rep.details ]
        else failed (unknown_format format)
