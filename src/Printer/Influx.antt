-- ===== src/Printer/Influx.antt =====
-- printer/influx.go: the report as lines for InfluxDB. How numbers, durations and JSON are written is a
-- parameter.
pub mod Escape
pub mod Tight
pub mod Tags
pub mod Lines
use ghz.Prelude.{
  ℕ, suc, ◌+◌, Bool, true, false, List, [], ◌∷◌, ◌++◌, Option, none, some, ◌==◌, ltb, if◌then◌else◌,
}
use ghz.Prelude.Int.{ℤ, pos}
use ghz.Prelude.Float.{Float64, seconds}
use ghz.Prelude.Text.{Str, codes, is_empty, str_eq, trim_space}
use ghz.Runner.Reporter.{ResultDetail, Tally}
use ghz.Runner.Reporter.Histogram.{LatencyDistribution, p99_9}
use ghz.Runner.Reporter.Finalize.{Options, Report}

-- `strings.Replace(s, c, text, -1)` for a text `c` of one character.
unfoldable pub replace : ℕ → Str → Str → Str
replace c text [] = []
replace c text (d ∷ s) = (if d == c then text else d ∷ []) ++ replace c text s

abbrev pub backslash : ℕ
backslash = 92

abbrev pub escaped : ℕ → Str
escaped c = backslash ∷ c ∷ []

unfoldable pub clean_influx_string : Str → Str
unfolding replace
clean_influx_string input =
    replace 61 (escaped 61) (replace 44 (escaped 44) (replace 32 (escaped 32) input))

-- `strings.Join(s, ",")`.
unfoldable pub join : List Str → Str
join [] = []
join (x ∷ []) = x
join (x ∷ y ∷ ys) = x ++ 44 ∷ join (y ∷ ys)

-- How values are written: `%v` of an integer, of a float and of a duration, `%4.2f`, and `json.Marshal` of
-- the data, of a map and of a text.
pub record Notation (H F : Type 0) : Type 0 where
  pub integer : ℤ → Str
  pub float : F → Str
  pub duration : ℤ → Str
  pub two_places : F → Str
  pub data_json : Option H → Option Str
  pub map_json : List (Str × Str) → Option Str
  pub text_json : Str → Option Str

abbrev pub error_count : Tally → ℕ
error_count [] = 0
error_count ((k, n) ∷ m) = n + error_count m

abbrev pub quoted : Str → Str
quoted s = 34 ∷ s ++ 34 ∷ []

abbrev pub flag : Bool → Str
flag true = codes "true"
flag false = codes "false"

module _ {H F : Type 0} (f : Float64 F) (w : Notation H F) where
  open w use {integer, float, duration, two_places, data_json, map_json, text_json}

  abbrev pub tag : Str → Str → Str
  tag name value = name ++ 61 ∷ value

  -- JSON, written as a JSON text, or two quotes where either does not marshal.
  abbrev pub json_text : Option Str → Str
  json_text none = codes "\"\""
  json_text (some s) = elim (text_json s) [ none ↦ codes "\"\"" | some t ↦ t ]

  abbrev pub data_text : Option Str → Str
  data_text none = json_text none
  data_text (some s) = if is_empty s then codes "\"\"" else json_text (some s)

  abbrev pub map_text : Option (List (Str × Str)) → Str
  map_text none = codes "\"\""
  map_text (some m) = clean_influx_string (json_text (map_json m))

  -- A map with no entry counts as none.
  abbrev pub entries : Option (List (Str × Str)) → Option (List (Str × Str))
  entries none = none
  entries (some []) = none
  entries (some (e ∷ es)) = some (e ∷ es)

  abbrev pub name_tags : Report H F → List Str
  name_tags rep =
      if is_empty rep.name
      then []
      else tag (codes "name") (quoted (clean_influx_string (trim_space rep.name))) ∷ []

  abbrev pub proto_tags : Options H F → List Str
  proto_tags o =
      if is_empty o.proto
      then (if is_empty o.protoset then [] else tag (codes "Protoset") (quoted o.protoset) ∷ [])
      else tag (codes "proto") (quoted o.proto) ∷ []

  abbrev pub concurrency_tags : Options H F → List Str
  concurrency_tags o =
      if str_eq o.c_schedule (codes "const")
      then tag (codes "c") (integer o.concurrency) ∷ []
      else tag (codes "concurrency-schedule") o.c_schedule
        ∷ tag (codes "concurrency-start") (integer o.c_start)
        ∷ tag (codes "concurrency-end") (integer o.c_end)
        ∷ tag (codes "concurrency-step") (integer o.c_step)
        ∷ tag (codes "concurrency-step-duration") (duration o.c_step_duration)
        ∷ tag (codes "concurrency-max-duration") (duration o.c_max_duration)
        ∷ []

  abbrev pub load_tags : Options H F → List Str
  load_tags o =
      if str_eq o.load_schedule (codes "const")
      then tag (codes "rps") (integer o.rps) ∷ []
      else tag (codes "load-schedule") o.load_schedule
        ∷ tag (codes "load-start") (integer o.load_start)
        ∷ tag (codes "load-end") (integer o.load_end)
        ∷ tag (codes "load-step") (integer o.load_step)
        ∷ tag (codes "load-step-duration") (duration o.load_step_duration)
        ∷ tag (codes "load-max-duration") (duration o.load_max_duration)
        ∷ []

  abbrev pub call_tags : Options H F → List Str
  call_tags o =
      tag (codes "call") (quoted o.call)
      ∷ tag (codes "host") (quoted o.host)
      ∷ tag (codes "n") (integer o.total)
      ∷ []

  abbrev pub time_tags : Report H F → List Str
  time_tags rep =
      tag (codes "z") (integer rep.options.duration)
      ∷ tag (codes "timeout") (float (seconds ⦃f = f⦄ rep.options.timeout))
      ∷ tag (codes "dial_timeout") (float (seconds ⦃f = f⦄ rep.options.dial_timeout))
      ∷ tag (codes "keepalive") (float (seconds ⦃f = f⦄ rep.options.keepalive_time))
      ∷ tag (codes "data") (clean_influx_string (data_text (data_json rep.options.payload)))
      ∷ tag (codes "metadata") (map_text rep.options.metadata)
      ∷ tag (codes "tags") (map_text (entries rep.tags))
      ∷ []

  abbrev pub error_tags : Bool → Report H F → List Str
  error_tags add_errors rep =
      if add_errors
      then tag (codes "errors") (integer (pos (error_count rep.error_dist)))
        ∷ tag (codes "has_errors") (flag (ltb 0 (error_count rep.error_dist)))
        ∷ []
      else []

  unfoldable pub get_influx_tags : Bool → Report H F → Str
  unfolding join
  get_influx_tags add_errors rep = join (
      name_tags rep
      ++ (proto_tags rep.options
          ++ (call_tags rep.options
              ++ (concurrency_tags rep.options
                  ++ (load_tags rep.options ++ (time_tags rep ++ error_tags add_errors rep))))))

  -- One field for each of the four percentiles that an entry may be of.
  abbrev pub field_if : Bool → Str → ℤ → List Str
  field_if b name v = if b then tag name (integer v) ∷ [] else []

  abbrev pub percentile_fields : List (LatencyDistribution F) → List Str
  percentile_fields [] = []
  percentile_fields (v ∷ vs) =
      field_if (f.eq v.percentage (f.of_uint64 50)) (codes "median") v.latency
      ++ (field_if (f.eq v.percentage (f.of_uint64 95)) (codes "p95") v.latency
          ++ (field_if (f.eq v.percentage (f.of_uint64 99)) (codes "p99") v.latency
              ++ (field_if (f.eq v.percentage (p99_9 f)) (codes "p99_9") v.latency
                  ++ percentile_fields vs)))

  abbrev pub number_fields : Report H F → List Str
  number_fields rep =
      tag (codes "count") (integer (pos rep.count))
      ∷ tag (codes "total") (integer rep.total)
      ∷ tag (codes "average") (integer rep.average)
      ∷ tag (codes "fastest") (integer rep.fastest)
      ∷ tag (codes "slowest") (integer rep.slowest)
      ∷ tag (codes "rps") (two_places rep.rps)
      ∷ []

  unfoldable pub get_influx_fields : Report H F → Str
  unfolding join
  get_influx_fields rep = join (
      number_fields rep
      ++ (percentile_fields rep.latency_distribution
          ++ tag (codes "errors") (integer (pos (error_count rep.error_dist))) ∷ []))

  -- A time that is before 1970 counts as 0.
  abbrev pub timestamp : ℤ → ℤ
  timestamp (pos n) = pos n
  timestamp (ℤ.negsuc n) = pos 0

  abbrev pub line : Str → Str → Str → ℤ → Str
  line measurement tags fields time =
      measurement ++ 44 ∷ (tags ++ 32 ∷ (fields ++ 32 ∷ integer time))

  unfoldable pub print_influx_line : Report H F → Str
  unfolding get_influx_tags get_influx_fields
  print_influx_line rep =
      line (codes "ghz_run") (get_influx_tags true rep) (get_influx_fields rep) (timestamp rep.date)

  abbrev pub detail_fields : ResultDetail → List Str
  detail_fields v =
      tag (codes "latency") (integer v.latency)
      ∷ tag (codes "error") (quoted (clean_influx_string v.error))
      ∷ tag (codes "status") (quoted v.status)
      ∷ []

  abbrev pub detail_line : Str → ResultDetail → Str
  detail_line common v =
      line (codes "ghz_detail")
        (common ++ (if is_empty v.error then codes ",hasError=false" else codes ",hasError=true"))
        (join (detail_fields v)) v.timestamp

  unfoldable pub print_details : Str → List ResultDetail → Str
  print_details common [] = []
  print_details common (v ∷ vs) = detail_line common v ++ 10 ∷ print_details common vs

  unfoldable pub print_influx_details : Report H F → Str
  unfolding get_influx_tags print_details
  print_influx_details rep = print_details (get_influx_tags false rep) rep.details
