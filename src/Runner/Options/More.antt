-- ===== src/Runner/Options/More.antt =====
-- runner/options.go, the options from `WithMetadata` to `WithLoadSchedule`. `filepath.Dir` is the
-- argument `dir_of` of `with_proto_file`.
use ghz.Prelude.{ℕ, Bool, ◌||◌, List, [], ◌∷◌, ◌++◌, Option, some, ltb, if◌then◌else◌}
use ghz.Prelude.Int.{ℤ, pos, ltb_ℤ, to_int64}
use ghz.Prelude.Float.{Float64}
use ghz.Prelude.Text.{Str, codes, str_eq, is_empty, trim_space, to_lower, extension}
use ghz.Runner.Config.{ConfigOption, Result, ok, err, ◌>>=◌, bad_sampling_rate, not_a_proto_file}

module _ {H F : Type 0} where
  unfoldable pub with_metadata_from_json : Str → ConfigOption H F
  with_metadata_from_json v o = ok (record o { metadata = v })

  unfoldable pub with_metadata :
      (List (Str × Str) → Result H Str) → List (Str × Str) → ConfigOption H F
  with_metadata marshal md o = marshal md >>= λ json. ok (record o { metadata = json })

  unfoldable pub with_metadata_from_file : (Str → Result H Str) → Str → ConfigOption H F
  with_metadata_from_file read path o = read path >>= λ v. ok (record o { metadata = v })

  unfoldable pub with_name : Str → ConfigOption H F
  with_name v o =
      let name = trim_space v in if is_empty name then ok o else ok (record o { name = name })

  unfoldable pub with_tags : (List (Str × Str) → Result H Str) → List (Str × Str) → ConfigOption H F
  with_tags marshal v o = marshal v >>= λ json. ok (record o { tags = json })

  unfoldable pub with_cpus : ℕ → ConfigOption H F
  with_cpus v o = if ltb 0 v then ok (record o { cpus = to_int64 v }) else ok o

  unfoldable pub with_skip_first : ℕ → ConfigOption H F
  with_skip_first v o = if ltb 0 v then ok (record o { skip_first = to_int64 v }) else ok o

  unfoldable pub with_count_errors : Bool → ConfigOption H F
  with_count_errors v o = ok (record o { count_errors = v })

  unfoldable pub with_p99_9 : Bool → ConfigOption H F
  with_p99_9 v o = ok (record o { p99_9 = v })

  unfoldable pub with_data_sampling_rate : Float64 F → F → ConfigOption H F
  with_data_sampling_rate f rate o =
      if f.lt rate (f.of_uint64 0) || f.lt (f.of_uint64 1) rate
      then err bad_sampling_rate
      else ok (record o { data_sampling_rate = rate })

  unfoldable pub with_max_results : ℤ → ConfigOption H F
  with_max_results v o = if ltb_ℤ (pos 0) v then ok (record o { max_results = v }) else ok o

  unfoldable pub with_proto_file : (Str → Str) → Str → List Str → ConfigOption H F
  with_proto_file dir_of v imports o =
      let proto = trim_space v in
      let dir = dir_of proto in
      let here = if str_eq dir (codes ".") then o.import_paths else o.import_paths ++ (dir ∷ []) in
      if is_empty proto
      then ok o
      else if str_eq (extension proto) (codes ".proto")
      then ok (record o { proto = proto; import_paths = (here ++ (codes "." ∷ [])) ++ imports })
      else err not_a_proto_file

  unfoldable pub with_protoset : Str → ConfigOption H F
  with_protoset v o = ok (record o { protoset = trim_space v })

  unfoldable pub with_protoset_binary : Option Str → ConfigOption H F
  with_protoset_binary v o = ok (record o { protoset_binary = v })

  unfoldable pub with_stream_interval : ℤ → ConfigOption H F
  with_stream_interval v o = ok (record o { stream_interval = v })

  unfoldable pub with_stream_call_duration : ℤ → ConfigOption H F
  with_stream_call_duration v o = ok (record o { stream_call_duration = v })

  unfoldable pub with_stream_call_count : ℕ → ConfigOption H F
  with_stream_call_count v o = ok (record o { stream_call_count = v })

  unfoldable pub with_stream_dynamic_messages : Bool → ConfigOption H F
  with_stream_dynamic_messages v o = ok (record o { stream_dynamic_messages = v })

  unfoldable pub with_reflection_metadata : List (Str × Str) → ConfigOption H F
  with_reflection_metadata v o = ok (record o { rmd = v })

  unfoldable pub with_connections : ℕ → ConfigOption H F
  with_connections v o = if ltb 0 v then ok (record o { n_conns = to_int64 v }) else ok o

  unfoldable pub with_logger : H → ConfigOption H F
  with_logger v o = ok (record o { log = some v })

  unfoldable pub with_template_funcs : H → ConfigOption H F
  with_template_funcs v o = ok (record o { funcs = some v })

  unfoldable pub with_enable_compression : Bool → ConfigOption H F
  with_enable_compression v o = ok (record o { enable_compression = v })

  unfoldable pub with_load_schedule : Str → ConfigOption H F
  with_load_schedule v o =
      let s = trim_space v in
      if is_empty s then ok o else ok (record o { load_schedule = to_lower s })
