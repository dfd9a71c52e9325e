-- ===== src/Runner/Options/File.antt =====
-- runner/config.go, `Config`, and runner/options.go: the options that a configuration file stands for.
-- The field `Data` is `payload`. `Output`, `Format` and `Debug` of a `Config` are read by the command line only, and are left out.
use ghz.Prelude.{ℕ, Bool, false, List, [], ◌∷◌, ◌++◌, Option, none, some, if◌then◌else◌}
use ghz.Prelude.Int.{ℤ, pos, ltb_ℤ, max_int32, to_int64}
use ghz.Prelude.Float.{Float64}
use ghz.Prelude.Text.{Str, codes, str_eq, is_empty, trim_space}
use ghz.Runner.Config.{ConfigOption, Result, ok, ◌>>=◌}
use ghz.Runner.Options.Basic.{
  with_certificate, with_server_name_override, with_authority, with_root_certificate, with_insecure,
  with_skip_tls_verify, with_total_requests, with_concurrency, with_rps, with_run_duration,
  with_duration_stop_action, with_timeout, with_dial_timeout, with_keepalive, with_binary_data,
  with_client_load_balancing, with_binary_data_from_file, with_data, with_data_from_reader,
  with_data_from_file,
}
use ghz.Runner.Options.More.{
  with_metadata, with_metadata_from_file, with_name, with_tags, with_cpus, with_skip_first,
  with_count_errors, with_p99_9, with_data_sampling_rate, with_proto_file, with_protoset,
  with_stream_interval, with_stream_call_duration, with_stream_call_count,
  with_stream_dynamic_messages, with_reflection_metadata, with_connections, with_enable_compression,
  with_load_schedule,
}
use ghz.Runner.Options.Rest.{
  with_load_start, with_load_end, with_load_step, with_load_step_duration, with_load_duration,
  with_async, with_concurrency_schedule, with_concurrency_start, with_concurrency_end,
  with_concurrency_step, with_concurrency_step_duration, with_concurrency_duration,
  with_default_call_options, with_disable_template_funcs, with_disable_template_data,
}
use ghz.Runner.Options.New.{apply_options}

pub record Config (H F : Type 0) : Type 0 where
  pub proto : Str
  pub protoset : Str
  pub call : Str
  pub root_cert : Str
  pub cert : Str
  pub key : Str
  pub count_errors : Bool
  pub skip_tls_verify : Bool
  pub skip_first : ℕ
  pub cname : Str
  pub authority : Str
  pub insecure : Bool
  pub n : ℕ
  pub async : Bool
  pub c : ℕ
  pub c_schedule : Str
  pub c_start : ℕ
  pub c_end : ℕ
  pub c_step : ℤ
  pub c_step_duration : ℤ
  pub c_max_duration : ℤ
  pub connections : ℕ
  pub rps : ℕ
  pub z : ℤ
  pub zstop : Str
  pub x : ℤ
  pub timeout : ℤ
  pub payload : H
  pub data_path : Str
  pub bin_data : Str
  pub bin_data_path : Str
  pub metadata : List (Str × Str)
  pub metadata_path : Str
  pub si : ℤ
  pub stream_call_duration : ℤ
  pub stream_call_count : ℕ
  pub stream_dynamic_messages : Bool
  pub dial_timeout : ℤ
  pub keepalive_time : ℤ
  pub cpus : ℕ
  pub import_paths : List Str
  pub name : Str
  pub tags : List (Str × Str)
  pub reflect_metadata : List (Str × Str)
  pub host : Str
  pub enable_compression : Bool
  pub load_schedule : Str
  pub load_start : ℕ
  pub load_end : ℕ
  pub load_step : ℤ
  pub load_step_duration : ℤ
  pub load_max_duration : ℤ
  pub lb_strategy : Str
  pub max_call_recv_msg_size : Str
  pub max_call_send_msg_size : Str
  pub disable_template_funcs : Bool
  pub disable_template_data : Bool
  pub p99_9 : Bool
  pub data_sampling_rate : F

-- What the code calls: files and standard input, `json.Marshal`, `humanize.ParseBytes` (`none` is an
-- error), the call options of gRPC, the type assertion to `string`, and `filepath.Dir`.
pub record Library (H : Type 0) : Type 0 where
  pub read_file : Str → Result H Str
  pub stdin : Result H Str
  pub marshal : H → Result H Str
  pub marshal_map : List (Str × Str) → Result H Str
  pub parse_bytes : Str → Option ℕ
  pub recv_size : ℤ → H
  pub send_size : ℤ → H
  pub as_text : H → Option Str
  pub directory : Str → Str

module _ {H F : Type 0} where
  -- `X` is the duration, or else `Z` lifts the number of requests.
  abbrev pub timed : Config H F → Config H F
  timed cfg =
      if ltb_ℤ (pos 0) cfg.x
      then record cfg { z = cfg.x }
      else if ltb_ℤ (pos 0) cfg.z
      then record cfg { n = max_int32 }
      else cfg

  abbrev pub set_call : Str → ConfigOption H F
  set_call call o = ok (record o { call = call })

  abbrev pub set_host : Str → ConfigOption H F
  set_host host o = ok (record o { host = host })

  module _ (lib : Library H) (f : Float64 F) where
    open lib use {
      read_file, stdin, marshal, marshal_map, parse_bytes, recv_size, send_size, as_text, directory,
    }

    -- The options that every configuration has, up to those that set call and host.
    abbrev pub settings : Config H F → List (ConfigOption H F)
    settings cfg =
        with_proto_file directory cfg.proto cfg.import_paths
        ∷ with_protoset cfg.protoset
        ∷ with_root_certificate cfg.root_cert
        ∷ with_certificate cfg.cert cfg.key
        ∷ with_server_name_override cfg.cname
        ∷ with_skip_tls_verify cfg.skip_tls_verify
        ∷ with_skip_first cfg.skip_first
        ∷ with_insecure cfg.insecure
        ∷ with_authority cfg.authority
        ∷ with_concurrency cfg.c
        ∷ with_total_requests cfg.n
        ∷ with_rps cfg.rps
        ∷ with_timeout cfg.timeout
        ∷ with_run_duration cfg.z
        ∷ with_dial_timeout cfg.dial_timeout
        ∷ with_keepalive cfg.keepalive_time
        ∷ with_name cfg.name
        ∷ with_cpus cfg.cpus
        ∷ with_metadata marshal_map cfg.metadata
        ∷ with_tags marshal_map cfg.tags
        ∷ with_stream_interval cfg.si
        ∷ with_stream_call_duration cfg.stream_call_duration
        ∷ with_stream_call_count cfg.stream_call_count
        ∷ with_stream_dynamic_messages cfg.stream_dynamic_messages
        ∷ with_reflection_metadata cfg.reflect_metadata
        ∷ with_connections cfg.connections
        ∷ with_enable_compression cfg.enable_compression
        ∷ with_duration_stop_action cfg.zstop
        ∷ with_load_schedule cfg.load_schedule
        ∷ with_load_start cfg.load_start
        ∷ with_load_step cfg.load_step
        ∷ with_load_step_duration cfg.load_step_duration
        ∷ with_load_end cfg.load_end
        ∷ with_load_duration cfg.load_max_duration
        ∷ with_client_load_balancing cfg.lb_strategy
        ∷ with_async cfg.async
        ∷ with_concurrency_schedule cfg.c_schedule
        ∷ with_concurrency_start cfg.c_start
        ∷ with_concurrency_end cfg.c_end
        ∷ with_concurrency_step cfg.c_step
        ∷ with_concurrency_step_duration cfg.c_step_duration
        ∷ with_concurrency_duration cfg.c_max_duration
        ∷ with_count_errors cfg.count_errors
        ∷ with_p99_9 cfg.p99_9
        ∷ with_data_sampling_rate f cfg.data_sampling_rate
        ∷ with_disable_template_funcs cfg.disable_template_funcs
        ∷ with_disable_template_data cfg.disable_template_data
        ∷ []

    abbrev pub fixed_options : Config H F → List (ConfigOption H F)
    fixed_options cfg = settings cfg ++ set_call cfg.call ∷ set_host cfg.host ∷ []

    -- One of the two message sizes; `none` is a size that does not parse.
    unfoldable pub size_option : (ℤ → H) → Str → Option (List H)
    size_option make size =
        if is_empty size
        then some []
        else elim (parse_bytes size) [ none ↦ none | some v ↦ some (make (to_int64 v) ∷ []) ]

    unfoldable pub call_options : Config H F → Option (List H)
    unfolding size_option
    call_options cfg = elim (size_option recv_size cfg.max_call_recv_msg_size) [
      | none ↦ none
      | some recv ↦ elim (size_option send_size cfg.max_call_send_msg_size) [
        | none ↦ none
        | some send ↦ some (recv ++ send)
      ]
    ]

    abbrev pub default_options : List H → List (ConfigOption H F)
    default_options [] = []
    default_options (h ∷ hs) = with_default_call_options (h ∷ hs) ∷ []

    abbrev pub metadata_options : Config H F → List (ConfigOption H F)
    metadata_options cfg =
        if is_empty (trim_space cfg.metadata_path)
        then []
        else with_metadata_from_file read_file (trim_space cfg.metadata_path) ∷ []

    abbrev pub is_at : Option Str → Bool
    is_at none = false
    is_at (some s) = str_eq s (codes "@")

    abbrev pub data_option : Config H F → ConfigOption H F
    data_option cfg =
        if is_at (as_text cfg.payload)
        then with_data_from_reader stdin
        else if is_empty (trim_space cfg.data_path)
        then with_data marshal cfg.payload
        else with_data_from_file read_file (trim_space cfg.data_path)

    abbrev pub binary_options : Config H F → List (ConfigOption H F)
    binary_options cfg =
        (if is_empty cfg.bin_data then [] else with_binary_data cfg.bin_data ∷ [])
        ++ (if is_empty cfg.bin_data_path
            then []
            else with_binary_data_from_file read_file cfg.bin_data_path ∷ [])

    -- The options behind the call options.
    abbrev pub data_options : Config H F → List (ConfigOption H F)
    data_options cfg = metadata_options cfg ++ data_option cfg ∷ binary_options cfg

    -- `fromConfig`; a message size that does not parse gives no option at all.
    unfoldable pub from_config : Config H F → List (ConfigOption H F)
    from_config given =
        let cfg = timed given in
        elim (call_options cfg) [
          | none ↦ []
          | some opts ↦ fixed_options cfg ++ default_options opts ++ data_options cfg
        ]

    -- `WithConfig`.
    unfoldable pub with_config : Config H F → ConfigOption H F
    with_config cfg o = apply_options (from_config (timed cfg)) o

    -- `WithConfigFromReader`, with what decoding the reader gives.
    unfoldable pub with_config_from_reader : Result H (Config H F) → ConfigOption H F
    with_config_from_reader decoded o = decoded >>= λ cfg. apply_options (from_config cfg) o
