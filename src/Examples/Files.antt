-- ===== src/Examples/Files.antt =====
-- runner/config.go: a configuration value with a call, a host and a duration.
use ghz.Prelude.{ℕ, ◌≡◌, refl, inl, ◌==◌, if◌then◌else◌, false, [], none}
use ghz.Prelude.Int.{pos}
use ghz.Prelude.Float.{Fixed, fixed_float}
use ghz.Prelude.Text.{codes, trim_space, to_lower, str_eq, extension}
use ghz.Runner.Config.{RunConfig, Result, ok, err, initial}
use ghz.Runner.Options.New.{apply_options}
use ghz.Runner.Options.Basic.{
  with_certificate, with_server_name_override, with_authority, with_root_certificate, with_insecure,
  with_skip_tls_verify, with_total_requests, with_concurrency, with_rps, with_run_duration,
  with_duration_stop_action, with_timeout, with_dial_timeout, with_keepalive, with_binary_data,
  with_client_load_balancing, with_binary_data_from_file, with_data, with_data_from_reader,
  with_data_from_file,
}
use ghz.Runner.Options.More.{
  with_metadata, with_metadata_from_file, with_name, with_tags, with_cpus, with_skip_first,
  with_count_errors, with_p99_9, with_data_sampling_rate, with_proto_file, with_protoset,
  with_stream_interval, with_stream_call_duration, with_stream_call_count,
  with_stream_dynamic_messages, with_reflection_metadata, with_connections, with_enable_compression,
  with_load_schedule,
}
use ghz.Runner.Options.Rest.{
  with_load_start, with_load_end, with_load_step, with_load_step_duration, with_load_duration,
  with_async, with_concurrency_schedule, with_concurrency_start, with_concurrency_end,
  with_concurrency_step, with_concurrency_step_duration, with_concurrency_duration,
  with_default_call_options, with_disable_template_funcs, with_disable_template_data,
}
use ghz.Runner.Options.File.{Config, Library, size_option, call_options, from_config, with_config}
use ghz.Runner.Options.Loaded.{with_config-bad_size}
use ghz.Runner.Options.Load.{nil, object, Values, load_config, with_config_from_file}
use ghz.Runner.Options.Load.Valid.{IsLoaded, with_config_from_file-IsLoaded}

-- No file exists, and no size parses.
abbrev no_library : Library ℕ
no_library = record {
  read_file = λ path. ok [];
  stdin = ok [];
  marshal = λ v. ok (codes "null");
  marshal_map = λ m. ok (codes "{}");
  parse_bytes = λ s. none;
  recv_size = λ n. 1;
  send_size = λ n. 2;
  as_text = λ v. none;
  directory = λ p. codes ".";
}

abbrev cfg : Config ℕ Fixed
cfg = record {
  proto = [];
  protoset = [];
  call = codes "a.B/c";
  root_cert = [];
  cert = [];
  key = [];
  count_errors = false;
  skip_tls_verify = false;
  skip_first = 0;
  cname = [];
  authority = [];
  insecure = false;
  n = 9;
  async = false;
  c = 5;
  c_schedule = [];
  c_start = 0;
  c_end = 0;
  c_step = pos 0;
  c_step_duration = pos 0;
  c_max_duration = pos 0;
  connections = 0;
  rps = 0;
  z = pos 60;
  zstop = [];
  x = pos 0;
  timeout = pos 0;
  payload = 4;
  data_path = [];
  bin_data = [];
  bin_data_path = [];
  metadata = [];
  metadata_path = [];
  si = pos 0;
  stream_call_duration = pos 0;
  stream_call_count = 0;
  stream_dynamic_messages = false;
  dial_timeout = pos 0;
  keepalive_time = pos 0;
  cpus = 0;
  import_paths = [];
  name = [];
  tags = [];
  reflect_metadata = [];
  host = codes "h";
  enable_compression = false;
  load_schedule = codes "const";
  load_start = 0;
  load_end = 0;
  load_step = pos 0;
  load_step_duration = pos 0;
  load_max_duration = pos 0;
  lb_strategy = [];
  max_call_recv_msg_size = [];
  max_call_send_msg_size = [];
  disable_template_funcs = false;
  disable_template_data = false;
  p99_9 = false;
  data_sampling_rate = 0;
}

abbrev sized : Config ℕ Fixed
sized = record cfg { max_call_recv_msg_size = codes "much" }

abbrev before : RunConfig ℕ Fixed
before = initial {H = ℕ} {F = Fixed} (pos 4) 0

with_config-bad_size_example : with_config no_library fixed_float sized before ≡ ok before
with_config-bad_size_example =
    with_config-bad_size no_library fixed_float sized before (inl (refl, refl))

-- 0 is nil, every other value is a map from texts.
abbrev values : Values ℕ
values = record { view = λ v. if v == 0 then nil else object []; from_map = λ m. 1 }

abbrev or_before : Result ℕ (RunConfig ℕ Fixed) → RunConfig ℕ Fixed
or_before (ok r) = r
or_before (err e) = before

abbrev after : RunConfig ℕ Fixed
after =
    or_before
      (with_config_from_file values no_library fixed_float (codes "ghz.yml") (ok cfg) before)

accepted :
    with_config_from_file values no_library fixed_float (codes "ghz.yml") (ok cfg) before ≡ ok after
unfolding with_config_from_file extension from_config apply_options call_options size_option
    with_async with_authority with_binary_data with_binary_data_from_file with_certificate
    with_client_load_balancing with_concurrency with_concurrency_duration with_concurrency_end
    with_concurrency_schedule with_concurrency_start with_concurrency_step
    with_concurrency_step_duration with_connections with_count_errors with_cpus with_data
    with_data_from_file with_data_from_reader with_data_sampling_rate with_default_call_options
    with_dial_timeout with_disable_template_data with_disable_template_funcs
    with_duration_stop_action with_enable_compression with_insecure with_keepalive
    with_load_duration with_load_end with_load_schedule with_load_start with_load_step
    with_load_step_duration with_metadata with_metadata_from_file with_name with_p99_9
    with_proto_file with_protoset with_reflection_metadata with_root_certificate with_rps
    with_run_duration with_server_name_override with_skip_first with_skip_tls_verify
    with_stream_call_count with_stream_call_duration with_stream_dynamic_messages
    with_stream_interval with_tags with_timeout with_total_requests trim_space str_eq to_lower
accepted = refl

with_config_from_file-IsLoaded_example :
    (c : Config ℕ Fixed) × (load_config values no_library (codes "ghz.yml") (ok cfg) ≡ ok c)
    × IsLoaded values no_library fixed_float c
    × (after.call ≡ c.call)
    × (after.host ≡ c.host)
with_config_from_file-IsLoaded_example =
    with_config_from_file-IsLoaded values no_library fixed_float (codes "ghz.yml") (ok cfg) before
      after accepted
