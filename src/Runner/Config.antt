-- ===== src/Runner/Config.antt =====
-- runner/options.go, `RunConfig`, the type `Option` and the errors.
-- `H` stands for the values that the code only stores here: function values, loggers, call options,
-- pacers and tickers of the caller, certificates. `F` is `float64`. A `nil` is `none`.
-- `hasLog` says that `log` is set: it is `log` being `some`. The field `data` is `payload`.
use ghz.Prelude.{ℕ, ◌*◌, Bool, false, List, [], Option, none, ◌≡◌, refl}
use ghz.Prelude.Int.{ℤ, pos}
use ghz.Prelude.Float.{nano}
use ghz.Prelude.Text.{Str, codes}

pub data Error (H : Type 0) : Type 0 where
  connections_above_concurrency : Error H
  call_required : Error H
  host_required : Error H
  dynamic_binary : Error H
  bad_schedule : Error H
  load_start_is_end : Error H
  bad_load_step : Error H
  bad_load_step_duration : Error H
  c_start_is_end : Error H
  bad_c_step : Error H
  bad_c_step_duration : Error H
  skip_above_total : Error H
  bad_sampling_rate : Error H
  not_a_proto_file : Error H
  bad_key_pair : Error H
  bad_ca : Error H
  bad_ca_pem : Error H
  unsupported_data : Error H
  empty_data_array : Error H
  unsupported_element : Error H
  data_key_not_string : Error H
  bad_recv_size : Error H
  bad_send_size : Error H
  external : H → Error H

pub data Result (H : Type 0) (A : Type 0) : Type 0 where
  ok : A → Result H A
  err : Error H → Result H A

infixl 5 ◌>>=◌
abbrev pub ◌>>=◌ : {H A B : Type 0} → Result H A → (A → Result H B) → Result H B
ok a >>= k = k a
err e >>= k = err e

pub >>=-eq-ok :
    {H A B : Type 0} (m : Result H A) (k : A → Result H B) {b : B}
    → (m >>= k) ≡ ok b
    → (a : A) × (m ≡ ok a) × (k a ≡ ok b)
>>=-eq-ok (ok a) k h = (a, refl, h)
>>=-eq-ok (err e) k h = cc

pub ok-injective : {H A : Type 0} {a b : A} → ◌≡◌ {A = Result H A} (ok a) (ok b) → a ≡ b
ok-injective h = cc

-- The fields of `tls.Config` that the code sets.
pub record Tls (H : Type 0) : Type 0 where
  pub certificate : Option H
  pub insecure_skip_verify : Bool
  pub root_cas : Option H
  pub server_name : Str

pub record RunConfig (H F : Type 0) : Type 0 where
  pub call : Str
  pub host : Str
  pub proto : Str
  pub import_paths : List Str
  pub protoset : Str
  pub protoset_binary : Option Str
  pub enable_compression : Bool
  pub default_call_options : List H
  pub creds : Option (Tls H)
  pub cacert : Str
  pub cert : Str
  pub key : Str
  pub cname : Str
  pub skip_verify : Bool
  pub insecure : Bool
  pub authority : Str
  pub rps : ℤ
  pub load_start : ℕ
  pub load_end : ℕ
  pub load_step : ℤ
  pub load_schedule : Str
  pub load_duration : ℤ
  pub load_step_duration : ℤ
  pub pacer : Option H
  pub c : ℤ
  pub c_start : ℕ
  pub c_end : ℕ
  pub c_step : ℤ
  pub c_schedule : Str
  pub c_max_duration : ℤ
  pub c_step_duration : ℤ
  pub worker_ticker : Option H
  pub n : ℤ
  pub async : Bool
  pub n_conns : ℤ
  pub z : ℤ
  pub timeout : ℤ
  pub dial_timeout : ℤ
  pub keepalive_time : ℤ
  pub zstop : Str
  pub stream_interval : ℤ
  pub stream_call_duration : ℤ
  pub stream_call_count : ℕ
  pub stream_dynamic_messages : Bool
  pub lb_strategy : Str
  pub initial_window_size : ℤ
  pub initial_conn_window_size : ℤ
  pub payload : Str
  pub metadata : Str
  pub binary : Bool
  pub data_func : Option H
  pub data_provider_func : Option H
  pub data_stream_func : Option H
  pub md_provider_func : Option H
  pub funcs : Option H
  pub rmd : List (Str × Str)
  pub log : Option H
  pub disable_template_funcs : Bool
  pub disable_template_data : Bool
  pub name : Str
  pub cpus : ℤ
  pub tags : Str
  pub skip_first : ℤ
  pub count_errors : Bool
  pub max_results : ℤ
  pub p99_9 : Bool
  pub data_sampling_rate : F
  pub recv_msg_func : Option H
  pub stream_interceptor_provider_func : Option H

-- `Option`: it returns the configuration that it has set, or an error.
abbrev pub ConfigOption : Type 0 → Type 0 → Type 0
ConfigOption H F = RunConfig H F → Result H (RunConfig H F)

abbrev pub schedule_const : Str
schedule_const = codes "const"

abbrev pub schedule_step : Str
schedule_step = codes "step"

abbrev pub schedule_line : Str
schedule_line = codes "line"

-- What `NewConfig` starts from. `cpus` is `runtime.GOMAXPROCS(-1)`, `nought` the float 0.
unfoldable pub initial : {H F : Type 0} → ℤ → F → RunConfig H F
initial cpus nought = record {
  call = [];
  host = [];
  proto = [];
  import_paths = [];
  protoset = [];
  protoset_binary = none;
  enable_compression = false;
  default_call_options = [];
  creds = none;
  cacert = [];
  cert = [];
  key = [];
  cname = [];
  skip_verify = false;
  insecure = false;
  authority = [];
  rps = pos 0;
  load_start = 0;
  load_end = 0;
  load_step = pos 0;
  load_schedule = schedule_const;
  load_duration = pos 0;
  load_step_duration = pos 0;
  pacer = none;
  c = pos 50;
  c_start = 0;
  c_end = 0;
  c_step = pos 0;
  c_schedule = [];
  c_max_duration = pos 0;
  c_step_duration = pos 0;
  worker_ticker = none;
  n = pos 200;
  async = false;
  n_conns = pos 1;
  z = pos 0;
  timeout = pos (20 * nano);
  dial_timeout = pos (10 * nano);
  keepalive_time = pos 0;
  zstop = codes "close";
  stream_interval = pos 0;
  stream_call_duration = pos 0;
  stream_call_count = 0;
  stream_dynamic_messages = false;
  lb_strategy = [];
  initial_window_size = pos 0;
  initial_conn_window_size = pos 0;
  payload = [];
  metadata = [];
  binary = false;
  data_func = none;
  data_provider_func = none;
  data_stream_func = none;
  md_provider_func = none;
  funcs = none;
  rmd = [];
  log = none;
  disable_template_funcs = false;
  disable_template_data = false;
  name = [];
  cpus = cpus;
  tags = [];
  skip_first = pos 0;
  count_errors = false;
  max_results = pos 100_000_000;
  p99_9 = false;
  data_sampling_rate = nought;
  recv_msg_func = none;
  stream_interceptor_provider_func = none;
}
