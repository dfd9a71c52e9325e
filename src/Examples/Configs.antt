-- ===== src/Examples/Configs.antt =====
-- runner/options.go: a configuration with a few options.
use ghz.Prelude.{ℕ, ◌≡◌, refl, true, List, [], ◌∷◌, none, some}
use ghz.Prelude.Int.{pos}
use ghz.Prelude.Float.{Fixed, nano}
use ghz.Prelude.Text.{codes, str_eq, trim_space, to_lower}
use ghz.Runner.Config.{RunConfig, ConfigOption, ok, initial, schedule_line}
use ghz.Runner.Options.Basic.{with_skip_tls_verify, with_total_requests, with_concurrency}
use ghz.Runner.Options.More.{with_load_schedule}
use ghz.Runner.Options.Rest.{with_load_start, with_load_end, with_load_step}
use ghz.Runner.Options.New.{
  Certificates, new_config, apply_options, finish_config, check_settings, check_load, check_skip,
  create_credentials,
}
use ghz.Runner.Options.Valid.{IsValid, new_config-IsValid}

-- No certificate can be read.
abbrev no_files : Certificates ℕ
no_files = record { load_key_pair = λ cert key. none; read_ca = λ path. none; pool_of = λ ca. none }

abbrev options : List (ConfigOption ℕ Fixed)
options =
    with_skip_tls_verify true
    ∷ with_total_requests 90
    ∷ with_concurrency 7
    ∷ with_load_schedule (codes " Line")
    ∷ with_load_start 5
    ∷ with_load_end 50
    ∷ with_load_step (pos 3)
    ∷ []

abbrev accepted : RunConfig ℕ Fixed
accepted = record (initial {H = ℕ} {F = Fixed} (pos 4) 0) {
  call = codes "a.B/c";
  host = codes "h";
  skip_verify = true;
  n = pos 90;
  c = pos 7;
  load_schedule = schedule_line;
  load_start = 5;
  load_end = 50;
  load_step = pos 3;
  load_step_duration = pos nano;
  creds = some (record {
    certificate = none;
    insecure_skip_verify = true;
    root_cas = none;
    server_name = [];
  });
}

accepted_run : new_config no_files (pos 4) 0 (codes " a.B/c ") (codes "h") options ≡ ok accepted
unfolding new_config apply_options finish_config with_skip_tls_verify with_total_requests
    with_concurrency with_load_schedule trim_space with_load_start with_load_end with_load_step
    check_settings initial str_eq to_lower check_load check_skip create_credentials
accepted_run = refl

new_config-IsValid_example : IsValid accepted
new_config-IsValid_example =
    new_config-IsValid no_files (pos 4) 0 (codes " a.B/c ") (codes "h") options accepted_run
