-- ===== src/Runner/Options/Basic.antt =====
-- runner/options.go, the options from `WithCertificate` to `WithMetadataFromJSON`. The functions that
-- read a file, read all of a reader and marshal to JSON are arguments, with their errors.
use ghz.Prelude.{ℕ, Bool, true, false, ◌||◌, some, if◌then◌else◌}
use ghz.Prelude.Int.{ℤ, to_int64}
use ghz.Prelude.Text.{Str, codes, str_eq, trim_space, to_lower}
use ghz.Runner.Config.{ConfigOption, Result, ok, ◌>>=◌}

module _ {H F : Type 0} where
  unfoldable pub with_certificate : Str → Str → ConfigOption H F
  with_certificate cert key o = ok (record o { cert = trim_space cert; key = trim_space key })

  unfoldable pub with_server_name_override : Str → ConfigOption H F
  with_server_name_override v o = ok (record o { cname = v })

  unfoldable pub with_authority : Str → ConfigOption H F
  with_authority v o = ok (record o { authority = v })

  unfoldable pub with_root_certificate : Str → ConfigOption H F
  with_root_certificate v o = ok (record o { cacert = trim_space v })

  unfoldable pub with_insecure : Bool → ConfigOption H F
  with_insecure v o = ok (record o { insecure = v })

  unfoldable pub with_skip_tls_verify : Bool → ConfigOption H F
  with_skip_tls_verify v o = ok (record o { skip_verify = v })

  unfoldable pub with_total_requests : ℕ → ConfigOption H F
  with_total_requests v o = ok (record o { n = to_int64 v })

  unfoldable pub with_concurrency : ℕ → ConfigOption H F
  with_concurrency v o = ok (record o { c = to_int64 v })

  unfoldable pub with_rps : ℕ → ConfigOption H F
  with_rps v o = ok (record o { rps = to_int64 v })

  unfoldable pub with_run_duration : ℤ → ConfigOption H F
  with_run_duration v o = ok (record o { z = v })

  unfoldable pub with_duration_stop_action : Str → ConfigOption H F
  with_duration_stop_action action o =
      let a = to_lower action in
      if str_eq a (codes "close") || (str_eq a (codes "wait") || str_eq a (codes "ignore"))
      then ok (record o { zstop = a })
      else ok o

  unfoldable pub with_timeout : ℤ → ConfigOption H F
  with_timeout v o = ok (record o { timeout = v })

  unfoldable pub with_dial_timeout : ℤ → ConfigOption H F
  with_dial_timeout v o = ok (record o { dial_timeout = v })

  unfoldable pub with_keepalive : ℤ → ConfigOption H F
  with_keepalive v o = ok (record o { keepalive_time = v })

  unfoldable pub with_binary_data : Str → ConfigOption H F
  with_binary_data v o = ok (record o { payload = v; binary = true })

  unfoldable pub with_client_load_balancing : Str → ConfigOption H F
  with_client_load_balancing v o = ok (record o { lb_strategy = v })

  unfoldable pub with_initial_window_size : ℤ → ConfigOption H F
  with_initial_window_size v o = ok (record o { initial_window_size = v })

  unfoldable pub with_initial_conn_window_size : ℤ → ConfigOption H F
  with_initial_conn_window_size v o = ok (record o { initial_conn_window_size = v })

  unfoldable pub with_binary_data_func : H → ConfigOption H F
  with_binary_data_func v o = ok (record o { data_func = some v; binary = true })

  unfoldable pub with_binary_data_from_file : (Str → Result H Str) → Str → ConfigOption H F
  with_binary_data_from_file read path o =
      read path >>= λ v. ok (record o { payload = v; binary = true })

  unfoldable pub with_data_from_json : Str → ConfigOption H F
  with_data_from_json v o = ok (record o { payload = v; binary = false })

  unfoldable pub with_data : (H → Result H Str) → H → ConfigOption H F
  with_data marshal v o = marshal v >>= λ json. ok (record o { payload = json; binary = false })

  unfoldable pub with_data_from_reader : Result H Str → ConfigOption H F
  with_data_from_reader contents o = contents >>= λ v. ok (record o { payload = v; binary = false })

  unfoldable pub with_data_from_file : (Str → Result H Str) → Str → ConfigOption H F
  with_data_from_file read path o = read path >>= λ v. ok (record o { payload = v; binary = false })
