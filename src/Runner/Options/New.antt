-- ===== src/Runner/Options/New.antt =====
-- runner/options.go, `NewConfig` and `createClientTransportCredentials`.
use ghz.Prelude.{
  Bool, true, false, not, ◌&&◌, ◌||◌, List, [], ◌∷◌, Option, none, some, ◌==◌, if◌then◌else◌,
}
use ghz.Prelude.Int.{ℤ, pos, ltb_ℤ, eq_ℤ, max_int32}
use ghz.Prelude.Float.{nano}
use ghz.Prelude.Text.{Str, str_eq, is_empty, trim_space}
use ghz.Runner.Config.{
  RunConfig, ConfigOption, Error, Result, ok, err, ◌>>=◌, Tls, initial, schedule_const,
  schedule_step, schedule_line, connections_above_concurrency, call_required, host_required,
  dynamic_binary, bad_schedule, load_start_is_end, bad_load_step, bad_load_step_duration,
  c_start_is_end, bad_c_step, bad_c_step_duration, skip_above_total, bad_key_pair, bad_ca,
  bad_ca_pem,
}

-- What `NewConfig` calls and does not implement: `tls.LoadX509KeyPair`, `os.ReadFile` and
-- `AppendCertsFromPEM` on a new pool. `none` is their failure.
pub record Certificates (H : Type 0) : Type 0 where
  pub load_key_pair : Str → Str → Option H
  pub read_ca : Str → Option Str
  pub pool_of : Str → Option H

abbrev pub or_fail : {H A : Type 0} → Option A → Error H → Result H A
or_fail none e = err e
or_fail (some a) e = ok a

abbrev pub fail_if : {H : Type 0} → Bool → Error H → Result H (Unit {0})
fail_if true e = err e
fail_if false e = ok tt

module _ {H : Type 0} (env : Certificates H) where
  open env use {load_key_pair, read_ca, pool_of}

  key_pair : Str → Str → Result H (Option H)
  key_pair cert key =
      if is_empty cert
      then ok none
      else or_fail (load_key_pair cert key) bad_key_pair >>= λ c. ok (some c)

  root_pool : Bool → Str → Result H (Option H)
  root_pool skip_verify cacert =
      if skip_verify
      then ok none
      else if is_empty cacert
      then ok none
      else or_fail (read_ca cacert) bad_ca >>= λ ca.
          or_fail (pool_of ca) bad_ca_pem >>= λ pool. ok (some pool)

  unfoldable pub create_credentials : Bool → Str → Str → Str → Str → Result H (Tls H)
  unfolding key_pair root_pool
  create_credentials skip_verify cacert cert key cname = key_pair cert key >>= λ pair.
      root_pool skip_verify cacert >>= λ pool. ok (record {
        certificate = pair;
        insecure_skip_verify = skip_verify;
        root_cas = pool;
        server_name = cname;
      })

-- The schedule is `step` or `line`.
abbrev pub varies : Str → Bool
varies schedule = str_eq schedule schedule_step || str_eq schedule schedule_line

module _ {H F : Type 0} where
  unfoldable pub apply_options : List (ConfigOption H F) → ConfigOption H F
  apply_options [] c = ok c
  apply_options (option ∷ options) c = option c >>= apply_options options

  -- Host and call may have been set by options; a duration lifts the number of requests.
  abbrev pub fixed_up : Str → Str → RunConfig H F → RunConfig H F
  fixed_up call host c = record c {
    host = if is_empty c.host then trim_space host else c.host;
    call = if is_empty c.call then trim_space call else c.call;
    n = if ltb_ℤ (pos 0) c.z then pos max_int32 else c.n;
  }

  unfoldable pub check_load : RunConfig H F → Result H (Unit {0})
  check_load c = fail_if (c.load_start == c.load_end) load_start_is_end >>= λ _.
      fail_if (eq_ℤ c.load_step (pos 0)) bad_load_step >>= λ _.
      fail_if (str_eq c.load_schedule schedule_step && eq_ℤ c.load_step_duration (pos 0))
        bad_load_step_duration

  unfoldable pub check_concurrency : RunConfig H F → Result H (Unit {0})
  check_concurrency c = fail_if (c.c_start == c.c_end) c_start_is_end >>= λ _.
      fail_if (eq_ℤ c.c_step (pos 0)) bad_c_step >>= λ _.
      fail_if (str_eq c.c_schedule schedule_step && eq_ℤ c.c_step_duration (pos 0))
        bad_c_step_duration

  -- The checks that stand before the step durations are set.
  unfoldable pub check_settings : RunConfig H F → Result H (Unit {0})
  check_settings c = fail_if (ltb_ℤ c.c c.n_conns) connections_above_concurrency >>= λ _.
      fail_if (is_empty c.call) call_required >>= λ _.
      fail_if (is_empty c.host) host_required >>= λ _.
      fail_if (c.binary && c.stream_dynamic_messages) dynamic_binary >>= λ _.
      fail_if
        (not (str_eq c.load_schedule schedule_const)
          && (not (str_eq c.load_schedule schedule_step)
              && not (str_eq c.load_schedule schedule_line)))
        bad_schedule

  -- The line schedules step once a second.
  abbrev pub with_durations : RunConfig H F → RunConfig H F
  with_durations c = record c {
    load_step_duration =
        if str_eq c.load_schedule schedule_line then pos nano else c.load_step_duration;
    c_step_duration = if str_eq c.c_schedule schedule_line then pos nano else c.c_step_duration;
  }

  unfoldable pub check_skip : RunConfig H F → Result H (Unit {0})
  check_skip c = fail_if (ltb_ℤ (pos 0) c.skip_first && ltb_ℤ c.n c.skip_first) skip_above_total

  -- `NewConfig` after the options have been applied.
  unfoldable pub finish_config : Certificates H → Str → Str → ConfigOption H F
  finish_config env call host applied =
      let c = fixed_up call host applied in
      let d = with_durations c in
      check_settings c >>= λ _. (if varies c.load_schedule then check_load c else ok tt) >>= λ _.
      (if varies c.c_schedule then check_concurrency c else ok tt) >>= λ _. check_skip d >>= λ _.
      create_credentials env d.skip_verify d.cacert d.cert d.key d.cname >>= λ tls.
      ok (record d { creds = some tls })

  unfoldable pub new_config :
      Certificates H → ℤ → F → Str → Str → List (ConfigOption H F) → Result H (RunConfig H F)
  new_config env cpus nought call host options =
      apply_options options (initial cpus nought) >>= finish_config env call host
