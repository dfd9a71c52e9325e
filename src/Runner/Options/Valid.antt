-- ===== src/Runner/Options/Valid.antt =====
-- runner/options.go, `NewConfig`: which configurations it accepts.
use ghz.Prelude.{◌≡◌, ◌≢◌, true, false, ◌&&◌, ◌||◌, List, arith, if◌then◌else◌}
use ghz.Prelude.Int.{ℤ, pos, ltb_ℤ, max_int32, ◌≤ℤ◌}
use ghz.Prelude.Text.{Str, str_eq, is_empty}
use mathlib.Core.Path.{subst}
use ghz.Runner.Config.{
  RunConfig, ConfigOption, ok, >>=-eq-ok, ok-injective, initial, schedule_const,
}
use ghz.Runner.Options.New.{
  Certificates, finish_config, new_config, apply_options, create_credentials, varies, fixed_up,
  check_settings, check_load, check_concurrency, check_skip, with_durations,
}

-- What the rest of the program may rely on in a configuration.
pub record IsValid {H F : Type 0} (c : RunConfig H F) : Type 0 where
  pub connections : c.n_conns ≤ℤ c.c
  pub has_call : is_empty c.call ≡ false
  pub has_host : is_empty c.host ≡ false
  pub static_binary : c.binary && c.stream_dynamic_messages ≡ false
  pub schedule : (str_eq c.load_schedule schedule_const || varies c.load_schedule) ≡ true
  pub load_varies :
      varies c.load_schedule ≡ true → (c.load_start ≢ c.load_end) × (c.load_step ≢ pos 0)
  pub load_steps : varies c.load_schedule ≡ true → c.load_step_duration ≢ pos 0
  pub c_varies : varies c.c_schedule ≡ true → (c.c_start ≢ c.c_end) × (c.c_step ≢ pos 0)
  pub c_steps : varies c.c_schedule ≡ true → c.c_step_duration ≢ pos 0
  pub skips : ltb_ℤ (pos 0) c.skip_first ≡ true → c.skip_first ≤ℤ c.n
  pub unlimited : ltb_ℤ (pos 0) c.z ≡ true → c.n ≡ pos max_int32

module _ {H F : Type 0} (c : RunConfig H F) where
  check_settings-valid :
      check_settings c ≡ ok tt
      → (c.n_conns ≤ℤ c.c)
        × (is_empty c.call ≡ false)
        × (is_empty c.host ≡ false)
        × (c.binary && c.stream_dynamic_messages ≡ false)
        × ((str_eq c.load_schedule schedule_const || varies c.load_schedule) ≡ true)
  unfolding check_settings
  check_settings-valid h = ground arith

  check_load-valid :
      (if varies c.load_schedule then check_load c else ok tt) ≡ ok tt
      → (varies c.load_schedule ≡ true → (c.load_start ≢ c.load_end) × (c.load_step ≢ pos 0))
        × (varies c.load_schedule ≡ true → (with_durations c).load_step_duration ≢ pos 0)
  unfolding check_load
  check_load-valid h = (λ v. ground arith, λ v. ground arith)

  check_concurrency-valid :
      (if varies c.c_schedule then check_concurrency c else ok tt) ≡ ok tt
      → (varies c.c_schedule ≡ true → (c.c_start ≢ c.c_end) × (c.c_step ≢ pos 0))
        × (varies c.c_schedule ≡ true → (with_durations c).c_step_duration ≢ pos 0)
  unfolding check_concurrency
  check_concurrency-valid h = (λ v. ground arith, λ v. ground arith)

  check_skip-valid : check_skip c ≡ ok tt → ltb_ℤ (pos 0) c.skip_first ≡ true → c.skip_first ≤ℤ c.n
  unfolding check_skip
  check_skip-valid h p = ground arith

module _ {H F : Type 0} (env : Certificates H) where
  finish_config-IsValid :
      (call host : Str) (a : RunConfig H F) {c : RunConfig H F}
      → finish_config env call host a ≡ ok c
      → IsValid c
  unfolding finish_config
  finish_config-IsValid call host a {c} h =
      let b : RunConfig H F = fixed_up call host a in
      let d : RunConfig H F = with_durations b in
      let (u1, settings, h1) = >>=-eq-ok (check_settings b) _ h in
      let (u2, load, h2) =
        >>=-eq-ok (if varies b.load_schedule then check_load b else ok tt) _ h1 in
      let (u3, conc, h3) =
        >>=-eq-ok (if varies b.c_schedule then check_concurrency b else ok tt) _ h2 in
      let (u4, skip, h4) = >>=-eq-ok (check_skip d) _ h3 in
      let (tls, made, h5) =
        >>=-eq-ok (create_credentials env d.skip_verify d.cacert d.cert d.key d.cname) _ h4 in
      let s = check_settings-valid b settings in
      subst IsValid (ok-injective h5) (record {
        connections = s.0;
        has_call = s.1;
        has_host = s.2;
        static_binary = s.3;
        schedule = s.4;
        load_varies = (check_load-valid b load).0;
        load_steps = (check_load-valid b load).1;
        c_varies = (check_concurrency-valid b conc).0;
        c_steps = (check_concurrency-valid b conc).1;
        skips = check_skip-valid d skip;
        unlimited = λ z. rw z;
      })

  -- Every configuration that `NewConfig` returns is valid, whatever options it was given: it has no more
  -- connections than workers, a call, a host and a known load schedule, dynamic messages only without
  -- binary data, a start other than the end and a step and step duration other than 0 for a step or line
  -- schedule of load or concurrency, no more requests to skip than to run, and 2 ^ 31 - 1 requests where
  -- a duration is set.
  pub new_config-IsValid :
      (cpus : ℤ) (nought : F) (call host : Str) (options : List (ConfigOption H F))
      {c : RunConfig H F}
      → new_config env cpus nought call host options ≡ ok c
      → IsValid c
  unfolding new_config
  new_config-IsValid cpus nought call host options h =
      let (a, applied, h1) = >>=-eq-ok (apply_options options (initial cpus nought)) _ h in
      finish_config-IsValid call host a h1
