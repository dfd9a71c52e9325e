-- ===== src/Runner/Options/Rest.antt =====
-- runner/options.go, the options from `WithLoadStart` to `WithDisableTemplateData`.
use ghz.Prelude.{ℕ, Bool, List, Option, if◌then◌else◌}
use ghz.Prelude.Int.{ℤ}
use ghz.Prelude.Text.{Str, is_empty, trim_space, to_lower}
use ghz.Runner.Config.{ConfigOption, ok}

module _ {H F : Type 0} where
  unfoldable pub with_load_start : ℕ → ConfigOption H F
  with_load_start v o = ok (record o { load_start = v })

  unfoldable pub with_load_end : ℕ → ConfigOption H F
  with_load_end v o = ok (record o { load_end = v })

  unfoldable pub with_load_step : ℤ → ConfigOption H F
  with_load_step v o = ok (record o { load_step = v })

  unfoldable pub with_load_step_duration : ℤ → ConfigOption H F
  with_load_step_duration v o = ok (record o { load_step_duration = v })

  unfoldable pub with_load_duration : ℤ → ConfigOption H F
  with_load_duration v o = ok (record o { load_duration = v })

  unfoldable pub with_async : Bool → ConfigOption H F
  with_async v o = ok (record o { async = v })

  unfoldable pub with_concurrency_schedule : Str → ConfigOption H F
  with_concurrency_schedule v o =
      let s = trim_space v in if is_empty s then ok o else ok (record o { c_schedule = to_lower s })

  unfoldable pub with_concurrency_start : ℕ → ConfigOption H F
  with_concurrency_start v o = ok (record o { c_start = v })

  unfoldable pub with_concurrency_end : ℕ → ConfigOption H F
  with_concurrency_end v o = ok (record o { c_end = v })

  unfoldable pub with_concurrency_step : ℤ → ConfigOption H F
  with_concurrency_step v o = ok (record o { c_step = v })

  unfoldable pub with_concurrency_step_duration : ℤ → ConfigOption H F
  with_concurrency_step_duration v o = ok (record o { c_step_duration = v })

  unfoldable pub with_concurrency_duration : ℤ → ConfigOption H F
  with_concurrency_duration v o = ok (record o { c_max_duration = v })

  unfoldable pub with_pacer : Option H → ConfigOption H F
  with_pacer v o = ok (record o { pacer = v })

  unfoldable pub with_worker_ticker : Option H → ConfigOption H F
  with_worker_ticker v o = ok (record o { worker_ticker = v })

  unfoldable pub with_stream_recv_msg_intercept : Option H → ConfigOption H F
  with_stream_recv_msg_intercept v o = ok (record o { recv_msg_func = v })

  unfoldable pub with_stream_interceptor_provider_func : Option H → ConfigOption H F
  with_stream_interceptor_provider_func v o = ok (record o { stream_interceptor_provider_func = v })

  unfoldable pub with_data_provider : Option H → ConfigOption H F
  with_data_provider v o = ok (record o { data_provider_func = v })

  unfoldable pub with_metadata_provider : Option H → ConfigOption H F
  with_metadata_provider v o = ok (record o { md_provider_func = v })

  unfoldable pub with_stream_message_provider : Option H → ConfigOption H F
  with_stream_message_provider v o = ok (record o { data_stream_func = v })

  unfoldable pub with_default_call_options : List H → ConfigOption H F
  with_default_call_options v o = ok (record o { default_call_options = v })

  unfoldable pub with_disable_template_funcs : Bool → ConfigOption H F
  with_disable_template_funcs v o = ok (record o { disable_template_funcs = v })

  unfoldable pub with_disable_template_data : Bool → ConfigOption H F
  with_disable_template_data v o = ok (record o { disable_template_data = v })
