-- ===== src/Runner/Options/Load/Valid.antt =====
-- runner/config.go and runner/options.go: what a configuration that has been loaded from a file satisfies.
use ghz.Prelude.{
  ◌<◌, ◌≡◌, refl, subst, inl, inr, true, List, [], ◌∷◌, ◌++◌, some, arith, Bool-cases, Option-cases,
  length,
}
use ghz.Prelude.Int.{ℤ, to_int64}
use ghz.Prelude.Float.{Float64}
use ghz.Prelude.Text.{Str, str_eq, is_empty, to_lower}
use ghz.Runner.Config.{
  RunConfig, Error, bad_recv_size, bad_send_size, Result, ok, ◌>>=◌, >>=-eq-ok, ok-injective,
}
use ghz.Runner.Options.New.{apply_options}
use ghz.Runner.Options.File.{Config, Library, size_option, call_options, from_config}
use ghz.Runner.Options.Loaded.{from_config-call}
use ghz.Runner.Options.Load.{
  Decoded, nil, object, yaml_object, array, scalar, Values, is_nil, is_stop, stop_action,
  all_objects, check_data, converted, checked, load_data, check_size, with_sizes, load_config,
  with_config_from_file,
}

module _ {H : Type 0} (values : Values H) where
  -- Data that a run can use: none, an object, or objects, one at least.
  abbrev pub IsData : Decoded H → Type 0
  IsData nil = Unit {0}
  IsData (object m) = Unit {0}
  IsData (yaml_object m) = ⊥
  IsData (array xs) = (0 < length xs) × (all_objects values xs ≡ true)
  IsData scalar = ⊥

  check_data-IsData : (d : Decoded H) (u : Unit {0}) → check_data values d ≡ ok u → IsData d
  unfolding check_data
  check_data-IsData nil u h = tt
  check_data-IsData (object m) u h = tt
  check_data-IsData (yaml_object m) u h = absurd (cc)
  check_data-IsData (array []) u h = absurd (cc)
  check_data-IsData (array (x ∷ xs)) u h = ground arith
  check_data-IsData scalar u h = absurd (cc)

  nil-IsData : (d : Decoded H) → is_nil d ≡ true → IsData d
  nil-IsData nil h = tt
  nil-IsData (object m) h = tt
  nil-IsData (yaml_object m) h = absurd (cc)
  nil-IsData (array xs) h = absurd (cc)
  nil-IsData scalar h = absurd (cc)

  load_data-IsData :
      (path : Str) (v w : H) → load_data values path v ≡ ok w → IsData (values.view w)
  unfolding load_data
  load_data-IsData path v w h = elim (Bool-cases (is_nil (values.view v))) [
    | inl e ↦
        let same : v ≡ w = ok-injective (rw (load_data, e) at h) in
        subst (λ d. IsData (values.view d)) same (nil-IsData (values.view v) e)
    | inr e ↦
        let (d, made, rest) =
          >>=-eq-ok (converted values path v) (checked values) (rw (load_data, e) at h) in
        let (u, good, same) = >>=-eq-ok (check_data values (values.view d)) (λ _. ok d) rest in
        subst (λ x. IsData (values.view x)) (ok-injective same)
          (check_data-IsData (values.view d) u good)
  ]

stop_action-is_stop : (s : Str) → is_stop (stop_action s) ≡ true
unfolding str_eq
stop_action-is_stop s = elim (Bool-cases (is_stop (to_lower s))) [
  | inl e ↦ rw e e
  | inr e ↦ rw e refl
]

module _ {H F : Type 0} (values : Values H) (lib : Library H) (f : Float64 F) where
  -- The action at the end is known, the data is usable, and the message sizes parse.
  pub record IsLoaded (cfg : Config H F) : Type 0 where
    pub stop : is_stop cfg.zstop ≡ true
    pub usable : IsData values (values.view cfg.payload)
    pub sizes : (opts : List H) × (call_options lib f cfg ≡ some opts)

  check_size-size_option :
      (e : Error H) (make : ℤ → H) (size : Str) (u : Unit {0})
      → check_size values lib e size ≡ ok u
      → (opts : List H) × (size_option lib f make size ≡ some opts)
  unfolding size_option
  check_size-size_option e make size u h = elim (Bool-cases (is_empty size)) [
    | inl none_given ↦ ([], rw (size_option, none_given))
    | inr given ↦ elim (Option-cases (lib.parse_bytes size)) [
      | inl bad ↦ absurd (ground (arith, given, bad, h))
      | inr (n, good) ↦ (make (to_int64 n) ∷ [], rw (size_option, given, good))
    ]
  ]

  -- A configuration that `LoadConfig` gives has a known action at the end of a run, data that a run can use,
  -- and message sizes that parse.
  pub load_config-IsLoaded :
      (path : Str) (decoded : Result H (Config H F)) (cfg : Config H F)
      → load_config values lib path decoded ≡ ok cfg
      → IsLoaded cfg
  unfolding load_config call_options
  load_config-IsLoaded path decoded cfg h =
      let (c, read, first) =
        >>=-eq-ok decoded (λ c. load_data values path c.payload >>= with_sizes values lib c) h in
      let (payload, made, second) =
        >>=-eq-ok (load_data values path c.payload) (with_sizes values lib c) first in
      let (u, recv, third) =
        >>=-eq-ok (check_size values lib bad_recv_size c.max_call_recv_msg_size)
          (λ _. check_size values lib bad_send_size c.max_call_send_msg_size >>= λ _.
            ok (record c { payload = payload; zstop = stop_action c.zstop }))
          second in
      let (w, sent, same) =
        >>=-eq-ok (check_size values lib bad_send_size c.max_call_send_msg_size)
          (λ _. ok (record c { payload = payload; zstop = stop_action c.zstop })) third in
      let (rs, recv_opts) =
        check_size-size_option bad_recv_size lib.recv_size c.max_call_recv_msg_size u recv in
      let (ss, send_opts) =
        check_size-size_option bad_send_size lib.send_size c.max_call_send_msg_size w sent in
      subst IsLoaded (ok-injective same) (record {
        stop = stop_action-is_stop c.zstop;
        usable = load_data-IsData values path c.payload payload made;
        sizes = (rs ++ ss, rw (call_options, recv_opts, send_opts));
      })

  -- When `WithConfigFromFile` succeeds, `LoadConfig` gave a configuration with a known action at the end of
  -- the run, data that a run can use and message sizes that parse, and the run has its call and its host.
  pub with_config_from_file-IsLoaded :
      (path : Str) (decoded : Result H (Config H F)) (o r : RunConfig H F)
      → with_config_from_file values lib f path decoded o ≡ ok r
      → (cfg : Config H F) × (load_config values lib path decoded ≡ ok cfg)
        × IsLoaded cfg
        × (r.call ≡ cfg.call)
        × (r.host ≡ cfg.host)
  unfolding with_config_from_file
  with_config_from_file-IsLoaded path decoded o r h =
      let (cfg, made, applied) =
        >>=-eq-ok (load_config values lib path decoded)
          (λ cfg. apply_options (from_config lib f cfg) o) h in
      let v : IsLoaded cfg = load_config-IsLoaded path decoded cfg made in
      let (opts, sizes) = v.sizes in
      let (call, host) = from_config-call lib f cfg o r sizes applied in (cfg, made, v, call, host)
