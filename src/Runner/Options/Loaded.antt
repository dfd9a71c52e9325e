-- ===== src/Runner/Options/Loaded.antt =====
-- runner/options.go, `WithConfig`: what a configuration value does to the configuration of a run.
use ghz.Prelude.{
  ◌≡◌, refl, ap, ◌∙◌, sym, subst, inl, inr, false, List, [], ◌∷◌, ◌++◌, none, some, arith,
  Bool-cases, Option-cases, ◌⊎◌, if◌then◌else◌,
}
use ghz.Prelude.Int.{ℤ}
use ghz.Prelude.Float.{Float64}
use ghz.Prelude.Text.{Str, is_empty, trim_space}
use ghz.Runner.Config.{RunConfig, ConfigOption, Result, ok, err, ◌>>=◌, >>=-eq-ok, ok-injective}
use ghz.Runner.Options.New.{apply_options}
use ghz.Runner.Options.Basic.{
  with_binary_data, with_binary_data_from_file, with_data, with_data_from_reader,
  with_data_from_file,
}
use ghz.Runner.Options.More.{with_metadata_from_file}
use ghz.Runner.Options.Rest.{with_default_call_options}
use ghz.Runner.Options.File.{
  Config, Library, timed, set_call, set_host, settings, fixed_options, size_option, call_options,
  default_options, metadata_options, data_option, binary_options, data_options, is_at, from_config,
  with_config,
}

-- The size is given and does not parse.
abbrev pub IsBad : {H : Type 0} → Library H → Str → Type 0
IsBad lib size = (is_empty size ≡ false) × (lib.parse_bytes size ≡ none)

module _ {H F : Type 0} (lib : Library H) (f : Float64 F) where
  size_option-IsBad :
      (make : ℤ → H) (size : Str) → IsBad lib size → size_option lib f make size ≡ none
  unfolding size_option
  size_option-IsBad make size h = rw (size_option, h.0, h.1)

  call_options-IsBad :
      (cfg : Config H F)
      → IsBad lib cfg.max_call_recv_msg_size ⊎ IsBad lib cfg.max_call_send_msg_size
      → call_options lib f cfg ≡ none
  unfolding call_options
  call_options-IsBad cfg (inl h) =
      rw (call_options, size_option-IsBad lib.recv_size cfg.max_call_recv_msg_size h)
  call_options-IsBad cfg (inr h) =
      elim (Option-cases (size_option lib f lib.recv_size cfg.max_call_recv_msg_size)) [
        | inl e ↦ rw (call_options, e)
        | inr (recv, e) ↦
            rw (call_options, e, size_option-IsBad lib.send_size cfg.max_call_send_msg_size h)
      ]

module _ {H F : Type 0} where
  bind_lem :
      (m : Result H (RunConfig H F)) (k l g : ConfigOption H F)
      → ((o : RunConfig H F) → g o ≡ (k o >>= l))
      → (m >>= g) ≡ ((m >>= k) >>= l)
  bind_lem (ok o) k l g h = h o
  bind_lem (err e) k l g h = refl

  apply_options-append :
      (xs ys : List (ConfigOption H F)) (o : RunConfig H F)
      → apply_options (xs ++ ys) o ≡ (apply_options xs o >>= apply_options ys)
  unfolding apply_options
  apply_options-append [] ys o = refl
  apply_options-append (x ∷ xs) ys o =
      bind_lem (x o) (apply_options xs) (apply_options ys) (apply_options (xs ++ ys))
        (apply_options-append xs ys)

  -- The two configurations have the same call and host.
  abbrev Same : RunConfig H F → RunConfig H F → Type 0
  Same o r = (r.call ≡ o.call) × (r.host ≡ o.host)

  -- The option leaves call and host alone.
  abbrev Keeps : ConfigOption H F → Type 0
  Keeps option = (o r : RunConfig H F) → option o ≡ ok r → Same o r

  abbrev AllKeep : List (ConfigOption H F) → Type 0
  AllKeep [] = Unit {0}
  AllKeep (x ∷ xs) = Keeps x × AllKeep xs

  AllKeep-append : (xs ys : List (ConfigOption H F)) → AllKeep xs → AllKeep ys → AllKeep (xs ++ ys)
  AllKeep-append [] ys h k = k
  AllKeep-append (x ∷ xs) ys h k = (h.0, AllKeep-append xs ys h.1 k)

  apply_options-AllKeep : (xs : List (ConfigOption H F)) → AllKeep xs → Keeps (apply_options xs)
  unfolding apply_options
  apply_options-AllKeep [] k o r h = (
    ap (λ (d : RunConfig H F). d.call) (sym (ok-injective h)),
    ap (λ (d : RunConfig H F). d.host) (sym (ok-injective h)),
  )
  apply_options-AllKeep (x ∷ xs) k o r h =
      let (o1, first, rest) = >>=-eq-ok (x o) _ h in
      let (c1, h1) = k.0 o o1 first in
      let (c2, h2) = apply_options-AllKeep xs k.1 o1 r rest in (c2 ∙ c1, h2 ∙ h1)

  ok-Same :
      (o d r : RunConfig H F)
      → Same o d
      → ◌≡◌ {A = Result H (RunConfig H F)} (ok d) (ok r)
      → Same o r
  ok-Same o d r s h = subst (Same o) (ok-injective h) s

  -- A step that can fail before the fields are set.
  bind-Same :
      {A : Type 0} (m : Result H A) (k : A → RunConfig H F) (o r : RunConfig H F)
      → ((a : A) → Same o (k a))
      → (m >>= λ a. ok (k a)) ≡ ok r
      → Same o r
  bind-Same (ok a) k o r s h = ok-Same o (k a) r (s a) h
  bind-Same (err e) k o r s h = absurd (cc)

  module _ (lib : Library H) (f : Float64 F) where
    default-AllKeep : (hs : List H) → AllKeep (default_options lib f hs)
    unfolding with_default_call_options
    default-AllKeep [] = tt
    default-AllKeep (h ∷ hs) = ((λ o r e. ok-Same o _ r (refl, refl) e), tt)

    metadata-AllKeep : (cfg : Config H F) → AllKeep (metadata_options lib f cfg)
    unfolding with_metadata_from_file
    metadata-AllKeep cfg = elim (Bool-cases (is_empty (trim_space cfg.metadata_path))) [
      | inl e ↦ rw e tt
      | inr e ↦ rw e ((λ o r. bind-Same _ _ o r (λ a. (refl, refl))), tt)
    ]

    data-Keeps : (cfg : Config H F) → Keeps (data_option lib f cfg)
    unfolding with_data_from_reader with_data with_data_from_file
    data-Keeps cfg = elim (Bool-cases (is_at lib f (lib.as_text cfg.payload))) [
      | inl e ↦ rw e (λ o r. bind-Same _ _ o r (λ a. (refl, refl)))
      | inr e ↦ elim (Bool-cases (is_empty (trim_space cfg.data_path))) [
        | inl q ↦ rw (e, q) (λ o r. bind-Same _ _ o r (λ a. (refl, refl)))
        | inr q ↦ rw (e, q) (λ o r. bind-Same _ _ o r (λ a. (refl, refl)))
      ]
    ]

    binary-AllKeep : (cfg : Config H F) → AllKeep (binary_options lib f cfg)
    unfolding with_binary_data with_binary_data_from_file
    binary-AllKeep cfg =
        AllKeep-append (if is_empty cfg.bin_data then [] else with_binary_data cfg.bin_data ∷ [])
          (if is_empty cfg.bin_data_path
            then []
            else with_binary_data_from_file lib.read_file cfg.bin_data_path ∷ [])
          (elim (Bool-cases (is_empty cfg.bin_data)) [
            | inl e ↦ rw e tt
            | inr e ↦ rw e ((λ o r h. ok-Same o _ r (refl, refl) h), tt)
          ])
          (elim (Bool-cases (is_empty cfg.bin_data_path)) [
            | inl e ↦ rw e tt
            | inr e ↦ rw e ((λ o r. bind-Same _ _ o r (λ a. (refl, refl))), tt)
          ])

    call_options-timed :
        (cfg : Config H F) → call_options lib f (timed cfg) ≡ call_options lib f cfg
    unfolding call_options
    call_options-timed cfg = ground arith

    timed-call : (cfg : Config H F) → ((timed cfg).call ≡ cfg.call) × ((timed cfg).host ≡ cfg.host)
    timed-call cfg = (ground arith, ground arith)

    -- Every option behind the one that sets the host.
    tail-AllKeep :
        (hs : List H) (cfg : Config H F)
        → AllKeep (default_options lib f hs ++ data_options lib f cfg)
    tail-AllKeep hs cfg =
        AllKeep-append (default_options lib f hs) (data_options lib f cfg) (default-AllKeep hs) (
          AllKeep-append (metadata_options lib f cfg)
            (data_option lib f cfg ∷ binary_options lib f cfg) (metadata-AllKeep cfg)
            (data-Keeps cfg, binary-AllKeep cfg))

    fixed_options-call :
        (cfg : Config H F) (o r : RunConfig H F)
        → apply_options (fixed_options lib f cfg) o ≡ ok r
        → (r.call ≡ cfg.call) × (r.host ≡ cfg.host)
    unfolding apply_options
    fixed_options-call cfg o r h =
        let (o1, first, rest) =
          >>=-eq-ok (apply_options (settings lib f cfg) o)
            (apply_options (set_call cfg.call ∷ set_host cfg.host ∷ []))
            (sym (
                apply_options-append (settings lib f cfg)
                  (set_call cfg.call ∷ set_host cfg.host ∷ []) o)
              ∙ h) in
        (
          ap (λ (d : RunConfig H F). d.call) (sym (ok-injective rest)),
          ap (λ (d : RunConfig H F). d.host) (sym (ok-injective rest)),
        )

    from_config_lem :
        (cfg : Config H F) {opts : List H}
        → call_options lib f cfg ≡ some opts
        → from_config lib f cfg
          ≡ fixed_options lib f (timed cfg)
            ++ default_options lib f opts
            ++ data_options lib f (timed cfg)
    unfolding from_config
    from_config_lem cfg h = rw (from_config, call_options-timed cfg, h)

    -- The call and the host, by the options alone.
    pub from_config-call :
        (cfg : Config H F) (o r : RunConfig H F) {opts : List H}
        → call_options lib f cfg ≡ some opts
        → apply_options (from_config lib f cfg) o ≡ ok r
        → (r.call ≡ cfg.call) × (r.host ≡ cfg.host)
    from_config-call cfg o r {opts} sizes h =
        let t : Config H F = timed cfg in
        let tail : List (ConfigOption H F) = default_options lib f opts ++ data_options lib f t in
        let list : from_config lib f cfg ≡ fixed_options lib f t ++ tail =
          from_config_lem cfg sizes in
        let (o1, first, rest) =
          >>=-eq-ok (apply_options (fixed_options lib f t) o) (apply_options tail) (
            sym (apply_options-append (fixed_options lib f t) tail o)
            ∙ ap (λ xs. apply_options xs o) (sym list)
            ∙ h) in
        let (c1, h1) = fixed_options-call t o o1 first in
        let (c2, h2) = apply_options-AllKeep tail (tail-AllKeep opts t) o1 r rest in
        let (c3, h3) = timed-call cfg in (c2 ∙ c1 ∙ c3, h2 ∙ h1 ∙ h3)

    -- When the message sizes parse and `WithConfig` succeeds, the run has the call and the host of the
    -- configuration, whatever other options it stands for and whatever was set before.
    with_config-call :
        (cfg : Config H F) (o r : RunConfig H F) {opts : List H}
        → call_options lib f cfg ≡ some opts
        → with_config lib f cfg o ≡ ok r
        → (r.call ≡ cfg.call) × (r.host ≡ cfg.host)
    unfolding with_config
    with_config-call cfg o r sizes h =
        let (c1, h1) = from_config-call (timed cfg) o r (call_options-timed cfg ∙ sizes) h in
        let (c2, h2) = timed-call cfg in (c1 ∙ c2, h1 ∙ h2)

    -- When one of the two message sizes is given and does not parse, `WithConfig` does nothing: no option of
    -- the configuration is applied, and no error is returned.
    pub with_config-bad_size :
        (cfg : Config H F) (o : RunConfig H F)
        → IsBad lib cfg.max_call_recv_msg_size ⊎ IsBad lib cfg.max_call_send_msg_size
        → with_config lib f cfg o ≡ ok o
    unfolding with_config from_config apply_options
    with_config-bad_size cfg o h =
        let none_made : call_options lib f (timed (timed cfg)) ≡ none =
          call_options-timed (timed cfg)
          ∙ call_options-timed cfg
          ∙ call_options-IsBad lib f cfg h in
        rw (from_config, none_made) refl
