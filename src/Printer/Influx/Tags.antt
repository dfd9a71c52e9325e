-- ===== src/Printer/Influx/Tags.antt =====
-- printer/influx.go, `getInfluxTags`: no tag has a space that would end the tags.
use ghz.Prelude.{
  ◌≡◌, refl, inl, inr, Bool, true, false, List, [], ◌∷◌, Option, none, some, Bool-cases,
  Option-cases, ltb,
}
use ghz.Prelude.Int.{ℤ, pos}
use ghz.Prelude.Float.{Float64, seconds}
use ghz.Prelude.Text.{Str, codes, is_empty, str_eq, trim_space}
use ghz.Runner.Reporter.Finalize.{Options, Report}
use ghz.Printer.Influx.{
  clean_influx_string, Notation, error_count, quoted, flag, tag, json_text, data_text, map_text,
  entries, name_tags, proto_tags, concurrency_tags, load_tags, call_tags, time_tags, error_tags,
  get_influx_tags,
}
use ghz.Printer.Influx.Tight.{
  AllTight, AllTight-append, IsTight, clean-IsTight, ends_open, join-IsTight, quoted-separators,
  quoted_clean-IsTight, separators, tag-IsTight,
}

module _ {H F : Type 0} (f : Float64 F) (w : Notation H F) where
  -- Numbers and durations are written without a space and without a backslash at the end, and a JSON text
  -- does not end in a backslash.
  pub record IsTightNotation : Type 0 where
    pub integers : (z : ℤ) → IsTight (w.integer z)
    pub floats : (x : F) → IsTight (w.float x)
    pub durations : (z : ℤ) → IsTight (w.duration z)
    pub places : (x : F) → IsTight (w.two_places x)
    pub texts : (s t : Str) → w.text_json s ≡ some t → ends_open false t ≡ false

  -- What is written as it stands has no space: the call, the host, the files and the schedules.
  pub record IsPlain (o : Options H F) : Type 0 where
    pub call : separators false o.call ≡ 0
    pub host : separators false o.host ≡ 0
    pub proto : separators false o.proto ≡ 0
    pub protoset : separators false o.protoset ≡ 0
    pub c_schedule : IsTight o.c_schedule
    pub load_schedule : IsTight o.load_schedule

  module _ (tight : IsTightNotation) where
    json_text-ends : (m : Option Str) → ends_open false (json_text f w m) ≡ false
    unfolding ends_open
    json_text-ends none = refl
    json_text-ends (some s) = elim (Option-cases (w.text_json s)) [
      | inl e ↦ rw (json_text, e) refl
      | inr (t, e) ↦ rw (json_text, e) (tight.texts s t e)
    ]

    data_text-ends : (m : Option Str) → ends_open false (data_text f w m) ≡ false
    unfolding ends_open
    data_text-ends none = refl
    data_text-ends (some s) = elim (Bool-cases (is_empty s)) [
      | inl e ↦ rw e refl
      | inr e ↦ rw e (json_text-ends (some s))
    ]

    map_text-IsTight : (m : Option (List (Str × Str))) → IsTight (map_text f w m)
    unfolding separators ends_open
    map_text-IsTight none = (refl, refl)
    map_text-IsTight (some m) =
        clean-IsTight (json_text f w (w.map_json m)) (json_text-ends (w.map_json m))

    pub integer_tag : (name : Str) (z : ℤ) → IsTight name → IsTight (tag f w name (w.integer z))
    integer_tag name z h = tag-IsTight name (w.integer z) h (tight.integers z)

    integer_tag-map :
        (name : Str) (z : ℤ) → IsTight name → AllTight (tag f w name (w.integer z) ∷ [])
    integer_tag-map name z h = (integer_tag name z h, tt)

    name_tags-AllTight : (rep : Report H F) → AllTight (name_tags f w rep)
    unfolding separators ends_open
    name_tags-AllTight rep = elim (Bool-cases (is_empty rep.name)) [
      | inl e ↦ rw e tt
      | inr e ↦ rw e (
        tag-IsTight (codes "name") (quoted (clean_influx_string (trim_space rep.name))) (refl, refl)
            (quoted_clean-IsTight (trim_space rep.name)),
        tt,
      )
    ]

    proto_tags-AllTight : (o : Options H F) → IsPlain o → AllTight (proto_tags f w o)
    unfolding separators ends_open
    proto_tags-AllTight o v = elim (Bool-cases (is_empty o.proto)) [
      | inl e ↦ elim (Bool-cases (is_empty o.protoset)) [
        | inl d ↦ rw (e, d) tt
        | inr d ↦
            rw (e, d)
              (
                tag-IsTight (codes "Protoset") (quoted o.protoset) (refl, refl)
                    (quoted-separators o.protoset v.protoset),
                tt,
              )
      ]
      | inr e ↦ rw e (
        tag-IsTight (codes "proto") (quoted o.proto) (refl, refl)
            (quoted-separators o.proto v.proto),
        tt,
      )
    ]

    call_tags-AllTight : (o : Options H F) → IsPlain o → AllTight (call_tags f w o)
    unfolding separators ends_open
    call_tags-AllTight o v = (
      tag-IsTight (codes "call") (quoted o.call) (refl, refl) (quoted-separators o.call v.call),
      (
        tag-IsTight (codes "host") (quoted o.host) (refl, refl) (quoted-separators o.host v.host),
        (integer_tag (codes "n") o.total (refl, refl), tt),
      ),
    )

    duration_tag : (name : Str) (z : ℤ) → IsTight name → IsTight (tag f w name (w.duration z))
    duration_tag name z h = tag-IsTight name (w.duration z) h (tight.durations z)

    concurrency_tags-AllTight : (o : Options H F) → IsPlain o → AllTight (concurrency_tags f w o)
    unfolding separators ends_open
    concurrency_tags-AllTight o v = elim (Bool-cases (str_eq o.c_schedule (codes "const"))) [
      | inl e ↦ rw e (integer_tag (codes "c") o.concurrency (refl, refl), tt)
      | inr e ↦ rw e (
        tag-IsTight (codes "concurrency-schedule") o.c_schedule (refl, refl) v.c_schedule,
        (
          integer_tag (codes "concurrency-start") o.c_start (refl, refl),
          (
            integer_tag (codes "concurrency-end") o.c_end (refl, refl),
            (
              integer_tag (codes "concurrency-step") o.c_step (refl, refl),
              (
                duration_tag (codes "concurrency-step-duration") o.c_step_duration (refl, refl),
                (duration_tag (codes "concurrency-max-duration") o.c_max_duration (refl, refl), tt),
              ),
            ),
          ),
        ),
      )
    ]

    load_tags-AllTight : (o : Options H F) → IsPlain o → AllTight (load_tags f w o)
    unfolding separators ends_open
    load_tags-AllTight o v = elim (Bool-cases (str_eq o.load_schedule (codes "const"))) [
      | inl e ↦ rw e (integer_tag (codes "rps") o.rps (refl, refl), tt)
      | inr e ↦ rw e (
        tag-IsTight (codes "load-schedule") o.load_schedule (refl, refl) v.load_schedule,
        (
          integer_tag (codes "load-start") o.load_start (refl, refl),
          (
            integer_tag (codes "load-end") o.load_end (refl, refl),
            (
              integer_tag (codes "load-step") o.load_step (refl, refl),
              (
                duration_tag (codes "load-step-duration") o.load_step_duration (refl, refl),
                (duration_tag (codes "load-max-duration") o.load_max_duration (refl, refl), tt),
              ),
            ),
          ),
        ),
      )
    ]

    float_tag : (name : Str) (x : F) → IsTight name → IsTight (tag f w name (w.float x))
    float_tag name x h = tag-IsTight name (w.float x) h (tight.floats x)

    time_tags-AllTight : (rep : Report H F) → AllTight (time_tags f w rep)
    unfolding separators ends_open
    time_tags-AllTight rep =
        let o : Options H F = rep.options in
        let payload : Option Str = w.data_json o.payload in
        (
          integer_tag (codes "z") o.duration (refl, refl),
          (
            float_tag (codes "timeout") (seconds ⦃f = f⦄ o.timeout) (refl, refl),
            (
              float_tag (codes "dial_timeout") (seconds ⦃f = f⦄ o.dial_timeout) (refl, refl),
              (
                float_tag (codes "keepalive") (seconds ⦃f = f⦄ o.keepalive_time) (refl, refl),
                (
                  tag-IsTight (codes "data") (clean_influx_string (data_text f w payload))
                      (refl, refl) (clean-IsTight (data_text f w payload) (data_text-ends payload)),
                  (
                    tag-IsTight (codes "metadata") (map_text f w o.metadata) (refl, refl)
                        (map_text-IsTight o.metadata),
                    (
                      tag-IsTight (codes "tags") (map_text f w (entries f w rep.tags)) (refl, refl)
                          (map_text-IsTight (entries f w rep.tags)),
                      tt,
                    ),
                  ),
                ),
              ),
            ),
          ),
        )

    flag-IsTight : (b : Bool) → IsTight (flag b)
    unfolding separators ends_open
    flag-IsTight true = (refl, refl)
    flag-IsTight false = (refl, refl)

    error_tags-AllTight : (b : Bool) (rep : Report H F) → AllTight (error_tags f w b rep)
    unfolding separators ends_open
    error_tags-AllTight false rep = tt
    error_tags-AllTight true rep = (
      integer_tag (codes "errors") (pos (error_count rep.error_dist)) (refl, refl),
      (
        tag-IsTight (codes "has_errors") (flag (ltb 0 (error_count rep.error_dist))) (refl, refl)
            (flag-IsTight (ltb 0 (error_count rep.error_dist))),
        tt,
      ),
    )

    pub get_influx_tags-IsTight :
        (b : Bool) (rep : Report H F) → IsPlain rep.options → IsTight (get_influx_tags f w b rep)
    unfolding get_influx_tags
    get_influx_tags-IsTight b rep v = join-IsTight _ (
        AllTight-append (name_tags f w rep) _ (name_tags-AllTight rep) (
          AllTight-append (proto_tags f w rep.options) _ (proto_tags-AllTight rep.options v) (
            AllTight-append (call_tags f w rep.options) _ (call_tags-AllTight rep.options v) (
              AllTight-append (concurrency_tags f w rep.options) _
                (concurrency_tags-AllTight rep.options v)
                (AllTight-append (load_tags f w rep.options) _ (load_tags-AllTight rep.options v) (
                  AllTight-append (time_tags f w rep) _ (time_tags-AllTight rep)
                    (error_tags-AllTight b rep)))))))
