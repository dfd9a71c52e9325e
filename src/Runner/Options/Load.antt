-- ===== src/Runner/Options/Load.antt =====
-- runner/config.go, `LoadConfig` and `checkData`; runner/options.go, `WithConfigFromFile`. What decoding the
-- file gives (configor.Load) is a parameter.
pub mod Valid
use ghz.Prelude.{
  ℕ, Bool, true, false, ◌&&◌, ◌||◌, List, [], ◌∷◌, Option, none, some, if◌then◌else◌, not,
}
use ghz.Prelude.Float.{Float64}
use ghz.Prelude.Text.{Str, codes, str_eq, is_empty, to_lower, extension}
use ghz.Runner.Config.{
  ConfigOption, Error, unsupported_data, empty_data_array, unsupported_element, data_key_not_string,
  bad_recv_size, bad_send_size, Result, ok, err, ◌>>=◌,
}
use ghz.Runner.Options.New.{apply_options}
use ghz.Runner.Options.File.{Config, Library, from_config}

-- What the data of a configuration is: nil, a map from texts, a map from any values (a key that is no text
-- is `none`), a list, or something else.
pub data Decoded (H : Type 0) : Type 0 where
  nil : Decoded H
  object : List (Str × H) → Decoded H
  yaml_object : List (Option Str × H) → Decoded H
  array : List H → Decoded H
  scalar : Decoded H

-- The type assertions on a value, and the value that is a map.
pub record Values (H : Type 0) : Type 0 where
  pub view : H → Decoded H
  pub from_map : List (Str × H) → H

abbrev pub is_object : {H : Type 0} → Decoded H → Bool
is_object nil = false
is_object (object m) = true
is_object (yaml_object m) = false
is_object (array xs) = false
is_object scalar = false

abbrev pub is_nil : {H : Type 0} → Decoded H → Bool
is_nil nil = true
is_nil (object m) = false
is_nil (yaml_object m) = false
is_nil (array xs) = false
is_nil scalar = false

-- ".yaml" or ".yml", in any case.
abbrev pub is_yaml : Str → Bool
is_yaml path =
    str_eq (to_lower (extension path)) (codes ".yaml")
    || str_eq (to_lower (extension path)) (codes ".yml")

abbrev pub is_stop : Str → Bool
is_stop s = str_eq s (codes "close") || (str_eq s (codes "ignore") || str_eq s (codes "wait"))

abbrev pub stop_action : Str → Str
stop_action s = if is_stop (to_lower s) then to_lower s else codes "close"

module _ {H : Type 0} (values : Values H) where
  open values use {view, from_map}

  abbrev pub all_objects : List H → Bool
  all_objects [] = true
  all_objects (x ∷ xs) = is_object (view x) && all_objects xs

  abbrev pub check_elements : List H → Result H (Unit {0})
  check_elements [] = err empty_data_array
  check_elements (x ∷ xs) = if all_objects (x ∷ xs) then ok tt else err unsupported_element

  -- `checkData`.
  unfoldable pub check_data : Decoded H → Result H (Unit {0})
  check_data nil = err unsupported_data
  check_data (object m) = ok tt
  check_data (yaml_object m) = err unsupported_data
  check_data (array xs) = check_elements xs
  check_data scalar = err unsupported_data

  -- A map from any values, as one from texts: an empty key is left out.
  unfoldable pub text_keys : List (Option Str × H) → Result H (List (Str × H))
  text_keys [] = ok []
  text_keys ((none, v) ∷ m) = err data_key_not_string
  text_keys ((some k, v) ∷ m) =
      text_keys m >>= λ rest. ok (if is_empty k then rest else (k, v) ∷ rest)

  abbrev pub from_yaml : H → Decoded H → Result H H
  from_yaml v nil = ok v
  from_yaml v (object m) = ok v
  from_yaml v (yaml_object m) = text_keys m >>= λ nd. ok (from_map nd)
  from_yaml v (array xs) = ok v
  from_yaml v scalar = ok v

  abbrev pub converted : Str → H → Result H H
  converted path v = if is_yaml path then from_yaml v (view v) else ok v

  abbrev pub checked : H → Result H H
  checked d = check_data (view d) >>= λ _. ok d

  -- The data of the configuration, checked, with the keys of a YAML file as texts.
  unfoldable pub load_data : Str → H → Result H H
  unfolding check_data text_keys
  load_data path v = if is_nil (view v) then ok v else converted path v >>= checked

  abbrev pub check_size : Library H → Error H → Str → Result H (Unit {0})
  check_size lib e size =
      if is_empty size then ok tt else elim (lib.parse_bytes size) [ none ↦ err e | some n ↦ ok tt ]

  module _ {F : Type 0} (lib : Library H) where
    abbrev pub with_sizes : Config H F → H → Result H (Config H F)
    with_sizes c payload = check_size lib bad_recv_size c.max_call_recv_msg_size >>= λ _.
        check_size lib bad_send_size c.max_call_send_msg_size >>= λ _.
        ok (record c { payload = payload; zstop = stop_action c.zstop })

    -- `LoadConfig` of the file at `path`, with what decoding it gives.
    unfoldable pub load_config : Str → Result H (Config H F) → Result H (Config H F)
    unfolding load_data
    load_config path decoded = decoded >>= λ c. load_data path c.payload >>= with_sizes c

    unfoldable pub with_config_from_file :
        Float64 F → Str → Result H (Config H F) → ConfigOption H F
    unfolding load_config
    with_config_from_file f path decoded o =
        load_config path decoded >>= λ cfg. apply_options (from_config lib f cfg) o
