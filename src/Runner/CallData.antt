-- ===== src/Runner/CallData.antt =====
-- runner/calldata.go: the data that a template sees, and the functions that draw at random. `T` stands for
-- `*template.Template`, `H` for a function of a template; `funcs_of` is what `Funcs` does to a template.
pub mod Random
use ghz.Prelude.{
  ℕ, zero, suc, length, ◌+◌, ◌-◌, ◌/◌, Bool, List, [], ◌∷◌, Option, none, some, if◌then◌else◌, ltb,
  leb, get_elem?,
}
use ghz.Prelude.Int.{ℤ, pos, pos_part, quot_ℤ, ltb_ℤ, leb_ℤ, ◌+ℤ◌, ◌-ℤ◌, wrap_int64}
use ghz.Prelude.Text.{Str, codes}

-- A method as the data names it.
pub record MethodNames : Type 0 where
  pub fully_qualified_name : Str
  pub method_name : Str
  pub service_name : Str
  pub input_name : Str
  pub output_name : Str
  pub is_client_streaming : Bool
  pub is_server_streaming : Bool

-- What a call reads from the clock and the generator: `now.UnixNano()`, its `time.RFC3339` text, a UUID.
pub record Moment : Type 0 where
  pub unix_nano : ℤ
  pub unix : ℤ
  pub rfc3339 : Str
  pub uuid : Str

pub record CallData (T : Type 0) : Type 0 where
  pub worker_id : Str
  pub request_number : ℤ
  pub fully_qualified_name : Str
  pub method_name : Str
  pub service_name : Str
  pub input_name : Str
  pub output_name : Str
  pub is_client_streaming : Bool
  pub is_server_streaming : Bool
  pub timestamp : Str
  pub timestamp_unix : ℤ
  pub timestamp_unix_milli : ℤ
  pub timestamp_unix_nano : ℤ
  pub uuid : Str
  pub t : Option T

module _ {T H : Type 0} (new_template : T) (standard : T → T)
    (funcs_of : List (Str × H) → T → T) where
  -- The template, and the functions it may call: the own ones, then the caller's.
  unfoldable pub template_of : Bool → Bool → List (Str × H) → Option T
  template_of with_funcs with_template_data funcs =
      if with_template_data
      then some (
          if with_funcs
          then (elim funcs [
            | [] ↦ standard new_template
            | f ∷ fs ↦ funcs_of (f ∷ fs) (standard new_template)
          ])
          else new_template)
      else none

  unfoldable pub new_call_data :
      MethodNames → Str → ℤ → Bool → Bool → List (Str × H) → Moment → CallData T
  unfolding template_of
  new_call_data mtd worker_id req_num with_funcs with_template_data funcs now = record {
    worker_id = worker_id;
    request_number = req_num;
    fully_qualified_name = mtd.fully_qualified_name;
    method_name = mtd.method_name;
    service_name = mtd.service_name;
    input_name = mtd.input_name;
    output_name = mtd.output_name;
    is_client_streaming = mtd.is_client_streaming;
    is_server_streaming = mtd.is_server_streaming;
    timestamp = now.rfc3339;
    timestamp_unix = now.unix;
    timestamp_unix_milli = quot_ℤ now.unix_nano (pos 1_000_000);
    timestamp_unix_nano = now.unix_nano;
    uuid = now.uuid;
    t = template_of with_funcs with_template_data funcs;
  }

unfoldable pub regenerate : {T : Type 0} → CallData T → Moment → CallData T
regenerate td now = record td {
  timestamp = now.rfc3339;
  timestamp_unix = now.unix;
  timestamp_unix_milli = quot_ℤ now.unix_nano (pos 1_000_000);
  timestamp_unix_nano = now.unix_nano;
  uuid = now.uuid;
}

abbrev pub charset : Str
charset = codes "abcdefghijklmnopqrstuvwxyzABCDEFGHIJKLMNOPQRSTUVWXYZ0123456789"

abbrev pub max_len : ℕ
max_len = 16

abbrev pub min_len : ℕ
min_len = 2

-- The bounds of `randomInt`.
abbrev pub at_least_0 : ℤ → ℤ
at_least_0 min = if ltb_ℤ min (pos 0) then pos 0 else min

abbrev pub above_0 : ℤ → ℤ
above_0 max = if leb_ℤ max (pos 0) then pos 1 else max

-- `rng.Intn n` at the `i`-th draw is `intn i n`; it panics when `n` is not positive.
module _ (intn : ℕ → ℕ → ℕ) where
  -- The characters from the draw `i` on; `none` is an index out of range.
  unfoldable pub string_with_charset : ℕ → ℕ → Str → Option Str
  string_with_charset i zero chars = some []
  string_with_charset i (suc n) chars = elim (string_with_charset (i + 1) n chars) [
    | none ↦ none
    | some s ↦ elim (get_elem? chars (intn i (length chars))) [
      | none ↦ none
      | some c ↦ some (c ∷ s)
    ]
  ]

  unfoldable pub random_string : ℤ → Option Str
  unfolding string_with_charset
  random_string n =
      if leb_ℤ n (pos 0)
      then string_with_charset 1 (intn 0 (max_len - min_len + 1) + min_len) charset
      else string_with_charset 0 (pos_part n) charset

  -- `none` is the panic of `Intn`.
  unfoldable pub random_int : ℤ → ℤ → Option ℤ
  random_int min max =
      let lo = at_least_0 min in
      let span = wrap_int64 (above_0 max -ℤ lo) in
      if leb_ℤ span (pos 0) then none else some (wrap_int64 (pos (intn 0 (pos_part span)) +ℤ lo))
