-- ===== src/Examples/Data.antt =====
-- runner/data.go and runner/reporter.go: messages from data, and a report.
use ghz.Prelude.{
  ℕ, ◌*◌, ◌≡◌, refl, inl, inr, false, List, [], ◌∷◌, none, some, Option, arith, get_elem?,
}
use ghz.Prelude.Text.{Str, codes}
use ghz.Prelude.Int.{pos}
use ghz.Prelude.Float.{Fixed, fixed_float}
use ghz.Runner.Config.{RunConfig, initial, Result, ok, err, call_required}
use ghz.Runner.Payloads.{
  Codec, Decoded, decoded, at_end, create_payloads_from_bin, create_payloads_from_json,
}
use ghz.Runner.Payloads.Delimited.{create_payloads_from_bin-encode_all}
use ghz.Runner.Reporter.{ResultDetail, Reporter, new_reporter}
use ghz.Runner.Reporter.Histogram.{rank}
use ghz.Runner.Reporter.Finalize.{Report, finalize}
use ghz.Runner.Reporter.Finalize.Totals.{AddsUp, finalize-AddsUp}
use ghz.Runner.Provider.{DataProvider, fetched, get_data_for_call}
use ghz.Runner.Provider.Cache.{IsArray, get_data_for_call-IsArray}

abbrev first_byte : Str → Decoded ℕ ℕ
first_byte [] = at_end
first_byte (c ∷ s) = decoded c s

abbrev one_byte : Str → Result ℕ ℕ
one_byte [] = err call_required
one_byte (c ∷ s) = ok c

abbrev no_objects : Str → Result ℕ (List Str)
no_objects s = ok []

abbrev as_text : Str → Result ℕ Str
as_text s = ok s

-- A message is one byte.
abbrev bytes : Codec ℕ Str ℕ
bytes = record {
  parse_array = no_objects;
  marshal_object = as_text;
  parse_message = one_byte;
  unmarshal = one_byte;
  decode_message = first_byte;
}

abbrev byte : ℕ → Str
byte m = m ∷ []

create_payloads_from_bin-encode_all_example :
    create_payloads_from_bin bytes (3 ∷ 1 ∷ 2 ∷ []) ≡ some (ok (3 ∷ 1 ∷ 2 ∷ []))
create_payloads_from_bin-encode_all_example =
    create_payloads_from_bin-encode_all bytes byte refl (λ m rest. refl) (λ m. omega arith) 3
      (1 ∷ 2 ∷ [])

-- Two elements, the second of them cached.
abbrev provider : DataProvider ℕ
provider = record {
  binary = false;
  payload = codes "[a,b]";
  client_streaming = false;
  data_func = none;
  array = codes "a" ∷ codes "b" ∷ [];
  has_actions = false;
  cached = none ∷ some 98 ∷ [];
}

provider-IsArray : IsArray bytes (97 ∷ 98 ∷ []) provider
unfolding create_payloads_from_json
provider-IsArray = record {
  json = refl;
  unary = refl;
  static = refl;
  agrees = (refl, inl refl, (refl, inr refl, tt));
}

get_data_for_call-IsArray_example :
    (m : ℕ) × (after : DataProvider ℕ) × (get_elem? (97 ∷ 98 ∷ []) 0 ≡ some m)
    × (get_data_for_call bytes none 4 provider ≡ fetched (some m ∷ []) after)
    × IsArray bytes (97 ∷ 98 ∷ []) after
get_data_for_call-IsArray_example =
    get_data_for_call-IsArray bytes none 4 provider (97 ∷ 98 ∷ []) provider-IsArray (omega arith)

-- Two of three results came back, in 5 and 9 seconds.
abbrev detail : ℕ → Str → ResultDetail
detail d e = record {
  timestamp = pos 1;
  latency = pos (d * 1_000_000_000);
  error = e;
  status = codes "OK";
  request_payload = [];
  response_payload = [];
}

abbrev counts : Reporter Fixed
counts = record (new_reporter 0 (pos 10)) {
  details = detail 5 [] ∷ detail 2 (codes "lost") ∷ detail 9 [] ∷ [];
  total_count = 3;
}

abbrev config : RunConfig ℕ Fixed
config = initial (pos 4) 0

abbrev as_is : List Fixed → List Fixed
as_is xs = xs

abbrev no_value : Str → Option ℕ
no_value s = none

abbrev no_map : Str → Option (List (Str × Str))
no_map s = none

finalize-AddsUp_example :
    (rep : Report ℕ Fixed) × (finalize fixed_float as_is no_value no_map config counts
        (codes "normal")
        (pos 20)
        (pos 1)
      ≡ some rep)
    × AddsUp fixed_float 2 3 counts.details rep
unfolding initial new_reporter rank
finalize-AddsUp_example =
    finalize-AddsUp fixed_float as_is no_value no_map config counts (codes "normal") (pos 20)
      (pos 1) (λ xs. refl) (omega arith)
      (
        omega arith,
        (
          omega arith,
          (omega arith, (omega arith, (omega arith, (omega arith, (omega arith, tt))))),
        ),
      )
