-- ===== src/Printer/Values.antt =====
-- printer/printer.go, the functions that templates call on a value. How a number is written (`fmt`), JSON,
-- base64 and the columns of a table (`text/tabwriter`) are parameters; a map is written in its order.
use ghz.Prelude.{ℕ, Bool, List, [], ◌∷◌, ◌++◌, Option, none, some, if◌then◌else◌}
use ghz.Prelude.Int.{ℤ, pos, ltb_ℤ}
use ghz.Prelude.Float.{Float64}
use ghz.Prelude.Text.{Str, codes}
use ghz.Runner.Reporter.{Tally, ResultDetail}
use ghz.Printer.Formats.{Encoders, generate_parquet_bytes}

module _ {F : Type 0} (f : Float64 F) (integer : ℤ → Str) (places : ℕ → ℕ → F → Str) where
  abbrev pub thousand : F
  thousand = f.of_uint64 1000

  -- `places` has the least width and the precision.
  abbrev pub format_seconds : F → Str
  format_seconds duration = places 4 2 duration

  abbrev pub format_milli : F → Str
  format_milli duration = places 4 2 (f.mul duration thousand)

  abbrev pub format_percent : ℤ → ℕ → Str
  format_percent num total =
      places 0 2 (f.mul (f.div (f.of_int64 num) (f.of_uint64 total)) (f.of_uint64 100))

  unfoldable pub format_nano_unit : ℤ → Str
  format_nano_unit d =
      let val_ms = f.div (f.of_int64 d) (f.of_uint64 1_000_000) in
      if ltb_ℤ d (pos 10_000)
      then integer d ++ codes " ns"
      else if f.lt val_ms thousand
      then places 4 2 val_ms ++ codes " ms"
      else places 4 2 (f.div val_ms thousand) ++ codes " s"

  unfoldable pub format_mark_ms : F → Str
  format_mark_ms m =
      let m_ms = f.mul m thousand in
      if f.lt m_ms (f.of_uint64 1)
      then codes "'" ++ (places 4 4 m_ms ++ codes " ms'")
      else codes "'" ++ (places 4 2 m_ms ++ codes " ms'")

-- What `jsonify` gives for a value that does not marshal is the empty text.
abbrev pub jsonify : {V : Type 0} → (V → Option Str) → (Str → Option Str) → V → Bool → Str
jsonify marshal indent v pretty = elim (marshal v) [
  | none ↦ if pretty then (elim (indent []) [ none ↦ [] | some t ↦ t ]) else []
  | some d ↦ if pretty then (elim (indent d) [ none ↦ d | some t ↦ t ]) else d
]

module _ (integer : ℤ → Str) (columns : Str → Str) where
  abbrev pub status_rows : Tally → Str
  status_rows [] = []
  status_rows ((status, count) ∷ m) =
      codes "  ["
      ++ (status
          ++ (codes "]"
              ++ 9 ∷ integer (pos count)
              ++ (codes " responses" ++ 9 ∷ 10 ∷ status_rows m)))

  abbrev pub error_rows : Tally → Str
  error_rows [] = []
  error_rows ((status, count) ∷ m) =
      codes "  [" ++ (integer (pos count) ++ (codes "]" ++ 9 ∷ status ++ 9 ∷ 10 ∷ error_rows m))

  abbrev pub format_status_code : Tally → Str
  format_status_code m = columns (status_rows m)

  abbrev pub format_error_dist : Tally → Str
  format_error_dist m = columns (error_rows m)

module _ {H F : Type 0} (encoders : Encoders H F) where
  abbrev pub parquetify : (Str → Str) → List ResultDetail → Option Str
  parquetify base64 details = elim (generate_parquet_bytes encoders details) [
    | none ↦ none
    | some bytes ↦ some (base64 bytes)
  ]
