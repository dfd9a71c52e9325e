-- ===== src/Printer/Text.antt =====
-- printer/printer.go: the report as text, and in files. The templates, the encoder of JSON and the encoder
-- of parquet are parameters, and so is how numbers are written. All marks and counts are written in ASCII.
pub mod Bars
pub mod Widths
use ghz.Prelude.{
  ℕ, zero, suc, ◌+◌, ◌-◌, ◌*◌, ◌/◌, Bool, true, false, List, [], ◌∷◌, ◌++◌, Option, none, some, ltb,
  leb, if◌then◌else◌, length, replicate,
}
use ghz.Prelude.Float.{Float64}
use ghz.Prelude.Text.{Str, codes, is_empty, str_eq}
use ghz.Runner.Reporter.Histogram.{Bucket}

abbrev pub bar_char : ℕ
bar_char = 0x220e

-- `strings.Repeat(" ", width-used)`; `none` is its panic on a negative count.
abbrev pub pad : ℕ → ℕ → Option Str
pad width used = if leb used width then some (replicate (width - used) 32) else none

abbrev pub max : ℕ → ℕ → ℕ
max a b = if leb a b then b else a

-- The length of a bar, `count*40` being below 2 ^ 63.
unfoldable pub bar_len : ℕ → ℕ → ℕ
bar_len max_count count = if ltb 0 max_count then (count * 40 + max_count / 2) / max_count else 0

-- A bucket stands with its `AlternativeMark`.
module _ {F : Type 0} where
  unfoldable pub max_count : ℕ → List (Bucket F × Str) → ℕ
  max_count n [] = n
  max_count n (e ∷ es) = max_count (if ltb n e.0.count then e.0.count else n) es

  module _ (f : Float64 F) where
    unfoldable pub max_mark : F → List (Bucket F × Str) → F
    max_mark m [] = m
    max_mark m (e ∷ es) = max_mark (if f.lt m e.0.mark then e.0.mark else m) es

    -- How a mark is written, `%.3f` of its thousandfold, and how a count is.
    module _ (format_mark : F → Str) where
      -- The label of the last bucket, and the labels of all, as `Histogram` of runner/reporter.go sets them.
      abbrev pub tail_mark : F → F → F → Str
      tail_mark tail_percentile tail_percentile_value slowest =
          codes ">="
          ++ ((if f.eq tail_percentile_value (f.div (f.of_uint64 999) (f.of_uint64 10))
                then codes "P99.9"
                else codes "P99")
              ++ (codes " ["
                  ++ (format_mark tail_percentile
                      ++ (codes "-" ++ (format_mark slowest ++ codes "]")))))

      unfoldable pub alternative_marks : Option Str → List (Bucket F) → List (Bucket F × Str)
      alternative_marks tail [] = []
      alternative_marks none (v ∷ vs) = (v, format_mark v.mark) ∷ alternative_marks none vs
      alternative_marks (some t) (v ∷ []) = (v, t) ∷ []
      alternative_marks (some t) (v ∷ u ∷ vs) =
          (v, format_mark v.mark) ∷ alternative_marks (some t) (u ∷ vs)

      abbrev pub last_len : ℕ → List (Bucket F × Str) → ℕ
      last_len n [] = n
      last_len n (e ∷ es) = last_len (length e.1) es

      unfoldable pub max_mark_len : List (Bucket F × Str) → ℕ
      unfolding max_mark
      max_mark_len buckets =
          max (length (format_mark (max_mark (f.of_uint64 0) buckets))) (last_len 0 buckets)

      module _ (format_count : ℕ → Str) where
        -- One line, with the two paddings, and in columns of the given widths.
        abbrev pub bucket_text : ℕ → (Bucket F × Str) → Str → Str → Str
        bucket_text most e a b =
            codes "  "
            ++ (e.1
                ++ (a
                    ++ (codes " ["
                        ++ (format_count e.0.count
                            ++ (codes "]"
                                ++ (b
                                    ++ (codes " |"
                                        ++ (replicate (bar_len most e.0.count) bar_char
                                            ++ 10 ∷ []))))))))

        unfoldable pub bucket_line : ℕ → ℕ → ℕ → (Bucket F × Str) → Option Str
        unfolding bar_len
        bucket_line mark_len count_len most e = elim (pad mark_len (length e.1)) [
          | none ↦ none
          | some a ↦ elim (pad count_len (length (format_count e.0.count))) [
            | none ↦ none
            | some b ↦ some (bucket_text most e a b)
          ]
        ]

        unfoldable pub bucket_lines : ℕ → ℕ → ℕ → List (Bucket F × Str) → Option Str
        unfolding bucket_line
        bucket_lines mark_len count_len most [] = some []
        bucket_lines mark_len count_len most (e ∷ es) =
            let rest = bucket_lines mark_len count_len most es in
            elim (bucket_line mark_len count_len most e) [
              | none ↦ none
              | some line ↦ elim rest [ none ↦ none | some lines ↦ some (line ++ lines) ]
            ]

        unfoldable pub histogram : List (Bucket F × Str) → Option Str
        unfolding max_count max_mark_len bucket_lines
        histogram buckets =
            bucket_lines (max_mark_len buckets) (length (format_count (max_count 0 buckets)))
              (max_count 0 buckets) buckets
