-- ===== src/Printer/Text/Widths.antt =====
-- printer/printer.go, `histogram`, on the labels that `Histogram` of runner/reporter.go sets: each label and
-- each count fits its column.
use ghz.Prelude.{
  ℕ, ◌-◌, ◌≤◌, ◌≡◌, refl, subst, inl, inr, true, false, List, [], ◌∷◌, ◌++◌, Option, none, some,
  if◌then◌else◌, length, replicate, arith, Bool-cases,
}
use native.Mathlib.Nat.{le_trans}
use ghz.Prelude.Float.{Float64}
use ghz.Prelude.Text.{Str}
use ghz.Runner.Reporter.Histogram.{Bucket}
use ghz.Printer.Text.{
  pad, max, max_count, max_mark, alternative_marks, last_len, max_mark_len, bucket_text,
  bucket_line, bucket_lines, histogram,
}
use ghz.Printer.Text.Bars.{AllMarked, AllMarked-map, all_counts}

pad-fits : (width used : ℕ) → used ≤ width → (a : Str) × (pad width used ≡ some a)
pad-fits width used h = (replicate (width - used) 32, ground (arith, h))

max-left : (a b : ℕ) → a ≤ max a b
max-left a b = ground arith

max-right : (a b : ℕ) → b ≤ max a b
max-right a b = ground arith

module _ {F : Type 0} (f : Float64 F) (format_mark : F → Str) (format_count : ℕ → Str) where
  -- The bucket fits columns of these widths.
  abbrev pub Fits : ℕ → ℕ → Bucket F × Str → Type 0
  Fits mark_len count_len e =
      (length e.1 ≤ mark_len) × (length (format_count e.0.count) ≤ count_len)

  bucket_line-Fits :
      (mark_len count_len most : ℕ) (e : Bucket F × Str)
      → Fits mark_len count_len e
      → (line : Str) × (bucket_line f format_mark format_count mark_len count_len most e
          ≡ some line)
  unfolding bucket_line
  bucket_line-Fits mark_len count_len most e h =
      let a = pad-fits mark_len (length e.1) h.0 in
      let b = pad-fits count_len (length (format_count e.0.count)) h.1 in
      (bucket_text f format_mark format_count most e a.0 b.0, rw (bucket_line, pad, a.1, b.1) refl)

  bucket_lines-Fits :
      (mark_len count_len most : ℕ) (es : List (Bucket F × Str))
      → AllMarked (Fits mark_len count_len) es
      → (lines : Str) × (bucket_lines f format_mark format_count mark_len count_len most es
          ≡ some lines)
  unfolding bucket_lines
  bucket_lines-Fits mark_len count_len most [] h = ([], refl)
  bucket_lines-Fits mark_len count_len most (e ∷ es) h =
      let l = bucket_line-Fits mark_len count_len most e h.0 in
      let ls = bucket_lines-Fits mark_len count_len most es h.1 in
      (l.0 ++ ls.0, rw (bucket_lines, l.1, ls.1) refl)

  -- A label that is no mark of its own is the last one, which the column's width takes in.
  labels_fit :
      (tail : Option Str) (vs : List (Bucket F)) (w n : ℕ)
      → AllMarked (λ e. length (format_mark e.0.mark) ≤ w) (alternative_marks f format_mark tail vs)
      → last_len f format_mark n (alternative_marks f format_mark tail vs) ≤ w
      → AllMarked (λ e. length e.1 ≤ w) (alternative_marks f format_mark tail vs)
  unfolding alternative_marks
  labels_fit tail [] w n h l = tt
  labels_fit none (v ∷ vs) w n h l = (h.0, labels_fit none vs w (length (format_mark v.mark)) h.1 l)
  labels_fit (some t) (v ∷ []) w n h l = (l, tt)
  labels_fit (some t) (v ∷ u ∷ vs) w n h l =
      (h.0, labels_fit (some t) (u ∷ vs) w (length (format_mark v.mark)) h.1 l)

  -- `IsMark` are the numbers that marks are, finite and not below 0, of which a greater one has no shorter
  -- text; a greater count has no shorter text.
  pub record IsMonotone (IsMark : F → Type 0) : Type 0 where
    pub zero : IsMark (f.of_uint64 0)
    pub less :
        (x y : F)
        → IsMark x
        → IsMark y
        → f.lt x y ≡ true
        → length (format_mark x) ≤ length (format_mark y)
    pub not_less :
        (x y : F)
        → IsMark x
        → IsMark y
        → f.lt x y ≡ false
        → length (format_mark y) ≤ length (format_mark x)
    pub counts : (m n : ℕ) → m ≤ n → length (format_count m) ≤ length (format_count n)

  module _ (IsMark : F → Type 0) (mono : IsMonotone IsMark) where
    -- No mark of the list has a longer text than `x`, and neither has the mark before it.
    NoLonger : F → List (Bucket F × Str) → F → Type 0
    NoLonger m es x =
        (length (format_mark m) ≤ length (format_mark x))
        × AllMarked (λ e. length (format_mark e.0.mark) ≤ length (format_mark x)) es

    max_mark-ge :
        (es : List (Bucket F × Str)) (m : F)
        → IsMark m
        → AllMarked (λ e. IsMark e.0.mark) es
        → NoLonger m es (max_mark f m es)
    unfolding max_mark NoLonger
    max_mark-ge [] m h k = (omega arith, tt)
    max_mark-ge (e ∷ es) m h k = elim (Bool-cases (f.lt m e.0.mark)) [
      | inl b ↦
          let ih = max_mark-ge es e.0.mark k.0 k.1 in
          let l = mono.less m e.0.mark h k.0 b in
          let same : e.0.mark ≡ (if f.lt m e.0.mark then e.0.mark else m) = rw b refl in
          subst (λ x. NoLonger m (e ∷ es) (max_mark f x es)) same
            (omega (arith, ih.0, l), (ih.0, ih.1))
      | inr b ↦
          let ih = max_mark-ge es m h k.1 in
          let l = mono.not_less m e.0.mark h k.0 b in
          let same : m ≡ (if f.lt m e.0.mark then e.0.mark else m) = rw b refl in
          subst (λ x. NoLonger m (e ∷ es) (max_mark f x es)) same
            (ih.0, (omega (arith, ih.0, l), ih.1))
    ]

    abbrev pub AllMarks : List (Bucket F) → Type 0
    AllMarks [] = Unit {0}
    AllMarks (v ∷ vs) = IsMark v.mark × AllMarks vs

    marked :
        (tail : Option Str) (vs : List (Bucket F))
        → AllMarks vs
        → AllMarked (λ e. IsMark e.0.mark) (alternative_marks f format_mark tail vs)
    unfolding alternative_marks
    marked tail [] h = tt
    marked none (v ∷ vs) h = (h.0, marked none vs h.1)
    marked (some t) (v ∷ []) h = (h.0, tt)
    marked (some t) (v ∷ u ∷ vs) h = (h.0, marked (some t) (u ∷ vs) h.1)

    both_fit :
        (mark_len count_len : ℕ) (es : List (Bucket F × Str))
        → AllMarked (λ e. length e.1 ≤ mark_len) es
        → AllMarked (λ e. length (format_count e.0.count) ≤ count_len) es
        → AllMarked (Fits mark_len count_len) es
    both_fit mark_len count_len [] h k = tt
    both_fit mark_len count_len (e ∷ es) h k = ((h.0, k.0), both_fit mark_len count_len es h.1 k.1)

    -- On the labels that the report has, with or without one for the tail, the histogram is written:
    -- no number of spaces is negative, so `strings.Repeat` does not panic. The marks are finite and not
    -- below 0, and of those a greater one, like a greater count, has no shorter text.
    pub histogram-alternative_marks :
        (tail : Option Str) (vs : List (Bucket F))
        → AllMarks vs
        → (text : Str) × (histogram f format_mark format_count
              (alternative_marks f format_mark tail vs)
            ≡ some text)
    unfolding histogram max_mark_len NoLonger
    histogram-alternative_marks tail vs h =
        let es = alternative_marks f format_mark tail vs in
        let top = length (format_mark (max_mark f (f.of_uint64 0) es)) in
        let last = last_len f format_mark 0 es in
        let marks = max_mark-ge es (f.of_uint64 0) mono.zero (marked tail vs h) in
        bucket_lines-Fits (max_mark_len f format_mark es) (length (format_count (max_count 0 es)))
          (max_count 0 es) es
          (both_fit _ _ es
            (labels_fit tail vs (max top last) 0
              (AllMarked-map es (λ e l. le_trans l (max-left top last)) marks.1)
              (max-right top last))
            (AllMarked-map es (λ e l. mono.counts e.0.count (max_count 0 es) l) (all_counts es 0)))
