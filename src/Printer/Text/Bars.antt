-- ===== src/Printer/Text/Bars.antt =====
-- printer/printer.go, `histogram`: the lengths of the bars.
use ghz.Prelude.{
  ℕ, suc, ◌+◌, ◌*◌, ◌/◌, ◌≤◌, ◌<◌, ◌≡◌, ap, ◌∙◌, inl, inr, ◌⊎◌, List, [], ◌∷◌, ltb, if◌then◌else◌,
  arith,
}
use native.Mathlib.Nat.{le_antisymm}
use ghz.Prelude.Text.{Str}
use ghz.Runner.Reporter.Histogram.{Bucket}
use ghz.Printer.Text.{bar_len, max_count}

div-le : (n m k : ℕ) → 0 < m → n < suc k * m → n / m ≤ k
div-le n m k h l = grind arith

le-div : (m k r : ℕ) → 0 < m → k ≤ (m * k + r) / m
le-div m k r h = grind arith

div_mono : (n o m : ℕ) → 0 < m → n ≤ o → n / m ≤ o / m
div_mono n o m h l = grind arith

bar_len_lem : (m n : ℕ) → 0 < m → bar_len m n ≡ (n * 40 + m / 2) / m
unfolding bar_len
bar_len_lem m n h = ground arith

bar_len_zero : (m n : ℕ) → m ≡ 0 → bar_len m n ≡ 0
unfolding bar_len
bar_len_zero m n h = ground arith

zero-or-pos : (m : ℕ) → (m ≡ 0) ⊎ (0 < m)
zero-or-pos m = ground arith

bar-le : (m n : ℕ) → n ≤ m → bar_len m n ≤ 40
bar-le m n h = elim (zero-or-pos m) [
  | inl z ↦ rw (bar_len_zero m n z) (omega arith)
  | inr p ↦ rw (bar_len_lem m n p) (div-le (n * 40 + m / 2) m 40 p (omega arith))
]

bar-full : (m : ℕ) → 0 < m → bar_len m m ≡ 40
bar-full m p =
    rw (bar_len_lem m m p)
      (le_antisymm (div-le (m * 40 + m / 2) m 40 p (omega arith)) (le-div m 40 (m / 2) p))

bar_mono : (m n o : ℕ) → n ≤ o → bar_len m n ≤ bar_len m o
bar_mono m n o h = elim (zero-or-pos m) [
  | inl z ↦ rw (bar_len_zero m n z) (omega arith)
  | inr p ↦
      rw (bar_len_lem m n p, bar_len_lem m o p)
        (div_mono (n * 40 + m / 2) (o * 40 + m / 2) m p (omega arith))
]

module _ {F : Type 0} where
  max_count-ge : (es : List (Bucket F × Str)) (n : ℕ) → n ≤ max_count n es
  unfolding max_count
  max_count-ge [] n = omega arith
  max_count-ge (e ∷ es) n = ground (arith, max_count-ge es e.0.count, max_count-ge es n)

  -- Every bucket of the list has the property.
  abbrev pub AllMarked : (Bucket F × Str → Type 0) → List (Bucket F × Str) → Type 0
  AllMarked P [] = Unit {0}
  AllMarked P (e ∷ es) = P e × AllMarked P es

  pub all_counts :
      (es : List (Bucket F × Str)) (n : ℕ) → AllMarked (λ e. e.0.count ≤ max_count n es) es
  unfolding max_count
  all_counts [] n = tt
  all_counts (e ∷ es) n =
      let m = if ltb n e.0.count then e.0.count else n in
      (ground (arith, max_count-ge es m), all_counts es m)

  pub AllMarked-map :
      {P Q : Bucket F × Str → Type 0} (es : List (Bucket F × Str))
      → ((e : Bucket F × Str) → P e → Q e)
      → AllMarked P es
      → AllMarked Q es
  AllMarked-map [] h a = tt
  AllMarked-map (e ∷ es) h a = (h e a.0, AllMarked-map es h a.1)

  pub AllMarked-all :
      {P : Bucket F × Str → Type 0} (es : List (Bucket F × Str))
      → ((e : Bucket F × Str) → P e)
      → AllMarked P es
  AllMarked-all [] h = tt
  AllMarked-all (e ∷ es) h = (h e, AllMarked-all es h)

  -- Where `most` is the greatest count: a bucket's bar is at most 40 long, it is 40 long if the count is the
  -- greatest one and not 0, and no bucket with a lower count has a longer one.
  abbrev pub IsScaled : List (Bucket F × Str) → ℕ → Bucket F × Str → Type 0
  IsScaled es most e =
      (bar_len most e.0.count ≤ 40)
      × (0 < most → e.0.count ≡ most → bar_len most e.0.count ≡ 40)
      × AllMarked (λ d. d.0.count ≤ e.0.count → bar_len most d.0.count ≤ bar_len most e.0.count) es

  -- Every bucket's bar in the histogram is scaled to the greatest count of the list.
  bar_len-IsScaled : (es : List (Bucket F × Str)) → AllMarked (IsScaled es (max_count 0 es)) es
  bar_len-IsScaled es =
      AllMarked-map es
        (λ e h. (
          bar-le (max_count 0 es) e.0.count h,
          λ p same. ap (bar_len (max_count 0 es)) same ∙ bar-full (max_count 0 es) p,
          AllMarked-all es (λ d. bar_mono (max_count 0 es) d.0.count e.0.count),
        ))
        (all_counts es 0)
