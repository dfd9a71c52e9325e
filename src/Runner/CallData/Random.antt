-- ===== src/Runner/CallData/Random.antt =====
-- runner/calldata.go, `randomString` and `randomInt`: what they draw is in range.
use ghz.Prelude.{
  ℕ, suc, zero, ◌+◌, ◌-◌, ◌^◌, ◌≤◌, ◌<◌, ◌≡◌, refl, inl, inr, false, [], ◌∷◌, some, arith,
  if◌then◌else◌, Bool-cases, length, get_elem?, get_elem?-some,
}
use ghz.Prelude.Int.{ℤ, pos, negsuc, pos_part, leb_ℤ, ◌+ℤ◌, ◌-ℤ◌, wrap_int64, wrap-pos}
use ghz.Prelude.Text.{Str}
use ghz.Runner.CallData.{
  charset, min_len, max_len, at_least_0, above_0, string_with_charset, random_string, random_int,
}

-- Each character stands in `alphabet`.
abbrev pub AllFrom : Str → Str → Type 0
AllFrom alphabet [] = Unit {0}
AllFrom alphabet (c ∷ s) = ((i : ℕ) × (get_elem? alphabet i ≡ some c)) × AllFrom alphabet s

abbrev pub shortest : ℤ → ℕ
shortest n = if leb_ℤ n (pos 0) then min_len else pos_part n

abbrev pub longest : ℤ → ℕ
longest n = if leb_ℤ n (pos 0) then max_len else pos_part n

-- The bounds that `randomInt` draws between.
abbrev pub low : ℤ → ℕ
low min = pos_part min

abbrev pub high : ℤ → ℕ
high max = if leb_ℤ max (pos 0) then 1 else pos_part max

wrap_minus : (a b : ℕ) → a < b → b < 2 ^ 63 → wrap_int64 (pos b -ℤ pos a) ≡ pos (b - a)
wrap_minus a b h k = ground arith

low_lem : (min : ℤ) → at_least_0 min ≡ pos (low min)
low_lem (pos n) = ground arith
low_lem (negsuc n) = ground arith

high_lem : (max : ℤ) → above_0 max ≡ pos (high max)
high_lem (pos n) = ground arith
high_lem (negsuc n) = ground arith

module _ (intn : ℕ → ℕ → ℕ) (draws : (i n : ℕ) → 0 < n → intn i n < n) where
  string_lem :
      (i n : ℕ)
      → (s : Str) × (string_with_charset intn i n charset ≡ some s)
        × (length s ≡ n)
        × AllFrom charset s
  unfolding string_with_charset
  string_lem i zero = ([], refl, refl, tt)
  string_lem i (suc n) =
      let (s, made, len, from) = string_lem (i + 1) n in
      let at : ℕ = intn i (length charset) in
      let (c, got) = get_elem?-some charset at (draws i (length charset) (omega arith)) in
      (c ∷ s, rw (string_with_charset, made, got), omega (arith, len), ((at, got), from))

  -- `randomString` succeeds on every length: a positive one is the length of the text, any other gives 2 to
  -- 16 characters, and all characters are letters and digits, given a generator that draws below its bound.
  random_string-AllFrom :
      (n : ℤ)
      → (s : Str) × (random_string intn n ≡ some s)
        × (shortest n ≤ length s)
        × (length s ≤ longest n)
        × AllFrom charset s
  unfolding random_string
  random_string-AllFrom n = elim (Bool-cases (leb_ℤ n (pos 0))) [
    | inl e ↦
        let (s, made, len, from) = string_lem 1 (intn 0 (max_len - min_len + 1) + min_len) in
        let drawn : intn 0 (max_len - min_len + 1) < max_len - min_len + 1 =
          draws 0 (max_len - min_len + 1) (omega arith) in
        (
          s,
          rw (random_string, e, made),
          rw e (omega (arith, len)),
          rw e (omega (arith, len, drawn)),
          from,
        )
    | inr o ↦
        let (s, made, len, from) = string_lem 0 (pos_part n) in
        (s, rw (random_string, o, made), rw o (omega (arith, len)), rw o (omega (arith, len)), from)
  ]

  -- `randomInt` gives a number from its least up to, and without, its greatest, when it is given these in
  -- order: a negative least counts as 0, a greatest that is not positive as 1. The generator draws below its
  -- bound.
  random_int-between :
      (min max : ℤ)
      → low min < high max
      → high max < 2 ^ 63
      → (r : ℕ) × (random_int intn min max ≡ some (pos r)) × (low min ≤ r) × (r < high max)
  unfolding random_int
  random_int-between min max h k =
      let span : ℕ = high max - low min in
      let drawn : intn 0 span < span = draws 0 span (omega (arith, h)) in
      let some_span : leb_ℤ (pos span) (pos 0) ≡ false = ground (arith, h) in
      let sum : wrap_int64 (pos (intn 0 span) +ℤ pos (low min)) ≡ pos (intn 0 span + low min) =
        wrap-pos (intn 0 span) (low min) (omega (arith, h, k, drawn)) in
      (
        intn 0 span + low min,
        rw (
          random_int,
          low_lem min,
          high_lem max,
          wrap_minus (low min) (high max) h k,
          some_span,
          sum,
        ),
        omega arith,
        omega (arith, h, drawn),
      )
