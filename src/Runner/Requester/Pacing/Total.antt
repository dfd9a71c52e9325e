-- ===== src/Runner/Requester/Pacing/Total.antt =====
-- runner/requester.go, the pacing goroutine of `runWorkers`: which requests it hands out.
use ghz.Prelude.{
  ℕ, zero, suc, ◌+◌, ◌/◌, ◌^◌, ◌≤◌, ◌<◌, ◌≡◌, refl, ◌⊎◌, subst, inl, inr, Bool, true, false, List,
  [], ◌∷◌, arith, Bool-cases, length, ltb,
}
use native.Mathlib.Decide.{dec_lt}
use native.Mathlib.Nat.{mod-eq_of_lt, div-le_self, le-div_iff_mul-le, mul-le-mul_left}
use ghz.Prelude.Int.{ℤ, pos, max_int64, to_uint64}
use ghz.Prelude.Float.{nano}
use ghz.Load.Pacer.{
  Paced, panic, pace, ConstantPacer, pace_constant, interval, delay, expected_hits,
}
use ghz.Load.Pacer.Constant.{interval_lem, interval_pos}
use ghz.Runner.Config.{RunConfig}
use ghz.Runner.Requester.{constant_pacer}
use ghz.Runner.Requester.Pacing.{Round, ended, pacing}

-- The `k` numbers from `h` on.
abbrev pub range_from : ℕ → ℕ → List ℕ
range_from h zero = []
range_from h (suc k) = h ∷ range_from (suc h) k

abbrev pub NoStop : List Round → Type 0
NoStop [] = Unit {0}
NoStop (r ∷ rounds) = (r.stopped ≡ false) × NoStop rounds

Paced-cases : (p : Paced) → (p ≡ panic) ⊎ ((w : ℤ) × (stop : Bool) × (p ≡ pace w stop))
Paced-cases panic = inl refl
Paced-cases (pace w stop) = inr (w, stop, refl)

one : (h : ℕ) → h + 1 ≡ suc h
one h = omega arith

module _ (pacer : ℤ → ℕ → Paced) where
  -- Whatever the pacer and the stop signal do, the requests are numbered without gap or repetition.
  pub pacing_numbers :
      (h : ℕ) (rounds : List Round)
      → (pacing pacer h rounds).0 ≡ range_from h (length (pacing pacer h rounds).0)
  unfolding pacing
  pacing_numbers h [] = refl
  pacing_numbers h (r ∷ rounds) = elim (Paced-cases (pacer r.since h)) [
    | inl e ↦ rw (pacing, e)
    | inr (w, stop, e) ↦ ground (arith, e, pacing_numbers (h + 1) rounds, one h)
  ]

  -- A pacer that sends below `n` hits and stops at `n` has exactly `n` requests made.
  pacing_exact :
      (n : ℕ)
      → ((e : ℤ) (h : ℕ) → h < n → (w : ℤ) × (pacer e h ≡ pace w false))
      → ((e : ℤ) → pacer e n ≡ pace (pos 0) true)
      → (k h : ℕ) (rounds : List Round) → h + k ≡ n
      → NoStop rounds
      → k < length rounds
      → pacing pacer h rounds ≡ (range_from h k, ended)
  unfolding pacing
  pacing_exact n sends stops k h [] e free l = absurd (omega arith)
  pacing_exact n sends stops zero h (r ∷ rounds) e free l =
      let done : h ≡ n = omega arith in rw (done, pacing, stops r.since)
  pacing_exact n sends stops (suc k) h (r ∷ rounds) e free l =
      let (w, goes) = sends r.since h (omega arith) in
      let one : h + 1 ≡ suc h = omega arith in
      rw (
        pacing,
        goes,
        free.0,
        one,
        pacing_exact n sends stops k (suc h) rounds (omega arith) free.1 (omega arith),
      )

room : (i h : ℕ) → 0 < i → i ≤ nano → h < 2 ^ 31 → h ≤ max_int64 / i
room i h p l s = (le-div_iff_mul-le p).1 (omega (arith, mul-le-mul_left h l))

-- Below `Max` a constant pacer of a moderate rate goes on.
constant_goes_on :
    (cp : ConstantPacer) (e : ℤ) (h : ℕ)
    → cp.freq ≤ nano
    → h < cp.max
    → cp.max < 2 ^ 31
    → (w : ℤ) × (pace_constant cp e h ≡ pace w false)
unfolding pace_constant
constant_goes_on cp e h f l s = elim (dec_lt 0 cp.freq) [
  | no z ↦ (pos 0, ground arith)
  | yes p ↦ elim (Bool-cases (ltb h (expected_hits cp e))) [
    | inl late ↦ (pos 0, ground arith)
    | inr early ↦ (
      delay (interval cp) h e,
      ground (
        arith,
        interval_lem cp p f,
        interval_pos cp.freq p f,
        room (nano / cp.freq) h (interval_pos cp.freq p f) (div-le_self nano cp.freq) (omega arith),
      ),
    )
  ]
]

constant_stops :
    (cp : ConstantPacer) (e : ℤ) → 0 < cp.max → pace_constant cp e cp.max ≡ pace (pos 0) true
unfolding pace_constant
constant_stops cp e h = ground arith

module _ {H F : Type 0} (c : RunConfig H F) where
  -- The default load: with a total of `n` requests, from 1 to 2 ^ 31 - 1, a rate of at most 1e9 per second
  -- (0 for no limit), no stop signal, and more than `n` rounds, the run hands out exactly the requests 0,
  -- …, `n - 1` and ends.
  pub constant-total :
      (n r : ℕ) (rounds : List Round)
      → c.n ≡ pos n
      → c.rps ≡ pos r
      → 0 < n
      → n < 2 ^ 31
      → r ≤ nano
      → NoStop rounds
      → n < length rounds
      → pacing (pace_constant (constant_pacer c)) 0 rounds ≡ (range_from 0 n, ended)
  constant-total n r rounds en er some small rate free l =
      let max_is : to_uint64 c.n ≡ n = rw en (mod-eq_of_lt {n = n} {m = 2 ^ 64} (omega arith)) in
      let freq_is : to_uint64 c.rps ≡ r = rw er (mod-eq_of_lt {n = r} {m = 2 ^ 64} (omega arith)) in
      pacing_exact (pace_constant (constant_pacer c)) n
        (λ e h lt.
          constant_goes_on (constant_pacer c) e h (omega (arith, freq_is)) (omega (arith, max_is))
            (omega (arith, max_is)))
        (λ e.
          subst (λ m. pace_constant (constant_pacer c) e m ≡ pace (pos 0) true) max_is
            (constant_stops (constant_pacer c) e (omega (arith, max_is))))
        n 0 rounds (omega arith) free l
