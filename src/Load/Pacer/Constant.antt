-- ===== src/Load/Pacer/Constant.antt =====
-- load/pacer.go, `ConstantPacer`: the schedule that `Pace` keeps, and where it panics.
use ghz.Prelude.{
  ℕ, ◌%◌, ◌^◌, ◌/◌, ◌*◌, ◌+◌, ◌≤◌, ◌<◌, ◌≡◌, ◌≢◌, ◌∙◌, ap, Bool, false, arith, ltb, leb, ◌&&◌,
}
use native.Mathlib.Nat.{
  mod-eq_of_lt, div-le_self, mod-le, mul-le-mul_left, mul-le-mul_right, le-div_iff_mul-le,
  div-eq_of_lt, div-mul-le_self,
}
use ghz.Prelude.Int.{ℤ, pos, pos_part, ◌+ℤ◌, to_int64, to_uint64, quot_ℤ, to_int64_small, wrap-sub}
use ghz.Prelude.Float.{nano}
use ghz.Load.Pacer.{panic, pace, ConstantPacer, expected_hits, interval, delay, pace_constant}

-- What `Pace` asks for before it computes a wait: more than `Max` hits are never sent.
abbrev pub spent : ConstantPacer → ℕ → Bool
spent cp hits = ltb 0 cp.max && leb cp.max hits

pub interval_lem :
    (cp : ConstantPacer) → 0 < cp.freq → cp.freq ≤ nano → interval cp ≡ nano / cp.freq
unfolding interval
interval_lem cp h k =
    ap (λ z. to_uint64 (quot_ℤ (pos nano) z)) (to_int64_small cp.freq (omega arith))
    ∙ mod-eq_of_lt (omega (arith, div-le_self nano cp.freq))

pub interval_pos : (n : ℕ) → 0 < n → n ≤ nano → 0 < nano / n
interval_pos n h k = (le-div_iff_mul-le h).1 (omega arith)

interval_zero : (cp : ConstantPacer) → nano < cp.freq → cp.freq < 2 ^ 63 → interval cp ≡ 0
unfolding interval
interval_zero cp h k =
    ap (λ z. to_uint64 (quot_ℤ (pos nano) z)) (to_int64_small cp.freq k) ∙ rw (div-eq_of_lt h)

-- A pacer that runs behind is at least `hits + 1` intervals into the run.
behind :
    (cp : ConstantPacer) (e hits : ℕ)
    → hits < expected_hits cp (pos e)
    → (hits + 1) * (nano / cp.freq) ≤ e
unfolding expected_hits
behind cp e hits h =
    let q : ℕ = e / nano in
    let late : hits + 1 ≤ cp.freq * q = omega (
      arith,
      mod-le (cp.freq * (q % 2 ^ 64)) (2 ^ 64),
      mul-le-mul_left cp.freq (mod-le q (2 ^ 64)),
    ) in
    omega (
      arith,
      mul-le-mul_right (nano / cp.freq) late,
      mul-le-mul_right q (div-mul-le_self nano cp.freq),
      div-mul-le_self e nano,
    )

word : (n : ℕ) → n < 2 ^ 63 → to_int64 (n % 2 ^ 64) ≡ pos n
word n h = rw (mod-eq_of_lt {n = n} {m = 2 ^ 64} (omega arith)) (to_int64_small n h)

delay_lem :
    (step hits e : ℕ)
    → hits < 2 ^ 63
    → (hits + 1) * step < 2 ^ 63
    → e < 2 ^ 63
    → pos e +ℤ delay step hits (pos e) ≡ pos ((hits + 1) * step)
unfolding delay
delay_lem step hits e k h l =
    rw (mod-eq_of_lt {n = hits + 1} {m = 2 ^ 64} (omega arith), word ((hits + 1) * step) h)
      (wrap-sub ((hits + 1) * step) e h l)

-- `Pace` panics for every rate above 1e9 hits per second (and below 2 ^ 63), in the first second and
-- before `Max` hits have been sent.
pace_constant-panic :
    (cp : ConstantPacer) (e hits : ℕ)
    → nano < cp.freq
    → cp.freq < 2 ^ 63
    → e < nano
    → spent cp hits ≡ false
    → pace_constant cp (pos e) hits ≡ panic
unfolding pace_constant expected_hits
pace_constant-panic cp e hits h k l m = rw (m, interval_zero cp h k, div-eq_of_lt l) (ground arith)

-- At any rate from 1 to 1e9 `Pace` never panics.
pub pace_constant-ne-panic :
    (cp : ConstantPacer) (elapsed : ℤ) (hits : ℕ)
    → 0 < cp.freq
    → cp.freq ≤ nano
    → pace_constant cp elapsed hits ≢ panic
unfolding pace_constant
pace_constant-ne-panic cp elapsed hits h k =
    ground (arith, interval_lem cp h k, interval_pos cp.freq h k)

-- At a rate from 1 to 1e9, with times and counts below 2 ^ 63: at the moment when hit `hits` (from 0) is
-- sent, that is when the wait from `e` on is over, at least `hits + 1` intervals of `1e9 / Freq` nanoseconds
-- have passed, and if there was a wait, exactly that many.
pub pace_constant-on_schedule :
    (cp : ConstantPacer) (e hits : ℕ) {d : ℤ}
    → 0 < cp.freq
    → cp.freq ≤ nano
    → e < 2 ^ 63
    → hits < 2 ^ 63
    → (hits + 1) * (nano / cp.freq) < 2 ^ 63
    → pace_constant cp (pos e) hits ≡ pace d false
    → ((hits + 1) * (nano / cp.freq) ≤ e + pos_part d)
      × (0 < pos_part d → e + pos_part d ≡ (hits + 1) * (nano / cp.freq))
unfolding pace_constant
pace_constant-on_schedule cp e hits {d} h k l m n p =
    ground (arith, behind cp e hits, interval_lem cp h k, delay_lem (nano / cp.freq) hits e m n l)
