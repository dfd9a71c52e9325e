-- ===== src/Load/Pacer.antt =====
-- load/pacer.go, the answer of `Pace` and the constant pacer. A `uint64` is a number below 2 ^ 64
-- whose operations wrap, a `time.Duration` an integer that wraps at 2 ^ 63.
pub mod Constant
pub mod Segmented
pub mod Step
use ghz.Prelude.{ℕ, ◌%◌, ◌^◌, ◌/◌, ◌*◌, ◌+◌, Bool, true, false, ◌&&◌, ltb, leb, ◌==◌, if◌then◌else◌}
use ghz.Prelude.Int.{ℤ, pos, ◌-ℤ◌, quot_ℤ, to_uint64, to_int64, wrap_int64, max_int64}
use ghz.Prelude.Float.{Float64, nano}

-- `Pace` returns how long to wait and whether to stop, or the code panics.
pub data Paced : Type 0 where
  panic : Paced
  pace : ℤ → Bool → Paced

pub record ConstantPacer : Type 0 where
  pub freq : ℕ
  pub max : ℕ

-- uint64(cp.Freq) * uint64(elapsed/nano)
unfoldable pub expected_hits : ConstantPacer → ℤ → ℕ
expected_hits cp elapsed = cp.freq * to_uint64 (quot_ℤ elapsed (pos nano)) % 2 ^ 64

-- uint64(nano / int64(cp.Freq))
unfoldable pub interval : ConstantPacer → ℕ
interval cp = to_uint64 (quot_ℤ (pos nano) (to_int64 cp.freq))

-- time.Duration((hits + 1) * interval) - elapsed
unfoldable pub delay : ℕ → ℕ → ℤ → ℤ
delay step hits elapsed = wrap_int64 (to_int64 ((hits + 1) % 2 ^ 64 * step % 2 ^ 64) -ℤ elapsed)

-- `ConstantPacer.Pace`. A division by an interval of 0 panics.
unfoldable pub pace_constant : ConstantPacer → ℤ → ℕ → Paced
pace_constant cp elapsed hits =
    if ltb 0 cp.max && leb cp.max hits
    then pace (pos 0) true
    else if cp.freq == 0
    then pace (pos 0) false
    else if ltb hits (expected_hits cp elapsed)
    then pace (pos 0) false
    else if interval cp == 0
    then panic
    else if ltb (max_int64 / interval cp) hits
    then pace (pos 0) true
    else pace (delay (interval cp) hits elapsed) false

module _ {F : Type 0} ⦃f : Float64 F⦄ where
  unfoldable pub hits_per_ns : ConstantPacer → F
  hits_per_ns cp = f.div (f.of_uint64 cp.freq) (f.of_uint64 nano)

  unfoldable pub rate_constant : ConstantPacer → F
  rate_constant cp = f.mul (hits_per_ns cp) (f.of_uint64 nano)
