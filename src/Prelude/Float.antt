-- ===== src/Prelude/Float.antt =====
-- Go's `float64` as an interface: the operations that the program performs on it, on a type that
-- the definitions leave abstract. No law is part of it; a theorem that relies on one names it.
use mathlib.Core.Bool.{Bool}
use Prim.Native.Nat.{ℕ, ◌+◌, ◌-◌, ◌*◌, ◌/◌}
use ghz.Prelude.Tests.{ltb, leb, ◌==◌}
use ghz.Prelude.Int.{ℤ, pos, pos_part, quot_ℤ, rem_ℤ}

pub record Float64 (F : Type 0) : Type 0 where
  pub of_uint64 : ℕ → F
  pub of_int64 : ℤ → F
  pub to_uint64 : F → ℕ
  pub to_int64 : F → ℤ
  pub add : F → F → F
  pub sub : F → F → F
  pub mul : F → F → F
  pub div : F → F → F
  pub lt : F → F → Bool
  pub le : F → F → Bool
  pub eq : F → F → Bool

abbrev pub nano : ℕ
nano = 1_000_000_000

module _ {F : Type 0} ⦃f : Float64 F⦄ where
  -- `Duration.Seconds`: whole seconds, and the nanoseconds that are left over 1e9.
  abbrev pub seconds : ℤ → F
  seconds d =
      f.add (f.of_int64 (quot_ℤ d (pos nano)))
        (f.div (f.of_int64 (rem_ℤ d nano)) (f.of_uint64 nano))

-- A concrete instance for examples: fractions of 10 ^ 9, cut off below, with `-` stopping at 0.
abbrev pub Fixed : Type 0
Fixed = ℕ

instance abbrev pub fixed_float : Float64 Fixed
fixed_float = record {
  of_uint64 = λ n. n * nano;
  of_int64 = λ z. pos_part z * nano;
  to_uint64 = λ x. x / nano;
  to_int64 = λ x. pos (x / nano);
  add = λ x y. x + y;
  sub = λ x y. x - y;
  mul = λ x y. x * y / nano;
  div = λ x y. x * nano / y;
  lt = ltb;
  le = leb;
  eq = ◌==◌;
}
