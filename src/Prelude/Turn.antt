-- ===== src/Prelude/Turn.antt =====
-- A counter that goes round: stepping by one and wrapping at the modulus.
use Prim.Native.Nat.{ℕ, ◌+◌, ◌%◌, ◌<◌, ◌≤◌}
use mathlib.Core.Path.{◌≡◌, ◌∙◌}
use native.Mathlib.Nat.{mod-add-mod, mod-eq_of_lt, mod-lt, mod_self}
use native.Mathlib.Decide.{ℕ_discrete}
use native.Mathlib.Omega.{arith}
use ghz.Prelude.Tests.{◌==◌, if◌then◌else◌}

pub wrapped_turn : (x k : ℕ) → x ≤ k → (if x == k then 0 else x) ≡ x % k
wrapped_turn x k h = elim (ℕ_discrete x k) [
  | yes e ↦ rw (e, mod_self) (ground arith)
  | no ne ↦ rw (mod-eq_of_lt {n = x} {m = k} (omega arith)) (ground arith)
]

pub next-turn : (k a : ℕ) → 0 < k → (if (a % k + 1) == k then 0 else a % k + 1) ≡ (a + 1) % k
next-turn k a h = wrapped_turn (a % k + 1) k (omega (arith, mod-lt a h)) ∙ mod-add-mod a k 1
