-- ===== src/Examples/Runs.antt =====
-- runner/requester.go, the pacing goroutine: three requests at two per second.
use ghz.Prelude.{ℕ, ◌≡◌, ◌↔◌, some, refl, true, false, List, [], ◌∷◌, arith, replicate}
use ghz.Prelude.Int.{ℤ, pos}
use ghz.Load.Pacer.{Paced, pace, panic, pace_constant}
use ghz.Runner.Config.{RunConfig, initial, schedule_step}
use ghz.Runner.Options.Valid.{IsValid}
use ghz.Runner.Requester.{constant_pacer, create_pacer}
use ghz.Runner.Requester.Pacing.{Round, ended, pacing}
use ghz.Runner.Requester.Pacing.Total.{constant-total}
use ghz.Runner.Requester.Safety.{pace_of, create_pacer-panics}
use ghz.Prelude.Float.{Fixed, fixed_float}
use ghz.Prelude.Text.{codes, str_eq}

abbrev two_per_second : RunConfig ℕ Fixed
two_per_second = record (initial {H = ℕ} {F = Fixed} (pos 4) 0) { n = pos 3; rps = pos 2 }

abbrev rounds : List Round
rounds = replicate 5 (record { since = pos 700; stopped = false })

constant-total_example :
    pacing (pace_constant (constant_pacer two_per_second)) 0 rounds ≡ (0 ∷ 1 ∷ 2 ∷ [], ended)
unfolding initial str_eq
constant-total_example =
    constant-total two_per_second 3 2 rounds refl refl (omega arith) (omega arith) (omega arith)
      (refl, (refl, (refl, (refl, (refl, tt))))) (omega arith)

-- A step schedule from 0 to 10 requests per second.
abbrev from_zero : RunConfig ℕ Fixed
from_zero = record (initial {H = ℕ} {F = Fixed} (pos 4) 0) {
  call = codes "a.B/c";
  host = codes "h";
  load_schedule = schedule_step;
  load_end = 10;
  load_step = pos 1;
  load_step_duration = pos 1000;
}

-- A pacer of the caller's own that stops at once.
abbrev never : ℕ → ℤ → ℕ → Paced
never p elapsed hits = pace (pos 0) true

from_zero-IsValid : IsValid from_zero
unfolding initial str_eq
from_zero-IsValid = record {
  connections = omega arith;
  has_call = refl;
  has_host = refl;
  static_binary = refl;
  schedule = refl;
  load_varies = λ v. (omega arith, λ e. cc);
  load_steps = λ v. λ e. ground arith;
  c_varies = λ v. cc;
  c_steps = λ v. cc;
  skips = λ v. cc;
  unlimited = λ z. cc;
}

create_pacer-panics_example :
    (pace_of fixed_float never (create_pacer from_zero) 3 (pos 500) 0 ≡ some panic)
    ↔ (from_zero.load_start ≡ 0)
unfolding initial str_eq
create_pacer-panics_example =
    create_pacer-panics fixed_float never from_zero 3 (pos 500) 0 from_zero-IsValid refl refl
      (omega arith) (omega arith) refl
