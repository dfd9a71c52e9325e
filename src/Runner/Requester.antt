-- ===== src/Runner/Requester.antt =====
-- runner/requester.go: the pacer and the worker ticker that a configuration asks for.
pub mod Pacing
pub mod Workers
pub mod Safety
pub mod New
pub mod Shutdown
use ghz.Prelude.{ℕ, List, Option, none, some, false, if◌then◌else◌}
use ghz.Prelude.Int.{ℤ, pos, to_uint64}
use ghz.Prelude.Text.{str_eq}
use ghz.Load.Ticker.{ConstWorkerTicker, StepWorkerTicker, LineWorkerTicker}
use ghz.Load.Pacer.{ConstantPacer}
use ghz.Load.Pacer.Step.{StepPacer, LinearPacer}
use ghz.Runner.Config.{RunConfig, schedule_line, schedule_step}

-- The implementations of `load.Pacer` and `load.WorkerTicker` that occur; `H` is the caller's own.
pub data Pacer (H : Type 0) : Type 0 where
  custom : H → Pacer H
  constant : ConstantPacer → Pacer H
  step : StepPacer → Pacer H
  linear : LinearPacer → Pacer H

pub data WorkerTicker (H : Type 0) : Type 0 where
  custom : H → WorkerTicker H
  constant : ConstWorkerTicker → WorkerTicker H
  step : StepWorkerTicker → WorkerTicker H
  line : LineWorkerTicker → WorkerTicker H

module _ {H F : Type 0} where
  abbrev pub step_pacer : RunConfig H F → StepPacer
  step_pacer c = record {
    start = record { freq = c.load_start; max = to_uint64 c.n };
    step = c.load_step;
    step_duration = c.load_step_duration;
    stop = record { freq = c.load_end; max = to_uint64 c.n };
    load_duration = c.load_duration;
    max = to_uint64 c.n;
    init = false;
    const_at = pos 0;
    base_hits = 0;
  }

  abbrev pub linear_pacer : RunConfig H F → LinearPacer
  linear_pacer c = record {
    start = record { freq = c.load_start; max = to_uint64 c.n };
    slope = c.load_step;
    stop = record { freq = c.load_end; max = to_uint64 c.n };
    load_duration = c.load_duration;
    max = to_uint64 c.n;
  }

  abbrev pub constant_pacer : RunConfig H F → ConstantPacer
  constant_pacer c = record { freq = to_uint64 c.rps; max = to_uint64 c.n }

  unfoldable pub create_pacer : RunConfig H F → Pacer H
  create_pacer c = elim c.pacer [
    | some p ↦ Pacer.custom p
    | none ↦
        if str_eq c.load_schedule schedule_line
        then Pacer.linear (linear_pacer c)
        else if str_eq c.load_schedule schedule_step
        then Pacer.step (step_pacer c)
        else Pacer.constant (constant_pacer c)
  ]

  abbrev pub line_ticker : RunConfig H F → LineWorkerTicker
  line_ticker c = record {
    start = c.c_start;
    slope = c.c_step;
    stop = c.c_end;
    max_duration = c.c_max_duration;
  }

  abbrev pub step_ticker : RunConfig H F → StepWorkerTicker
  step_ticker c = record {
    start = c.c_start;
    step = c.c_step;
    step_duration = c.c_step_duration;
    stop = c.c_end;
    max_duration = c.c_max_duration;
  }

  unfoldable pub create_worker_ticker : RunConfig H F → WorkerTicker H
  create_worker_ticker c = elim c.worker_ticker [
    | some t ↦ WorkerTicker.custom t
    | none ↦
        if str_eq c.c_schedule schedule_line
        then WorkerTicker.line (line_ticker c)
        else if str_eq c.c_schedule schedule_step
        then WorkerTicker.step (step_ticker c)
        else WorkerTicker.constant (record { n = to_uint64 c.c })
  ]
