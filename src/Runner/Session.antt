-- ===== src/Runner/Session.antt =====
-- runner/requester.go, `Run`, `Stop`, `Finish`, `openClientConns` and `closeClientConns`, and
-- runner/stats_handler.go: a run and the calls of `Stop` (from runner/run.go or the caller), interleaved in
-- any order. `stopCh` holds one signal at most. The environment chooses when dialling fails and when the
-- pacer stops; the workers in between and the reporter have models of their own.
pub mod Safety
pub mod Races
pub mod Handling
pub mod Ignored
use ghz.Prelude.{
  ℕ, suc, ◌+◌, ◌≡◌, Bool, true, false, List, [], ◌∷◌, ◌++◌, Option, none, some, map, length,
  if◌then◌else◌, ◌||◌,
}
use ghz.Prelude.Int.{ℤ}
use ghz.Prelude.Text.{Str, codes, str_eq}
use ghz.Runner.Reason.{reason_normal_end}
use ghz.Runner.Reporter.{CallResult}

-- `statsHandler`, without its logger; its channel is the requester's.
pub record StatsHandler : Type 0 where
  pub id : ℕ
  pub ignore : Bool

-- `Ignore`.
abbrev pub set_ignore : Bool → StatsHandler → StatsHandler
set_ignore val c = record c { ignore = val }

-- Where `Run` stands: before `openClientConns`; in its loop, with so many connections to come; with an
-- error from it; pacing; behind `runWorkers`; behind `Finish`;
-- behind `closeClientConns`; returned, with `stopCh` closed.
pub data Phase : Type 0 where
  fresh : Phase
  opening : ℕ → Phase
  failing : Phase
  working : Phase
  worked : Phase
  reported : Phase
  cleared : Phase
  over : Phase

-- A connection is its number. `dialled` and `shut` are the connections opened and closed so far, `signalled`
-- the calls of `Stop` between their signal and the lock, `recorded` those that have set the reason, `closing`
-- those before the last lock; `settled` says that one has returned, `taken` that `runWorkers` has taken a signal.
pub record Session : Type 0 where
  pub phase : Phase
  pub conns : List ℕ
  pub stubs : List ℕ
  pub handlers : List StatsHandler
  pub stop_ch : Bool
  pub stop_closed : Bool
  pub stop_reason : Str
  pub end_reason : Option Str
  pub signalled : List Str
  pub recorded : ℕ
  pub closing : ℕ
  pub settled : Bool
  pub taken : Bool
  pub crashed : Bool
  pub dialled : List ℕ
  pub shut : List ℕ

abbrev pub begin : Session
begin = record {
  phase = fresh;
  conns = [];
  stubs = [];
  handlers = [];
  stop_ch = false;
  stop_closed = false;
  stop_reason = reason_normal_end;
  end_reason = none;
  signalled = [];
  recorded = 0;
  closing = 0;
  settled = false;
  taken = false;
  crashed = false;
  dialled = [];
  shut = [];
}

-- `newClientConn(true)` adds the handler before it dials.
abbrev pub add_handler : Session → Session
add_handler s = record s {
  handlers = s.handlers ++ record { id = length s.handlers; ignore = false } ∷ [];
}

abbrev pub add_conn : Session → Session
add_conn s = record s {
  conns = s.conns ++ length s.dialled ∷ [];
  dialled = s.dialled ++ length s.dialled ∷ [];
}

abbrev pub close_client_conns : Session → Session
close_client_conns s = record s { conns = []; shut = s.shut ++ s.conns }

abbrev pub ignore_all : Session → Session
ignore_all s = record s { handlers = map (set_ignore true) s.handlers }

-- What `Stop` does at the end, by `zstop`: `ignore` makes the handlers ignore what comes, without the lock,
-- and both `ignore` and `close` close the connections, with the lock.
abbrev pub ignores : Str → Bool
ignores zstop = if str_eq zstop (codes "close") then false else str_eq zstop (codes "ignore")

abbrev pub closes_conns : Str → Bool
closes_conns zstop = str_eq zstop (codes "close") || str_eq zstop (codes "ignore")

-- `openClientConns` holds the lock.
abbrev pub is_locked : Phase → Bool
is_locked (opening k) = true
is_locked fresh = false
is_locked failing = false
is_locked working = false
is_locked worked = false
is_locked reported = false
is_locked cleared = false
is_locked over = false

pub data Step (n_conns : ℕ) (zstop : Str) (s : Session) : Session → Type 0 where
  -- `Run`
  open_conns : s.phase ≡ fresh → Step n_conns zstop s (record s { phase = opening n_conns })
  stop_opening :
      {k : ℕ}
      → s.phase ≡ opening (suc k)
      → s.stop_ch ≡ true
      → Step n_conns zstop s (record s { phase = failing; stop_ch = false })
  dial :
      {k : ℕ}
      → s.phase ≡ opening (suc k)
      → s.stop_ch ≡ false
      → Step n_conns zstop s (record (add_conn (add_handler s)) { phase = opening k })
  dial_fails :
      {k : ℕ}
      → s.phase ≡ opening (suc k)
      → s.stop_ch ≡ false
      → Step n_conns zstop s (record (add_handler s) { phase = failing })
  opened :
      s.phase ≡ opening 0 → Step n_conns zstop s (record s { phase = working; stubs = s.conns })
  pacer_stops : s.phase ≡ working → Step n_conns zstop s (record s { phase = worked })
  take_stop :
      s.phase ≡ working
      → s.stop_ch ≡ true
      → Step n_conns zstop s (record s { phase = worked; stop_ch = false; taken = true })
  finish :
      s.phase ≡ worked
      → Step n_conns zstop s (record s { phase = reported; end_reason = some s.stop_reason })
  close_behind_report :
      s.phase ≡ reported → Step n_conns zstop s (record (close_client_conns s) { phase = cleared })
  close_behind_error :
      s.phase ≡ failing → Step n_conns zstop s (record (close_client_conns s) { phase = cleared })
  return_run :
      s.phase ≡ cleared → Step n_conns zstop s (record s { phase = over; stop_closed = true })
  -- `Stop`
  signal :
      (reason : Str)
      → s.stop_closed ≡ false
      → s.stop_ch ≡ false
      → Step n_conns zstop s (record s { stop_ch = true; signalled = reason ∷ s.signalled })
  signal_closed : s.stop_closed ≡ true → Step n_conns zstop s (record s { crashed = true })
  record_reason :
      (before after : List Str) (reason : Str)
      → s.signalled ≡ before ++ reason ∷ after
      → is_locked s.phase ≡ false
      → Step n_conns zstop s (record s {
        stop_reason = reason;
        signalled = before ++ after;
        recorded = s.recorded + 1;
      })
  handle_ignore :
      {k : ℕ}
      → s.recorded ≡ suc k
      → Step n_conns zstop s (record (if ignores zstop then ignore_all s else s) {
        recorded = k;
        closing = s.closing + 1;
      })
  end_stop :
      {k : ℕ}
      → s.closing ≡ suc k
      → is_locked s.phase ≡ false
      → Step n_conns zstop s (record (if closes_conns zstop then close_client_conns s else s) {
        closing = k;
        settled = true;
      })

pub data Reach (n_conns : ℕ) (zstop : Str) : Session → Type 0 where
  start : Reach n_conns zstop begin
  later : {s t : Session} → Reach n_conns zstop s → Step n_conns zstop s t → Reach n_conns zstop t
