-- ===== src/Service/Supervisor.antt =====
-- mu_strategy/signal_service.py: `SignalService.run` for a number of cycles, and `recover_interrupted`.
-- The monotonic clock is read in whole milliseconds. A KeyboardInterrupt and a failing `on_cycle` are
-- not modelled; an error of the body still passes through the `finally` block.
use mu_5x_fibonacci_trading.Base.{
  ℕ, zero, suc, ◌+◌, ◌-◌, ◌*◌, ◌/◌, max, String, Bool, true, false, not, ◌&&◌, Option, none, some,
  List, [], ◌∷◌, str_eq, leb, ltb, ◌==◌, if◌then◌else◌, Result, ok, err, raise, pure, raise_if,
  ◌>>=◌,
}
use mu_5x_fibonacci_trading.Service.Health.{
  idle, refresh, scan, is_idle, RefreshHealth, ScanHealth, CycleHealth, EventKind, started,
  restarted, fault, recovered, interruption_acknowledged, HealthEvent, ServiceState,
}
use mu_5x_fibonacci_trading.Service.View.{problems}
use mu_5x_fibonacci_trading.Service.World.{
  Outside, ServiceError, interrupted_cycle, value_error, World, Supervised, now_ms, tick, sleep,
  memory, remember, read_health, write,
}
use mu_5x_fibonacci_trading.Service.Memory.{deadline_grace, add_event, record_event, set_phase}
use mu_5x_fibonacci_trading.Service.Children.{run_refresh, run_scan}

abbrev pub same_texts : List String → List String → Bool
same_texts [] [] = true
same_texts (s ∷ ss) (t ∷ ts) = str_eq s t && same_texts ss ts
same_texts _ _ = false

abbrev pub problems_of : Option CycleHealth → List String
problems_of none = []
problems_of (some c) = problems c

abbrev pub number_after : Option CycleHealth → ℕ
number_after none = 1
number_after (some c) = c.number + 1

abbrev pub failures_after : List String → ℕ → ℕ
failures_after [] n = 0
failures_after (p ∷ ps) n = n + 1

abbrev pub event_of_problems : List String → EventKind
event_of_problems [] = recovered
event_of_problems (p ∷ ps) = fault

abbrev pub record_change : Outside → List String → List String → Supervised (Unit {0})
record_change o problems prior =
    if same_texts problems prior
    then pure tt
    else record_event o (event_of_problems problems) problems

abbrev pub with_cycle : CycleHealth → ServiceState → ServiceState
with_cycle c s = record s {
  last_cycle = some c;
  updated_at_ms = c.completed_at_ms;
  deadline_ms = max s.deadline_ms c.completed_at_ms;
  consecutive_failures = failures_after (problems c) s.consecutive_failures;
}

abbrev pub cycle_of :
    Option CycleHealth → ℕ → RefreshHealth → ScanHealth → ServiceState → ℕ → CycleHealth
cycle_of previous begun refreshed scanned s now = record {
  number = number_after previous;
  service_run_id = s.run_id;
  started_at_ms = begun;
  completed_at_ms = now;
  refresh = refreshed;
  scan = scanned;
}

abbrev pub keep_cycle : Outside → Option CycleHealth → CycleHealth → Supervised (Unit {0})
keep_cycle o previous cycle = memory >>= λ s.
    remember (with_cycle cycle s) >>= λ _. record_change o (problems cycle) (problems_of previous)

-- `_cycle`, from the result of the scan on
unfoldable pub close_cycle :
    Outside → Option CycleHealth → ℕ → RefreshHealth → ScanHealth → Supervised (Unit {0})
close_cycle o previous begun refreshed scanned = memory >>= λ s.
    now_ms o >>= λ now. keep_cycle o previous (cycle_of previous begun refreshed scanned s now)

-- `_cycle`
unfoldable pub run_cycle : Outside → Supervised (Unit {0})
run_cycle o = now_ms o >>= λ begun. memory >>= λ s.
    set_phase o refresh o.refresh_timeout_seconds >>= λ _. run_refresh o >>= λ refreshed.
    set_phase o scan o.scan_timeout_seconds >>= λ _.
    run_scan o >>= λ scanned. close_cycle o s.last_cycle begun refreshed scanned

-- The tick that is due after `due`, missed ticks skipped.
unfoldable pub next_due : ℕ → ℕ → ℕ → ℕ
next_due interval due current =
    let next = due + interval in
    if leb next current then next + ((current - next) / interval + 1) * interval else next

abbrev pub resting : ℕ → ℕ → ServiceState → ServiceState
resting now pause s = record s {
  phase = idle;
  updated_at_ms = now;
  deadline_ms = now + pause + deadline_grace;
}

unfoldable pub wait : Outside → ℕ → Supervised (Unit {0})
wait o due = tick o >>= λ current. if ltb current due then sleep (due - current) else pure tt

-- What follows the cycle in a turn; the tick that is due next.
unfoldable pub rest : Outside → ℕ → Supervised ℕ
rest o due = tick o >>= λ current.
    let next = next_due (o.interval_seconds * 1000) due current in
    now_ms o >>= λ now. memory >>= λ s. remember (resting now (next - current) s) >>= λ _.
    write o (resting now (next - current) s) >>= λ _. pure next

-- One turn of the loop
unfoldable pub turn : Outside → ℕ → Supervised ℕ
turn o due = wait o due >>= λ _. run_cycle o >>= λ _. rest o due

unfoldable pub turns : Outside → ℕ → ℕ → Supervised (Unit {0})
turns o zero due = pure tt
turns o (suc n) due = turn o due >>= λ next. turns o n next

abbrev pub at_rest : ℕ → ServiceState → ServiceState
at_rest now s = record s { running = false; phase = idle; updated_at_ms = now; deadline_ms = now }

-- The `finally` block.
unfoldable pub stop : Outside → Supervised (Unit {0})
stop o = now_ms o >>= λ now. memory >>= λ s. remember (at_rest now s) >>= λ _.
    record_event o EventKind.stopped [] >>= λ _. memory >>= λ t. write o t

-- try … finally: an error of the last block takes the place of the body's.
abbrev pub unless_err :
    {A : Type 0}
    → Result ServiceError A
    → Result ServiceError (Unit {0}) × World
    → Result ServiceError A × World
unless_err r (ok _, w) = (r, w)
unless_err r (err e, w) = (err e, w)

abbrev pub after_all :
    {A : Type 0}
    → Result ServiceError A × World
    → Supervised (Unit {0})
    → Result ServiceError A × World
after_all (r, w) last = unless_err r (last w)

abbrev pub finally : {A : Type 0} → Supervised A → Supervised (Unit {0}) → Supervised A
finally body last w = after_all (body w) last

abbrev pub is_interrupted : Option ServiceState → Bool
is_interrupted none = false
is_interrupted (some s) = s.running && not (is_idle s.phase)

abbrev pub kept_cycle : List String → Option ServiceState → Option CycleHealth
kept_cycle symbols none = none
kept_cycle symbols (some s) = if same_texts s.symbols symbols then s.last_cycle else none

abbrev pub kept_failures : List String → Option ServiceState → ℕ
kept_failures symbols none = 0
kept_failures symbols (some s) = if same_texts s.symbols symbols then s.consecutive_failures else 0

abbrev pub kept_events : Option ServiceState → List HealthEvent
kept_events none = []
kept_events (some s) = s.events

abbrev pub kept_sequence : Option ServiceState → ℕ
kept_sequence none = 0
kept_sequence (some s) = s.event_sequence

abbrev pub start_event : Option ServiceState → EventKind
start_event none = started
start_event (some s) = restarted

abbrev pub started_state : Outside → Option ServiceState → ℕ → ServiceState
started_state o previous now = record {
  data_dir = o.data_dir;
  symbols = o.symbols;
  run_id = o.run_id;
  running = true;
  phase = idle;
  started_at_ms = now;
  updated_at_ms = now;
  deadline_ms = now + deadline_grace;
  last_cycle = kept_cycle o.symbols previous;
  consecutive_failures = kept_failures o.symbols previous;
  events = kept_events previous;
  event_sequence = kept_sequence previous;
}

-- `run`, from the first reading of the clock to the first state written
unfoldable pub start : Outside → Option ServiceState → Supervised (Unit {0})
start o previous = now_ms o >>= λ now. remember (started_state o previous now) >>= λ _.
    record_event o (start_event previous) [] >>= λ _. memory >>= λ s. write o s

-- `run` with `cycles` given
unfoldable pub run_service : Outside → ℕ → Supervised (Unit {0})
run_service o cycles = raise_if (cycles == 0) value_error >>= λ _. read_health o >>= λ previous.
    raise_if (is_interrupted previous) interrupted_cycle >>= λ _.
    start o previous >>= λ _. tick o >>= λ due. finally (turns o cycles due) (stop o)

abbrev pub acknowledged : ℕ → ServiceState → ServiceState
acknowledged now s =
    add_event interruption_acknowledged now ("runtime.interrupted" ∷ []) (record s {
      running = false;
      phase = idle;
      updated_at_ms = max now s.updated_at_ms;
      deadline_ms = max now s.updated_at_ms;
    })

abbrev pub acknowledge : Outside → Option ServiceState → Supervised ServiceState
acknowledge o none = raise interrupted_cycle
acknowledge o (some s) = raise_if (not (is_interrupted (some s))) interrupted_cycle >>= λ _.
    now_ms o >>= λ now. write o (acknowledged now s) >>= λ _. pure (acknowledged now s)

-- `recover_interrupted`
unfoldable pub recover : Outside → Supervised ServiceState
recover o = read_health o >>= acknowledge o
