-- ===== src/Service/World.antt =====
-- mu_strategy/service_health.py and mu_strategy/signal_service.py: what a supervisor reads and writes.
-- The clocks, the answers of the child processes, their decoding from JSON and the size of a JSON
-- text are given from outside. The locks, the steps of the replacement of a file and
-- ServiceBusyError are not modelled.
use mu_5x_fibonacci_trading.Base.{
  ℕ, ◌+◌, String, Bool, not, Option, none, some, List, ◌∷◌, str_eq, Exec, ok, err, if◌then◌else◌,
  pure, raise_if, ◌>>=◌, length,
}
use mu_5x_fibonacci_trading.Runtime.{Json}
use mu_5x_fibonacci_trading.Market.Policy.{RefreshAttemptStatus, SnapshotUsability}
use mu_5x_fibonacci_trading.Service.Health.{ExitCode, Phase, ScanHealth, ServiceState}
use mu_5x_fibonacci_trading.Service.Valid.{service_valid}
use mu_5x_fibonacci_trading.Service.Document.{within_limit}

-- What the refresh child prints.
pub record RefreshPayload : Type 0 where
  pub run_id : Option String
  pub attempt_status : RefreshAttemptStatus
  pub snapshot_usability : SnapshotUsability
  pub says_usable : Bool

-- A child's end: `finished` holds its output, `none` where it cannot be decoded.
pub data ChildResult (A : Type 0) : Type 0 where
  timed_out crashed : ChildResult A
  finished : Option A → ExitCode → ChildResult A

-- The configuration, and the outside world: the n-th reading of each clock, in ms, and the n-th
-- child's end. `json_size` is the number of bytes that json.dumps gives for a value.
pub record Outside : Type 0 where
  pub data_dir : String
  pub symbols : List String
  pub interval_seconds : ℕ
  pub refresh_timeout_seconds : ℕ
  pub scan_timeout_seconds : ℕ
  pub run_id : String
  pub json_size : Json → ℕ
  pub clock : ℕ → ℕ
  pub monotonic : ℕ → ℕ
  pub refresh_child : ℕ → ChildResult RefreshPayload
  pub scan_child : ℕ → ChildResult ScanHealth

pub data ServiceError : Type 0 where
  health_state_error interrupted_cycle value_error : ServiceError

-- The start of a child, with what health.json holds then.
pub record Call : Type 0 where
  pub phase : Phase
  pub disk : Option ServiceState

-- `memory` is `self.state`, `disk` health.json; `calls` has the last call first. The clocks have been
-- read as often as `readings` and `ticks` say. `refused` keeps the states that were too large to be
-- written, the last first.
pub record World : Type 0 where
  pub memory : ServiceState
  pub disk : Option ServiceState
  pub readings : ℕ
  pub ticks : ℕ
  pub slept : List ℕ
  pub calls : List Call
  pub refused : List ServiceState

abbrev pub Supervised : Type 0 → Type 0
Supervised A = Exec World ServiceError A

abbrev pub now_ms : Outside → Supervised ℕ
now_ms o w = (ok (o.clock w.readings), record w { readings = w.readings + 1 })

abbrev pub tick : Outside → Supervised ℕ
tick o w = (ok (o.monotonic w.ticks), record w { ticks = w.ticks + 1 })

abbrev pub sleep : ℕ → Supervised (Unit {0})
sleep n w = (ok tt, record w { slept = n ∷ w.slept })

abbrev pub memory : Supervised ServiceState
memory w = (ok w.memory, w)

abbrev pub remember : ServiceState → Supervised (Unit {0})
remember s w = (ok tt, record w { memory = s })

abbrev pub disk : Supervised (Option ServiceState)
disk w = (ok w.disk, w)

abbrev pub replace_file : ServiceState → Supervised (Unit {0})
replace_file s w = (ok tt, record w { disk = some s })

abbrev pub refuse : ServiceState → Supervised (Unit {0})
refuse s w = (err health_state_error, record w { refused = s ∷ w.refused })

-- `subprocess.run`
abbrev pub call : {A : Type 0} → Phase → (ℕ → ChildResult A) → Supervised (ChildResult A)
call p child w = (
  ok (child (length w.calls)),
  record w { calls = record { phase = p; disk = w.disk } ∷ w.calls },
)

abbrev pub read_state : Outside → Option ServiceState → Supervised (Option ServiceState)
read_state o none = pure none
read_state o (some s) = raise_if (not (within_limit o.json_size s)) health_state_error >>= λ _.
    raise_if (not (service_valid s)) health_state_error >>= λ _.
    raise_if (not (str_eq s.data_dir o.data_dir)) health_state_error >>= λ _. pure (some s)

-- `HealthStore.read`
unfoldable pub read_health : Outside → Supervised (Option ServiceState)
read_health o = disk >>= read_state o

-- `HealthStore.write`
unfoldable pub write : Outside → ServiceState → Supervised (Unit {0})
write o s = raise_if (not (service_valid s)) health_state_error >>= λ _.
    raise_if (not (str_eq s.data_dir o.data_dir)) health_state_error >>= λ _.
    if within_limit o.json_size s then replace_file s else refuse s
