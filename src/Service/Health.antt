-- ===== src/Service/Health.antt =====
-- mu_strategy/service_health.py: the health records. Of a Stage0ObservationCycle they read the facts
-- that `ObservationFacts` holds; the JSON form of the records is not modelled.
use mu_5x_fibonacci_trading.Base.{ℕ, String, Bool, true, false, Option, List}
use mu_5x_fibonacci_trading.Runtime.{Json}
use mu_5x_fibonacci_trading.Market.Policy.{RefreshAttemptStatus, SnapshotUsability}

pub data StepStatus : Type 0 where
  not_run succeeded degraded failed timed_out : StepStatus

abbrev pub step_value : StepStatus → String
step_value not_run = "not_run"
step_value succeeded = "succeeded"
step_value degraded = "degraded"
step_value failed = "failed"
step_value timed_out = "timed_out"

abbrev pub is_succeeded : StepStatus → Bool
is_succeeded succeeded = true
is_succeeded _ = false

pub data Phase : Type 0 where
  idle refresh scan : Phase

abbrev pub is_idle : Phase → Bool
is_idle idle = true
is_idle _ = false

-- A process's return code; `killed n` is -(n + 1).
pub data ExitCode : Type 0 where
  exited : ℕ → ExitCode
  killed : ℕ → ExitCode

pub record RefreshHealth : Type 0 where
  pub status : StepStatus
  pub run_id : Option String
  pub attempt_status : Option RefreshAttemptStatus
  pub snapshot_usability : Option SnapshotUsability
  pub exit_code : Option ExitCode
  pub error_code : Option String

pub data ObservationOutcome : Type 0 where
  data_gate_blocked scan_failed normal_no_action ready_for_review : ObservationOutcome

pub record ObservationFacts : Type 0 where
  pub symbol : String
  pub outcome : ObservationOutcome
  pub trust_allowed : Bool
  pub trusted_run_id : Option String

-- `document` is the dictionary of the cycle, where there is one.
pub record ScanHealth : Type 0 where
  pub status : StepStatus
  pub cycle : Option (List ObservationFacts)
  pub document : Json
  pub persistence : StepStatus
  pub error_code : Option String

pub record CycleHealth : Type 0 where
  pub number : ℕ
  pub service_run_id : String
  pub started_at_ms : ℕ
  pub completed_at_ms : ℕ
  pub refresh : RefreshHealth
  pub scan : ScanHealth

pub data EventKind : Type 0 where
  started restarted fault recovered stopped interruption_acknowledged : EventKind

pub record HealthEvent : Type 0 where
  pub sequence : ℕ
  pub at_ms : ℕ
  pub kind : EventKind
  pub problems : List String

pub record ServiceState : Type 0 where
  pub data_dir : String
  pub symbols : List String
  pub run_id : String
  pub running : Bool
  pub phase : Phase
  pub started_at_ms : ℕ
  pub updated_at_ms : ℕ
  pub deadline_ms : ℕ
  pub last_cycle : Option CycleHealth
  pub consecutive_failures : ℕ
  pub events : List HealthEvent
  pub event_sequence : ℕ
