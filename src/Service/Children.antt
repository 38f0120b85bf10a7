-- ===== src/Service/Children.antt =====
-- mu_strategy/signal_service.py: `_refresh` and `_scan`, what the supervisor makes of a child's end.
use mu_5x_fibonacci_trading.Base.{
  ℕ, String, Bool, true, false, not, ◌&&◌, Option, none, some, List, if◌then◌else◌, pure, ◌>>=◌,
}
use mu_5x_fibonacci_trading.Runtime.{Json}
use mu_5x_fibonacci_trading.Market.Policy.{RefreshAttemptStatus, SnapshotUsability}
use mu_5x_fibonacci_trading.Service.Health.{
  StepStatus, not_run, succeeded, degraded, failed, is_succeeded, refresh, scan, ExitCode,
  RefreshHealth, ScanHealth,
}
use mu_5x_fibonacci_trading.Service.Valid.{refresh_valid, scan_valid, covers, same_exit}
use mu_5x_fibonacci_trading.Service.World.{RefreshPayload, ChildResult, Outside, Supervised, call}

abbrev pub failed_refresh : StepStatus → Option ExitCode → String → RefreshHealth
failed_refresh status code e = record {
  status = status;
  run_id = none;
  attempt_status = none;
  snapshot_usability = none;
  exit_code = code;
  error_code = some e;
}

abbrev pub refresh_status : RefreshAttemptStatus → SnapshotUsability → StepStatus
refresh_status RefreshAttemptStatus.success SnapshotUsability.usable = succeeded
refresh_status RefreshAttemptStatus.degraded SnapshotUsability.usable = degraded
refresh_status _ _ = failed

abbrev pub expected_exit : StepStatus → ℕ
expected_exit succeeded = 0
expected_exit degraded = 2
expected_exit _ = 1

abbrev pub claims_usable : SnapshotUsability → Bool
claims_usable SnapshotUsability.usable = true
claims_usable _ = false

abbrev pub same_flag : Bool → Bool → Bool
same_flag true b = b
same_flag false b = not b

abbrev pub refresh_of_payload : RefreshPayload → ExitCode → StepStatus → RefreshHealth
refresh_of_payload p code status = record {
  status = status;
  run_id = p.run_id;
  attempt_status = some p.attempt_status;
  snapshot_usability = some p.snapshot_usability;
  exit_code = some code;
  error_code = if is_succeeded status then none else some "publication_not_fully_healthy";
}

abbrev pub refresh_error : ExitCode → String
refresh_error code =
    if same_exit (some code) 0 then "refresh_result_invalid" else "refresh_process_failed"

abbrev pub accepted : RefreshPayload → ExitCode → RefreshHealth → RefreshHealth
accepted p code h =
    if same_flag p.says_usable (claims_usable p.snapshot_usability)
      && same_exit (some code) (expected_exit h.status)
      && refresh_valid h
    then h
    else failed_refresh failed (some code) (refresh_error code)

abbrev pub refresh_health : ChildResult RefreshPayload → RefreshHealth
refresh_health ChildResult.timed_out = failed_refresh StepStatus.timed_out none "refresh_timeout"
refresh_health ChildResult.crashed = failed_refresh failed none "refresh_process_failed"
refresh_health (ChildResult.finished none code) =
    failed_refresh failed (some code) (refresh_error code)
refresh_health (ChildResult.finished (some p) code) =
    accepted p code
      (refresh_of_payload p code (refresh_status p.attempt_status p.snapshot_usability))

abbrev pub failed_scan : StepStatus → String → ScanHealth
failed_scan status e = record {
  status = status;
  cycle = none;
  document = Json.null;
  persistence = not_run;
  error_code = some e;
}

abbrev pub scan_exit : ScanHealth → ℕ
scan_exit s = if is_succeeded s.status && is_succeeded s.persistence then 0 else 1

abbrev pub is_completed : StepStatus → Bool
is_completed succeeded = true
is_completed failed = true
is_completed _ = false

abbrev pub scan_health : List String → ChildResult ScanHealth → ScanHealth
scan_health symbols ChildResult.timed_out = failed_scan StepStatus.timed_out "scan_timeout"
scan_health symbols ChildResult.crashed = failed_scan failed "scan_process_failed"
scan_health symbols (ChildResult.finished none code) = failed_scan failed "scan_result_invalid"
scan_health symbols (ChildResult.finished (some s) code) =
    if scan_valid s
      && same_exit (some code) (scan_exit s)
      && is_completed s.status
      && covers symbols s.cycle
    then s
    else failed_scan failed "scan_result_invalid"

-- `_refresh` and `_scan`
unfoldable pub run_refresh : Outside → Supervised RefreshHealth
run_refresh o = call refresh o.refresh_child >>= λ r. pure (refresh_health r)

unfoldable pub run_scan : Outside → Supervised ScanHealth
run_scan o = call scan o.scan_child >>= λ r. pure (scan_health o.symbols r)
