-- ===== src/Service/Document.antt =====
-- mu_strategy/service_health.py: the `to_dict` of each record, its keys in the order of the canonical
-- text, and the limit of its size. The dictionary of a Stage0ObservationCycle is the `document` that a
-- ScanHealth holds.
use Prim.Native.String.{◌++◌}
use mu_5x_fibonacci_trading.Base.{ℕ, ◌+◌, ◌*◌, String, Bool, Option, none, some, List, [], ◌∷◌, leb}
use mu_5x_fibonacci_trading.Runtime.{Json, Items}
use mu_5x_fibonacci_trading.Runtime.Json.{null, bool, num, real, text, array, object}
use mu_5x_fibonacci_trading.Runtime.Items.{nil, cons}
use mu_5x_fibonacci_trading.Runtime.Fields.{end, field}
use mu_5x_fibonacci_trading.Ledger.Decimal.{nat_text}
use mu_5x_fibonacci_trading.Market.Policy.{RefreshAttemptStatus, SnapshotUsability}
use mu_5x_fibonacci_trading.Service.Health.{
  step_value, Phase, idle, refresh, scan, ExitCode, exited, killed, RefreshHealth, ObservationFacts,
  ScanHealth, CycleHealth, EventKind, started, restarted, fault, recovered, stopped,
  interruption_acknowledged, HealthEvent, ServiceState,
}

abbrev nullable_text : Option String → Json
nullable_text none = null
nullable_text (some s) = text s

abbrev attempt_json : Option RefreshAttemptStatus → Json
attempt_json none = null
attempt_json (some RefreshAttemptStatus.success) = text "success"
attempt_json (some RefreshAttemptStatus.degraded) = text "degraded"
attempt_json (some RefreshAttemptStatus.failed) = text "failed"

abbrev usability_json : Option SnapshotUsability → Json
usability_json none = null
usability_json (some SnapshotUsability.usable) = text "usable"
usability_json (some SnapshotUsability.stale) = text "stale"
usability_json (some SnapshotUsability.invalid) = text "invalid"

abbrev exit_json : Option ExitCode → Json
exit_json none = null
exit_json (some (exited n)) = num n
exit_json (some (killed n)) = real ("-" ++ nat_text (n + 1))

-- `RefreshHealth.to_dict`
abbrev pub refresh_json : RefreshHealth → Json
refresh_json r = object (
    field "attempt_status" (attempt_json r.attempt_status) (
      field "error_code" (nullable_text r.error_code) (
        field "exit_code" (exit_json r.exit_code) (
          field "run_id" (nullable_text r.run_id) (
            field "snapshot_usability" (usability_json r.snapshot_usability)
              (field "status" (text (step_value r.status)) end))))))

abbrev cycle_document : Option (List ObservationFacts) → Json → Json
cycle_document none j = null
cycle_document (some os) j = j

-- `ScanHealth.to_dict`
abbrev pub scan_json : ScanHealth → Json
scan_json s = object (
    field "cycle" (cycle_document s.cycle s.document) (
      field "error_code" (nullable_text s.error_code) (
        field "persistence" (text (step_value s.persistence))
          (field "status" (text (step_value s.status)) end))))

-- `CycleHealth.to_dict`
abbrev pub cycle_json : CycleHealth → Json
cycle_json c = object (
    field "completed_at_ms" (num c.completed_at_ms) (
      field "number" (num c.number) (
        field "refresh" (refresh_json c.refresh) (
          field "scan" (scan_json c.scan) (
            field "service_run_id" (text c.service_run_id)
              (field "started_at_ms" (num c.started_at_ms) end))))))

abbrev optional_cycle : Option CycleHealth → Json
optional_cycle none = null
optional_cycle (some c) = cycle_json c

abbrev event_kind_value : EventKind → String
event_kind_value started = "started"
event_kind_value restarted = "restarted"
event_kind_value fault = "fault"
event_kind_value recovered = "recovered"
event_kind_value stopped = "stopped"
event_kind_value interruption_acknowledged = "interruption_acknowledged"

abbrev phase_value : Phase → String
phase_value idle = "idle"
phase_value refresh = "refresh"
phase_value scan = "scan"

abbrev text_items : List String → Items
text_items [] = nil
text_items (s ∷ ss) = cons (text s) (text_items ss)

-- `HealthEvent.to_dict`
abbrev pub event_json : HealthEvent → Json
event_json e = object (
    field "at_ms" (num e.at_ms) (
      field "kind" (text (event_kind_value e.kind))
        (field "problems" (array (text_items e.problems)) (field "sequence" (num e.sequence) end))))

abbrev event_items : List HealthEvent → Items
event_items [] = nil
event_items (e ∷ es) = cons (event_json e) (event_items es)

-- `ServiceState.to_dict`
unfoldable pub state_json : ServiceState → Json
state_json s = object (
    field "consecutive_failures" (num s.consecutive_failures) (
      field "data_dir" (text s.data_dir) (
        field "deadline_ms" (num s.deadline_ms) (
          field "event_sequence" (num s.event_sequence) (
            field "events" (array (event_items s.events)) (
              field "last_cycle" (optional_cycle s.last_cycle) (
                field "phase" (text (phase_value s.phase)) (
                  field "run_id" (text s.run_id) (
                    field "running" (bool s.running) (
                      field "schema_version" (num 1) (
                        field "started_at_ms" (num s.started_at_ms) (
                          field "symbols" (array (text_items s.symbols))
                            (field "updated_at_ms" (num s.updated_at_ms) end)))))))))))))

-- MAX_STATE_BYTES
abbrev pub max_state_bytes : ℕ
max_state_bytes = 4 * 1024 * 1024

-- Whether the text of the state, with the line end that `write` adds, is within the limit, where
-- `size` is the number of bytes of a value's text.
unfoldable pub within_limit : (Json → ℕ) → ServiceState → Bool
unfolding state_json
within_limit size s = leb (size (state_json s) + 1) max_state_bytes
