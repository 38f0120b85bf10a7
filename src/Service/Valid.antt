-- ===== src/Service/Valid.antt =====
-- mu_strategy/service_health.py: what the `from_dict` of each record asks of its fields, HealthStateError
-- where a test fails. `write` puts the state through its own dictionary, so these are the tests that a
-- state passes before it is written.
use mu_5x_fibonacci_trading.Base.{
  ℕ, ◌+◌, ◌-◌, ◌^◌, String, Bool, true, false, not, ◌&&◌, ◌||◌, Option, none, some, List, [], ◌∷◌,
  str_eq, contains_text, leb, ltb, ◌==◌, if◌then◌else◌, codes, count_codes, is_some, length, map,
  all,
}
use mu_5x_fibonacci_trading.Market.Policy.{RefreshAttemptStatus, SnapshotUsability}
use mu_5x_fibonacci_trading.Service.Health.{
  StepStatus, not_run, succeeded, degraded, failed, is_succeeded, is_idle, ExitCode, exited, killed,
  RefreshHealth, ObservationFacts, ScanHealth, CycleHealth, HealthEvent, ServiceState,
}

abbrev pub event_limit : ℕ
event_limit = 100

abbrev printable : List ℕ → Bool
printable [] = true
printable (c ∷ cs) = leb 32 c && printable cs

-- `_text`
unfoldable pub is_health_text : String → Bool
is_health_text s = not (str_eq s "") && leb (count_codes (codes s)) 4096 && printable (codes s)

-- `_optional_text`
abbrev pub is_optional_text : Option String → Bool
is_optional_text none = true
is_optional_text (some s) = is_health_text s

-- `_integer(value["exit_code"], minimum=-2**31)`
abbrev pub exit_code_valid : Option ExitCode → Bool
exit_code_valid none = true
exit_code_valid (some (exited n)) = true
exit_code_valid (some (killed n)) = ltb n (2 ^ 31)

abbrev pub same_exit : Option ExitCode → ℕ → Bool
same_exit (some (exited n)) m = n == m
same_exit _ m = false

abbrev pub is_success : Option RefreshAttemptStatus → Bool
is_success (some RefreshAttemptStatus.success) = true
is_success _ = false

abbrev pub is_degraded_attempt : Option RefreshAttemptStatus → Bool
is_degraded_attempt (some RefreshAttemptStatus.degraded) = true
is_degraded_attempt _ = false

abbrev pub usable_snapshot : Option SnapshotUsability → Bool
usable_snapshot (some SnapshotUsability.usable) = true
usable_snapshot _ = false

-- `not result.run_id` fails
abbrev pub has_text : Option String → Bool
has_text none = false
has_text (some s) = not (str_eq s "")

-- The publication that a status claims.
abbrev pub publication_fits : RefreshHealth → StepStatus → Bool
publication_fits r succeeded =
    is_success r.attempt_status
    && same_exit r.exit_code 0
    && usable_snapshot r.snapshot_usability
    && has_text r.run_id
    && not (is_some r.error_code)
publication_fits r degraded =
    is_degraded_attempt r.attempt_status
    && same_exit r.exit_code 2
    && usable_snapshot r.snapshot_usability
    && has_text r.run_id
publication_fits r _ = true

-- `RefreshHealth.from_dict`
unfoldable pub refresh_valid : RefreshHealth → Bool
unfolding is_health_text
refresh_valid r =
    is_optional_text r.run_id
    && exit_code_valid r.exit_code
    && is_optional_text r.error_code
    && publication_fits r r.status

abbrev pub is_persisted_or_failed : StepStatus → Bool
is_persisted_or_failed succeeded = true
is_persisted_or_failed failed = true
is_persisted_or_failed _ = false

abbrev pub is_not_run : StepStatus → Bool
is_not_run not_run = true
is_not_run _ = false

-- The evidence that a status claims.
abbrev pub scan_fits : ScanHealth → StepStatus → Bool
scan_fits s succeeded =
    is_some s.cycle
    && is_persisted_or_failed s.persistence
    && not (is_succeeded s.persistence && is_some s.error_code)
scan_fits s degraded = false
scan_fits s _ = not (is_some s.cycle) && is_not_run s.persistence

-- `ScanHealth.from_dict`
unfoldable pub scan_valid : ScanHealth → Bool
unfolding is_health_text
scan_valid s = is_optional_text s.error_code && scan_fits s s.status

-- `CycleHealth.from_dict`
unfoldable pub cycle_valid : CycleHealth → Bool
unfolding refresh_valid scan_valid is_health_text
cycle_valid c =
    leb 1 c.number
    && is_health_text c.service_run_id
    && refresh_valid c.refresh
    && scan_valid c.scan
    && leb c.started_at_ms c.completed_at_ms

-- `HealthEvent.from_dict`
unfoldable pub health_event_valid : HealthEvent → Bool
unfolding is_health_text
health_event_valid e = leb 1 e.sequence && all is_health_text e.problems

-- Sorted, the two lists are the same: each text stands in both as often.
abbrev pub remove : String → List String → Option (List String)
remove s [] = none
remove s (t ∷ ts) =
    let rest = remove s ts in
    if str_eq s t then some ts else elim rest [ none ↦ none | some us ↦ some (t ∷ us) ]

unfoldable pub same_members : List String → List String → Bool
same_members [] [] = true
same_members [] (t ∷ ts) = false
same_members (s ∷ ss) ts = elim (remove s ts) [ none ↦ false | some us ↦ same_members ss us ]

abbrev pub no_repeats : List String → Bool
no_repeats [] = true
no_repeats (s ∷ ss) = not (contains_text s ss) && no_repeats ss

abbrev pub non_empty : List String → Bool
non_empty [] = false
non_empty (s ∷ ss) = true

-- The events are numbered `n + 1`, `n + 2`, …, up to `m`.
abbrev pub numbered_from : ℕ → ℕ → List HealthEvent → Bool
numbered_from n m [] = n == m
numbered_from n m (e ∷ es) = e.sequence == n + 1 && numbered_from (n + 1) m es

-- `expected`, and that there are events just where the sequence is not 0.
abbrev pub events_fit : List HealthEvent → ℕ → Bool
events_fit [] m = m == 0
events_fit (e ∷ es) m = numbered_from (e.sequence - 1) m (e ∷ es)

abbrev pub symbol_of : ObservationFacts → String
symbol_of o = o.symbol

abbrev pub covers : List String → Option (List ObservationFacts) → Bool
covers symbols none = true
covers symbols (some os) = same_members (map symbol_of os) symbols

abbrev pub last_cycle_fits : ServiceState → Option CycleHealth → Bool
last_cycle_fits s none = true
last_cycle_fits s (some c) =
    cycle_valid c
    && (not (str_eq c.service_run_id s.run_id)
        || (leb c.completed_at_ms s.updated_at_ms && leb s.started_at_ms c.started_at_ms))
    && covers s.symbols c.scan.cycle

-- The tests of `ServiceState.from_dict`, in the order in which they stand
unfoldable pub state_tests : ServiceState → List Bool
unfolding is_health_text cycle_valid health_event_valid same_members
state_tests s =
    is_health_text s.data_dir
    ∷ all is_health_text s.symbols
    ∷ is_health_text s.run_id
    ∷ all health_event_valid s.events
    ∷ non_empty s.symbols
    ∷ no_repeats s.symbols
    ∷ leb s.started_at_ms s.updated_at_ms
    ∷ leb s.updated_at_ms s.deadline_ms
    ∷ (s.running || is_idle s.phase)
    ∷ leb (length s.events) event_limit
    ∷ events_fit s.events s.event_sequence
    ∷ last_cycle_fits s s.last_cycle
    ∷ []

abbrev pub all_true : List Bool → Bool
all_true [] = true
all_true (b ∷ bs) = b && all_true bs

-- `ServiceState.from_dict`
unfoldable pub service_valid : ServiceState → Bool
unfolding state_tests
service_valid s = all_true (state_tests s)
