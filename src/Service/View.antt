-- ===== src/Service/View.antt =====
-- mu_strategy/service_health.py: `problems`, `events_since` and `health_view`.
use Prim.Native.String.{◌++◌}
use mu_5x_fibonacci_trading.Base.{
  ℕ, ◌-◌, String, Bool, true, false, not, ◌&&◌, ◌||◌, Option, none, some, List, [], ◌∷◌, str_eq,
  same_option, leb, ltb, if◌then◌else◌, select, any,
}
use mathlib.Core.List.{◌++◌ as append}
use mu_5x_fibonacci_trading.Service.Health.{
  step_value, is_succeeded, is_idle, ObservationFacts, data_gate_blocked, scan_failed, CycleHealth,
  HealthEvent, ServiceState,
}

abbrev pub is_blocked : ObservationFacts → Bool
is_blocked o = elim o.outcome [ data_gate_blocked ↦ true | _ ↦ false ]

abbrev pub is_scan_failed : ObservationFacts → Bool
is_scan_failed o = elim o.outcome [ scan_failed ↦ true | _ ↦ false ]

abbrev pub publication_changed : Option String → ObservationFacts → Bool
publication_changed run_id o = o.trust_allowed && not (same_option o.trusted_run_id run_id)

-- A problem where the test holds, in front of the others.
abbrev pub problem_if : Bool → String → List String → List String
problem_if b p ps = if b then p ∷ ps else ps

abbrev pub cycle_problems : CycleHealth → Option (List ObservationFacts) → List String → List String
cycle_problems c none ps = ps
cycle_problems c (some os) ps = problem_if (any is_blocked os) "data.blocked" (
    problem_if (any is_scan_failed os) "scan.failed" (
      problem_if (is_succeeded c.refresh.status && any (publication_changed c.refresh.run_id) os)
        "data.publication_changed" ps))

-- `problems`
unfoldable pub problems : CycleHealth → List String
problems c =
    problem_if (not (is_succeeded c.refresh.status)) ("refresh." ++ step_value c.refresh.status) (
      problem_if (not (is_succeeded c.scan.status)) ("scan." ++ step_value c.scan.status) (
        cycle_problems c c.scan.cycle (
          problem_if (not (is_succeeded c.scan.persistence))
            ("persistence." ++ step_value c.scan.persistence) [])))

abbrev pub oldest_of : List HealthEvent → ℕ → ℕ
oldest_of [] last = last
oldest_of (e ∷ es) last = e.sequence - 1

abbrev pub is_after : ℕ → HealthEvent → Bool
is_after n e = ltb n e.sequence

-- `events_since`; `none` is HealthStateError.
unfoldable pub events_since : ServiceState → ℕ → Option (List HealthEvent)
events_since s n =
    if leb (oldest_of s.events s.event_sequence) n && leb n s.event_sequence
    then some (select (is_after n) s.events)
    else none

pub data ServiceRuntime : Type 0 where
  not_started running starting stopped interrupted unresponsive : ServiceRuntime

abbrev pub runtime_value : ServiceRuntime → String
runtime_value not_started = "not_started"
runtime_value running = "running"
runtime_value starting = "starting"
runtime_value stopped = "stopped"
runtime_value interrupted = "interrupted"
runtime_value unresponsive = "unresponsive"

abbrev pub is_running : ServiceRuntime → Bool
is_running running = true
is_running _ = false

abbrev pub of_current_run : ServiceState → Option CycleHealth → Bool
of_current_run s none = false
of_current_run s (some c) = str_eq c.service_run_id s.run_id

abbrev pub runtime_of : ServiceState → Bool → ℕ → ServiceRuntime
runtime_of s alive now =
    if not s.running
    then stopped
    else if not alive
    then (if is_idle s.phase
          && not (of_current_run s s.last_cycle)
          && leb s.updated_at_ms now
          && leb now s.deadline_ms
        then starting
        else interrupted)
    else if ltb now s.updated_at_ms || ltb s.deadline_ms now
    then unresponsive
    else running

abbrev pub last_problems : ServiceState → Option CycleHealth → List String → List String
last_problems s none ps = "no_completed_cycle" ∷ ps
last_problems s (some c) ps =
    append (problems c)
      (problem_if (not (str_eq c.service_run_id s.run_id)) "no_completed_cycle_in_current_run" ps)

-- The entries of the view that tell whether the service is healthy; the others repeat the state.
pub record HealthView : Type 0 where
  pub runtime : ServiceRuntime
  pub healthy : Bool
  pub problems : List String

abbrev pub view_of_problems : ServiceRuntime → List String → HealthView
view_of_problems r [] = record { runtime = r; healthy = true; problems = [] }
view_of_problems r (p ∷ ps) = record { runtime = r; healthy = false; problems = p ∷ ps }

abbrev pub state_view : ServiceState → ServiceRuntime → HealthView
state_view s r = view_of_problems r (
    last_problems s s.last_cycle
      (problem_if (not (is_running r)) ("runtime." ++ runtime_value r) []))

-- `health_view`
unfoldable pub health_view : Option ServiceState → Bool → ℕ → HealthView
unfolding problems
health_view none alive now = record {
  runtime = not_started;
  healthy = false;
  problems = "runtime.not_started" ∷ [];
}
health_view (some s) alive now = state_view s (runtime_of s alive now)
