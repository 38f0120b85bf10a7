-- ===== src/Service/Tests.antt =====
-- The supervisor and its health records on concrete children: a sound run, a failing refresh, a crash.
use mu_5x_fibonacci_trading.Base.{
  ◌>>=◌, ℕ, ◌+◌, arith, ◌+◌, ◌*◌, ◌<◌, ◌≤◌, ◌≡◌, refl, ◌⊎◌, true, false, none, some, List, [], ◌∷◌,
  ◌++◌, ok, err, All, all, length,
}
use mu_5x_fibonacci_trading.Runtime.{Json, Fields}
use mu_5x_fibonacci_trading.Runtime.Fields.{end, field}
use mu_5x_fibonacci_trading.Market.Policy.{RefreshAttemptStatus, SnapshotUsability}
use mu_5x_fibonacci_trading.Service.Health.{
  refresh, succeeded, idle, exited, ScanHealth, ObservationFacts, normal_no_action, HealthEvent,
  started, fault, ServiceState,
}
use mu_5x_fibonacci_trading.Service.Valid.{
  is_health_text, health_event_valid, same_members, scan_valid, refresh_valid, cycle_valid,
  state_tests, service_valid,
}
use mu_5x_fibonacci_trading.Service.View.{problems, events_since, oldest_of, health_view}
use mu_5x_fibonacci_trading.Service.Document.{state_json, within_limit}
use mu_5x_fibonacci_trading.Service.World.{
  RefreshPayload, finished, Outside, interrupted_cycle, health_state_error, Call, World,
  read_health, write,
}
use mu_5x_fibonacci_trading.Service.Children.{run_refresh, run_scan}
use mu_5x_fibonacci_trading.Service.Memory.{drop_first, add_event, set_phase}
use mu_5x_fibonacci_trading.Service.Supervisor.{
  is_interrupted, recover, close_cycle, run_cycle, next_due, wait, rest, turn, turns, stop, start,
  run_service,
}
use mu_5x_fibonacci_trading.Service.Completes.{IsConfig, IsAtRest, run_completes}
use mu_5x_fibonacci_trading.Service.Completes.Steady.{Ends}
use mu_5x_fibonacci_trading.Service.Recovery.{recovered_run}
use mu_5x_fibonacci_trading.Service.Covered.{
  AreTold, run_service-AreTold, crashed_at, crash_refused,
}
use mu_5x_fibonacci_trading.Service.Journal.{AreAfter, events_since_complete}
use mu_5x_fibonacci_trading.Service.Events.{surplus, event_of, add_event-service_valid}
use mu_5x_fibonacci_trading.Service.Healthy.{IsHealthy, health_view-IsHealthy}

abbrev fresh_payload : RefreshPayload
fresh_payload = record {
  run_id = some "r1";
  attempt_status = RefreshAttemptStatus.success;
  snapshot_usability = SnapshotUsability.usable;
  says_usable = true;
}

abbrev quiet : ObservationFacts
quiet = record {
  symbol = "MU";
  outcome = normal_no_action;
  trust_allowed = true;
  trusted_run_id = some "r1";
}

abbrev quiet_scan : ScanHealth
quiet_scan = record {
  status = succeeded;
  cycle = some (quiet ∷ []);
  document = Json.null;
  persistence = succeeded;
  error_code = none;
}

abbrev sound_world : Outside
sound_world = record {
  data_dir = "data";
  symbols = "MU" ∷ [];
  interval_seconds = 300;
  refresh_timeout_seconds = 240;
  scan_timeout_seconds = 60;
  run_id = "run";
  json_size = λ _. 1000;
  clock = λ n. 1000 + n;
  monotonic = λ n. 10 * n;
  refresh_child = λ _. finished (some fresh_payload) (exited 0);
  scan_child = λ _. finished (some quiet_scan) (exited 0);
}

-- The same, with a refresh that exits with another code than its payload claims
abbrev lying_world : Outside
lying_world = record sound_world { refresh_child = λ _. finished (some fresh_payload) (exited 2) }

abbrev first_event : HealthEvent
first_event = record { sequence = 1; at_ms = 5; kind = started; problems = [] }

abbrev second_event : HealthEvent
second_event = record { sequence = 2; at_ms = 6; kind = fault; problems = "scan.failed" ∷ [] }

abbrev resting_state : ServiceState
resting_state = record {
  data_dir = "data";
  symbols = "MU" ∷ [];
  run_id = "old";
  running = true;
  phase = idle;
  started_at_ms = 5;
  updated_at_ms = 6;
  deadline_ms = 900;
  last_cycle = none;
  consecutive_failures = 0;
  events = first_event ∷ second_event ∷ [];
  event_sequence = 2;
}

abbrev before_run : World
before_run = record {
  memory = resting_state;
  disk = none;
  readings = 0;
  ticks = 0;
  slept = [];
  calls = [];
  refused = [];
}

valid_test : service_valid resting_state ≡ true
unfolding service_valid state_tests is_health_text health_event_valid
valid_test = refl

run_test : (run_service sound_world 2 before_run).0 ≡ ok tt
unfolding run_service read_health write start stop turns turn wait rest run_cycle close_cycle
    set_phase run_refresh run_scan add_event problems service_valid state_tests is_health_text
    health_event_valid cycle_valid refresh_valid scan_valid same_members next_due within_limit
run_test = refl

calls_test : length (run_service sound_world 2 before_run).1.calls ≡ 4
unfolding run_service read_health write start stop turns turn wait rest run_cycle close_cycle
    set_phase run_refresh run_scan add_event problems service_valid state_tests is_health_text
    health_event_valid cycle_valid refresh_valid scan_valid same_members next_due within_limit
calls_test = refl

slept_test : (run_service sound_world 2 before_run).1.slept ≡ 299970 ∷ []
unfolding run_service read_health write start stop turns turn wait rest run_cycle close_cycle
    set_phase run_refresh run_scan add_event problems service_valid state_tests is_health_text
    health_event_valid cycle_valid refresh_valid scan_valid same_members next_due within_limit
slept_test = refl

failures_test : (run_service lying_world 2 before_run).1.memory.consecutive_failures ≡ 2
unfolding run_service read_health write start stop turns turn wait rest run_cycle close_cycle
    set_phase run_refresh run_scan add_event problems service_valid state_tests is_health_text
    health_event_valid cycle_valid refresh_valid scan_valid same_members next_due within_limit
failures_test = refl

-- Ticks that were missed are skipped: from 100 with an interval of 30, at 205 the next is due at 220.
next_due_test : next_due 30 100 205 ≡ 220
unfolding next_due
next_due_test = refl

told_test : AreTold sound_world (run_service sound_world 2 before_run).1
told_test = run_service-AreTold sound_world 2 before_run tt

crash_refused_example :
    All
      (λ (c : Call).
        run_service lying_world 1 (crashed_at c before_run)
        ≡ (err interrupted_cycle, crashed_at c before_run))
      (run_service sound_world 2 before_run).1.calls
crash_refused_example =
    crash_refused sound_world lying_world 2 0 before_run before_run refl refl refl

events_since_complete_example :
    ((es : List HealthEvent) × (events_since resting_state 1 ≡ some es)
      × AreAfter 1 2 (first_event ∷ second_event ∷ []) es
      × (oldest_of (first_event ∷ second_event ∷ []) 2 ≤ 1))
    ⊎ ((events_since resting_state 1 ≡ none)
        × ((1 < oldest_of (first_event ∷ second_event ∷ []) 2) ⊎ (2 < 1)))
events_since_complete_example = events_since_complete resting_state 1 valid_test

texts_test : all is_health_text ("scan.failed" ∷ []) ≡ true
unfolding is_health_text
texts_test = refl

add_event_test :
    (service_valid (add_event fault 7 ("scan.failed" ∷ []) resting_state) ≡ true)
    × ((add_event fault 7 ("scan.failed" ∷ []) resting_state).events
        ≡ drop_first (surplus resting_state) resting_state.events
          ++ event_of resting_state fault 7 ("scan.failed" ∷ []) ∷ [])
add_event_test =
    add_event-service_valid resting_state fault 7 ("scan.failed" ∷ []) valid_test texts_test

health_view-IsHealthy_example :
    (((health_view (some resting_state) true 100).healthy ≡ true)
      × IsHealthy resting_state true 100)
    ⊎ (((health_view (some resting_state) true 100).healthy ≡ false)
        × (¬ IsHealthy resting_state true 100))
health_view-IsHealthy_example = health_view-IsHealthy resting_state true 100

sound_world-IsConfig : IsConfig sound_world
unfolding is_health_text
sound_world-IsConfig = record {
  dir_text = refl;
  symbol_texts = refl;
  run_text = refl;
  some_symbol = refl;
  apart = refl;
}

sound_world_rising : (m : ℕ) → sound_world.clock m ≤ sound_world.clock (m + 1)
sound_world_rising m = omega arith

run_completes_example :
    Ends sound_world (IsAtRest sound_world) (run_service sound_world 2 before_run)
run_completes_example =
    run_completes sound_world 1 before_run sound_world_rising (λ _. refl) sound_world-IsConfig tt
      refl

abbrev crashed_state : ServiceState
crashed_state = record resting_state { phase = refresh }

abbrev after_crash : World
after_crash = record before_run { disk = some crashed_state }

crashed_valid_test : service_valid crashed_state ≡ true
unfolding service_valid state_tests is_health_text health_event_valid
crashed_valid_test = refl

crashed_small_test : within_limit sound_world.json_size crashed_state ≡ true
unfolding within_limit
crashed_small_test = refl

recovered_run_example :
    Ends sound_world
      (IsAtRest sound_world)
      ((recover sound_world >>= λ _. run_service sound_world 2) after_crash)
recovered_run_example =
    recovered_run sound_world 1 after_crash crashed_state sound_world_rising (λ _. refl)
      sound_world-IsConfig refl (crashed_valid_test, refl, crashed_small_test, refl, tt) refl

-- A state with a completed cycle is too large here.
abbrev weigh_fields : Fields → ℕ
weigh_fields end = 1000
weigh_fields (field key (Json.object fs) rest) = 5000000
weigh_fields (field key value rest) = weigh_fields rest

abbrev weigh : Json → ℕ
weigh (Json.object fs) = weigh_fields fs
weigh _ = 1000

abbrev heavy_world : Outside
heavy_world = record sound_world { json_size = weigh }

-- The states after the cycle and at the stop are refused, and health.json stays in the scan.
heavy_test :
    ((run_service heavy_world 2 before_run).0 ≡ err health_state_error)
    × (length (run_service heavy_world 2 before_run).1.refused ≡ 2)
    × (is_interrupted (run_service heavy_world 2 before_run).1.disk ≡ true)
unfolding run_service read_health write start stop turns turn wait rest run_cycle close_cycle
    set_phase run_refresh run_scan add_event problems service_valid state_tests is_health_text
    health_event_valid cycle_valid refresh_valid scan_valid same_members next_due within_limit
    state_json
heavy_test = (refl, refl, refl)
