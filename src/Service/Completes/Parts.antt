-- ===== src/Service/Completes/Parts.antt =====
-- mu_strategy/signal_service.py: what `_refresh` and `_scan` return, and the problems of a cycle, pass
-- the tests of a written state.
use Prim.Native.String.{◌++◌}
use mu_5x_fibonacci_trading.Base.{
  ◌≡◌, refl, String, Bool, true, false, not, ◌&&◌, Option, none, some, List, [], if◌then◌else◌, any,
  all, Bool-cases, inl, inr,
}
use mu_5x_fibonacci_trading.Service.Health.{
  StepStatus, not_run, succeeded, degraded, failed, timed_out, step_value, is_succeeded, ExitCode,
  ObservationFacts, ScanHealth, CycleHealth,
}
use mu_5x_fibonacci_trading.Service.Valid.{
  is_health_text, exit_code_valid, same_exit, refresh_valid, scan_valid, covers,
}
use mu_5x_fibonacci_trading.Service.Facts.{both}
use mu_5x_fibonacci_trading.Service.View.{
  is_blocked, is_scan_failed, publication_changed, problem_if, cycle_problems, problems,
}
use mu_5x_fibonacci_trading.Service.World.{RefreshPayload, ChildResult, finished}
use mu_5x_fibonacci_trading.Service.Children.{
  failed_refresh, refresh_error, refresh_of_payload, refresh_status, refresh_health, failed_scan,
  scan_exit, is_completed, scan_health, same_flag, claims_usable, expected_exit,
}

-- The return code of a child is not below -2 ^ 31.
abbrev pub ExitsWell : {A : Type 0} → ChildResult A → Type 0
ExitsWell ChildResult.timed_out = Unit
ExitsWell ChildResult.crashed = Unit
ExitsWell (finished p code) = exit_code_valid (some code) ≡ true

failed_refresh-refresh_valid :
    (code : ExitCode)
    → exit_code_valid (some code) ≡ true
    → refresh_valid (failed_refresh failed (some code) (refresh_error code)) ≡ true
unfolding refresh_valid is_health_text
failed_refresh-refresh_valid code h = elim (Bool-cases (same_exit (some code) 0)) [
  | inl zero ↦ rw (zero, h) refl
  | inr other ↦ rw (other, h) refl
]

pick :
    {A : Type 0} (P : A → Type 0) (b : Bool) (x y : A)
    → (b ≡ true → P x)
    → P y
    → P (if b then x else y)
pick P true x y h e = h refl
pick P false x y h e = e

pub refresh_health-refresh_valid :
    (r : ChildResult RefreshPayload) → ExitsWell r → refresh_valid (refresh_health r) ≡ true
unfolding refresh_valid is_health_text
refresh_health-refresh_valid ChildResult.timed_out h = refl
refresh_health-refresh_valid ChildResult.crashed h = refl
refresh_health-refresh_valid (finished none code) h = failed_refresh-refresh_valid code h
refresh_health-refresh_valid (finished (some p) code) h =
    let r = refresh_of_payload p code (refresh_status p.attempt_status p.snapshot_usability) in
    let flagged = same_flag p.says_usable (claims_usable p.snapshot_usability) in
    let exits = same_exit (some code) (expected_exit r.status) in
    pick (λ g. refresh_valid g ≡ true) (flagged && exits && refresh_valid r) r
      (failed_refresh failed (some code) (refresh_error code))
      (λ g. (both (flagged && exits) (refresh_valid r) g).1) (failed_refresh-refresh_valid code h)

-- A scan that may stand in the state of these symbols
abbrev pub IsScan : List String → ScanHealth → Type 0
IsScan symbols s = (scan_valid s ≡ true) × (covers symbols s.cycle ≡ true)

failed_scan-IsScan :
    (symbols : List String) → IsScan symbols (failed_scan failed "scan_result_invalid")
unfolding scan_valid is_health_text
failed_scan-IsScan symbols = (refl, refl)

pub scan_health-IsScan :
    (symbols : List String) (r : ChildResult ScanHealth) → IsScan symbols (scan_health symbols r)
unfolding scan_valid is_health_text
scan_health-IsScan symbols ChildResult.timed_out = (refl, refl)
scan_health-IsScan symbols ChildResult.crashed = (refl, refl)
scan_health-IsScan symbols (finished none code) = failed_scan-IsScan symbols
scan_health-IsScan symbols (finished (some s) code) =
    let exits = same_exit (some code) (scan_exit s) in
    let ended = is_completed s.status in
    pick (IsScan symbols) (scan_valid s && exits && ended && covers symbols s.cycle) s
      (failed_scan failed "scan_result_invalid")
      (λ g.
        let (ran, covered) = both (scan_valid s && exits && ended) (covers symbols s.cycle) g in
        ((both (scan_valid s) exits (both (scan_valid s && exits) ended ran).0).0, covered))
      (failed_scan-IsScan symbols)

step_text :
    (s : StepStatus)
    → (is_health_text ("refresh." ++ step_value s) ≡ true)
      × (is_health_text ("scan." ++ step_value s) ≡ true)
      × (is_health_text ("persistence." ++ step_value s) ≡ true)
unfolding is_health_text
step_text not_run = (refl, refl, refl)
step_text succeeded = (refl, refl, refl)
step_text degraded = (refl, refl, refl)
step_text failed = (refl, refl, refl)
step_text timed_out = (refl, refl, refl)

with_problem :
    (b : Bool) (p : String) (ps : List String)
    → is_health_text p ≡ true
    → all is_health_text ps ≡ true
    → all is_health_text (problem_if b p ps) ≡ true
with_problem true p ps h hs = rw h hs
with_problem false p ps h hs = hs

cycle_texts :
    (c : CycleHealth) (os : Option (List ObservationFacts)) (ps : List String)
    → all is_health_text ps ≡ true
    → all is_health_text (cycle_problems c os ps) ≡ true
unfolding is_health_text
cycle_texts c none ps h = h
cycle_texts c (some os) ps h =
    let changed = is_succeeded c.refresh.status && any (publication_changed c.refresh.run_id) os in
    let moved = problem_if changed "data.publication_changed" ps in
    let scanned = problem_if (any is_scan_failed os) "scan.failed" moved in
    with_problem (any is_blocked os) "data.blocked" scanned refl (
      with_problem (any is_scan_failed os) "scan.failed" moved refl
        (with_problem changed "data.publication_changed" ps refl h))

pub problems_texts : (c : CycleHealth) → all is_health_text (problems c) ≡ true
unfolding problems
problems_texts c =
    let stored = "persistence." ++ step_value c.scan.persistence in
    let kept = problem_if (not (is_succeeded c.scan.persistence)) stored [] in
    let seen = cycle_problems c c.scan.cycle kept in
    let scanned =
      problem_if (not (is_succeeded c.scan.status)) ("scan." ++ step_value c.scan.status) seen in
    with_problem (not (is_succeeded c.refresh.status)) ("refresh." ++ step_value c.refresh.status)
      scanned (step_text c.refresh.status).0
      (with_problem (not (is_succeeded c.scan.status)) ("scan." ++ step_value c.scan.status) seen
        (step_text c.scan.status).1
        (cycle_texts c c.scan.cycle kept (
          with_problem (not (is_succeeded c.scan.persistence)) stored []
            (step_text c.scan.persistence).2 refl)))
