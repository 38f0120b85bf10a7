-- ===== src/Service/Healthy.antt =====
-- mu_strategy/service_health.py: when `health_view` says that the service is healthy.
mod Cycle
use Prim.Native.String.{◌++◌}
use mu_5x_fibonacci_trading.Base.{
  ℕ, ◌≤◌, ◌≡◌, ◌≢◌, refl, ap, ◌∙◌, ◌⊎◌, inl, inr, String, Bool, true, false, not, ◌||◌, Option,
  none, some, List, [], ◌∷◌, str_eq, ltb, if◌then◌else◌, arith,
}
use mathlib.Core.List.{◌++◌ as append}
use mu_5x_fibonacci_trading.Service.Health.{CycleHealth, ServiceState}
use mu_5x_fibonacci_trading.Service.View.{
  problem_if, problems, ServiceRuntime, not_started, running, starting, stopped, interrupted,
  unresponsive, is_running, runtime_of, runtime_value, last_problems, view_of_problems, health_view,
}
use mu_5x_fibonacci_trading.Service.Healthy.Cycle.{
  IsSound, no_problem, no_problems, problems-IsSound, IsSound-problems, skipped,
}

-- A live supervisor within its deadline, whose last cycle is a sound one of its own run.
abbrev pub IsHealthy : ServiceState → Bool → ℕ → Type 0
IsHealthy s alive now =
    (s.running ≡ true)
    × (alive ≡ true)
    × (s.updated_at_ms ≤ now)
    × (now ≤ s.deadline_ms)
    × ((c : CycleHealth) × (s.last_cycle ≡ some c)
        × (str_eq c.service_run_id s.run_id ≡ true)
        × IsSound c)

only_running :
    (on up early soon late : Bool)
    → is_running (
        if not on
        then stopped
        else if not up
        then (if early then starting else interrupted)
        else if soon || late
        then unresponsive
        else running)
      ≡ true
    → (on ≡ true) × (up ≡ true) × (soon ≡ false) × (late ≡ false)
only_running false up early soon late h = absurd (cc h)
only_running true false true soon late h = absurd (cc h)
only_running true false false soon late h = absurd (cc h)
only_running true true early true late h = absurd (cc h)
only_running true true early false true h = absurd (cc h)
only_running true true early false false h = (refl, refl, refl, refl)

running_facts :
    (s : ServiceState) (alive : Bool) (now : ℕ)
    → is_running (runtime_of s alive now) ≡ true
    → (s.running ≡ true) × (alive ≡ true) × (s.updated_at_ms ≤ now) × (now ≤ s.deadline_ms)
running_facts s alive now h =
    let (on, up, soon, late) =
      only_running s.running alive _ (ltb now s.updated_at_ms) (ltb s.deadline_ms now) h in
    (on, up, ground arith, ground arith)

facts_running :
    (s : ServiceState) (alive : Bool) (now : ℕ)
    → s.running ≡ true
    → alive ≡ true
    → s.updated_at_ms ≤ now
    → now ≤ s.deadline_ms
    → runtime_of s alive now ≡ running
facts_running s alive now on up low high =
    let soon : ltb now s.updated_at_ms ≡ false = ground arith in
    let late : ltb s.deadline_ms now ≡ false = ground arith in rw (on, up, soon, late) refl

-- The list of the view's problems, from the last cycle on
healthy_cycle :
    (s : ServiceState) (last : Option CycleHealth) (ps : List String)
    → last_problems s last ps ≡ []
    → ((c : CycleHealth) × (last ≡ some c) × (str_eq c.service_run_id s.run_id ≡ true) × IsSound c)
      × (ps ≡ [])
healthy_cycle s none ps h = absurd (cc h)
healthy_cycle s (some c) ps h =
    let (sound, h1) = no_problems (problems c) _ h in
    let (own, h2) = no_problem (not (str_eq c.service_run_id s.run_id)) _ _ h1 in
    ((c, refl, same (str_eq c.service_run_id s.run_id) own, problems-IsSound c sound), h2)
  where
    same : (b : Bool) → not b ≡ false → b ≡ true
    same true h = refl
    same false h = absurd (cc h)

cycle_healthy :
    (s : ServiceState) (c : CycleHealth) (ps : List String)
    → str_eq c.service_run_id s.run_id ≡ true
    → IsSound c
    → last_problems s (some c) ps ≡ ps
cycle_healthy s c ps own sound =
    ap
      (λ (qs : List String). append qs (
        problem_if (not (str_eq c.service_run_id s.run_id)) "no_completed_cycle_in_current_run" ps))
      (IsSound-problems c sound)
    ∙ skipped (not (str_eq c.service_run_id s.run_id)) _ ps (ap not own)

view_cases :
    (r : ServiceRuntime) (ps : List String)
    → (((view_of_problems r ps).healthy ≡ true) × (ps ≡ []))
      ⊎ (((view_of_problems r ps).healthy ≡ false) × (ps ≢ []))
view_cases r [] = inl (refl, refl)
view_cases r (p ∷ ps) = inr (refl, cc)

is_running_if : (r : ServiceRuntime) → not (is_running r) ≡ false → is_running r ≡ true
is_running_if not_started h = absurd (cc h)
is_running_if running h = refl
is_running_if starting h = absurd (cc h)
is_running_if stopped h = absurd (cc h)
is_running_if interrupted h = absurd (cc h)
is_running_if unresponsive h = absurd (cc h)

abbrev runtime_problems : ServiceRuntime → List String
runtime_problems r = problem_if (not (is_running r)) ("runtime." ++ runtime_value r) []

healthy_none :
    (s : ServiceState) (alive : Bool) (now : ℕ)
    → IsHealthy s alive now
    → last_problems s s.last_cycle (runtime_problems (runtime_of s alive now)) ≡ []
healthy_none s alive now (on, up, low, high, (c, last, own, sound)) =
    let ps = runtime_problems (runtime_of s alive now) in
    ap (λ l. last_problems s l ps) last
    ∙ cycle_healthy s c ps own sound
    ∙ skipped (not (is_running (runtime_of s alive now)))
        ("runtime." ++ runtime_value (runtime_of s alive now)) []
        (ap (λ r. not (is_running r)) (facts_running s alive now on up low high))

-- The view of a state is healthy just where the supervisor runs, is alive and within its deadline, and
-- its last completed cycle is of this run, with every step a success and no problem observed; in all
-- other cases it is not healthy.
pub health_view-IsHealthy :
    (s : ServiceState) (alive : Bool) (now : ℕ)
    → (((health_view (some s) alive now).healthy ≡ true) × IsHealthy s alive now)
      ⊎ (((health_view (some s) alive now).healthy ≡ false) × (¬ IsHealthy s alive now))
unfolding health_view
health_view-IsHealthy s alive now =
    elim (view_cases (runtime_of s alive now)
      (last_problems s s.last_cycle (runtime_problems (runtime_of s alive now)))) [
        | inl (well, empty) ↦
            let (sound, h) = healthy_cycle s s.last_cycle _ empty in
            let (runs, _) = no_problem (not (is_running (runtime_of s alive now))) _ _ h in
            let (on, up, low, high) = running_facts s alive now (is_running_if _ runs) in
            inl (well, (on, up, low, high, sound))
        | inr (ill, full) ↦ inr (ill, λ healthy. full (healthy_none s alive now healthy))
      ]
