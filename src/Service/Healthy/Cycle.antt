-- ===== src/Service/Healthy/Cycle.antt =====
-- mu_strategy/service_health.py: when `problems` finds none in a cycle.
use mu_5x_fibonacci_trading.Base.{
  ◌≡◌, ◌≢◌, refl, ap, sym, ◌∙◌, ◌⊎◌, inl, inr, String, Bool, true, false, not, ◌&&◌, ◌||◌, Option,
  none, some, List, [], ◌∷◌, same_option, any, All,
}
use mathlib.Core.List.{◌++◌ as append}
use mu_5x_fibonacci_trading.Service.Health.{
  StepStatus, not_run, succeeded, degraded, failed, timed_out, is_succeeded, ObservationFacts,
  ObservationOutcome, data_gate_blocked, scan_failed, normal_no_action, ready_for_review,
  CycleHealth,
}
use mu_5x_fibonacci_trading.Service.View.{
  is_blocked, is_scan_failed, publication_changed, problem_if, cycle_problems, problems,
}

-- An observation that tells of no problem, of the publication that the refresh left.
abbrev pub IsClean : Option String → ObservationFacts → Type 0
IsClean run_id o =
    (o.outcome ≢ data_gate_blocked)
    × (o.outcome ≢ scan_failed)
    × ((o.trust_allowed ≡ false) ⊎ (same_option o.trusted_run_id run_id ≡ true))

abbrev pub AreClean : Option String → Option (List ObservationFacts) → Type 0
AreClean run_id none = Unit
AreClean run_id (some os) = All (IsClean run_id) os

-- A cycle whose every step succeeded, with no problem observed.
abbrev pub IsSound : CycleHealth → Type 0
IsSound c =
    (c.refresh.status ≡ succeeded)
    × (c.scan.status ≡ succeeded)
    × (c.scan.persistence ≡ succeeded)
    × AreClean c.refresh.run_id c.scan.cycle

pub no_problem :
    (b : Bool) (p : String) (ps : List String) → problem_if b p ps ≡ [] → (b ≡ false) × (ps ≡ [])
no_problem true p ps h = absurd (cc h)
no_problem false p ps h = (refl, h)

pub no_problems : (ps qs : List String) → append ps qs ≡ [] → (ps ≡ []) × (qs ≡ [])
no_problems [] qs h = (refl, h)
no_problems (p ∷ ps) qs h = absurd (cc h)

is_succeeded_eq : (s : StepStatus) → not (is_succeeded s) ≡ false → s ≡ succeeded
is_succeeded_eq succeeded h = refl
is_succeeded_eq not_run h = absurd (cc h)
is_succeeded_eq degraded h = absurd (cc h)
is_succeeded_eq failed h = absurd (cc h)
is_succeeded_eq timed_out h = absurd (cc h)

clean_outcome :
    (o : ObservationOutcome)
    → (elim o [ data_gate_blocked ↦ true | _ ↦ false ]) ≡ false
    → (elim o [ scan_failed ↦ true | _ ↦ false ]) ≡ false
    → (o ≢ data_gate_blocked) × (o ≢ scan_failed)
clean_outcome data_gate_blocked h k = absurd (cc h)
clean_outcome scan_failed h k = absurd (cc k)
clean_outcome normal_no_action h k = (cc, cc)
clean_outcome ready_for_review h k = (cc, cc)

neither : (a b : Bool) → (a || b) ≡ false → (a ≡ false) × (b ≡ false)
neither true b h = absurd (cc h)
neither false b h = (refl, h)

outcome-IsClean :
    (run_id : Option String) (o : ObservationFacts)
    → is_blocked o ≡ false
    → is_scan_failed o ≡ false
    → publication_changed run_id o ≡ false
    → IsClean run_id o
outcome-IsClean run_id o free scanned same =
    let (not_blocked, not_failed) = clean_outcome o.outcome free scanned in
    (not_blocked, not_failed, unchanged o.trust_allowed (same_option o.trusted_run_id run_id) same)
  where
    unchanged : (a b : Bool) → (a && not b) ≡ false → (a ≡ false) ⊎ (b ≡ true)
    unchanged false b h = inl refl
    unchanged true true h = inr refl
    unchanged true false h = absurd (cc h)

any-IsClean :
    (run_id : Option String) (os : List ObservationFacts)
    → any is_blocked os ≡ false
    → any is_scan_failed os ≡ false
    → any (publication_changed run_id) os ≡ false
    → All (IsClean run_id) os
any-IsClean run_id [] free scanned same = tt
any-IsClean run_id (o ∷ os) free scanned same =
    let (a, later) = neither (is_blocked o) _ free in
    let (b, later_too) = neither (is_scan_failed o) _ scanned in
    let (c, last) = neither (publication_changed run_id o) _ same in
    (outcome-IsClean run_id o a b c, any-IsClean run_id os later later_too last)

observed_clean :
    (c : CycleHealth) (os : Option (List ObservationFacts)) (ps : List String)
    → c.refresh.status ≡ succeeded
    → cycle_problems c os ps ≡ []
    → AreClean c.refresh.run_id os × (ps ≡ [])
observed_clean c none ps done h = (tt, h)
observed_clean c (some os) ps done h =
    let (free, h1) = no_problem (any is_blocked os) _ _ h in
    let (scanned, h2) = no_problem (any is_scan_failed os) _ _ h1 in
    let (same, h3) =
      no_problem (is_succeeded c.refresh.status && any (publication_changed c.refresh.run_id) os) _
        _ h2 in
    let same' : any (publication_changed c.refresh.run_id) os ≡ false =
      ap (λ (s : StepStatus). is_succeeded s && any (publication_changed c.refresh.run_id) os)
        (sym done)
      ∙ same in
    (any-IsClean c.refresh.run_id os free scanned same', h3)

pub problems-IsSound : (c : CycleHealth) → problems c ≡ [] → IsSound c
unfolding problems
problems-IsSound c h =
    let (refreshed, h1) = no_problem (not (is_succeeded c.refresh.status)) _ _ h in
    let (scanned, h2) = no_problem (not (is_succeeded c.scan.status)) _ _ h1 in
    let done = is_succeeded_eq c.refresh.status refreshed in
    let (clean, h3) = observed_clean c c.scan.cycle _ done h2 in
    let (kept, _) = no_problem (not (is_succeeded c.scan.persistence)) _ _ h3 in
    (done, is_succeeded_eq c.scan.status scanned, is_succeeded_eq c.scan.persistence kept, clean)

blocked_outcome :
    (o : ObservationOutcome)
    → o ≢ data_gate_blocked
    → (elim o [ data_gate_blocked ↦ true | _ ↦ false ]) ≡ false
blocked_outcome data_gate_blocked h = absurd (h refl)
blocked_outcome scan_failed h = refl
blocked_outcome normal_no_action h = refl
blocked_outcome ready_for_review h = refl

failed_outcome :
    (o : ObservationOutcome) → o ≢ scan_failed → (elim o [ scan_failed ↦ true | _ ↦ false ]) ≡ false
failed_outcome data_gate_blocked h = refl
failed_outcome scan_failed h = absurd (h refl)
failed_outcome normal_no_action h = refl
failed_outcome ready_for_review h = refl

publication_same :
    (run_id : Option String) (o : ObservationFacts)
    → (o.trust_allowed ≡ false) ⊎ (same_option o.trusted_run_id run_id ≡ true)
    → publication_changed run_id o ≡ false
publication_same run_id o (inl h) = rw h refl
publication_same run_id o (inr h) = rw h (no_and o.trust_allowed)
  where
    no_and : (b : Bool) → (b && false) ≡ false
    no_and true = refl
    no_and false = refl

none_raised :
    (run_id : Option String) (os : List ObservationFacts)
    → All (IsClean run_id) os
    → (any is_blocked os ≡ false)
      × (any is_scan_failed os ≡ false)
      × (any (publication_changed run_id) os ≡ false)
none_raised run_id [] h = (refl, refl, refl)
none_raised run_id (o ∷ os) ((a, b, c), h) =
    let (later, later_too, last) = none_raised run_id os h in
    (
      rw (blocked_outcome o.outcome a) later,
      rw (failed_outcome o.outcome b) later_too,
      rw (publication_same run_id o c) last,
    )

observed_none :
    (c : CycleHealth) (os : Option (List ObservationFacts)) (ps : List String)
    → AreClean c.refresh.run_id os
    → cycle_problems c os ps ≡ ps
observed_none c none ps h = refl
observed_none c (some os) ps h =
    let (later, later_too, last) = none_raised c.refresh.run_id os h in
    rw (later, later_too, last) (unraised _ _)
  where
    unraised : (b : Bool) (p : String) → problem_if (b && false) p ps ≡ ps
    unraised true p = refl
    unraised false p = refl

pub skipped : (b : Bool) (p : String) (ps : List String) → b ≡ false → problem_if b p ps ≡ ps
skipped b p ps h = rw h refl

done : {s : StepStatus} → s ≡ succeeded → not (is_succeeded s) ≡ false
done h = ap (λ (t : StepStatus). not (is_succeeded t)) h

pub IsSound-problems : (c : CycleHealth) → IsSound c → problems c ≡ []
unfolding problems
IsSound-problems c (refreshed, scanned, kept, clean) =
    skipped (not (is_succeeded c.refresh.status)) _ _ (done refreshed)
    ∙ skipped (not (is_succeeded c.scan.status)) _ _ (done scanned)
    ∙ observed_none c c.scan.cycle _ clean
    ∙ skipped (not (is_succeeded c.scan.persistence)) _ _ (done kept)
