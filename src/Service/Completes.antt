-- ===== src/Service/Completes.antt =====
-- mu_strategy/signal_service.py: a run returns, and leaves a valid state at rest.
pub mod Parts
pub mod Later
pub mod Steady
mod Cycle
use mathlib.Core.Path.{subst}
use mu_5x_fibonacci_trading.Base.{
  ℕ, suc, ◌+◌, ◌-◌, ◌≤◌, ◌≡◌, refl, sym, String, true, false, Option, none, some, List, [], ◌∷◌,
  str_eq, eq_iff, ◌==◌, all, ok, err, ◌>>=◌, Bool-cases, inl, inr, arith,
}
use mu_5x_fibonacci_trading.Service.Health.{idle, scan, CycleHealth, EventKind, ServiceState}
use mu_5x_fibonacci_trading.Service.Valid.{
  is_health_text, cycle_valid, covers, no_repeats, non_empty, last_cycle_fits, service_valid,
}
use mu_5x_fibonacci_trading.Service.Facts.{
  both, IsValid, service_valid-IsValid, service_valid_complete,
}
use mu_5x_fibonacci_trading.Service.World.{
  health_state_error, Outside, World, Supervised, read_health, read_state,
}
use mu_5x_fibonacci_trading.Service.Document.{within_limit}
use mu_5x_fibonacci_trading.Service.Written.{Outcome, writes}
use mu_5x_fibonacci_trading.Service.Memory.{add_event}
use mu_5x_fibonacci_trading.Service.Supervisor.{
  same_texts, at_rest, stop, unless_err, after_all, is_interrupted, started_state, kept_cycle,
  start_event, start, run_service,
}
use mu_5x_fibonacci_trading.Service.Events.{add_event-IsValid}
use mu_5x_fibonacci_trading.Service.Completes.Parts.{ExitsWell}
use mu_5x_fibonacci_trading.Service.Completes.Later.{le→leb, later-IsValid}
use mu_5x_fibonacci_trading.Service.Completes.Steady.{
  HasRefused, IsSteady, Ends, write-Ends, after_write, elsewhere-IsSteady,
}
use mu_5x_fibonacci_trading.Service.Completes.Cycle.{turns-IsSteady}

-- What `run` asks of its configuration and its new id
pub record IsConfig (o : Outside) : Type 0 where
  pub dir_text : is_health_text o.data_dir ≡ true
  pub symbol_texts : all is_health_text o.symbols ≡ true
  pub run_text : is_health_text o.run_id ≡ true
  pub some_symbol : non_empty o.symbols ≡ true
  pub apart : no_repeats o.symbols ≡ true

abbrev pub IsNew : String → Option CycleHealth → Type 0
IsNew run_id none = Unit
IsNew run_id (some c) = str_eq c.service_run_id run_id ≡ false

-- There is no health.json, or it holds a valid state of this directory, within the limit of size and
-- not in the middle of a cycle, with a cycle of another run if any.
abbrev pub CanStart : Outside → Option ServiceState → Type 0
CanStart o none = Unit
CanStart o (some s) =
    (service_valid s ≡ true)
    × (str_eq s.data_dir o.data_dir ≡ true)
    × (within_limit o.json_size s ≡ true)
    × (is_interrupted (some s) ≡ false)
    × IsNew o.run_id s.last_cycle

-- health.json holds a valid state of this directory and these symbols that does not run, and `write`
-- has refused no state.
abbrev pub IsAtRest : Outside → World → Type 0
IsAtRest o w =
    (s : ServiceState) × (w.disk ≡ some s)
    × (w.refused ≡ [])
    × (service_valid s ≡ true)
    × (s.data_dir ≡ o.data_dir)
    × (s.symbols ≡ o.symbols)
    × (s.running ≡ false)

same_texts_eq : (ss ts : List String) → same_texts ss ts ≡ true → ss ≡ ts
same_texts_eq [] [] h = refl
same_texts_eq [] (t ∷ ts) h = absurd (cc h)
same_texts_eq (s ∷ ss) [] h = absurd (cc h)
same_texts_eq (s ∷ ss) (t ∷ ts) h =
    let (first, others) = both (str_eq s t) _ h in
    let head : s ≡ t = (eq_iff s t).0 first in
    let tail : ss ≡ ts = same_texts_eq ss ts others in cc (head, tail)

-- A cycle of another run fits a new state.
new_fits :
    (s t : ServiceState) (last : Option CycleHealth)
    → IsNew t.run_id last
    → s.symbols ≡ t.symbols
    → last_cycle_fits s last ≡ true
    → last_cycle_fits t last ≡ true
new_fits s t none new same h = refl
new_fits s t (some c) new same h =
    let (fits, covered) = both _ (covers s.symbols c.scan.cycle) h in
    let (valid, _) = both (cycle_valid c) _ fits in
    let covered' : covers t.symbols c.scan.cycle ≡ true =
      subst (λ symbols. covers symbols c.scan.cycle ≡ true) same covered in
    rw (new, valid, covered') refl

module _ (o : Outside) (config : IsConfig o) where
  started-IsValid :
      (d : Option ServiceState) (now : ℕ) → CanStart o d → IsValid (started_state o d now)
  started-IsValid none now can = record {
    dir_text = config.dir_text;
    symbol_texts = config.symbol_texts;
    run_text = config.run_text;
    event_texts = refl;
    some_symbol = config.some_symbol;
    apart = config.apart;
    begun = le→leb (omega arith);
    due = le→leb (omega arith);
    busy = refl;
    few = refl;
    numbered = refl;
    cycle = refl;
  }
  started-IsValid (some s) now (valid, own, small, calm, new) =
      let v = service_valid-IsValid s valid in
      record {
        dir_text = config.dir_text;
        symbol_texts = config.symbol_texts;
        run_text = config.run_text;
        event_texts = v.event_texts;
        some_symbol = config.some_symbol;
        apart = config.apart;
        begun = le→leb (omega arith);
        due = le→leb (omega arith);
        busy = refl;
        few = v.few;
        numbered = v.numbered;
        cycle = kept_fits v;
      }
    where
      kept_fits :
          (IsValid s
            → last_cycle_fits (started_state o (some s) now) (kept_cycle o.symbols (some s)) ≡ true)
      kept_fits v = elim (Bool-cases (same_texts s.symbols o.symbols)) [
        | inl same ↦ rw same (
            new_fits s (started_state o (some s) now) s.last_cycle new
              (same_texts_eq s.symbols o.symbols same) v.cycle)
        | inr other ↦ rw other refl
      ]

module _ (o : Outside) (rising : (n : ℕ) → o.clock n ≤ o.clock (n + 1)) where
  stop-IsAtRest : (w : World) → IsSteady o w → Ends o (IsAtRest o) (stop o w)
  unfolding stop add_event
  stop-IsAtRest w i =
      let now = o.clock w.readings in
      let rested : IsValid (at_rest now w.memory) =
        later-IsValid w.memory idle false now now refl i.past (omega arith) i.valid in
      let later = o.clock (w.readings + 1) in
      let v : IsValid (add_event EventKind.stopped later [] (at_rest now w.memory)) =
        add_event-IsValid (at_rest now w.memory) EventKind.stopped later [] rested refl in
      write-Ends o rising (IsAtRest o) _ _ v i.own
        (λ small. (_, refl, i.none_refused, service_valid_complete _ v, i.own, i.watched, refl))

  -- What was refused stays refused, whatever the `finally` block does.
  stop-HasRefused : (w : World) → HasRefused o w → Ends o (HasRefused o) (stop o w)
  unfolding stop
  stop-HasRefused w i =
      writes o (Ends o (HasRefused o)) _ _ (refl, i) (λ large. (refl, large)) (λ fine. i)

  unless_err-HasRefused :
      (out : Outcome (Unit {0}))
      → Ends o (HasRefused o) out
      → Ends o (IsAtRest o) (unless_err {A = Unit {0}} (err health_state_error) out)
  unless_err-HasRefused (ok _, w) i = (refl, i)
  unless_err-HasRefused (err e, w) i = i

  unless_err-Ends :
      (out : Outcome (Unit {0}))
      → Ends o (IsAtRest o) out
      → Ends o (IsAtRest o) (unless_err (ok tt) out)
  unless_err-Ends (ok _, w) h = h
  unless_err-Ends (err e, w) h = h

  finally-IsAtRest :
      (out : Outcome (Unit {0}))
      → Ends o (IsSteady o) out
      → Ends o (IsAtRest o) (after_all out (stop o))
  finally-IsAtRest (ok tt, w) i = unless_err-Ends (stop o w) (stop-IsAtRest w i)
  finally-IsAtRest (err e, w) (same, i) =
      subst (λ e. Ends o (IsAtRest o) (unless_err {A = Unit {0}} (err e) (stop o w))) (sym same)
        (unless_err-HasRefused (stop o w) (stop-HasRefused w i))

  start-IsSteady :
      {A : Type 0} (P : World → Type 0) (d : Option ServiceState) (f : Unit {0} → Supervised A)
      (w : World)
      → IsConfig o
      → CanStart o d
      → w.refused ≡ []
      → ((w' : World) → IsSteady o w' → Ends o P (f tt w'))
      → Ends o P ((start o d >>= f) w)
  unfolding start add_event
  start-IsSteady P d f w config can none_yet h =
      let now = o.clock w.readings in
      let later = o.clock (w.readings + 1) in
      let v : IsValid (add_event (start_event d) later [] (started_state o d now)) =
        add_event-IsValid (started_state o d now) (start_event d) later []
          (started-IsValid o config d now can) refl in
      after_write o rising P _ f _ v refl (λ small. h _ (record {
        valid = v;
        own = refl;
        watched = refl;
        running = refl;
        past = omega (arith, rising w.readings, rising (w.readings + 1));
        none_refused = none_yet;
      }))

  reads_ok :
      {A : Type 0} (P : World → Type 0) (d : Option ServiceState)
      (f : Option ServiceState → Supervised A) (w : World)
      → CanStart o d
      → Ends o P (f d w)
      → Ends o P ((read_state o d >>= f) w)
  reads_ok P none f w can h = h
  reads_ok P (some s) f w (valid, own, small, calm, new) h = rw (small, valid, own) h

  calm_start : (d : Option ServiceState) → CanStart o d → is_interrupted d ≡ false
  calm_start none can = refl
  calm_start (some s) can = can.3

-- With a clock that does not go back, a well-formed configuration and exit codes of at least -2 ^ 31,
-- a run of some cycles that finds no interrupted cycle and has a new id ends in one of two ways,
-- whatever the children do: it returns and leaves a valid state of its directory and symbols at rest,
-- with no write refused; or it raises HealthStateError, after a write that was refused because a valid
-- state of this directory was larger than the limit.
pub run_completes :
    (o : Outside) (n : ℕ) (w : World)
    → ((m : ℕ) → o.clock m ≤ o.clock (m + 1))
    → ((m : ℕ) → ExitsWell (o.refresh_child m))
    → IsConfig o
    → CanStart o w.disk
    → w.refused ≡ []
    → Ends o (IsAtRest o) (run_service o (suc n) w)
unfolding run_service read_health
run_completes o n w rising exits config can none_yet =
    let many : (suc n == 0) ≡ false = ground arith in
    rw many (
      reads_ok o rising (IsAtRest o) w.disk _ w can (
        rw (calm_start o rising w.disk can) (
          start-IsSteady o rising (IsAtRest o) w.disk _ w config can none_yet (λ w' i.
            finally-IsAtRest o rising _
              (turns-IsSteady o rising exits (suc n) _ _ (elsewhere-IsSteady o w' _ _ _ _ i))))))
