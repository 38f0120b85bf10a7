-- ===== src/Service/Facts.antt =====
-- mu_strategy/service_health.py: the tests of a valid state, one by one.
use mu_5x_fibonacci_trading.Base.{
  ◌≡◌, refl, Bool, true, false, ◌&&◌, ◌||◌, List, [], ◌∷◌, leb, all, length, All,
}
use mu_5x_fibonacci_trading.Service.Health.{is_idle, ServiceState}
use mu_5x_fibonacci_trading.Service.Valid.{
  event_limit, is_health_text, health_event_valid, non_empty, no_repeats, events_fit,
  last_cycle_fits, state_tests, all_true, service_valid,
}

pub both : (a b : Bool) → (a && b) ≡ true → (a ≡ true) × (b ≡ true)
both true true h = (refl, refl)
both true false h = absurd (cc h)
both false b h = absurd (cc h)

all_true-All : (bs : List Bool) → all_true bs ≡ true → All (λ b. b ≡ true) bs
all_true-All [] h = tt
all_true-All (b ∷ bs) h = let (first, others) = both b _ h in (first, all_true-All bs others)

All-all_true : (bs : List Bool) → All (λ b. b ≡ true) bs → all_true bs ≡ true
All-all_true [] h = refl
All-all_true (b ∷ bs) (first, others) = rw (first, All-all_true bs others) refl

valid_tests : (s : ServiceState) → service_valid s ≡ true → All (λ b. b ≡ true) (state_tests s)
unfolding service_valid
valid_tests s h = all_true-All (state_tests s) h

pub record IsValid (s : ServiceState) : Type 0 where
  pub dir_text : is_health_text s.data_dir ≡ true
  pub symbol_texts : all is_health_text s.symbols ≡ true
  pub run_text : is_health_text s.run_id ≡ true
  pub event_texts : all health_event_valid s.events ≡ true
  pub some_symbol : non_empty s.symbols ≡ true
  pub apart : no_repeats s.symbols ≡ true
  pub begun : leb s.started_at_ms s.updated_at_ms ≡ true
  pub due : leb s.updated_at_ms s.deadline_ms ≡ true
  pub busy : (s.running || is_idle s.phase) ≡ true
  pub few : leb (length s.events) event_limit ≡ true
  pub numbered : events_fit s.events s.event_sequence ≡ true
  pub cycle : last_cycle_fits s s.last_cycle ≡ true

pub service_valid-IsValid : (s : ServiceState) → service_valid s ≡ true → IsValid s
unfolding state_tests
service_valid-IsValid s h =
    let t = valid_tests s h in
    record {
      dir_text = t.0;
      symbol_texts = t.1.0;
      run_text = t.1.1.0;
      event_texts = t.1.1.1.0;
      some_symbol = t.1.1.1.1.0;
      apart = t.1.1.1.1.1.0;
      begun = t.1.1.1.1.1.1.0;
      due = t.1.1.1.1.1.1.1.0;
      busy = t.1.1.1.1.1.1.1.1.0;
      few = t.1.1.1.1.1.1.1.1.1.0;
      numbered = t.1.1.1.1.1.1.1.1.1.1.0;
      cycle = t.1.1.1.1.1.1.1.1.1.1.1.0;
    }

pub service_valid_complete : (s : ServiceState) → IsValid s → service_valid s ≡ true
unfolding service_valid state_tests
service_valid_complete s v = All-all_true (state_tests s) (
  v.dir_text,
  (
    v.symbol_texts,
    (
      v.run_text,
      (
        v.event_texts,
        (
          v.some_symbol,
          (v.apart, (v.begun, (v.due, (v.busy, (v.few, (v.numbered, (v.cycle, tt))))))),
        ),
      ),
    ),
  ),
)
