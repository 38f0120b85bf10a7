-- ===== src/Service/Completes/Later.antt =====
-- A valid state stays valid when its time, phase and deadline move on.
use mu_5x_fibonacci_trading.Base.{
  ℕ, ◌≤◌, ◌≡◌, refl, Bool, true, false, not, ◌&&◌, ◌||◌, Option, none, some, str_eq, leb, leb→le,
  arith,
}
use mu_5x_fibonacci_trading.Service.Health.{
  Phase, is_idle, RefreshHealth, ScanHealth, CycleHealth, ServiceState,
}
use mu_5x_fibonacci_trading.Service.Valid.{cycle_valid, refresh_valid, covers, last_cycle_fits}
use mu_5x_fibonacci_trading.Service.Facts.{both, IsValid}
use mu_5x_fibonacci_trading.Service.Completes.Parts.{IsScan}
use mu_5x_fibonacci_trading.Service.Supervisor.{cycle_of, number_after, with_cycle}

pub le→leb : {a b : ℕ} → a ≤ b → leb a b ≡ true
le→leb h = ground arith

-- The last cycle fits a state with a later time of change as well.
pub later_fits :
    (s : ServiceState) (p : Phase) (running : Bool) (u d : ℕ) (last : Option CycleHealth)
    → s.updated_at_ms ≤ u
    → last_cycle_fits s last ≡ true
    → last_cycle_fits
        (record s { running = running; phase = p; updated_at_ms = u; deadline_ms = d })
        last
      ≡ true
later_fits s p running u d none le h = refl
later_fits s p running u d (some c) le h =
    let (fits, covered) = both _ (covers s.symbols c.scan.cycle) h in
    let (valid, ordered) = both (cycle_valid c) _ fits in
    rw (valid, covered, ordered_later (str_eq c.service_run_id s.run_id) ordered) refl
  where
    ordered_later :
        (own : Bool)
        → (not own
            || (leb c.completed_at_ms s.updated_at_ms && leb s.started_at_ms c.started_at_ms))
          ≡ true
        → (not own || (leb c.completed_at_ms u && leb s.started_at_ms c.started_at_ms)) ≡ true
    ordered_later false h = refl
    ordered_later true h =
        let (a, b) = both _ (leb s.started_at_ms c.started_at_ms) h in
        let soon : leb c.completed_at_ms u ≡ true = ground arith in rw (soon, b) refl

pub later-IsValid :
    (s : ServiceState) (p : Phase) (running : Bool) (u d : ℕ)
    → (running || is_idle p) ≡ true
    → s.updated_at_ms ≤ u
    → u ≤ d
    → IsValid s
    → IsValid (record s { running = running; phase = p; updated_at_ms = u; deadline_ms = d })
later-IsValid s p running u d busy le due v = record {
  dir_text = v.dir_text;
  symbol_texts = v.symbol_texts;
  run_text = v.run_text;
  event_texts = v.event_texts;
  some_symbol = v.some_symbol;
  apart = v.apart;
  begun = (let from : s.started_at_ms ≤ s.updated_at_ms = leb→le _ _ v.begun in ground arith);
  due = le→leb due;
  busy = busy;
  few = v.few;
  numbered = v.numbered;
  cycle = later_fits s p running u d s.last_cycle le v.cycle;
}

number_positive : (previous : Option CycleHealth) → leb 1 (number_after previous) ≡ true
number_positive none = refl
number_positive (some c) = le→leb (omega arith)

pub with_cycle-IsValid :
    (s : ServiceState) (previous : Option CycleHealth) (b now : ℕ) (refreshed : RefreshHealth)
    (scanned : ScanHealth)
    → IsValid s
    → s.started_at_ms ≤ b
    → b ≤ now
    → s.updated_at_ms ≤ now
    → refresh_valid refreshed ≡ true
    → IsScan s.symbols scanned
    → IsValid (with_cycle (cycle_of previous b refreshed scanned s now) s)
unfolding cycle_valid
with_cycle-IsValid s previous b now refreshed scanned v begun since past r (valid, covered) =
    record {
      dir_text = v.dir_text;
      symbol_texts = v.symbol_texts;
      run_text = v.run_text;
      event_texts = v.event_texts;
      some_symbol = v.some_symbol;
      apart = v.apart;
      begun = le→leb (omega arith);
      due = le→leb (omega arith);
      busy = v.busy;
      few = v.few;
      numbered = v.numbered;
      cycle =
          (let closed : leb now now ≡ true = le→leb (omega arith) in
            let after : leb s.started_at_ms b ≡ true = le→leb begun in
            let ordered : leb b now ≡ true = le→leb since in
            rw (number_positive previous, v.run_text, r, valid, ordered, covered, closed, after)
              (own_or_true (str_eq s.run_id s.run_id)));
    }
  where
    own_or_true : (b : Bool) → ((not b || true) && true) ≡ true
    own_or_true true = refl
    own_or_true false = refl
