-- ===== src/Service/Completes/Steady.antt =====
-- A steady world of a run, and the rules by which an action returns in one.
use mu_5x_fibonacci_trading.Base.{
  ℕ, ◌+◌, ◌*◌, ◌≤◌, ◌≡◌, refl, ap, ◌∙◌, String, Bool, true, false, Option, some, List, [], ◌∷◌,
  Bool-cases, inl, inr, str_eq, eq_refl, if◌then◌else◌, all, ok, err, continue, ◌>>=◌, arith,
}
use mu_5x_fibonacci_trading.Service.Health.{Phase, EventKind, ServiceState}
use mu_5x_fibonacci_trading.Service.Valid.{is_health_text}
use mu_5x_fibonacci_trading.Service.Facts.{IsValid, service_valid_complete}
use mu_5x_fibonacci_trading.Service.World.{
  health_state_error, Outside, Call, World, Supervised, write,
}
use mu_5x_fibonacci_trading.Service.Document.{within_limit}
use mu_5x_fibonacci_trading.Service.Written.{Outcome, IsTooLarge}
use mu_5x_fibonacci_trading.Service.Memory.{deadline_grace, add_event, record_event, set_phase}
use mu_5x_fibonacci_trading.Service.Events.{add_event-IsValid}
use mu_5x_fibonacci_trading.Service.Completes.Later.{later-IsValid}

-- A state of the supervisor between two steps of a run
pub record IsSteady (o : Outside) (w : World) : Type 0 where
  pub valid : IsValid w.memory
  pub own : w.memory.data_dir ≡ o.data_dir
  pub watched : w.memory.symbols ≡ o.symbols
  pub running : w.memory.running ≡ true
  pub past : w.memory.updated_at_ms ≤ o.clock w.readings
  pub none_refused : w.refused ≡ []

pub elsewhere-IsSteady :
    (o : Outside) (w : World) (disk : Option ServiceState) (ticks : ℕ) (slept : List ℕ)
    (calls : List Call)
    → IsSteady o w
    → IsSteady o (record w { disk = disk; ticks = ticks; slept = slept; calls = calls })
elsewhere-IsSteady o w disk ticks slept calls i = record {
  valid = i.valid;
  own = i.own;
  watched = i.watched;
  running = i.running;
  past = i.past;
  none_refused = i.none_refused;
}

-- The same within a cycle that began at `b`
abbrev pub IsWithin : Outside → ℕ → World → Type 0
IsWithin o b w = IsSteady o w × (w.memory.started_at_ms ≤ b) × (b ≤ o.clock w.readings)

-- The state that `write` refused last was too large.
abbrev LastRefused : Outside → List ServiceState → Type 0
LastRefused o [] = ⊥
LastRefused o (s ∷ ss) = IsTooLarge o s

abbrev pub HasRefused : Outside → World → Type 0
HasRefused o w = LastRefused o w.refused

-- The action has returned, in such a world; or it has raised HealthStateError for a valid state of
-- this directory that is too large to be written.
abbrev pub Ends : {A : Type 0} → Outside → (World → Type 0) → Outcome A → Type 0
Ends o P (ok a, w) = P w
Ends o P (err e, w) = (e ≡ health_state_error) × HasRefused o w

pub bound :
    {A B : Type 0} (o : Outside) (P Q : World → Type 0) (f : A → Supervised B) (out : Outcome A)
    → Ends o P out
    → ((a : A) (w : World) → P w → Ends o Q (f a w))
    → Ends o Q (continue out f)
bound o P Q f (ok a, w) i h = h a w i
bound o P Q f (err e, w) i h = i

pub either :
    {A : Type 0} (o : Outside) (P : World → Type 0) (b : Bool) (m n : Supervised A) (w : World)
    → Ends o P (m w)
    → Ends o P (n w)
    → Ends o P ((if b then m else n) w)
either o P true m n w i j = i
either o P false m n w i j = j

module _ (o : Outside) (rising : (n : ℕ) → o.clock n ≤ o.clock (n + 1)) where
  pub write-Ends :
      (P : World → Type 0) (s : ServiceState) (w : World)
      → IsValid s
      → s.data_dir ≡ o.data_dir
      → (within_limit o.json_size s ≡ true → P (record w { disk = some s }))
      → Ends o P (write o s w)
  unfolding write
  write-Ends P s w v own h =
      let valid = service_valid_complete s v in
      let same : str_eq s.data_dir o.data_dir ≡ true =
        ap (λ d. str_eq d o.data_dir) own ∙ eq_refl o.data_dir in
      elim (Bool-cases (within_limit o.json_size s)) [
        | inl small ↦ rw (valid, same, small) (h small)
        | inr large ↦ rw (valid, same, large) (refl, (valid, same, large))
      ]

  pub after_write :
      {A : Type 0} (P : World → Type 0) (s : ServiceState) (f : Unit {0} → Supervised A) (w : World)
      → IsValid s
      → s.data_dir ≡ o.data_dir
      → (within_limit o.json_size s ≡ true → Ends o P (f tt (record w { disk = some s })))
      → Ends o P ((write o s >>= f) w)
  after_write P s f w v own h =
      bound o (λ w'. Ends o P (f tt w')) P f (write o s w) (write-Ends _ s w v own h) (λ _ w' i. i)

  pub after_phase :
      {A : Type 0} (P : World → Type 0) (b : ℕ) (p : Phase) (timeout : ℕ)
      (f : Unit {0} → Supervised A) (w : World)
      → IsWithin o b w
      → ((w' : World) → IsWithin o b w' → Ends o P (f tt w'))
      → Ends o P ((set_phase o p timeout >>= f) w)
  unfolding set_phase
  after_phase P b p timeout f w (i, begun, since) h =
      let now = o.clock w.readings in
      let v : IsValid (record w.memory {
        phase = p;
        updated_at_ms = now;
        deadline_ms = now + timeout * 1000 + deadline_grace;
      }) =
        later-IsValid w.memory p w.memory.running now _ (rw i.running refl) i.past (omega arith)
          i.valid in
      after_write P _ f _ v i.own (λ small. h _ (
        record {
          valid = v;
          own = i.own;
          watched = i.watched;
          running = i.running;
          past = rising w.readings;
          none_refused = i.none_refused;
        },
        begun,
        omega (arith, rising w.readings),
      ))

  pub event-IsSteady :
      (kind : EventKind) (ps : List String) (w : World)
      → IsSteady o w
      → all is_health_text ps ≡ true
      → Ends o (IsSteady o) (record_event o kind ps w)
  unfolding add_event
  event-IsSteady kind ps w i texts = record {
    valid = add_event-IsValid w.memory kind (o.clock w.readings) ps i.valid texts;
    own = i.own;
    watched = i.watched;
    running = i.running;
    past = omega (arith, rising w.readings, i.past);
    none_refused = i.none_refused;
  }
