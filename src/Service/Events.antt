-- ===== src/Service/Events.antt =====
-- mu_strategy/signal_service.py: `_event` keeps a state valid.
use mathlib.Core.Path.{subst}
use mu_5x_fibonacci_trading.Base.{
  ℕ, zero, suc, ◌+◌, ◌-◌, ◌≤◌, ◌≡◌, refl, sym, String, Bool, true, List, [], ◌∷◌, ◌++◌, leb, leb→le,
  length, length-append, all, arith,
}
use mu_5x_fibonacci_trading.Service.Health.{EventKind, HealthEvent, ServiceState}
use mu_5x_fibonacci_trading.Service.Valid.{
  event_limit, is_health_text, health_event_valid, numbered_from, events_fit, service_valid,
}
use mu_5x_fibonacci_trading.Service.Facts.{
  both, IsValid, service_valid-IsValid, service_valid_complete,
}
use mu_5x_fibonacci_trading.Service.Memory.{drop_first, add_event}
use mu_5x_fibonacci_trading.Service.Journal.{
  IsNumbered, numbered_from_complete, IsNumbered-append, IsNumbered-drop_first, IsJournal,
  events_fit-IsJournal,
}

module _ {ℓ} {A : Type ℓ} where
  drop_first-append :
      (k : ℕ) (xs ys : List A) → k ≤ length xs → drop_first k (xs ++ ys) ≡ drop_first k xs ++ ys
  drop_first-append zero xs ys le = refl
  drop_first-append (suc k) [] ys le = absurd (omega arith)
  drop_first-append (suc k) (x ∷ xs) ys le = drop_first-append k xs ys (omega arith)

  length-drop_first : (k : ℕ) (xs : List A) → length (drop_first k xs) ≡ length xs - k
  length-drop_first zero xs = omega arith
  length-drop_first (suc k) [] = omega arith
  length-drop_first (suc k) (x ∷ xs) = omega (arith, length-drop_first k xs)

  all-drop_first :
      (test : A → Bool) (k : ℕ) (xs : List A)
      → all test xs ≡ true
      → all test (drop_first k xs) ≡ true
  all-drop_first test zero xs h = h
  all-drop_first test (suc k) [] h = refl
  all-drop_first test (suc k) (x ∷ xs) h = all-drop_first test k xs (both _ _ h).1

  all-append_one :
      (test : A → Bool) (xs : List A) (x : A)
      → all test xs ≡ true
      → test x ≡ true
      → all test (xs ++ x ∷ []) ≡ true
  all-append_one test [] x h t = rw t refl
  all-append_one test (y ∷ xs) x h t =
      let (first, others) = both (test y) _ h in rw (first, all-append_one test xs x others t) refl

le→leb : (a b : ℕ) → a ≤ b → leb a b ≡ true
le→leb a b h = ground arith

IsJournal-IsNumbered :
    (es : List HealthEvent) (m : ℕ) → IsJournal es m → (n : ℕ) × IsNumbered n m es
IsJournal-IsNumbered [] m h = (0, sym h)
IsJournal-IsNumbered (e ∷ es) m h = (e.sequence - 1, h)

IsNumbered-events_fit :
    (n m : ℕ) (es : List HealthEvent) (e : HealthEvent)
    → IsNumbered n m (es ++ e ∷ [])
    → events_fit (es ++ e ∷ []) m ≡ true
IsNumbered-events_fit n m [] e h =
    let same : n ≡ e.sequence - 1 = omega arith in
    subst (λ k. numbered_from k m (e ∷ []) ≡ true) same (numbered_from_complete n m (e ∷ []) h)
IsNumbered-events_fit n m (d ∷ es) e h =
    let same : n ≡ d.sequence - 1 = omega arith in
    subst (λ k. numbered_from k m (d ∷ es ++ e ∷ []) ≡ true) same
      (numbered_from_complete n m (d ∷ es ++ e ∷ []) h)

-- How many of the oldest events go when one is added.
abbrev pub surplus : ServiceState → ℕ
surplus s = length s.events + 1 - event_limit

abbrev pub event_of : ServiceState → EventKind → ℕ → List String → HealthEvent
event_of s kind now ps = record {
  sequence = s.event_sequence + 1;
  at_ms = now;
  kind = kind;
  problems = ps;
}

module _ (s : ServiceState) (kind : EventKind) (now : ℕ) (ps : List String) (v : IsValid s) where
  surplus_le : surplus s ≤ length s.events
  surplus_le =
      let few : length s.events ≤ event_limit = leb→le (length s.events) event_limit v.few in
      omega arith

  kept_journal :
      (add_event kind now ps s).events
      ≡ drop_first (surplus s) s.events ++ (event_of s kind now ps) ∷ []
  unfolding add_event
  kept_journal =
      let many : length (s.events ++ (event_of s kind now ps) ∷ []) ≡ length s.events + 1 =
        length-append s.events ((event_of s kind now ps) ∷ []) in
      rw many (drop_first-append (surplus s) s.events ((event_of s kind now ps) ∷ []) surplus_le)

  kept_numbered :
      events_fit
        (drop_first (surplus s) s.events ++ (event_of s kind now ps) ∷ [])
        (s.event_sequence + 1)
      ≡ true
  kept_numbered =
      let (n, run_service) =
        IsJournal-IsNumbered s.events s.event_sequence
          (events_fit-IsJournal s.events s.event_sequence v.numbered) in
      IsNumbered-events_fit (n + surplus s) _ (drop_first (surplus s) s.events)
        (event_of s kind now ps)
        (IsNumbered-append (n + surplus s) s.event_sequence (drop_first (surplus s) s.events)
          (event_of s kind now ps)
          (IsNumbered-drop_first (surplus s) n s.event_sequence s.events surplus_le run_service)
          refl)

  kept_few : length (drop_first (surplus s) s.events ++ (event_of s kind now ps) ∷ []) ≤ event_limit
  kept_few = omega (
    arith,
    surplus_le,
    leb→le (length s.events) event_limit v.few,
    length-drop_first (surplus s) s.events,
    length-append (drop_first (surplus s) s.events) ((event_of s kind now ps) ∷ []),
  )

  kept_texts :
      all is_health_text ps ≡ true
      → all health_event_valid (drop_first (surplus s) s.events ++ (event_of s kind now ps) ∷ [])
        ≡ true
  unfolding health_event_valid
  kept_texts texts =
      let first : leb 1 (s.event_sequence + 1) ≡ true = ground arith in
      all-append_one health_event_valid (drop_first (surplus s) s.events) (event_of s kind now ps)
        (all-drop_first health_event_valid (surplus s) s.events v.event_texts)
        (rw (first, texts) refl)

  pub add_event-IsValid : all is_health_text ps ≡ true → IsValid (add_event kind now ps s)
  unfolding add_event
  add_event-IsValid texts = record {
    dir_text = v.dir_text;
    symbol_texts = v.symbol_texts;
    run_text = v.run_text;
    event_texts = rw kept_journal (kept_texts texts);
    some_symbol = v.some_symbol;
    apart = v.apart;
    begun = v.begun;
    due = v.due;
    busy = v.busy;
    few = (rw kept_journal (le→leb _ _ kept_few));
    numbered = rw kept_journal kept_numbered;
    cycle = v.cycle;
  }

-- `_event` keeps a valid state valid where the problems are texts, and its event is the last one of
-- those kept; the others are the latest that the state had, as many as the limit leaves room for.
pub add_event-service_valid :
    (s : ServiceState) (kind : EventKind) (now : ℕ) (ps : List String)
    → service_valid s ≡ true
    → all is_health_text ps ≡ true
    → (service_valid (add_event kind now ps s) ≡ true)
      × ((add_event kind now ps s).events
          ≡ drop_first (surplus s) s.events ++ (event_of s kind now ps) ∷ [])
add_event-service_valid s kind now ps valid texts =
    let v = service_valid-IsValid s valid in
    (
      service_valid_complete (add_event kind now ps s) (add_event-IsValid s kind now ps v texts),
      kept_journal s kind now ps v,
    )
