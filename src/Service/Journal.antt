-- ===== src/Service/Journal.antt =====
-- The events of a state: numbered without a gap up to `event_sequence`, whatever is added.
use mathlib.Core.Path.{subst}
use mu_5x_fibonacci_trading.Base.{
  ℕ, zero, suc, ◌+◌, ◌-◌, ◌≤◌, ◌<◌, ◌⊎◌, ltb→lt, leb→le, ap, ◌≡◌, refl, true, none, some, List, [],
  ◌∷◌, ◌++◌, leb, ltb, ◌==◌, select, length, arith, Bool-cases, inl, inr,
}
use mu_5x_fibonacci_trading.Service.Health.{HealthEvent, ServiceState}
use mu_5x_fibonacci_trading.Service.Valid.{numbered_from, events_fit, service_valid}
use mu_5x_fibonacci_trading.Service.Facts.{both, service_valid-IsValid}
use mu_5x_fibonacci_trading.Service.View.{is_after, oldest_of, events_since}
use mu_5x_fibonacci_trading.Service.Memory.{drop_first}

-- The events n + 1, …, m
abbrev pub IsNumbered : ℕ → ℕ → List HealthEvent → Type 0
IsNumbered n m [] = n ≡ m
IsNumbered n m (e ∷ es) = (e.sequence ≡ n + 1) × IsNumbered (n + 1) m es

numbered_from-IsNumbered :
    (n m : ℕ) (es : List HealthEvent) → numbered_from n m es ≡ true → IsNumbered n m es
numbered_from-IsNumbered n m [] h = ground arith
numbered_from-IsNumbered n m (e ∷ es) h =
    let (first, others) = both (e.sequence == n + 1) _ h in
    (ground arith, numbered_from-IsNumbered (n + 1) m es others)

pub numbered_from_complete :
    (n m : ℕ) (es : List HealthEvent) → IsNumbered n m es → numbered_from n m es ≡ true
numbered_from_complete n m [] h = ground arith
numbered_from_complete n m (e ∷ es) (first, others) =
    let same : (e.sequence == n + 1) ≡ true = ground arith in
    rw (same, numbered_from_complete (n + 1) m es others) refl

pub IsNumbered-length : (n m : ℕ) (es : List HealthEvent) → IsNumbered n m es → n + length es ≡ m
IsNumbered-length n m [] h = omega arith
IsNumbered-length n m (e ∷ es) h = omega (arith, IsNumbered-length (n + 1) m es h.1)

pub IsNumbered-append :
    (n m : ℕ) (es : List HealthEvent) (e : HealthEvent)
    → IsNumbered n m es
    → e.sequence ≡ m + 1
    → IsNumbered n (m + 1) (es ++ e ∷ [])
IsNumbered-append n m [] e h k = (omega arith, omega arith)
IsNumbered-append n m (d ∷ es) e h k = (h.0, IsNumbered-append (n + 1) m es e h.1 k)

pub IsNumbered-drop_first :
    (k n m : ℕ) (es : List HealthEvent)
    → k ≤ length es
    → IsNumbered n m es
    → IsNumbered (n + k) m (drop_first k es)
IsNumbered-drop_first zero n m es le h =
    let same : n ≡ n + 0 = omega arith in subst (λ k. IsNumbered k m es) same h
IsNumbered-drop_first (suc k) n m [] le h = absurd (omega arith)
IsNumbered-drop_first (suc k) n m (e ∷ es) le h =
    let same : (n + 1) + k ≡ n + suc k = omega arith in
    subst (λ i. IsNumbered i m (drop_first k es)) same
      (IsNumbered-drop_first k (n + 1) m es (omega arith) h.1)

IsNumbered-select_all :
    (c n m : ℕ) (es : List HealthEvent) → c ≤ n → IsNumbered n m es → select (is_after c) es ≡ es
IsNumbered-select_all c n m [] le h = refl
IsNumbered-select_all c n m (e ∷ es) le h =
    let later : ltb c e.sequence ≡ true = ground arith in
    rw (later, select, IsNumbered-select_all c (n + 1) m es (omega arith) h.1) refl

IsNumbered-select :
    (c n m : ℕ) (es : List HealthEvent)
    → n ≤ c
    → c ≤ m
    → IsNumbered n m es
    → IsNumbered c m (select (is_after c) es)
IsNumbered-select c n m [] le le' h = omega arith
IsNumbered-select c n m (e ∷ es) le le' h = elim (Bool-cases (ltb c e.sequence)) [
  | inl later ↦
      let below : c < e.sequence = ltb→lt c e.sequence later in
      let same : n ≡ c = omega arith in
      rw (later, select, IsNumbered-select_all c (n + 1) m es (omega arith) h.1)
        (subst (λ k. IsNumbered k m (e ∷ es)) same h)
  | inr seen ↦
      let above : e.sequence ≤ c = ground arith in
      rw (seen, select) (IsNumbered-select c (n + 1) m es (omega arith) le' h.1)
]

-- The events kept: at most `event_limit`, numbered up to `event_sequence`; none where it is 0.
abbrev pub IsJournal : List HealthEvent → ℕ → Type 0
IsJournal [] m = m ≡ 0
IsJournal (e ∷ es) m = IsNumbered (e.sequence - 1) m (e ∷ es)

pub events_fit-IsJournal : (es : List HealthEvent) (m : ℕ) → events_fit es m ≡ true → IsJournal es m
events_fit-IsJournal [] m h = ground arith
events_fit-IsJournal (e ∷ es) m h = numbered_from-IsNumbered _ m (e ∷ es) h

IsNumbered-suffix :
    (c n m : ℕ) (es : List HealthEvent)
    → IsNumbered n m es
    → (seen : List HealthEvent) × (es ≡ seen ++ select (is_after c) es)
IsNumbered-suffix c n m [] h = ([], refl)
IsNumbered-suffix c n m (e ∷ es) h = elim (Bool-cases (ltb c e.sequence)) [
  | inl later ↦
      let below : c < e.sequence = ltb→lt c e.sequence later in
      ([], rw (later, select, IsNumbered-select_all c (n + 1) m es (omega arith) h.1) refl)
  | inr past ↦
      let (seen, same) = IsNumbered-suffix c (n + 1) m es h.1 in
      (e ∷ seen, rw (past, select) (ap (e ∷◌) same))
]

service_valid-IsJournal :
    (s : ServiceState) → service_valid s ≡ true → IsJournal s.events s.event_sequence
service_valid-IsJournal s h =
    events_fit-IsJournal s.events s.event_sequence (service_valid-IsValid s h).numbered

-- What the events after number `n` are: those at the end of the journal, numbered n + 1, …, m.
abbrev pub AreAfter : ℕ → ℕ → List HealthEvent → List HealthEvent → Type 0
AreAfter n m events es = IsNumbered n m es × ((seen : List HealthEvent) × (events ≡ seen ++ es))

after_journal :
    (n m : ℕ) (events : List HealthEvent)
    → IsJournal events m
    → oldest_of events m ≤ n
    → n ≤ m
    → AreAfter n m events (select (is_after n) events)
after_journal n m [] h le le' = (omega arith, ([], refl))
after_journal n m (e ∷ es) h le le' = (
  IsNumbered-select n (e.sequence - 1) m (e ∷ es) le le' h,
  IsNumbered-suffix n (e.sequence - 1) m (e ∷ es) h,
)

-- A reader of a valid state at any number that the journal reaches back to gets the events after it,
-- each once and in their order, none left out; at any other number the reading is refused.
pub events_since_complete :
    (s : ServiceState) (n : ℕ)
    → service_valid s ≡ true
    → ((es : List HealthEvent) × (events_since s n ≡ some es)
        × AreAfter n s.event_sequence s.events es
        × (oldest_of s.events s.event_sequence ≤ n))
      ⊎ ((events_since s n ≡ none)
          × ((n < oldest_of s.events s.event_sequence) ⊎ (s.event_sequence < n)))
unfolding events_since
events_since_complete s n valid = elim (Bool-cases (leb (oldest_of s.events s.event_sequence) n)) [
  | inr low ↦ inr (rw low refl, inl (ground arith))
  | inl low ↦ elim (Bool-cases (leb n s.event_sequence)) [
    | inr high ↦ inr (rw (low, high) refl, inr (ground arith))
    | inl high ↦
        let low' : oldest_of s.events s.event_sequence ≤ n = leb→le _ _ low in
        let high' : n ≤ s.event_sequence = leb→le _ _ high in
        inl (
          _,
          rw (low, high) refl,
          after_journal n s.event_sequence s.events (service_valid-IsJournal s valid) low' high',
          low',
        )
  ]
]
