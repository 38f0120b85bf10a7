-- ===== src/Notification/Outbox/Due/First.antt =====
-- mu_strategy/notifications/store.py: the first row that is due, and an UPDATE of it.
use mu_5x_fibonacci_trading.Base.{
  ℕ, ◌≤◌, ◌<◌, ◌≡◌, refl, ap, ◌⊎◌, inl, inr, true, false, not, ◌&&◌, ◌||◌, Option, none, some, List,
  [], ◌∷◌, ◌++◌, str_eq, eq_refl, leb, ltb, is_some, find, update_where, All, Bool-cases, arith,
  String,
}
use mu_5x_fibonacci_trading.Notification.Event.{
  DeliveryState, pending, confirmed, failed, unknown, same_delivery,
}
use mu_5x_fibonacci_trading.Notification.Outbox.{OutboxRow, has_event_id, claimable}
use mu_5x_fibonacci_trading.Notification.Outbox.Unique.{IsUnique, find-head_other, str_eq_other}

-- A row that is to be sent now: not suppressed, below the limit of attempts, due, and pending or
-- failed with a retry allowed.
abbrev pub IsDue : ℕ → ℕ → OutboxRow → Type 0
IsDue now max_attempts r =
    (r.suppressed_reason ≡ none)
    × (r.attempts < max_attempts)
    × (r.next_attempt_ms ≤ now)
    × ((r.state ≡ pending) ⊎ ((r.state ≡ failed) × (r.retryable ≡ true)))

same_delivery_eq : (a b : DeliveryState) → same_delivery a b ≡ true → a ≡ b
same_delivery_eq pending pending h = refl
same_delivery_eq confirmed confirmed h = refl
same_delivery_eq failed failed h = refl
same_delivery_eq unknown unknown h = refl
same_delivery_eq pending confirmed h = absurd (cc h)
same_delivery_eq pending failed h = absurd (cc h)
same_delivery_eq pending unknown h = absurd (cc h)
same_delivery_eq confirmed pending h = absurd (cc h)
same_delivery_eq confirmed failed h = absurd (cc h)
same_delivery_eq confirmed unknown h = absurd (cc h)
same_delivery_eq failed pending h = absurd (cc h)
same_delivery_eq failed confirmed h = absurd (cc h)
same_delivery_eq failed unknown h = absurd (cc h)
same_delivery_eq unknown pending h = absurd (cc h)
same_delivery_eq unknown confirmed h = absurd (cc h)
same_delivery_eq unknown failed h = absurd (cc h)

none_of : {A : Type 0} (o : Option A) → not (is_some o) ≡ true → o ≡ none
none_of none h = refl
none_of (some a) h = absurd (cc h)

sendable :
    (r : OutboxRow)
    → (same_delivery r.state pending || (same_delivery r.state failed && r.retryable)) ≡ true
    → (r.state ≡ pending) ⊎ ((r.state ≡ failed) × (r.retryable ≡ true))
sendable r h = elim (Bool-cases (same_delivery r.state pending)) [
  | inl fresh ↦ inl (same_delivery_eq r.state pending fresh)
  | inr old ↦
      let lost : same_delivery r.state failed ≡ true = ground (arith, h, old) in
      let again : r.retryable ≡ true = ground (arith, h, old) in
      inr (same_delivery_eq r.state failed lost, again)
]

claimable-IsDue :
    (now max_attempts : ℕ) (r : OutboxRow)
    → claimable now max_attempts r ≡ true
    → IsDue now max_attempts r
claimable-IsDue now max_attempts r h =
    let free : not (is_some r.suppressed_reason) ≡ true = ground (arith, h) in
    let sent : (same_delivery r.state pending || (same_delivery r.state failed && r.retryable))
        ≡ true =
      ground (arith, h) in
    (none_of r.suppressed_reason free, ground (arith, h), ground (arith, h), sendable r sent)

IsDue-claimable :
    (now max_attempts : ℕ) (r : OutboxRow)
    → IsDue now max_attempts r
    → claimable now max_attempts r ≡ true
IsDue-claimable now max_attempts r (free, few, due, inl fresh) =
    let a : ltb r.attempts max_attempts ≡ true = ground arith in
    let b : leb r.next_attempt_ms now ≡ true = ground arith in rw (free, a, b, fresh) refl
IsDue-claimable now max_attempts r (free, few, due, inr (lost, again)) =
    let a : ltb r.attempts max_attempts ≡ true = ground arith in
    let b : leb r.next_attempt_ms now ≡ true = ground arith in rw (free, a, b, lost, again) refl

-- The rows before the first one that is due.
abbrev pub IsFirst : ℕ → ℕ → List OutboxRow → Option OutboxRow → Type 0
IsFirst now m rows none = All (λ r. ¬ IsDue now m r) rows
IsFirst now m rows (some r) =
    (before : List OutboxRow) × (after : List OutboxRow) × (rows ≡ before ++ r ∷ after)
    × All (λ q. ¬ IsDue now m q) before
    × IsDue now m r

IsFirst-cons :
    (now m : ℕ) (q : OutboxRow) (rows : List OutboxRow) (o : Option OutboxRow)
    → (¬ IsDue now m q)
    → IsFirst now m rows o
    → IsFirst now m (q ∷ rows) o
IsFirst-cons now m q rows none idle first = (idle, first)
IsFirst-cons now m q rows (some r) idle (before, after, same, others, due) =
    (q ∷ before, after, ap (q ∷◌) same, (idle, others), due)

pub find-IsFirst :
    (now m : ℕ) (rows : List OutboxRow) → IsFirst now m rows (find (claimable now m) rows)
find-IsFirst now m [] = tt
find-IsFirst now m (q ∷ rows) = elim (Bool-cases (claimable now m q)) [
  | inl hit ↦ rw (hit, find) ([], rows, refl, tt, claimable-IsDue now m q hit)
  | inr miss ↦
      let idle : ¬ IsDue now m q = λ due. absurd (cc (IsDue-claimable now m q due, miss)) in
      rw (miss, find)
        (IsFirst-cons now m q rows (find (claimable now m) rows) idle (find-IsFirst now m rows))
]

update_none :
    (id : String) (change : OutboxRow → OutboxRow) (rows : List OutboxRow)
    → find (has_event_id id) rows ≡ none
    → update_where (has_event_id id) change rows ≡ rows
update_none id change [] h = refl
update_none id change (q ∷ rows) h =
    let (other, rest) = find-head_other id q rows h in
    rw other (ap (q ∷◌) (update_none id change rows rest))

other_id :
    (id : String) (before : List OutboxRow) (r : OutboxRow) (after : List OutboxRow)
    → find (has_event_id id) (before ++ r ∷ after) ≡ none
    → str_eq r.event_id id ≡ false
other_id id [] r after h = (find-head_other id r after h).0
other_id id (q ∷ before) r after h =
    other_id id before r after (find-head_other id q (before ++ r ∷ after) h).1

-- An UPDATE by the id of a row changes that row alone.
pub update_at :
    (change : OutboxRow → OutboxRow) (before : List OutboxRow) (r : OutboxRow)
    (after : List OutboxRow)
    → IsUnique (before ++ r ∷ after)
    → update_where (has_event_id r.event_id) change (before ++ r ∷ after)
      ≡ before ++ change r ∷ after
update_at change [] r after (free, u) =
    rw (eq_refl r.event_id) (ap (change r ∷◌) (update_none r.event_id change after free))
update_at change (q ∷ before) r after (free, u) =
    let other : str_eq q.event_id r.event_id ≡ false =
      str_eq_other r.event_id q.event_id (other_id q.event_id before r after free) in
    rw other (ap (q ∷◌) (update_at change before r after u))
