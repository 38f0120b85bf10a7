-- ===== src/Execution/Reservation.antt =====
-- mu_strategy/execution/audit.py: the states of a mutation reservation and the moves between them.
mod Tests
use mu_5x_fibonacci_trading.Base.{
  ℕ, ◌+◌, ◌≤◌, ◌≡◌, refl, Bool, true, false, ◌||◌, List, [], ◌∷◌, arith, if◌then◌else◌,
}

pub data ReservationState : Type 0 where
  reserved dispatching acknowledged rejected not_sent_failed unknown invalidated : ReservationState

-- `is` between members of the enum.
abbrev pub same_state : ReservationState → ReservationState → Bool
same_state reserved reserved = true
same_state dispatching dispatching = true
same_state acknowledged acknowledged = true
same_state rejected rejected = true
same_state not_sent_failed not_sent_failed = true
same_state unknown unknown = true
same_state invalidated invalidated = true
same_state _ _ = false

-- `_ALLOWED_RESERVATION_TRANSITIONS`
unfoldable pub allowed_transitions : ReservationState → List ReservationState
allowed_transitions reserved = dispatching ∷ invalidated ∷ []
allowed_transitions dispatching = acknowledged ∷ rejected ∷ not_sent_failed ∷ unknown ∷ []
allowed_transitions not_sent_failed = reserved ∷ []
allowed_transitions _ = []

-- `in` a frozenset of states.
abbrev pub contains_state : ReservationState → List ReservationState → Bool
contains_state s [] = false
contains_state s (t ∷ ts) = same_state s t || contains_state s ts

unfoldable pub is_reservation_transition_allowed : ReservationState → ReservationState → Bool
unfolding allowed_transitions
is_reservation_transition_allowed old_state new_state =
    contains_state new_state (allowed_transitions old_state)

pub same_state→eq : (a b : ReservationState) → same_state a b ≡ true → a ≡ b
same_state→eq a b h = ground arith

pub same_state_refl : (a : ReservationState) → same_state a a ≡ true
same_state_refl a = ground arith

-- The states after the first of a reservation, each move allowed.
abbrev pub IsRun : ReservationState → List ReservationState → Type 0
IsRun s [] = Unit {0}
IsRun s (t ∷ ts) = (is_reservation_transition_allowed s t ≡ true) × IsRun t ts

abbrev pub count_state : ReservationState → List ReservationState → ℕ
count_state s [] = 0
count_state s (t ∷ ts) = (if same_state s t then 1 else 0) + count_state s ts

-- The exchange has answered, or may have acted.
abbrev pub is_answer : ReservationState → Bool
is_answer acknowledged = true
is_answer rejected = true
is_answer unknown = true
is_answer _ = false

abbrev pub count_answers : List ReservationState → ℕ
count_answers [] = 0
count_answers (t ∷ ts) = (if is_answer t then 1 else 0) + count_answers ts

-- Dispatches that are still possible without another failure to send.
abbrev credit : ReservationState → ℕ
credit reserved = 1
credit not_sent_failed = 1
credit _ = 0

abbrev answers_left : ReservationState → ℕ
answers_left reserved = 1
answers_left dispatching = 1
answers_left not_sent_failed = 1
answers_left _ = 0

IsRun-counts :
    (s : ReservationState) (ts : List ReservationState)
    → IsRun s ts
    → (count_state dispatching ts ≤ count_state not_sent_failed ts + credit s)
      × (count_answers ts ≤ answers_left s)
unfolding is_reservation_transition_allowed
IsRun-counts s [] h = (omega arith, omega arith)
IsRun-counts s (t ∷ ts) h = ground (arith, IsRun-counts t ts h.1)

-- In every sequence of allowed transitions from RESERVED, each dispatch after the first is paid for
-- by a NOT_SENT_FAILED, and at most one state is an answer (ACKNOWLEDGED, REJECTED or UNKNOWN).
pub dispatches_bounded :
    (ts : List ReservationState)
    → IsRun reserved ts
    → (count_state dispatching ts ≤ count_state not_sent_failed ts + 1) × (count_answers ts ≤ 1)
dispatches_bounded ts h = IsRun-counts reserved ts h
