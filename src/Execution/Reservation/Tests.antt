-- ===== src/Execution/Reservation/Tests.antt =====
-- The state machine of a reservation at concrete runs.
use mu_5x_fibonacci_trading.Base.{◌+◌, ◌≤◌, ◌≡◌, refl, false, List, [], ◌∷◌, arith}
use mu_5x_fibonacci_trading.Execution.Reservation.{
  ReservationState, reserved, dispatching, acknowledged, not_sent_failed, unknown, count_state,
  count_answers, is_reservation_transition_allowed, IsRun, dispatches_bounded,
}

abbrev retried : List ReservationState
retried = dispatching ∷ not_sent_failed ∷ reserved ∷ dispatching ∷ acknowledged ∷ []

retried-IsRun : IsRun reserved retried
unfolding is_reservation_transition_allowed
retried-IsRun = ground arith

dispatches_bounded_example :
    (count_state dispatching retried ≤ count_state not_sent_failed retried + 1)
    × (count_answers retried ≤ 1)
dispatches_bounded_example = dispatches_bounded retried retried-IsRun

unknown_is_final : is_reservation_transition_allowed unknown reserved ≡ false
unfolding is_reservation_transition_allowed
unknown_is_final = refl
