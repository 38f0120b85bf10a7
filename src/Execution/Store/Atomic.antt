-- ===== src/Execution/Store/Atomic.antt =====
-- Atomicity of the operations of the execution store.
mod Rules
use mu_5x_fibonacci_trading.Base.{◌≡◌, String, err}
use mu_5x_fibonacci_trading.Runtime.{Runtime}
use mu_5x_fibonacci_trading.Execution.Reservation.{ReservationState}
use mu_5x_fibonacci_trading.Execution.Intent.{OrderIntent, ExecutionEnvironment}
use mu_5x_fibonacci_trading.Execution.Audit.{MutationOperation}
use mu_5x_fibonacci_trading.Execution.Store.{StoreError, Db}
use mu_5x_fibonacci_trading.Execution.Store.Operations.{EventMetadata, record_intent}
use mu_5x_fibonacci_trading.Execution.Store.Mutations.{
  MutationRequest, reserve_mutation, transition_reservation,
}
use Rules.{IsAtomic, atomic_rules}

module _ (rt : Runtime) where
  pub record_intent-IsAtomic :
      (i : OrderIntent) (scan : String) (m : EventMetadata) → IsAtomic (record_intent rt i scan m)
  unfolding record_intent
  record_intent-IsAtomic i scan m = search atomic_rules

  pub reserve_mutation-IsAtomic :
      (i : OrderIntent) (q : MutationRequest) (m : EventMetadata)
      → IsAtomic (reserve_mutation rt i q m)
  unfolding reserve_mutation
  reserve_mutation-IsAtomic i q m = search atomic_rules depth 20

  pub transition_reservation-IsAtomic :
      (env : ExecutionEnvironment) (op : MutationOperation) (id : String)
      (expected new : ReservationState) (m : EventMetadata)
      → IsAtomic (transition_reservation rt env op id expected new m)
  unfolding transition_reservation
  transition_reservation-IsAtomic env op id expected new m = search atomic_rules depth 10
