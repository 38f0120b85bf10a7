-- ===== src/Execution/Store/Requests.antt =====
-- Sequences of calls of the execution store: the database after each, whether it returned or raised.
use mu_5x_fibonacci_trading.Base.{String, List, [], ◌∷◌}
use mu_5x_fibonacci_trading.Runtime.{Runtime}
use mu_5x_fibonacci_trading.Execution.Reservation.{ReservationState}
use mu_5x_fibonacci_trading.Execution.Intent.{OrderIntent, ExecutionEnvironment}
use mu_5x_fibonacci_trading.Execution.Audit.{MutationOperation}
use mu_5x_fibonacci_trading.Execution.Store.{Db}
use mu_5x_fibonacci_trading.Execution.Store.Operations.{EventMetadata, record_intent}
use mu_5x_fibonacci_trading.Execution.Store.Mutations.{
  MutationRequest, reserve_mutation, transition_reservation,
}

pub data Request : Type 0 where
  record_request : OrderIntent → String → EventMetadata → Request
  reserve_request : OrderIntent → MutationRequest → EventMetadata → Request
  transition_request :
      ExecutionEnvironment
      → MutationOperation
      → String
      → ReservationState
      → ReservationState
      → EventMetadata
      → Request

unfoldable pub step : Runtime → Request → Db → Db
step rt (record_request i scan m) db = (record_intent rt i scan m db).1
step rt (reserve_request i q m) db = (reserve_mutation rt i q m db).1
step rt (transition_request env op id expected new m) db =
    (transition_reservation rt env op id expected new m db).1

unfoldable pub run : Runtime → List Request → Db → Db
run rt [] db = db
run rt (r ∷ rs) db = run rt rs (step rt r db)

-- What every call keeps, every sequence of calls keeps.
pub run_induction :
    (rt : Runtime) (P : Db → Type 0)
    → ((r : Request) (db : Db) → P db → P (step rt r db))
    → (rs : List Request) (db : Db) → P db
    → P (run rt rs db)
unfolding run
run_induction rt P keep [] db h = h
run_induction rt P keep (r ∷ rs) db h = run_induction rt P keep rs (step rt r db) (keep r db h)
