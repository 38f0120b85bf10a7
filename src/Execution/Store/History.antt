-- ===== src/Execution/Store/History.antt =====
-- What any sequence of calls of the execution store does to its audit trail.
use mu_5x_fibonacci_trading.Base.{
  ◌≡◌, refl, inl, inr, List, [], ◌∷◌, ◌++◌, Result, ok, err, sym, ap, ◌∙◌,
}
use mathlib.Core.List.{append-nil, append_assoc}
use mu_5x_fibonacci_trading.Runtime.{Runtime}
use mu_5x_fibonacci_trading.Execution.Store.{StoreError, EventRow, Db, empty_db}
use mu_5x_fibonacci_trading.Execution.Store.Operations.{record_intent}
use mu_5x_fibonacci_trading.Execution.Store.Mutations.{reserve_mutation, transition_reservation}
use mu_5x_fibonacci_trading.Execution.Store.Requests.{
  Request, record_request, reserve_request, transition_request, step, run, run_induction,
}
use mu_5x_fibonacci_trading.Execution.Store.Atomic.{
  record_intent-IsAtomic, reserve_mutation-IsAtomic, transition_reservation-IsAtomic,
}
use mu_5x_fibonacci_trading.Execution.Store.Journal.{
  record_intent-Logs, reserve_mutation-Logs, transition_reservation-Logs,
}
use mu_5x_fibonacci_trading.Execution.Store.Journal.Rules.{Appends}
use mu_5x_fibonacci_trading.Execution.Store.Journal.Numbers.{
  IsNumbered, Appends-IsNumbered, IsNumbered-nil,
}

-- The call raises.
abbrev pub Fails : {A : Type 0} → Result StoreError A × Db → Type 0
Fails (ok a, db) = ⊥
Fails (err e, db) = Unit {0}

abbrev pub Raises : Runtime → Request → Db → Type 0
Raises rt (record_request i scan m) db = Fails (record_intent rt i scan m db)
Raises rt (reserve_request i q m) db = Fails (reserve_mutation rt i q m db)
Raises rt (transition_request env op id expected new m) db =
    Fails (transition_reservation rt env op id expected new m db)

unchanged_of_Fails :
    {A : Type 0} (db : Db) (out : Result StoreError A × Db)
    → ((e : StoreError) → out.0 ≡ err e → out.1 ≡ db)
    → Fails out
    → out.1 ≡ db
unchanged_of_Fails db (ok a, db') h f = elim f [ ]
unchanged_of_Fails db (err e, db') h f = h e refl

-- A call that raises, for whatever reason, leaves the database exactly as it was.
pub step-atomic : (rt : Runtime) (r : Request) (db : Db) → Raises rt r db → step rt r db ≡ db
unfolding step
step-atomic rt (record_request i scan m) db f =
    unchanged_of_Fails db (record_intent rt i scan m db)
      ((record_intent-IsAtomic rt i scan m).at db) f
step-atomic rt (reserve_request i q m) db f =
    unchanged_of_Fails db (reserve_mutation rt i q m db)
      ((reserve_mutation-IsAtomic rt i q m).at db) f
step-atomic rt (transition_request env op id expected new m) db f =
    unchanged_of_Fails db (transition_reservation rt env op id expected new m db)
      ((transition_reservation-IsAtomic rt env op id expected new m).at db) f

step-Appends : (rt : Runtime) (r : Request) (db : Db) → Appends db.events (step rt r db).events
unfolding step
step-Appends rt (record_request i scan m) db = (record_intent-Logs rt i scan m).at db
step-Appends rt (reserve_request i q m) db = (reserve_mutation-Logs rt i q m).at db
step-Appends rt (transition_request env op id expected new m) db =
    (transition_reservation-Logs rt env op id expected new m).at db

-- After any calls on an empty database, returned or raised, the events of each business action are
-- numbered 1, 2, 3, … in the order in which they were written, with no gap and no number twice.
pub run-IsNumbered : (rt : Runtime) (rs : List Request) → IsNumbered (run rt rs empty_db).events
run-IsNumbered rt rs =
    run_induction rt (λ db. IsNumbered db.events)
      (λ r db h. Appends-IsNumbered db.events (step rt r db).events (step-Appends rt r db) h) rs
      empty_db IsNumbered-nil

extends_more : (es es' : List EventRow) → Appends es es' → (new : List EventRow) × (es' ≡ es ++ new)
extends_more es es' (inl same) = ([], same ∙ sym (append-nil es))
extends_more es es' (inr (e, more, next)) = (e ∷ [], more)

-- No call removes, reorders or changes an event: the earlier trail is a prefix of the later one.
pub run-events_extend :
    (rt : Runtime) (rs : List Request) (db : Db)
    → (new : List EventRow) × ((run rt rs db).events ≡ db.events ++ new)
unfolding run
run-events_extend rt [] db = ([], sym (append-nil db.events))
run-events_extend rt (r ∷ rs) db =
    let (first, p) = extends_more db.events (step rt r db).events (step-Appends rt r db) in
    let (rest, q) = run-events_extend rt rs (step rt r db) in
    (first ++ rest, q ∙ ap (λ l. l ++ rest) p ∙ append_assoc db.events first rest)
