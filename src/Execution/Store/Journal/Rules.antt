-- ===== src/Execution/Store/Journal/Rules.antt =====
-- Rules for what a method does to the audit events: nothing, or one event at the end.
use mathlib.Core.Path.{subst}
use mu_5x_fibonacci_trading.Base.{
  ◌+◌, ◌≡◌, refl, Bool, true, false, ◌⊎◌, inl, List, [], ◌∷◌, ◌++◌, Result, ok, err, pure, raise,
  lift, gets, modify, raise_if, transaction, settle, continue, ◌∙◌, ◌>>=◌,
}
use mu_5x_fibonacci_trading.Execution.Store.{StoreError, EventRow, Db, max_sequence}
use mu_5x_fibonacci_trading.Execution.Store.Operations.{Action, catch_integrity}

-- Nothing, or one event with the next sequence number of its action.
abbrev pub Appends : List EventRow → List EventRow → Type 0
Appends es es' =
    (es' ≡ es)
    ⊎ ((e : EventRow) × (es' ≡ es ++ e ∷ [])
        × (e.sequence ≡ max_sequence e.audit_correlation_id es + 1))

pub record IsQuiet {A : Type 0} (m : Action A) : Type 0 where
  pub at : (db : Db) → (m db).1.events ≡ db.events

pub record Logs {A : Type 0} (m : Action A) : Type 0 where
  pub at : (db : Db) → Appends db.events (m db).1.events

module _ {A : Type 0} where
  pub IsQuiet-pure : (a : A) → IsQuiet (pure a)
  IsQuiet-pure a = record { at = λ db. refl }

  pub IsQuiet-raise : (e : StoreError) → IsQuiet (raise {A = A} e)
  IsQuiet-raise e = record { at = λ db. refl }

  pub IsQuiet-lift : (r : Result StoreError A) → IsQuiet (lift r)
  IsQuiet-lift r = record { at = λ db. refl }

  pub IsQuiet-gets : (f : Db → A) → IsQuiet (gets f)
  IsQuiet-gets f = record { at = λ db. refl }

  pub Logs-quiet : (m : Action A) → IsQuiet m → Logs m
  Logs-quiet m q = record { at = λ db. inl (q.at db) }

  Appends-settle :
      (db : Db) (out : Result StoreError A × Db)
      → Appends db.events out.1.events
      → Appends db.events (settle db out).1.events
  Appends-settle db (ok a, db') h = h
  Appends-settle db (err e, db') h = inl refl

  pub Logs-transaction : (m : Action A) → Logs m → Logs (transaction m)
  unfolding transaction
  Logs-transaction m l = record { at = λ db. Appends-settle db (m db) (l.at db) }

  pub Logs-catch_integrity : (m : Action A) → Logs m → Logs (catch_integrity m)
  unfolding catch_integrity
  Logs-catch_integrity m l = record { at = λ db. l.at db }

pub IsQuiet-raise_if : (b : Bool) (e : StoreError) → IsQuiet (raise_if b e)
IsQuiet-raise_if true e = record { at = λ db. refl }
IsQuiet-raise_if false e = record { at = λ db. refl }

pub IsQuiet-modify : (f : Db → Db) → ((db : Db) → (f db).events ≡ db.events) → IsQuiet (modify f)
IsQuiet-modify f h = record { at = h }

module _ {A B : Type 0} where
  quiet_rest :
      (es : List EventRow) (out : Result StoreError A × Db) (f : A → Action B)
      → out.1.events ≡ es
      → ((a : A) → IsQuiet (f a))
      → (continue out f).1.events ≡ es
  quiet_rest es (ok a, db') f same h = (h a).at db' ∙ same
  quiet_rest es (err e, db') f same h = same

  log_rest :
      (es : List EventRow) (out : Result StoreError A × Db) (f : A → Action B)
      → out.1.events ≡ es
      → ((a : A) → Logs (f a))
      → Appends es (continue out f).1.events
  log_rest es (ok a, db') f same h = subst (λ x. Appends x (f a db').1.events) same ((h a).at db')
  log_rest es (err e, db') f same h = inl same

  logged_rest :
      (es : List EventRow) (out : Result StoreError A × Db) (f : A → Action B)
      → Appends es out.1.events
      → ((a : A) → IsQuiet (f a))
      → Appends es (continue out f).1.events
  logged_rest es (ok a, db') f done h = rw ((h a).at db') done
  logged_rest es (err e, db') f done h = done

  pub IsQuiet-bind :
      (m : Action A) (f : A → Action B) → IsQuiet m → ((a : A) → IsQuiet (f a)) → IsQuiet (m >>= f)
  IsQuiet-bind m f q h = record { at = λ db. quiet_rest db.events (m db) f (q.at db) h }

  pub Logs-bind :
      (m : Action A) (f : A → Action B) → IsQuiet m → ((a : A) → Logs (f a)) → Logs (m >>= f)
  Logs-bind m f q h = record { at = λ db. log_rest db.events (m db) f (q.at db) h }

  pub Logs-then :
      (m : Action A) (f : A → Action B) → Logs m → ((a : A) → IsQuiet (f a)) → Logs (m >>= f)
  Logs-then m f l h = record { at = λ db. logged_rest db.events (m db) f (l.at db) h }

pub ruleset quiet_rules =
    (IsQuiet-pure, IsQuiet-raise, IsQuiet-lift, IsQuiet-gets, IsQuiet-raise_if, IsQuiet-bind)
