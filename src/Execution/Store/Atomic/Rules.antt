-- ===== src/Execution/Store/Atomic/Rules.antt =====
-- Rules for methods that leave the database alone when they raise.
use mu_5x_fibonacci_trading.Base.{
  ◌≡◌, refl, Bool, true, false, Result, ok, err, lift, raise_if, transaction, transaction-err,
  ◌>>=◌, ◌>>◌,
}
use mu_5x_fibonacci_trading.Execution.Store.{StoreError, Db}
use mu_5x_fibonacci_trading.Execution.Store.Operations.{Action, catch_integrity, as_conflict}

pub record IsAtomic {A : Type 0} (m : Action A) : Type 0 where
  pub at : (db : Db) (e : StoreError) → (m db).0 ≡ err e → (m db).1 ≡ db

module _ {A B : Type 0} where
  pub IsAtomic-lift-bind :
      (r : Result StoreError A) (f : A → Action B)
      → ((a : A) → IsAtomic (f a))
      → IsAtomic (lift r >>= f)
  IsAtomic-lift-bind (ok a) f h = record { at = λ db e p. (h a).at db e p }
  IsAtomic-lift-bind (err e) f h = record { at = λ db e' p. refl }

module _ {A : Type 0} where
  pub IsAtomic-raise_if :
      (b : Bool) (e : StoreError) (m : Action A) → IsAtomic m → IsAtomic (raise_if b e >> m)
  IsAtomic-raise_if true e m h = record { at = λ db e' p. refl }
  IsAtomic-raise_if false e m h = record { at = λ db e' p. h.at db e' p }

  as_conflict-err :
      (r : Result StoreError A) (e : StoreError)
      → as_conflict r ≡ err e
      → (e' : StoreError) × (r ≡ err e')
  as_conflict-err (ok a) e h = cc
  as_conflict-err (err e') e h = (e', refl)

  pub IsAtomic-catch_integrity : (m : Action A) → IsAtomic (catch_integrity (transaction m))
  unfolding catch_integrity
  IsAtomic-catch_integrity m = record {
    at = λ db e p. let (e', q) = as_conflict-err (transaction m db).0 e p in transaction-err m db q;
  }

pub ruleset atomic_rules = (IsAtomic-lift-bind, IsAtomic-raise_if, IsAtomic-catch_integrity)
