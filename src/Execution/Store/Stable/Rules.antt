-- ===== src/Execution/Store/Stable/Rules.antt =====
-- Rules for methods that keep a predicate of the database.
use mu_5x_fibonacci_trading.Base.{
  ◌≡◌, refl, Bool, true, false, Result, ok, err, pure, raise, lift, gets, modify, raise_if,
  transaction, settle, continue, ◌>>=◌, ◌>>◌,
}
use mu_5x_fibonacci_trading.Execution.Store.{StoreError, Db}
use mu_5x_fibonacci_trading.Execution.Store.Operations.{Action, catch_integrity}

pub record Keeps {A : Type 0} (P : Db → Type 0) (m : Action A) : Type 0 where
  pub at : (db : Db) → P db → P (m db).1

module _ {P : Db → Type 0} where
  pub Keeps-modify : (f : Db → Db) → ((db : Db) → P db → P (f db)) → Keeps P (modify f)
  Keeps-modify f h = record { at = h }

  pub Keeps-raise_if : (b : Bool) (e : StoreError) → Keeps P (raise_if b e)
  Keeps-raise_if true e = record { at = λ db h. h }
  Keeps-raise_if false e = record { at = λ db h. h }

keeps_settle :
    {A : Type 0} (P : Db → Type 0) (db : Db) (out : Result StoreError A × Db)
    → P db
    → P out.1
    → P (settle db out).1
keeps_settle P db (ok a, db') h k = k
keeps_settle P db (err e, db') h k = h

keeps_rest :
    {A B : Type 0} (P : Db → Type 0) (out : Result StoreError A × Db) (f : A → Action B)
    → P out.1
    → ((a : A) → Keeps P (f a))
    → P (continue out f).1
keeps_rest P (ok a, db') f h k = (k a).at db' h
keeps_rest P (err e, db') f h k = h

module _ {P : Db → Type 0} {A : Type 0} where
  pub Keeps-pure : (a : A) → Keeps P (pure a)
  Keeps-pure a = record { at = λ db h. h }

  pub Keeps-raise : (e : StoreError) → Keeps P (raise {A = A} e)
  Keeps-raise e = record { at = λ db h. h }

  pub Keeps-lift : (r : Result StoreError A) → Keeps P (lift r)
  Keeps-lift r = record { at = λ db h. h }

  pub Keeps-gets : (f : Db → A) → Keeps P (gets f)
  Keeps-gets f = record { at = λ db h. h }

  pub Keeps-transaction : (m : Action A) → Keeps P m → Keeps P (transaction m)
  unfolding transaction
  Keeps-transaction m k = record { at = λ db h. keeps_settle P db (m db) h (k.at db h) }

  pub Keeps-catch_integrity : (m : Action A) → Keeps P m → Keeps P (catch_integrity m)
  unfolding catch_integrity
  Keeps-catch_integrity m k = record { at = λ db h. k.at db h }

  -- What follows a test knows that the test passed.
  pub Keeps-guarded :
      (b : Bool) (e : StoreError) (m : Action A)
      → (b ≡ false → Keeps P m)
      → Keeps P (raise_if b e >> m)
  Keeps-guarded true e m k = record { at = λ db h. h }
  Keeps-guarded false e m k = record { at = λ db h. (k refl).at db h }

module _ {P : Db → Type 0} {A B : Type 0} where
  pub Keeps-bind :
      (m : Action A) (f : A → Action B) → Keeps P m → ((a : A) → Keeps P (f a)) → Keeps P (m >>= f)
  Keeps-bind m f k l = record { at = λ db h. keeps_rest P (m db) f (k.at db h) l }

pub ruleset keep_rules = (
  Keeps-pure, Keeps-raise, Keeps-lift, Keeps-gets, Keeps-raise_if, Keeps-bind, Keeps-transaction,
  Keeps-catch_integrity,
)
