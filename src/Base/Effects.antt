-- ===== src/Base/Effects.antt =====
-- A method that reads and writes a database and may raise. What was written before a raise stays
-- written, so the state comes back beside the error; `transaction` rolls it back.
use mathlib.Core.Path.{◌≡◌, refl}
use mathlib.Core.Bool.{Bool, true, false}
use mathlib.Core.Option.{Option, none, some}

pub data Result {ℓ} (E A : Type ℓ) : Type ℓ where
  ok : A → Result E A
  err : E → Result E A

abbrev pub Exec {ℓ} : Type ℓ → Type ℓ → Type ℓ → Type ℓ
Exec S E A = S → Result E A × S

module _ {ℓ} {S E A : Type ℓ} where
  abbrev pub pure : A → Exec S E A
  pure a s = (ok a, s)

  abbrev pub raise : E → Exec S E A
  raise e s = (err e, s)

  abbrev pub lift : Result E A → Exec S E A
  lift r s = (r, s)

  abbrev pub gets : (S → A) → Exec S E A
  gets f s = (ok (f s), s)

  -- `x` where the source would fail on None
  abbrev pub or_raise : Option A → E → Exec S E A
  or_raise none e = raise e
  or_raise (some a) e = pure a

  -- BEGIN … COMMIT, and ROLLBACK where the body raises.
  abbrev pub settle : S → Result E A × S → Result E A × S
  settle before (ok a, after) = (ok a, after)
  settle before (err e, after) = (err e, before)

  unfoldable pub transaction : Exec S E A → Exec S E A
  transaction body s = settle s (body s)

module _ {ℓ} {S E A B : Type ℓ} where
  -- What follows an action that has run.
  abbrev pub continue : Result E A × S → (A → Exec S E B) → Result E B × S
  continue (ok a, s) f = f a s
  continue (err e, s) f = (err e, s)

infixl 5 ◌>>=◌ ◌>>◌
abbrev pub ◌>>=◌ {ℓ} : {S E A B : Type ℓ} → Exec S E A → (A → Exec S E B) → Exec S E B
◌>>=◌ m f s = continue (m s) f

abbrev pub ◌>>◌ {ℓ} : {S E A B : Type ℓ} → Exec S E A → Exec S E B → Exec S E B
m >> k = m >>= λ _. k

module _ {S E : Type 0} where
  abbrev pub raise_if : Bool → E → Exec S E (Unit {0})
  raise_if true e s = (err e, s)
  raise_if false e s = (ok tt, s)

  abbrev pub modify : (S → S) → Exec S E (Unit {0})
  modify f s = (ok tt, f s)

settle-err {ℓ} :
    {S E A : Type ℓ} (s : S) (r : Result E A × S) {e : E}
    → (settle s r).0 ≡ err e
    → (settle s r).1 ≡ s
settle-err s (ok a, s') h = cc
settle-err s (err e, s') h = refl

-- A body that raises inside `transaction` leaves the database as it was.
pub transaction-err {ℓ} :
    {S E A : Type ℓ} (m : Exec S E A) (s : S) {e : E}
    → (transaction m s).0 ≡ err e
    → (transaction m s).1 ≡ s
unfolding transaction
transaction-err m s h = settle-err s (m s) h
