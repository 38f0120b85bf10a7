-- ===== src/Ledger/Once.antt =====
-- Fills and positions are never taken away, and a request that is sent again is counted once.
use mathlib.Core.Path.{subst}
use mathlib.Core.List.{append-nil, append_assoc}
use mu_5x_fibonacci_trading.Base.{
  ℕ, ◌≡◌, refl, sym, ap, ◌∙◌, String, Option, none, some, List, [], ◌∷◌, ◌++◌, eq_refl,
  find-append_some, Result, ok, err, or_raise, ◌>>=◌, Option-cases, inl, inr,
}
use mu_5x_fibonacci_trading.Runtime.{Runtime}
use mu_5x_fibonacci_trading.Notification.Observation.{Observations}
use mu_5x_fibonacci_trading.Notification.Outbox.{Outbox}
use mu_5x_fibonacci_trading.Ledger.Externals.{Externals, DigitsBelowTen, Payload}
use mu_5x_fibonacci_trading.Ledger.Fill.{request_identity}
use mu_5x_fibonacci_trading.Ledger.Replay.{FillRevision}
use mu_5x_fibonacci_trading.Ledger.Store.{
  LedgerError, value_error, Position, Ledger, Ledgered, has_request,
}
use mu_5x_fibonacci_trading.Ledger.Form.{SignalFields}
use mu_5x_fibonacci_trading.Ledger.Save.{save, identified}
use mu_5x_fibonacci_trading.Ledger.Requests.{LedgerRequest, step, run, run_induction}
use mu_5x_fibonacci_trading.Ledger.Moves.{Move, stay, opened, created, added, confirmed}
use mu_5x_fibonacci_trading.Ledger.Moves.Saving.{IsRecorded, Ended, save-Ended}
use mu_5x_fibonacci_trading.Ledger.Readable.Calls.{step-Move}

-- More fills at the end, more positions at the front.
abbrev pub Extends : Ledger → Ledger → Type 0
Extends l l' =
    ((rs : List FillRevision) × (l'.fills ≡ l.fills ++ rs))
    × ((ps : List Position) × (l'.positions ≡ ps ++ l.positions))

module _ (x : Externals) where
  Move-Extends : {l l' : Ledger} → Move x l l' → Extends l l'
  Move-Extends {l} stay = (([], sym (append-nil l.fills)), ([], refl))
  Move-Extends {l} opened = (([], sym (append-nil l.fills)), ([], refl))
  Move-Extends (created p r free own new) = ((r ∷ [], refl), (p ∷ [], refl))
  Move-Extends (added r known new) = ((r ∷ [], refl), ([], refl))
  Move-Extends {l} (confirmed s new) = (([], sym (append-nil l.fills)), ([], refl))

  Extends-trans : (a b c : Ledger) → Extends a b → Extends b c → Extends a c
  Extends-trans a b c ((rs, e), (ps, f)) ((qs, g), (os, h)) = (
    (rs ++ qs, g ∙ ap (λ l. l ++ qs) e ∙ append_assoc a.fills rs qs),
    (os ++ ps, h ∙ ap (λ l. os ++ l) f ∙ sym (append_assoc os ps a.positions)),
  )

  Move-IsRecorded :
      (ids : String × String × String) {l l' : Ledger}
      → Move x l l'
      → IsRecorded ids l
      → IsRecorded ids l'
  Move-IsRecorded ids stay h = h
  Move-IsRecorded ids opened (r, found, hash, at, present) = (r, found, hash, at, refl)
  Move-IsRecorded ids {l} (created p q free own new) (r, found, hash, at, present) =
      (r, find-append_some (has_request ids.0) l.fills q found, hash, at, refl)
  Move-IsRecorded ids {l} (added q known new) (r, found, hash, at, present) =
      (r, find-append_some (has_request ids.0) l.fills q found, hash, at, refl)
  Move-IsRecorded ids (confirmed s new) (r, found, hash, at, present) =
      (r, found, hash, at, present)

or_raise-some :
    {A B : Type 0} (o : Option B) (e : LedgerError) (f : B → Ledgered A) (l : Ledger) {b : B}
    → o ≡ some b
    → (or_raise o e >>= f) l ≡ f b l
or_raise-some none e f l h = absurd (cc h)
or_raise-some (some c) e f l {b} h = let same : c ≡ b = cc h in ap (λ d. f d l) same

module _ (rt : Runtime) (obs : Observations) (fields : SignalFields obs) (x : Externals) where
  -- No calls remove, reorder or change a recorded fill or a position.
  pub run-Extends :
      DigitsBelowTen x
      → (rs : List LedgerRequest) (l : Ledger) → Extends l (run rt obs fields x rs l)
  run-Extends below_ten rs l =
      run_induction rt obs fields x (Extends l)
        (λ r m h.
          Extends-trans x l m (step rt obs fields x r m) h
            (Move-Extends x (step-Move x rt obs fields below_ten r m)))
        rs l (([], sym (append-nil l.fills)), ([], refl))

  run-IsRecorded :
      DigitsBelowTen x
      → (ids : String × String × String) (rs : List LedgerRequest) (l : Ledger) → IsRecorded ids l
      → IsRecorded ids (run rt obs fields x rs l)
  run-IsRecorded below_ten ids =
      run_induction rt obs fields x (IsRecorded ids)
        (λ r l. Move-IsRecorded x ids (step-Move x rt obs fields below_ten r l))

  -- A recorded request is answered from the table.
  save-recorded :
      (l : Ledger) (outbox : Outbox) (p : Payload) (now : ℕ)
      (request_id position_id digest id : String)
      → request_identity x p ≡ some (request_id, position_id, digest)
      → IsRecorded (request_id, id, digest) l
      → save rt obs fields x outbox p now l ≡ (ok id, l)
  unfolding save
  save-recorded l outbox p now request_id position_id digest id known
        (r, found, hash, at, present) =
      or_raise-some (request_identity x p) value_error (identified rt obs fields x outbox p now) l
        known
      ∙ rw (present, found, hash, at, eq_refl digest)

  returned-IsRecorded :
      (l : Ledger) (ids : String × String × String) (id : String)
      (out : Result LedgerError String × Ledger)
      → Ended x l (ids.0, ids.2) out
      → out.0 ≡ ok id
      → IsRecorded (ids.0, id, ids.2) out.1
  returned-IsRecorded l ids id (ok i, l') (move, recorded) h =
      let same : i ≡ id = cc h in subst (λ j. IsRecorded (ids.0, j, ids.2) l') same recorded
  returned-IsRecorded l ids id (err e, l') ended h = absurd (cc h)

  unidentified :
      (l : Ledger) (outbox : Outbox) (p : Payload) (now : ℕ)
      → request_identity x p ≡ none
      → (save rt obs fields x outbox p now l).0 ≡ err value_error
  unfolding save
  unidentified l outbox p now unknown =
      ap
        (λ (o : Option (String × String × String)).
          ((or_raise o value_error >>= identified rt obs fields x outbox p now) l).0)
        unknown

  -- Where save has returned a position for a form, and every digit of Unicode has a value below ten,
  -- the same form sent again after any further calls, at any time, returns the same position and
  -- changes nothing: the fill is counted once.
  pub save_once :
      DigitsBelowTen x
      → (l : Ledger) (outbox outbox' : Outbox) (p : Payload) (now now' : ℕ) (id : String)
      → (save rt obs fields x outbox p now l).0 ≡ ok id
      → (rs : List LedgerRequest)
      → save rt obs fields x outbox' p now'
          (run rt obs fields x rs (save rt obs fields x outbox p now l).1)
        ≡ (ok id, run rt obs fields x rs (save rt obs fields x outbox p now l).1)
  save_once below_ten l outbox outbox' p now now' id done rs =
      elim (Option-cases (request_identity x p)) [
        | inl unknown ↦ absurd (cc (unidentified l outbox p now unknown, done))
        | inr (ids, known) ↦
            let out = save rt obs fields x outbox p now l in
            let recorded =
              returned-IsRecorded l ids id out (save-Ended rt obs fields x l outbox p now ids known)
                done in
            save-recorded (run rt obs fields x rs out.1) outbox' p now' ids.0 ids.1 ids.2 id known
              (run-IsRecorded below_ten (ids.0, id, ids.2) rs out.1 recorded)
      ]
