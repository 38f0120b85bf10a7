-- ===== src/Ledger/Rules.antt =====
-- Rules for a property of what a method of the ledger ends in, a result beside the tables: a guard,
-- a value that may be missing, a transaction, an earlier request, the reading of the positions.
use mathlib.Core.Path.{subst}
use mu_5x_fibonacci_trading.Base.{
  ◌≡◌, refl, sym, ap, ◌∙◌, ◌||◌, String, Bool, true, false, not, Option, none, some, List, [], ◌∷◌,
  str_eq, eq_iff, arith, Result, ok, err, raise_if, or_raise, ◌>>=◌, ◌>>◌, transaction, settle,
  continue, find, any, all, Bool-cases, inl, inr,
}
use mu_5x_fibonacci_trading.Ledger.Externals.{Externals}
use mu_5x_fibonacci_trading.Ledger.Replay.{Projection, project, current_state}
use mu_5x_fibonacci_trading.Ledger.Store.{
  LedgerError, value_error, key_error, Position, Ledger, Ledgered, saved_request, PositionView,
  view_of, history_of, states_of, read_positions, read, fills_known, states_known, state_valid,
  view_has_id, has_position_id, known_position,
}
use mu_5x_fibonacci_trading.Ledger.Save.{unless_saved}

abbrev pub Outcome : Type 0 → Type 0
Outcome A = Result LedgerError A × Ledger

module _ {A : Type 0} (Q : Outcome A → Type 0) (s : Ledger)
    (fails : (e : LedgerError) → Q (err e, s)) where
  pub guarded :
      (b : Bool) (e : LedgerError) (m : Ledgered A)
      → (b ≡ false → Q (m s))
      → Q ((raise_if b e >> m) s)
  guarded true e m h = fails e
  guarded false e m h = h refl

  pub chosen :
      {B : Type 0} (o : Option B) (e : LedgerError) (f : B → Ledgered A)
      → ((b : B) → o ≡ some b → Q (f b s))
      → Q ((or_raise o e >>= f) s)
  chosen none e f h = fails e
  chosen (some b) e f h = h b refl

  settled_out : (out : Outcome A) → Q out → Q (settle s out)
  settled_out (ok a, s') h = h
  settled_out (err e, s') h = fails e

  pub settled : (m : Ledgered A) → Q (m s) → Q (transaction m s)
  unfolding transaction
  settled m h = settled_out (m s) h

or_true : (b : Bool) → (b || true) ≡ true
or_true true = refl
or_true false = refl

-- The views that `_read` makes of the positions.
abbrev pub AreViews : (x : Externals) → Ledger → List Position → List (PositionView x) → Type 0
AreViews x l [] [] = Unit
AreViews x l [] (v ∷ vs) = ⊥
AreViews x l (p ∷ ps) [] = ⊥
AreViews x l (p ∷ ps) (v ∷ vs) =
    (v.position ≡ p)
    × (project x (history_of x p.position_id l) ≡ some v.projection)
    × (v.state_history ≡ states_of x p.position_id l)
    × (v.current_state ≡ current_state x v.projection (states_of x p.position_id l))
    × AreViews x l ps vs

module _ (x : Externals) where
  -- The reading changes nothing, and returns the views or raises.
  abbrev IsReading : Ledger → List Position → Outcome (List (PositionView x)) → Type 0
  IsReading l ps (ok vs, l') = (l' ≡ l) × AreViews x l ps vs
  IsReading l ps (err e, l') = l' ≡ l

  abbrev Is : Ledger → Position → PositionView x → Type 0
  Is l p v =
      (v.position ≡ p)
      × (project x (history_of x p.position_id l) ≡ some v.projection)
      × (v.state_history ≡ states_of x p.position_id l)
      × (v.current_state ≡ current_state x v.projection (states_of x p.position_id l))

  after_view :
      (l : Ledger) (p : Position) (ps : List Position) (v : PositionView x)
      (out : Outcome (List (PositionView x)))
      → Is l p v
      → IsReading l ps out
      → IsReading l (p ∷ ps) (continue out (λ vs s. (ok (v ∷ vs), s)))
  after_view l p ps v (ok vs, l') (a, b, c, d) (same, are) = (same, (a, b, c, d, are))
  after_view l p ps v (err e, l') i same = same

  with_view :
      (l : Ledger) (p : Position) (ps : List Position) (o : Option (Projection x))
      (rest : Ledgered (List (PositionView x)))
      → project x (history_of x p.position_id l) ≡ o
      → IsReading l ps (rest l)
      → IsReading l (p ∷ ps) (
          (view_of x p (states_of x p.position_id l) o >>= λ view.
          rest >>= λ views. λ s. (ok (view ∷ views), s))
            l)
  with_view l p ps none rest h r = refl
  with_view l p ps (some projected) rest h r = after_view l p ps _ (rest l) (refl, h, refl, refl) r

  read_positions-IsReading :
      (l : Ledger) (ps : List Position) → IsReading l ps (read_positions x ps l)
  unfolding read_positions
  read_positions-IsReading l [] = (refl, tt)
  read_positions-IsReading l (p ∷ ps) =
      with_view l p ps (project x (history_of x p.position_id l)) (read_positions x ps) refl
        (read_positions-IsReading l ps)

  IsReading-guard :
      (l : Ledger) (ps : List Position) (b : Bool) (e : LedgerError)
      (m : Ledgered (List (PositionView x)))
      → IsReading l ps (m l)
      → IsReading l ps ((raise_if b e >> m) l)
  IsReading-guard l ps true e m h = refl
  IsReading-guard l ps false e m h = h

  read-IsReading : (l : Ledger) → IsReading l l.positions (read x l)
  unfolding read
  read-IsReading l = IsReading-guard l l.positions (not (fills_known x l)) key_error _ (
      IsReading-guard l l.positions (not (all (state_valid x) l.states)) value_error _ (
        IsReading-guard l l.positions (not (states_known x l)) key_error _
          (read_positions-IsReading l l.positions)))

  shown-AreViews :
      (l : Ledger) (ps : List Position) (out : Outcome (List (PositionView x)))
      {vs : List (PositionView x)}
      → IsReading l ps out
      → out.0 ≡ ok vs
      → AreViews x l ps vs
  shown-AreViews l ps (ok ws, l') {vs} (same, are) h =
      let e : ws ≡ vs = cc h in subst (AreViews x l ps) e are
  shown-AreViews l ps (err e, l') r h = absurd (cc h)

  pub read-AreViews :
      (l : Ledger) {vs : List (PositionView x)} → (read x l).0 ≡ ok vs → AreViews x l l.positions vs
  read-AreViews l = shown-AreViews l l.positions (read x l) (read-IsReading l)

  after_reading :
      {A : Type 0} (Q : Outcome A → Type 0) (l : Ledger) (out : Outcome (List (PositionView x)))
      (f : List (PositionView x) → Ledgered A)
      → IsReading l l.positions out
      → ((e : LedgerError) → Q (err e, l))
      → ((vs : List (PositionView x)) → AreViews x l l.positions vs → Q (f vs l))
      → Q (continue out f)
  after_reading Q l (ok vs, l') f (same, are) fails h = rw same (h vs are)
  after_reading Q l (err e, l') f same fails h = rw same (fails e)

  pub reading :
      {A : Type 0} (Q : Outcome A → Type 0) (l : Ledger) (f : List (PositionView x) → Ledgered A)
      → ((e : LedgerError) → Q (err e, l))
      → ((vs : List (PositionView x)) → AreViews x l l.positions vs → Q (f vs l))
      → Q ((read x >>= f) l)
  reading Q l f = after_reading Q l (read x l) f (read-IsReading l)

  -- What is known of the view under an id.
  abbrev pub Found : Ledger → String → List Position → PositionView x → Type 0
  Found l id ps v =
      (known_position x ps id ≡ true)
      × (v.position.position_id ≡ id)
      × (project x (history_of x id l) ≡ some v.projection)
      × (v.current_state ≡ current_state x v.projection (states_of x id l))

  pub find-view :
      (l : Ledger) (id : String) (ps : List Position) (vs : List (PositionView x))
      {v : PositionView x}
      → AreViews x l ps vs
      → find (view_has_id x id) vs ≡ some v
      → Found l id ps v
  find-view l id [] [] a h = absurd (cc h)
  find-view l id [] (v ∷ vs) a h = absurd a
  find-view l id (p ∷ ps) [] a h = absurd a
  find-view l id (p ∷ ps) (w ∷ vs) {v} (same, projected, states, current, rest) h =
      elim (Bool-cases (str_eq w.position.position_id id)) [
        | inl hit ↦
            let own : w.position.position_id ≡ id = (eq_iff w.position.position_id id).0 hit in
            let key : p.position_id ≡ id = ap (λ (q : Position). q.position_id) (sym same) ∙ own in
            let found : w ≡ v = cc (rw (hit, find) at h) in
            subst (Found l id (p ∷ ps)) found (
              rw ((eq_iff p.position_id id).1 key),
              own,
              subst (λ i. project x (history_of x i l) ≡ some w.projection) key projected,
              subst (λ i. w.current_state ≡ current_state x w.projection (states_of x i l)) key
                  current,
            )
        | inr miss ↦
            let found = find-view l id ps vs rest (rw (miss, find) at h) in
            (rw (found.0) (or_true (has_position_id id p)), found.1, found.2, found.3)
      ]

  -- No view has the id of a position that is not known.
  pub any-view :
      (l : Ledger) (id : String) (ps : List Position) (vs : List (PositionView x))
      → AreViews x l ps vs
      → any (view_has_id x id) vs ≡ known_position x ps id
  any-view l id [] [] a = refl
  any-view l id [] (v ∷ vs) a = absurd a
  any-view l id (p ∷ ps) [] a = absurd a
  any-view l id (p ∷ ps) (v ∷ vs) (same, a, b, c, rest) = ground (arith, any-view l id ps vs rest)

-- An earlier request with the same digest ends the call; one with another digest is an error.
pub unless_requested :
    (Q : Outcome String → Type 0) (l : Ledger) (row : Option (String × String)) (digest : String)
    (next : Ledgered String)
    → ((e : LedgerError) → Q (err e, l))
    → ((id : String) → row ≡ some (digest, id) → Q (ok id, l))
    → (row ≡ none → Q (next l))
    → Q ((saved_request digest row >>= λ previous. unless_saved previous next) l)
unless_requested Q l none digest next fails again new = new refl
unless_requested Q l (some (hash, id)) digest next fails again new =
    elim (Bool-cases (str_eq hash digest)) [
      | inl same ↦
          let e : hash ≡ digest = (eq_iff hash digest).0 same in
          rw same (again id (ap (λ d. some (d, id)) e))
      | inr other ↦ rw other (fails value_error)
    ]
