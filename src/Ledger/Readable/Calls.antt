-- ===== src/Ledger/Readable/Calls.antt =====
-- Whatever is called, the ledger can be read: no accepted call makes the replay of a position fail.
use mathlib.Core.Path.{subst}
use mathlib.Core.List.{append-nil}
use mu_5x_fibonacci_trading.Base.{
  All-map, ℕ, suc, ◌+◌, ◌≡◌, refl, sym, ap, ◌∙◌, String, true, false, some, List, [], ◌∷◌, ◌++◌,
  map, eq_iff, leb, is_some, select, ok, All, All-append, Bool-cases, inl, inr, arith,
}
use mu_5x_fibonacci_trading.Runtime.{Runtime}
use mu_5x_fibonacci_trading.Notification.Observation.{Observations}
use mu_5x_fibonacci_trading.Ledger.Externals.{Externals, DigitsBelowTen}
use mu_5x_fibonacci_trading.Ledger.Replay.{
  project_fills, revision_of, sort_by, latest_from, FillRevision, StateRevision, Projection,
  project, max_sequence, is_open, no_holding, projection,
}
use mu_5x_fibonacci_trading.Ledger.Replay.Order.{
  by_time, project_fills_stable, Rising, Rising-select, Rising-append,
}
use mu_5x_fibonacci_trading.Ledger.Replay.Facts.{project-replay}
use mu_5x_fibonacci_trading.Ledger.Store.{
  Position, Ledger, empty_ledger, of_position, known_position, history_of, state_valid,
  PositionView, read,
}
use mu_5x_fibonacci_trading.Ledger.Form.{SignalFields}
use mu_5x_fibonacci_trading.Ledger.Save.{next_sequence}
use mu_5x_fibonacci_trading.Ledger.Requests.{
  LedgerRequest, save_request, state_request, step, run, run_induction,
}
use mu_5x_fibonacci_trading.Ledger.Moves.{
  Move, stay, opened, created, added, confirmed, IsNewFill, IsNewState, with_fill, with_state,
}
use mu_5x_fibonacci_trading.Ledger.Moves.Saving.{save-Move}
use mu_5x_fibonacci_trading.Ledger.Moves.Confirming.{save_state-Move}
use mu_5x_fibonacci_trading.Ledger.Readable.{
  select-append, max_sequence-append, Replays, IsKnown, IsReadable, IsReadable-read,
  trial_row-alike,
}

-- An open position has a fill.
open_sequence :
    (x : Externals) (m : ℕ) (history : List FillRevision) {p : Projection x}
    → project x history ≡ some p
    → is_open p.status ≡ true
    → Rising 1 m history
    → leb 1 p.fill_sequence ≡ true
unfolding project max_sequence
open_sequence x m [] {p} h is_opened a =
    let e : projection x [] (no_holding x) ≡ p = cc h in
    absurd (cc (ap (λ (q : Projection x). is_open q.status) e, is_opened))
open_sequence x m (r ∷ rs) {p} h is_opened a =
    let (held, ran, same) = project-replay x (r ∷ rs) h in
    let e : max_sequence (r ∷ rs) ≡ p.fill_sequence =
      ap (λ (q : Projection x). q.fill_sequence) same in
    ground (arith, e)

module _ (x : Externals) where
  Replays-with_fill :
      (l : Ledger) (ps : List Position) (r : FillRevision)
      → IsReadable x l
      → IsNewFill x l (history_of x r.position_id l) r
      → (q : Position) → Replays x l q
      → Replays x (with_fill r ps l) q
  Replays-with_fill l ps r h new q ok_q = elim (Bool-cases (of_position q.position_id r)) [
    | inl own ↦
        let same : r.position_id ≡ q.position_id = (eq_iff r.position_id q.position_id).0 own in
        rw (select-append (of_position q.position_id) l.fills r, own)
          (subst (λ i. is_some (project x (history_of x i l ++ r ∷ [])) ≡ true) same
            (trial_row-alike x l (history_of x r.position_id l) r
              (Rising-select (of_position r.position_id) 1 (next_sequence l) l.fills h.rising) new))
    | inr other ↦ rw (select-append (of_position q.position_id) l.fills r, other, append-nil) ok_q
  ]

  Rising-with_fill :
      (l : Ledger) (r : FillRevision)
      → IsReadable x l
      → r.sequence ≡ next_sequence l
      → Rising 1 (max_sequence (l.fills ++ r ∷ []) + 1) (l.fills ++ r ∷ [])
  Rising-with_fill l r h number =
      let e : r.sequence + 1 ≡ max_sequence (l.fills ++ r ∷ []) + 1 =
        omega (arith, max_sequence-append l.fills r, number) in
      subst (λ n. Rising 1 n (l.fills ++ r ∷ [])) e
        (Rising-append 1 (next_sequence l) l.fills r h.rising (omega (arith, number)))

  added-IsReadable :
      (l : Ledger) (r : FillRevision)
      → IsReadable x l
      → IsKnown x l.positions r.position_id
      → IsNewFill x l (history_of x r.position_id l) r
      → IsReadable x (with_fill r l.positions l)
  added-IsReadable l r h known new = record {
    rising = Rising-with_fill l r h new.number;
    fills =
        All-append (λ (r : FillRevision). IsKnown x l.positions r.position_id) l.fills (r ∷ [])
          h.fills (known, tt);
    replays = All-map (Replays-with_fill l l.positions r h new) l.positions h.replays;
    known = h.known;
    valid = h.valid;
  }

  -- A position that is not known has no fills.
  unknown_history :
      (ps : List Position) (id : String) (rs : List FillRevision)
      → known_position x ps id ≡ false
      → All (λ (r : FillRevision). IsKnown x ps r.position_id) rs
      → select (of_position id) rs ≡ []
  unknown_history ps id [] new h = refl
  unknown_history ps id (r ∷ rs) new h = elim (Bool-cases (of_position id r)) [
    | inl own ↦
        let same : r.position_id ≡ id = (eq_iff r.position_id id).0 own in
        absurd (cc (new, ap (known_position x ps) same, h.0))
    | inr other ↦ rw (other, select) (unknown_history ps id rs new h.1)
  ]

  IsKnown-cons :
      (p : Position) (ps : List Position) (id : String) → IsKnown x ps id → IsKnown x (p ∷ ps) id
  IsKnown-cons p ps id h = ground arith

  first_fill :
      (l : Ledger) (p : Position) (r : FillRevision)
      → r.position_id ≡ p.position_id
      → history_of x r.position_id l ≡ []
      → is_some (project x (r ∷ [])) ≡ true
      → Replays x (with_fill r (p ∷ l.positions) l) p
  first_fill l p r own none_yet h =
      let empty : select (of_position p.position_id) l.fills ≡ [] =
        ap (λ i. history_of x i l) (sym own) ∙ none_yet in
      rw
        (
          select-append (of_position p.position_id) l.fills r,
          empty,
          (eq_iff r.position_id p.position_id).1 own,
        )
        h

  created-IsReadable :
      (l : Ledger) (p : Position) (r : FillRevision)
      → IsReadable x l
      → known_position x l.positions p.position_id ≡ false
      → r.position_id ≡ p.position_id
      → IsNewFill x l [] r
      → IsReadable x (with_fill r (p ∷ l.positions) l)
  created-IsReadable l p r h free own new =
      let none_yet : history_of x r.position_id l ≡ [] =
        ap (λ i. history_of x i l) own
        ∙ unknown_history l.positions p.position_id l.fills free h.fills in
      let new' : IsNewFill x l (history_of x r.position_id l) r =
        subst (λ hs. IsNewFill x l hs r) (sym none_yet) new in
      record {
        rising = Rising-with_fill l r h new.number;
        fills =
            All-append (λ (r : FillRevision). IsKnown x (p ∷ l.positions) r.position_id) l.fills
              (r ∷ []) (All-map (λ q. IsKnown-cons p l.positions q.position_id) l.fills h.fills)
              (rw ((eq_iff p.position_id r.position_id).1 (sym own)) refl, tt);
        replays = (
          first_fill l p r own none_yet (trial_row-alike x l [] r (omega arith) new),
          All-map (Replays-with_fill l (p ∷ l.positions) r h new') l.positions h.replays,
        );
        known = All-map (λ s. IsKnown-cons p l.positions s.position_id) l.states h.known;
        valid = h.valid;
      }

  confirmed-IsReadable :
      (l : Ledger) (s : StateRevision)
      → IsReadable x l
      → IsNewState x l s
      → IsReadable x (with_state s l)
  confirmed-IsReadable l s h new =
      let positive : leb 1 s.fill_sequence ≡ true =
        ap (leb 1) new.sequence
        ∙ open_sequence x (next_sequence l) (history_of x s.position_id l) new.projected new.opened
            (Rising-select (of_position s.position_id) 1 (next_sequence l) l.fills h.rising) in
      record {
        rising = h.rising;
        fills = h.fills;
        replays = h.replays;
        known =
            All-append (λ (t : StateRevision). IsKnown x l.positions t.position_id) l.states
              (s ∷ []) h.known (new.known, tt);
        valid =
            All-append (λ (t : StateRevision). state_valid x t ≡ true) l.states (s ∷ []) h.valid
              (new.valid positive, tt);
      }

  Move-IsReadable : {l l' : Ledger} → Move x l l' → IsReadable x l → IsReadable x l'
  Move-IsReadable stay h = h
  Move-IsReadable opened h = record {
    rising = h.rising;
    fills = h.fills;
    replays = h.replays;
    known = h.known;
    valid = h.valid;
  }
  Move-IsReadable (created p r free own new) h = created-IsReadable _ p r h free own new
  Move-IsReadable (added r known new) h = added-IsReadable _ r h known new
  Move-IsReadable (confirmed s new) h = confirmed-IsReadable _ s h new

  pub step-Move :
      (rt : Runtime) (obs : Observations) (fields : SignalFields obs)
      → DigitsBelowTen x
      → (r : LedgerRequest) (l : Ledger) → Move x l (step rt obs fields x r l)
  unfolding step
  step-Move rt obs fields below_ten (save_request outbox p before_ms) l =
      save-Move rt obs fields x l outbox p (suc before_ms)
  step-Move rt obs fields below_ten (state_request p before_ms) l =
      save_state-Move x below_ten l p before_ms

  -- What every call keeps.
  reachable-IsReadable :
      (rt : Runtime) (obs : Observations) (fields : SignalFields obs)
      → DigitsBelowTen x
      → (rs : List LedgerRequest) → IsReadable x (run rt obs fields x rs empty_ledger)
  unfolding max_sequence
  reachable-IsReadable rt obs fields below_ten rs =
      run_induction rt obs fields x (IsReadable x)
        (λ r l. Move-IsReadable (step-Move rt obs fields below_ten r l)) rs empty_ledger
        (record { rising = omega arith; fills = tt; replays = tt; known = tt; valid = tt })

  -- Where every digit of Unicode has a value below ten, after any calls of save and save_state on an
  -- empty ledger, at times after 1970, returned or raised, reading the ledger returns, and changes
  -- nothing: every position can be replayed.
  pub run-IsReadable :
      (rt : Runtime) (obs : Observations) (fields : SignalFields obs)
      → DigitsBelowTen x
      → (rs : List LedgerRequest)
      → (views : List (PositionView x)) × (read x (run rt obs fields x rs empty_ledger)
          ≡ (ok views, run rt obs fields x rs empty_ledger))
  run-IsReadable rt obs fields below_ten rs =
      IsReadable-read x (run rt obs fields x rs empty_ledger)
        (reachable-IsReadable rt obs fields below_ten rs)

  -- Where every digit of Unicode has a value below ten, after any calls of save and save_state on an
  -- empty ledger, at times after 1970, the fills of a position, which the code sorts by time and number,
  -- are its latest revisions in a stable sort by time: those of one time keep the order in which they
  -- were first submitted.
  pub run-project_fills :
      (rt : Runtime) (obs : Observations) (fields : SignalFields obs)
      → DigitsBelowTen x
      → (rs : List LedgerRequest) (id : String)
      → project_fills (history_of x id (run rt obs fields x rs empty_ledger))
        ≡ map revision_of (
            sort_by by_time
              (latest_from [] (history_of x id (run rt obs fields x rs empty_ledger))))
  run-project_fills rt obs fields below_ten rs id =
      let l = run rt obs fields x rs empty_ledger in
      project_fills_stable 1 (next_sequence l) (history_of x id l) (
        Rising-select (of_position id) 1 (next_sequence l) l.fills
          (reachable-IsReadable rt obs fields below_ten rs).rising)
