-- ===== src/Ledger/Stale.antt =====
-- A state that was confirmed by hand does not outlive the next fill of its position.
use mathlib.Core.Path.{subst}
use mu_5x_fibonacci_trading.Base.{
  All-map, ℕ, ◌+◌, ◌≤◌, ◌<◌, ◌≡◌, refl, sym, ap, ◌∙◌, String, Bool, true, false, none, some, List,
  [], ◌∷◌, ◌++◌, eq_iff, ◌==◌, find, select, find-append_none, Result, ok, err, All, All-append,
  Bool-cases, inl, inr, arith,
}
use mu_5x_fibonacci_trading.Runtime.{Runtime}
use mu_5x_fibonacci_trading.Notification.Observation.{Observations}
use mu_5x_fibonacci_trading.Notification.Outbox.{Outbox}
use mu_5x_fibonacci_trading.Ledger.Externals.{Externals, DigitsBelowTen, Payload}
use mu_5x_fibonacci_trading.Ledger.Fill.{request_identity}
use mu_5x_fibonacci_trading.Ledger.Replay.{
  FillRevision, StateRevision, CurrentState, Projection, project, max_sequence, is_open,
  current_state, state_of_latest, last_state, is_confirmed,
}
use mu_5x_fibonacci_trading.Ledger.Replay.Facts.{project-replay}
use mu_5x_fibonacci_trading.Ledger.Store.{
  LedgerError, Ledger, empty_ledger, of_position, state_of_position, history_of, states_of,
  has_request, PositionView, read, view_has_id,
}
use mu_5x_fibonacci_trading.Ledger.Form.{SignalFields}
use mu_5x_fibonacci_trading.Ledger.Save.{save, next_sequence}
use mu_5x_fibonacci_trading.Ledger.Requests.{LedgerRequest, run, run_induction}
use mu_5x_fibonacci_trading.Ledger.Moves.{Move, stay, opened, created, added, confirmed}
use mu_5x_fibonacci_trading.Ledger.Moves.Saving.{IsRecorded, Ended, save-Ended}
use mu_5x_fibonacci_trading.Ledger.Readable.{max_sequence-append, select-append}
use mu_5x_fibonacci_trading.Ledger.Readable.Calls.{step-Move}
use mu_5x_fibonacci_trading.Ledger.Rules.{AreViews, find-view, read-AreViews}

-- No state has seen a fill that is still to come.
abbrev pub IsPast : Ledger → Type 0
IsPast l = All (λ (s : StateRevision). s.fill_sequence < next_sequence l) l.states

max_sequence-select :
    (test : FillRevision → Bool) (rs : List FillRevision)
    → max_sequence (select test rs) ≤ max_sequence rs
unfolding max_sequence
max_sequence-select test [] = omega arith
max_sequence-select test (r ∷ rs) = elim (Bool-cases (test r)) [
  | inl hit ↦ rw (hit, select) (omega (arith, max_sequence-select test rs))
  | inr miss ↦ rw (miss, select) (omega (arith, max_sequence-select test rs))
]

All-select {ℓ κ} :
    {A : Type ℓ} (P : A → Type κ) (test : A → Bool) (xs : List A)
    → All P xs
    → All P (select test xs)
All-select P test [] h = tt
All-select P test (x ∷ xs) h = elim (Bool-cases (test x)) [
  | inl hit ↦ rw (hit, select, All) (h.0, All-select P test xs h.1)
  | inr miss ↦ rw (miss, select) (All-select P test xs h.1)
]

module _ (x : Externals) where
  past_added :
      (l : Ledger) (r : FillRevision)
      → r.sequence ≡ next_sequence l
      → IsPast l
      → All (λ (s : StateRevision). s.fill_sequence < max_sequence (l.fills ++ r ∷ []) + 1) l.states
  past_added l r number =
      All-map (λ s h. omega (arith, max_sequence-append l.fills r, number)) l.states

  fill_sequence-project :
      (history : List FillRevision) {p : Projection x}
      → project x history ≡ some p
      → p.fill_sequence ≡ max_sequence history
  fill_sequence-project history e =
      let (h, ran, same) = project-replay x history e in
      sym (ap (λ (q : Projection x). q.fill_sequence) same)

  Move-IsPast : {l l' : Ledger} → Move x l l' → IsPast l → IsPast l'
  Move-IsPast stay h = h
  Move-IsPast opened h = h
  Move-IsPast {l} (created p r free own new) h = past_added l r new.number h
  Move-IsPast {l} (added r known new) h = past_added l r new.number h
  Move-IsPast {l} (confirmed s new) h =
      All-append (λ (t : StateRevision). t.fill_sequence < next_sequence l) l.states (s ∷ []) h
        (
          omega (
            arith,
            new.sequence,
            fill_sequence-project (history_of x s.position_id l) new.projected,
            max_sequence-select (of_position s.position_id) l.fills,
          ),
          tt,
        )

  appended :
      (test : FillRevision → Bool) (rs : List FillRevision) (q : FillRevision) {r : FillRevision}
      → find test rs ≡ none
      → find test (rs ++ q ∷ []) ≡ some r
      → q.position_id ≡ r.position_id
  appended test rs q {r} absent found = elim (Bool-cases (test q)) [
    | inl hit ↦
        let e : some q ≡ some r = sym (rw hit at (find-append_none test rs q absent)) ∙ found in
        let same : q ≡ r = cc e in ap (λ (s : FillRevision). s.position_id) same
    | inr miss ↦ absurd (cc (found, (rw miss at (find-append_none test rs q absent))))
  ]

  -- A call that records a request for the first time has added its fill, with the next number.
  new_fill :
      (ids : String × String × String) {l l' : Ledger}
      → Move x l l'
      → find (has_request ids.0) l.fills ≡ none
      → IsRecorded ids l'
      → (r : FillRevision) × (l'.fills ≡ l.fills ++ r ∷ [])
        × (r.position_id ≡ ids.1)
        × (r.sequence ≡ next_sequence l)
        × (l'.states ≡ l.states)
  new_fill ids stay absent (r, found, hash, at, present) = absurd (cc (absent, found))
  new_fill ids opened absent (r, found, hash, at, present) = absurd (cc (absent, found))
  new_fill ids (confirmed s new) absent (r, found, hash, at, present) = absurd (cc (absent, found))
  new_fill ids {l} (created p q free own new) absent (r, found, hash, at, present) =
      (q, refl, appended (has_request ids.0) l.fills q absent found ∙ at, new.number, refl)
  new_fill ids {l} (added q known new) absent (r, found, hash, at, present) =
      (q, refl, appended (has_request ids.0) l.fills q absent found ∙ at, new.number, refl)

  -- A state that has seen less than all fills is not shown as confirmed.
  stale_state :
      (is_open_now : Bool) (sequence : ℕ) (ss : List StateRevision)
      → All (λ (s : StateRevision). s.fill_sequence < sequence) ss
      → is_confirmed (state_of_latest is_open_now sequence (last_state ss)).status ≡ false
  stale_state true sequence [] h = refl
  stale_state false sequence [] h = refl
  stale_state true sequence (s ∷ []) h =
      let behind : (s.fill_sequence == sequence) ≡ false = ground (arith, h.0) in rw behind refl
  stale_state false sequence (s ∷ []) h = refl
  stale_state b sequence (s ∷ t ∷ ss) h = stale_state b sequence (t ∷ ss) h.1

module _ (rt : Runtime) (obs : Observations) (fields : SignalFields obs) (x : Externals) where
  run-IsPast :
      DigitsBelowTen x → (rs : List LedgerRequest) → IsPast (run rt obs fields x rs empty_ledger)
  run-IsPast below_ten rs =
      run_induction rt obs fields x IsPast
        (λ r l. Move-IsPast x (step-Move x rt obs fields below_ten r l)) rs empty_ledger tt

  stale_view :
      (l l' : Ledger) (id : String) (r : FillRevision) (views : List (PositionView x))
      {v : PositionView x}
      → IsPast l
      → l'.fills ≡ l.fills ++ r ∷ []
      → r.position_id ≡ id
      → r.sequence ≡ next_sequence l
      → l'.states ≡ l.states
      → AreViews x l' l'.positions views
      → find (view_has_id x id) views ≡ some v
      → is_confirmed v.current_state.status ≡ false
  unfolding current_state
  stale_view l l' id r views {v} past more own number states are found =
      let (known, at, projected, current) = find-view x l' id l'.positions views are found in
      let history : history_of x id l' ≡ select (of_position id) l.fills ++ r ∷ [] =
        ap (select (of_position id)) more
        ∙ (rw (select-append (of_position id) l.fills r, (eq_iff r.position_id id).1 own) refl) in
      let last : r.sequence ≤ v.projection.fill_sequence = omega (
        arith,
        fill_sequence-project x (history_of x id l') projected,
        ap max_sequence history,
        max_sequence-append (select (of_position id) l.fills) r,
      ) in
      let behind : All (λ (s : StateRevision). s.fill_sequence < v.projection.fill_sequence)
          (states_of x id l') =
        All-select (λ (s : StateRevision). s.fill_sequence < v.projection.fill_sequence)
          (state_of_position id) l'.states
          (subst (All (λ (s : StateRevision). s.fill_sequence < v.projection.fill_sequence))
            (sym states) (All-map (λ s h. omega (arith, number, last)) l.states past)) in
      ap (λ (c : CurrentState). is_confirmed c.status) current
      ∙ stale_state x (is_open v.projection.status) v.projection.fill_sequence (states_of x id l')
          behind

  after_saving :
      (l : Ledger) (ids : String × String × String) (id : String) (views : List (PositionView x))
      {v : PositionView x} (out : Result LedgerError String × Ledger)
      → IsPast l
      → Ended x l (ids.0, ids.2) out
      → out.0 ≡ ok id
      → find (has_request ids.0) l.fills ≡ none
      → AreViews x out.1 out.1.positions views
      → find (view_has_id x id) views ≡ some v
      → is_confirmed v.current_state.status ≡ false
  after_saving l ids id views (err e, l') past ended done absent are found = absurd (cc done)
  after_saving l ids id views (ok i, l') past (move, recorded) done absent are found =
      let same : i ≡ id = cc done in
      let (r, more, own, number, states) = new_fill x (ids.0, i, ids.2) move absent recorded in
      stale_view l l' id r views past more (own ∙ same) number states are found

  -- Where every digit of Unicode has a value below ten: if save returns a position for a form whose
  -- request is not in the table, after any calls on an empty ledger, then a reading of the ledger that
  -- it leaves does not show a state of this position as confirmed.
  pub fill_unconfirms :
      DigitsBelowTen x
      → (rs : List LedgerRequest) (outbox : Outbox) (p : Payload) (now : ℕ)
        (ids : String × String × String) (id : String) (views : List (PositionView x))
        {v : PositionView x}
      → request_identity x p ≡ some ids
      → find (has_request ids.0) (run rt obs fields x rs empty_ledger).fills ≡ none
      → (save rt obs fields x outbox p now (run rt obs fields x rs empty_ledger)).0 ≡ ok id
      → (read x (save rt obs fields x outbox p now (run rt obs fields x rs empty_ledger)).1).0
        ≡ ok views
      → find (view_has_id x id) views ≡ some v
      → is_confirmed v.current_state.status ≡ false
  fill_unconfirms below_ten rs outbox p now ids id views known absent done shown found =
      let l = run rt obs fields x rs empty_ledger in
      let out = save rt obs fields x outbox p now l in
      after_saving l ids id views out (run-IsPast below_ten rs)
        (save-Ended rt obs fields x l outbox p now ids known) done absent
        (read-AreViews x out.1 shown) found
