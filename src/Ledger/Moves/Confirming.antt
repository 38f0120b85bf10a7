-- ===== src/Ledger/Moves/Confirming.antt =====
-- `save_state` is a move of the ledger.
use mu_5x_fibonacci_trading.Base.{
  ℕ, suc, ◌+◌, ◌≡◌, refl, ap, String, true, false, not, some, List, any, is_some, find, ok, err,
  pure, ◌>>◌, settle, same_option, Bool-cases, inl, inr, arith,
}
use mu_5x_fibonacci_trading.Ledger.Externals.{Externals, DigitsBelowTen, Payload}
use mu_5x_fibonacci_trading.Ledger.Decimal.{stage}
use mu_5x_fibonacci_trading.Ledger.Fill.{
  get, get_or_empty, request_identity, note_of, optional_amount, stage_in_range, stop_readable,
}
use mu_5x_fibonacci_trading.Ledger.Fill.Facts.{
  note_of-note_of, stop_readable-optional_amount, stage_in_range-stage,
}
use mu_5x_fibonacci_trading.Ledger.Replay.{StateRevision, is_open, CurrentState}
use mu_5x_fibonacci_trading.Ledger.Store.{
  value_error, Ledger, PositionView, view_has_id, state_has_request, state_request,
}
use mu_5x_fibonacci_trading.Ledger.Confirm.{
  state_clashes, insert_state, Confirmation, expected, state_row, confirm_view, confirm_new,
  confirm_locked, save_state,
}
use mu_5x_fibonacci_trading.Ledger.Rules.{
  Outcome, guarded, chosen, AreViews, reading, find-view, unless_requested,
}
use mu_5x_fibonacci_trading.Ledger.Moves.{Move, stay, confirmed, with_state}

-- A form whose texts can be read back.
abbrev IsReadable : (x : Externals) → Confirmation → Type 0
IsReadable x c =
    (stage_in_range c.stage ≡ true)
    × (stop_readable x c.stop_price ≡ true)
    × (is_some (note_of c.note) ≡ true)

module _ (x : Externals) where
  -- Where the call returns, it has made a move.
  abbrev MovedIfOk : Ledger → Outcome String → Type 0
  MovedIfOk l (ok id, l') = Move x l l'
  MovedIfOk l (err e, l') = Unit

  transaction-Move :
      (l : Ledger) (out : Outcome String) → MovedIfOk l out → Move x l (settle l out).1
  transaction-Move l (ok id, l') h = h
  transaction-Move l (err e, l') h = stay

  insert_state-MovedIfOk :
      (l : Ledger) (s : StateRevision) (id : String)
      → (any (state_clashes s) l.states ≡ false → Move x l (with_state s l))
      → MovedIfOk l ((insert_state s >> pure id) l)
  insert_state-MovedIfOk l s id move = elim (Bool-cases (any (state_clashes s) l.states)) [
    | inl taken ↦ rw taken tt
    | inr fresh ↦ rw fresh (move fresh)
  ]

  confirm_view-MovedIfOk :
      (l : Ledger) (p : Payload) (ids : String × String × String) (before_ms : ℕ) (c : Confirmation)
      (views : List (PositionView x))
      → IsReadable x c
      → AreViews x l l.positions views
      → MovedIfOk l (confirm_view x p ids (suc before_ms) c views l)
  confirm_view-MovedIfOk l p ids before_ms c views readable are =
      let Q = MovedIfOk l in
      chosen Q l (λ e. tt) (find (view_has_id x ids.1) views) value_error _
        λ view found.
          guarded Q l (λ e. tt) (not (is_open view.projection.status)) value_error _
            λ opened.
              guarded Q l (λ e. tt) (not (expected x p view)) value_error _
                λ seen.
                  let (known, at, projected, current) =
                    find-view x l ids.1 l.positions views are found in
                  insert_state-MovedIfOk l (state_row x ids (suc before_ms) c view) ids.1 λ fresh.
                    confirmed (state_row x ids (suc before_ms) c view) (record {
                      known = known;
                      valid = λ positive.
                          rw (positive, readable.0, readable.1, readable.2) (ground arith);
                      seen = view.projection;
                      projected = projected;
                      opened = (ground arith);
                      sequence = refl;
                      revision = ap (λ (s : CurrentState). s.revision + 1) current;
                      fresh = fresh;
                    })

  confirm_locked-MovedIfOk :
      (l : Ledger) (p : Payload) (ids : String × String × String) (before_ms : ℕ) (c : Confirmation)
      → IsReadable x c
      → MovedIfOk l (confirm_locked x p ids (suc before_ms) c l)
  confirm_locked-MovedIfOk l p ids before_ms c readable =
      let Q = MovedIfOk l in
      unless_requested Q l (state_request (find (state_has_request ids.0) l.states)) ids.2
        (confirm_new x p ids (suc before_ms) c) (λ e. tt) (λ id again. stay)
        (λ new.
          reading x Q l (confirm_view x p ids (suc before_ms) c) (λ e. tt)
            (λ views are. confirm_view-MovedIfOk l p ids before_ms c views readable are))

  pub save_state-Move :
      DigitsBelowTen x
      → (l : Ledger) (p : Payload) (before_ms : ℕ) → Move x l (save_state x p (suc before_ms) l).1
  unfolding save_state
  save_state-Move below_ten l p before_ms =
      let Q = λ (out : Outcome String). Move x l out.1 in
      chosen Q l (λ e. stay) (request_identity x p) value_error _
        λ ids h1.
          guarded Q l (λ e. stay) (not l.present) value_error _
            λ h2.
              chosen Q l (λ e. stay) (stage x.wide_digit (get_or_empty (get "stage" p))) value_error
                _
                λ known h3.
                  chosen Q l (λ e. stay) (optional_amount x (get_or_empty (get "stop_price" p)))
                    value_error _
                    λ stop h4.
                      chosen Q l (λ e. stay) (note_of (get_or_empty (get "note" p))) value_error _
                        λ note h5.
                          guarded Q l (λ e. stay)
                            (not (same_option (get "confirmed" p) (some "yes"))) value_error _
                            λ h6. transaction-Move l _ (
                              confirm_locked-MovedIfOk l p ids before_ms
                                (record { stage = known; stop_price = stop; note = note })
                                (
                                  stage_in_range-stage x below_ten (get_or_empty (get "stage" p))
                                      h3,
                                  stop_readable-optional_amount x below_ten
                                      (get_or_empty (get "stop_price" p)) h4,
                                  note_of-note_of (get_or_empty (get "note" p)) h5,
                                ))
