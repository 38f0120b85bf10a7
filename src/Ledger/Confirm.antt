-- ===== src/Ledger/Confirm.antt =====
-- mu_strategy/manual_positions.py: `save_state`. The rows of a position stand in the order of their
-- revisions, in which they are inserted.
use mu_5x_fibonacci_trading.Base.{
  ℕ, ◌+◌, String, Bool, not, ◌&&◌, ◌||◌, Option, some, List, [], ◌∷◌, ◌++◌, str_eq, ◌==◌, find, any,
  same_option, pure, raise_if, gets, modify, or_raise, ◌>>=◌, ◌>>◌, transaction,
}
use mu_5x_fibonacci_trading.Ledger.Externals.{Externals, Payload}
use mu_5x_fibonacci_trading.Ledger.Decimal.{nat_text, stage}
use mu_5x_fibonacci_trading.Ledger.Fill.{
  get, get_or_empty, request_identity, note_of, amount, optional_amount,
}
use mu_5x_fibonacci_trading.Ledger.Replay.{StateRevision, is_open}
use mu_5x_fibonacci_trading.Ledger.Store.{
  value_error, integrity_error, Ledger, Ledgered, state_has_request, saved_request, state_request,
  PositionView, read, view_has_id,
}
use mu_5x_fibonacci_trading.Ledger.Save.{unless_saved}

-- PRIMARY KEY(position_id, revision) and UNIQUE(request_id).
abbrev pub state_clashes : StateRevision → StateRevision → Bool
state_clashes new s =
    str_eq s.request_id new.request_id
    || (str_eq s.position_id new.position_id && s.revision == new.revision)

abbrev pub insert_state : StateRevision → Ledgered (Unit {0})
insert_state new = do
  taken ← gets (λ (l : Ledger). any (state_clashes new) l.states)
  raise_if taken integrity_error
  modify (λ (l : Ledger). record l { states = l.states ++ new ∷ [] })

-- What the form says of the state.
pub record Confirmation : Type 0 where
  pub stage : Option ℕ
  pub stop_price : Option String
  pub note : String

module _ (x : Externals) where
  -- `expected_fill_sequence` and `expected_state_revision` are those of the position.
  abbrev pub expected : Payload → PositionView x → Bool
  expected p view =
      same_option (get "expected_fill_sequence" p) (some (nat_text view.projection.fill_sequence))
      && same_option (get "expected_state_revision" p) (some (nat_text view.current_state.revision))

  abbrev pub state_row :
      String × String × String → ℕ → Confirmation → PositionView x → StateRevision
  state_row (request_id, position_id, digest) now c view = record {
    position_id = position_id;
    revision = view.current_state.revision + 1;
    request_id = request_id;
    request_hash = digest;
    stage = c.stage;
    stop_price = c.stop_price;
    note = c.note;
    fill_sequence = view.projection.fill_sequence;
    confirmed_at_ms = now;
  }

  -- What follows the reading of the positions.
  abbrev pub confirm_view :
      Payload
      → String × String × String
      → ℕ
      → Confirmation
      → List (PositionView x)
      → Ledgered String
  confirm_view p ids now c views = do
    view ← or_raise (find (view_has_id x ids.1) views) value_error
    raise_if (not (is_open view.projection.status)) value_error
    raise_if (not (expected p view)) value_error
    insert_state (state_row ids now c view)
    pure ids.1

  abbrev pub confirm_new : Payload → String × String × String → ℕ → Confirmation → Ledgered String
  confirm_new p ids now c = do views ← read x; confirm_view p ids now c views

  -- The body of the transaction.
  abbrev pub confirm_locked :
      Payload → String × String × String → ℕ → Confirmation → Ledgered String
  confirm_locked p ids now c = do
    row ← gets (λ (l : Ledger). find (state_has_request ids.0) l.states)
    previous ← saved_request ids.2 (state_request row)
    unless_saved previous (confirm_new p ids now c)

  -- `save_state`
  unfoldable pub save_state : Payload → ℕ → Ledgered String
  unfolding get read request_identity amount note_of nat_text transaction stage
  save_state p now = do
    ids ← or_raise (request_identity x p) value_error
    present ← gets (λ (l : Ledger). l.present)
    raise_if (not present) value_error
    known_stage ← or_raise (stage x.wide_digit (get_or_empty (get "stage" p))) value_error
    stop ← or_raise (optional_amount x (get_or_empty (get "stop_price" p))) value_error
    note ← or_raise (note_of (get_or_empty (get "note" p))) value_error
    raise_if (not (same_option (get "confirmed" p) (some "yes"))) value_error
    transaction
        (confirm_locked p ids now (record { stage = known_stage; stop_price = stop; note = note }))
