-- ===== src/Ledger/Save.antt =====
-- mu_strategy/manual_positions.py: `save`.
use mu_5x_fibonacci_trading.Base.{
  ℕ, ◌+◌, String, Bool, true, not, ◌&&◌, ◌||◌, Option, none, some, List, [], ◌∷◌, ◌++◌, str_eq,
  ◌==◌, if◌then◌else◌, find, any, same_option, pure, raise_if, gets, modify, or_raise, ◌>>=◌, ◌>>◌,
  transaction,
}
use mu_5x_fibonacci_trading.Runtime.{Runtime}
use mu_5x_fibonacci_trading.Notification.Observation.{Observations}
use mu_5x_fibonacci_trading.Notification.Outbox.{Outbox}
use mu_5x_fibonacci_trading.Ledger.Externals.{Externals, Payload}
use mu_5x_fibonacci_trading.Ledger.Decimal.{nat_text}
use mu_5x_fibonacci_trading.Ledger.Fill.{Fill, get, request_identity, fill_of}
use mu_5x_fibonacci_trading.Ledger.Replay.{FillRevision, project, max_sequence}
use mu_5x_fibonacci_trading.Ledger.Store.{
  value_error, integrity_error, Position, Ledger, Ledgered, has_request, saved_request,
  fill_request, PositionView, read, view_has_id,
}
use mu_5x_fibonacci_trading.Ledger.Form.{
  SignalFields, Command, parse_command, is_create, is_revise, new_position, fresh_position,
  target_fill,
}

-- An early `return previous`, or what follows.
abbrev pub unless_saved : Option String → Ledgered String → Ledgered String
unless_saved (some position_id) next = pure position_id
unless_saved none next = next

-- The row number that AUTOINCREMENT gives: rows are never deleted.
abbrev pub next_sequence : Ledger → ℕ
next_sequence l = max_sequence l.fills + 1

-- UNIQUE(request_id) and UNIQUE(fill_id, revision).
abbrev pub clashes : FillRevision → FillRevision → Bool
clashes new r =
    str_eq r.request_id new.request_id
    || (str_eq r.fill_id new.fill_id && r.revision == new.revision)

abbrev pub insert_fill : FillRevision → Ledgered (Unit {0})
insert_fill new = do
  taken ← gets (λ (l : Ledger). any (clashes new) l.fills)
  raise_if taken integrity_error
  modify (λ (l : Ledger). record l { fills = l.fills ++ new ∷ [] })

module _ (rt : Runtime) (obs : Observations) (fields : SignalFields obs) (x : Externals) where
  -- The revision that a form submits, with its number in the table or in the trial replay.
  abbrev pub revision_row : String × String × String → ℕ → Fill → String × ℕ → ℕ → FillRevision
  revision_row (request_id, position_id, digest) now fill (fill_id, revision) sequence = record {
    sequence = sequence;
    request_id = request_id;
    request_hash = digest;
    position_id = position_id;
    fill_id = fill_id;
    revision = revision;
    recorded_at_ms = now;
    fill = fill;
  }

  -- The trial replay, then the INSERT.
  abbrev pub write_fill :
      String × String × String → ℕ → Fill → String × ℕ → List FillRevision → Ledgered String
  write_fill ids now fill revised history = do
    let candidate = revision_row ids now fill revised (max_sequence history + 1)
    _ ← or_raise (project x (history ++ candidate ∷ [])) value_error
    sequence ← gets next_sequence
    insert_fill (revision_row ids now fill revised sequence)
    pure ids.1

  -- What follows the reading of the positions.
  abbrev pub save_into :
      Command
      → Option Position
      → Payload
      → String × String × String
      → ℕ
      → Fill
      → List (PositionView x)
      → Ledgered String
  save_into command (some position) p ids now fill views = do
    raise_if (any (view_has_id x ids.1) views) value_error
    modify (λ (l : Ledger). record l { positions = position ∷ l.positions })
    write_fill ids now fill (ids.0, 1) []
  save_into command none p ids now fill views = do
    view ← or_raise (find (view_has_id x ids.1) views) value_error
    raise_if (not (same_option (get "unit" p) (some view.position.unit))) value_error
    revised ← or_raise (target_fill x command p ids.0 view) value_error
    write_fill ids now fill revised view.projection.history

  abbrev pub save_new :
      Command → Option Position → Payload → String × String × String → ℕ → Fill → Ledgered String
  save_new command fresh p ids now fill = do
    views ← read x
    save_into command fresh p ids now fill views

  -- The body of the transaction.
  abbrev pub save_locked :
      Command → Option Position → Payload → String × String × String → ℕ → Fill → Ledgered String
  save_locked command fresh p ids now fill = do
    modify (λ (l : Ledger). record l { present = true })
    row ← gets (λ (l : Ledger). find (has_request ids.0) l.fills)
    previous ← saved_request ids.2 (fill_request row)
    unless_saved previous (save_new command fresh p ids now fill)

  abbrev pub save_checked : Outbox → Payload → ℕ → String × String × String → Ledgered String
  save_checked outbox p now ids = do
    command ← or_raise (parse_command (get "command" p)) value_error
    fill ← or_raise (fill_of x p now) value_error
    raise_if (not (same_option (get "confirmed" p) (some "yes"))) value_error
    raise_if (not (is_revise command) && fill.voided) value_error
    raise_if (is_revise command && str_eq fill.note "") value_error
    present ← gets (λ (l : Ledger). l.present)
    raise_if (not (is_create command) && not present) value_error
    fresh ← or_raise (fresh_position rt obs fields x command p outbox ids.1 now fill) value_error
    transaction (save_locked command fresh p ids now fill)

  -- What follows the identity of the form.
  abbrev pub identified : Outbox → Payload → ℕ → String × String × String → Ledgered String
  identified outbox p now ids = do
    row ← gets (λ (l : Ledger). if l.present then find (has_request ids.0) l.fills else none)
    previous ← saved_request ids.2 (fill_request row)
    unless_saved previous (save_checked outbox p now ids)

  -- `save`
  unfoldable pub save : Outbox → Payload → ℕ → Ledgered String
  unfolding get read request_identity fill_of new_position project max_sequence nat_text transaction
  save outbox p now = do
    ids ← or_raise (request_identity x p) value_error
    identified outbox p now ids
