-- ===== src/Ledger/Store.antt =====
-- mu_strategy/manual_positions.py: ManualPositionLedger, its tables and their reading. The table
-- of management inputs is taken to be absent. `present` tells that the file exists with its tables;
-- its creation belongs to the transaction, which in a new file cannot fail.
use mu_5x_fibonacci_trading.Base.{
  ℕ, String, Bool, false, not, ◌&&◌, Option, none, some, List, [], ◌∷◌, str_eq, leb, is_some,
  select, any, all, Exec, pure, raise, raise_if, gets, ◌>>=◌, ◌>>◌,
}
use mu_5x_fibonacci_trading.Ledger.Externals.{Externals}
use mu_5x_fibonacci_trading.Ledger.Fill.{note_of, stage_in_range, stop_readable}
use mu_5x_fibonacci_trading.Ledger.Replay.{
  FillRevision, StateRevision, Projection, CurrentState, project, current_state,
}

-- ValueError, sqlite3.IntegrityError and KeyError.
pub data LedgerError : Type 0 where
  value_error integrity_error key_error : LedgerError

pub record SignalSource : Type 0 where
  pub event_id : String
  pub observation_id : String
  pub symbol : String
  pub strategy_name : String
  pub signal_config_fingerprint : String
  pub trusted_run_id : Option String

pub record Position : Type 0 where
  pub position_id : String
  pub symbol : String
  pub unit : String
  pub label : String
  pub signal_source : Option SignalSource
  pub created_at_ms : ℕ

pub record Ledger : Type 0 where
  pub present : Bool
  pub positions : List Position
  pub fills : List FillRevision
  pub states : List StateRevision

abbrev pub empty_ledger : Ledger
empty_ledger = record { present = false; positions = []; fills = []; states = [] }

abbrev pub Ledgered : Type 0 → Type 0
Ledgered A = Exec Ledger LedgerError A

abbrev pub has_position_id : String → Position → Bool
has_position_id id p = str_eq p.position_id id

abbrev pub of_position : String → FillRevision → Bool
of_position id r = str_eq r.position_id id

abbrev pub state_of_position : String → StateRevision → Bool
state_of_position id s = str_eq s.position_id id

abbrev pub has_request : String → FillRevision → Bool
has_request id r = str_eq r.request_id id

abbrev pub state_has_request : String → StateRevision → Bool
state_has_request id s = str_eq s.request_id id

-- `_saved_request`, on the digest and the position of the row that was found.
abbrev pub saved_request : String → Option (String × String) → Ledgered (Option String)
saved_request digest none = pure none
saved_request digest (some (hash, position_id)) = do
  raise_if (not (str_eq hash digest)) value_error
  pure (some position_id)

abbrev pub fill_request : Option FillRevision → Option (String × String)
fill_request none = none
fill_request (some r) = some (r.request_hash, r.position_id)

abbrev pub state_request : Option StateRevision → Option (String × String)
state_request none = none
state_request (some s) = some (s.request_hash, s.position_id)

module _ (x : Externals) where
  pub record PositionView : Type 0 where
    pub position : Position
    pub projection : Projection x
    pub current_state : CurrentState
    pub state_history : List StateRevision

  -- The tests of `_read` on a state record.
  abbrev pub state_valid : StateRevision → Bool
  state_valid s =
      leb 1 s.fill_sequence
      && leb 1 s.confirmed_at_ms
      && stage_in_range s.stage
      && stop_readable x s.stop_price
      && is_some (note_of s.note)

  abbrev pub position_view : Position → List StateRevision → Projection x → PositionView
  position_view p states projected = record {
    position = p;
    projection = projected;
    current_state = current_state x projected states;
    state_history = states;
  }

  abbrev pub view_of : Position → List StateRevision → Option (Projection x) → Ledgered PositionView
  view_of p states none = raise value_error
  view_of p states (some projected) = pure (position_view p states projected)

  abbrev pub history_of : String → Ledger → List FillRevision
  history_of id l = select (of_position id) l.fills

  abbrev pub states_of : String → Ledger → List StateRevision
  states_of id l = select (state_of_position id) l.states

  unfoldable pub read_positions : List Position → Ledgered (List PositionView)
  read_positions [] = pure []
  read_positions (p ∷ ps) = do
    history ← gets (history_of p.position_id)
    states ← gets (states_of p.position_id)
    view ← view_of p states (project x history)
    rest ← read_positions ps
    pure (view ∷ rest)

  abbrev pub known_position : List Position → String → Bool
  known_position ps id = any (has_position_id id) ps

  abbrev pub fills_known : Ledger → Bool
  fills_known l = all (λ (r : FillRevision). known_position l.positions r.position_id) l.fills

  abbrev pub states_known : Ledger → Bool
  states_known l = all (λ (s : StateRevision). known_position l.positions s.position_id) l.states

  -- `_read`. A row of an unknown position raises KeyError.
  unfoldable pub read : Ledgered (List PositionView)
  unfolding read_positions
  read = do
    fills_ok ← gets fills_known
    raise_if (not fills_ok) key_error
    states_ok ← gets (λ (l : Ledger). all state_valid l.states)
    raise_if (not states_ok) value_error
    known ← gets states_known
    raise_if (not known) key_error
    positions ← gets (λ (l : Ledger). l.positions)
    read_positions positions

abbrev pub view_has_id : (x : Externals) → String → PositionView x → Bool
view_has_id x id v = str_eq v.position.position_id id
