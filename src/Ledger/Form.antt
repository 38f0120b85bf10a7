-- ===== src/Ledger/Form.antt =====
-- mu_strategy/manual_positions.py: `entry_source`, and what `save` reads from its form and from the
-- position as it was read. `none` is ValueError.
use mu_5x_fibonacci_trading.Base.{
  ℕ, suc, ◌+◌, String, Bool, true, false, ◌&&◌, ◌||◌, Option, none, some, List, [], ◌∷◌, str_eq,
  leb, ◌==◌, if◌then◌else◌, codes, count_codes, contains_text, find, same_option, Result, ok, err,
  is_hex_text,
}
use mu_5x_fibonacci_trading.Runtime.{Runtime}
use mu_5x_fibonacci_trading.Notification.Observation.{Observations}
use mu_5x_fibonacci_trading.Notification.Event.{AlertKind, entry_review}
use mu_5x_fibonacci_trading.Notification.Outbox.{
  NotifyError, Outbox, DeliveryRecord, delivery_record,
}
use mu_5x_fibonacci_trading.Execution.Intent.Codec.{◌>>=◌}
use mu_5x_fibonacci_trading.Ledger.Externals.{Externals, Payload}
use mu_5x_fibonacci_trading.Ledger.Decimal.{nat_text}
use mu_5x_fibonacci_trading.Ledger.Fill.{
  Fill, Action, buy, sell, check, get, get_or_empty, identifier, strip_left, strip_right,
}
use mu_5x_fibonacci_trading.Ledger.Replay.{FillRevision}
use mu_5x_fibonacci_trading.Ledger.Store.{SignalSource, Position, PositionView}

-- The fields of an observation that `entry_source` takes over.
pub record SignalFields (obs : Observations) : Type 0 where
  pub observation_id : obs.Observation → String
  pub symbol : obs.Observation → String
  pub strategy_name : obs.Observation → String
  pub strategy_config_fingerprint : obs.Observation → String
  pub trusted_run_id : obs.Observation → Option String

pub data Command : Type 0 where
  create append revise : Command

abbrev pub parse_command : Option String → Option Command
parse_command none = none
parse_command (some s) =
    if str_eq s "create"
    then some create
    else if str_eq s "append"
    then some append
    else if str_eq s "revise"
    then some revise
    else none

abbrev pub is_create : Command → Bool
is_create create = true
is_create _ = false

abbrev pub is_revise : Command → Bool
is_revise revise = true
is_revise _ = false

abbrev pub is_buy : Action → Bool
is_buy buy = true
is_buy sell = false

abbrev same_codes : List ℕ → List ℕ → Bool
same_codes [] [] = true
same_codes (c ∷ cs) (d ∷ ds) = c == d && same_codes cs ds
same_codes _ _ = false

-- `[A-Z0-9]{1,20}-USDT-SWAP`, after `n` letters.
unfoldable pub swap_codes : ℕ → List ℕ → Bool
swap_codes n [] = false
swap_codes n (c ∷ cs) =
    (leb 1 n && leb n 20 && same_codes (c ∷ cs) (codes "-USDT-SWAP"))
    || (((leb b'A' c && leb c b'Z') || (leb b'0' c && leb c b'9')) && swap_codes (suc n) cs)

abbrev pub swap_symbol : Option String → Option String
swap_symbol none = none
swap_symbol (some s) = if swap_codes 0 (codes s) then some s else none

abbrev pub unit_of : Option String → Option String
unit_of none = none
unit_of (some s) = if contains_text s ("contracts" ∷ "base" ∷ []) then some s else none

abbrev pub label_of : String → Option String
label_of s = if leb (count_codes (codes s)) 80 then some s else none

abbrev is_entry : AlertKind → Bool
is_entry entry_review = true
is_entry _ = false

abbrev pub has_fill_id : String → FillRevision → Bool
has_fill_id id r = str_eq r.fill_id id

module _ (x : Externals) where
  abbrev pub revised_fill : Payload → PositionView x → Option (String × ℕ)
  revised_fill p view = do
    fill_id ← identifier (get "fill_id" p)
    previous ← find (has_fill_id fill_id) view.projection.fills
    _ ← check (same_option (get "expected_revision" p) (some (nat_text previous.revision)))
    some (fill_id, previous.revision + 1)

  abbrev pub target_fill : Command → Payload → String → PositionView x → Option (String × ℕ)
  target_fill revise p request_id view = revised_fill p view
  target_fill _ p request_id view = some (request_id, 1)

module _ (rt : Runtime) (obs : Observations) (fields : SignalFields obs) (x : Externals) where
  abbrev pub source_of : String → obs.Observation → SignalSource
  source_of event_id o = record {
    event_id = event_id;
    observation_id = fields.observation_id o;
    symbol = fields.symbol o;
    strategy_name = fields.strategy_name o;
    signal_config_fingerprint = fields.strategy_config_fingerprint o;
    trusted_run_id = fields.trusted_run_id o;
  }

  abbrev pub entry_observation : Option (DeliveryRecord rt obs) → Option obs.Observation
  entry_observation none = none
  entry_observation (some d) = if is_entry d.event.kind then d.event.observation else none

  abbrev pub source_of_record : String → Option obs.Observation → Option SignalSource
  source_of_record event_id none = none
  source_of_record event_id (some o) = some (source_of event_id o)

  abbrev entry_record :
      String → Result NotifyError (Option (DeliveryRecord rt obs)) → Option SignalSource
  entry_record event_id (err e) = none
  entry_record event_id (ok d) = source_of_record event_id (entry_observation d)

  -- `entry_source`, with the database of the reminders.
  unfoldable pub entry_source : Outbox → String → Option SignalSource
  unfolding delivery_record
  entry_source outbox event_id =
      if is_hex_text 64 event_id
      then entry_record event_id (delivery_record rt obs event_id outbox).0
      else none

  abbrev pub optional_source : Outbox → Option String → Option (Option SignalSource)
  optional_source outbox none = some none
  optional_source outbox (some event_id) =
      if str_eq event_id ""
      then some none
      else do source ← entry_source outbox event_id; some (some source)

  abbrev pub source_fits : String → Option SignalSource → Bool
  source_fits symbol none = true
  source_fits symbol (some s) = str_eq s.symbol symbol

  -- The position of a form that creates one.
  unfoldable pub new_position : Payload → Outbox → String → ℕ → Fill → Option Position
  unfolding get entry_source swap_codes strip_left strip_right
  new_position p outbox position_id now fill = do
    _ ← check (is_buy fill.action)
    symbol ← swap_symbol (get "symbol" p)
    unit ← unit_of (get "unit" p)
    label ← label_of (get_or_empty (get "label" p))
    source ← optional_source outbox (get "event_id" p)
    _ ← check (source_fits symbol source)
    some (record {
      position_id = position_id;
      symbol = symbol;
      unit = unit;
      label = strip_right (strip_left label);
      signal_source = source;
      created_at_ms = now;
    })

  abbrev pub fresh_position :
      Command → Payload → Outbox → String → ℕ → Fill → Option (Option Position)
  fresh_position create p outbox position_id now fill = do
    position ← new_position p outbox position_id now fill
    some (some position)
  fresh_position _ p outbox position_id now fill = some none
