-- ===== src/Ledger/Replay.antt =====
-- mu_strategy/manual_positions.py: `_project` and `_current_state`, which replay the fills of a
-- position.
pub mod Facts
pub mod Order
pub mod Stable
use mu_5x_fibonacci_trading.Base.{
  ℕ, ◌+◌, ◌-◌, max, String, Bool, true, false, not, ◌&&◌, ◌||◌, Option, none, some, List, [], ◌∷◌,
  map, str_eq, ltb, leb, ◌==◌, if◌then◌else◌, is_some,
}
use mu_5x_fibonacci_trading.Execution.Intent.Codec.{◌>>=◌}
use mu_5x_fibonacci_trading.Ledger.Externals.{Externals}
use mu_5x_fibonacci_trading.Ledger.Decimal.{decimal, number_text}
use mu_5x_fibonacci_trading.Ledger.Fill.{Fill, Action, buy, sell}

-- A row of `fill_revisions`, with its payload.
pub record FillRevision : Type 0 where
  pub sequence : ℕ
  pub request_id : String
  pub request_hash : String
  pub position_id : String
  pub fill_id : String
  pub revision : ℕ
  pub recorded_at_ms : ℕ
  pub fill : Fill

-- An item of the dictionaries `latest` and `first_sequence`.
pub record Latest : Type 0 where
  pub first : ℕ
  pub row : FillRevision

-- A revision takes the place of the earlier one of its fill, or comes last.
unfoldable pub upsert : FillRevision → List Latest → List Latest
upsert r [] = record { first = r.sequence; row = r } ∷ []
upsert r (e ∷ es) =
    if str_eq e.row.fill_id r.fill_id
    then record { first = e.first; row = r } ∷ es
    else e ∷ upsert r es

unfoldable pub latest_from : List Latest → List FillRevision → List Latest
unfolding upsert
latest_from es [] = es
latest_from es (r ∷ rs) = latest_from (upsert r es) rs

-- The key of `sorted`.
abbrev pub at_or_before : Latest → Latest → Bool
at_or_before d e =
    ltb d.row.fill.time_ms e.row.fill.time_ms
    || (d.row.fill.time_ms == e.row.fill.time_ms && leb d.first e.first)

unfoldable pub insert_by : (Latest → Latest → Bool) → Latest → List Latest → List Latest
insert_by before e [] = e ∷ []
insert_by before e (d ∷ ds) = if before e d then e ∷ d ∷ ds else d ∷ insert_by before e ds

unfoldable pub sort_by : (Latest → Latest → Bool) → List Latest → List Latest
unfolding insert_by
sort_by before [] = []
sort_by before (e ∷ es) = insert_by before e (sort_by before es)

abbrev pub revision_of : Latest → FillRevision
revision_of e = e.row

abbrev pub fill_of_revision : FillRevision → Fill
fill_of_revision r = r.fill

-- `fills`: the latest revisions by time, those of one time in the order of submission.
unfoldable pub project_fills : List FillRevision → List FillRevision
unfolding latest_from sort_by
project_fills history = map revision_of (sort_by at_or_before (latest_from [] history))

-- The greatest sequence number, 0 if there is none.
unfoldable pub max_sequence : List FillRevision → ℕ
max_sequence [] = 0
max_sequence (r ∷ rs) = max r.sequence (max_sequence rs)

pub data PositionStatus : Type 0 where
  open_position closed empty : PositionStatus

module _ (x : Externals) where
  -- The variables of the loop.
  pub record Holding : Type 0 where
    pub quantity : ℕ
    pub average : x.Average
    pub last : Option Fill

  abbrev pub no_holding : Holding
  no_holding = record { quantity = 0; average = x.of_units 0; last = none }

  unfoldable pub trade : Action → Fill → ℕ → ℕ → Holding → Option Holding
  trade buy f units price h =
      if is_some h.last && h.quantity == 0
      then none
      else some (record {
        average =
            x.div
              (x.add (x.mul h.average (x.of_units h.quantity))
                (x.mul (x.of_units price) (x.of_units units)))
              (x.add (x.of_units h.quantity) (x.of_units units));
        quantity = h.quantity + units;
        last = some f;
      })
  trade sell f units price h =
      if ltb h.quantity units
      then none
      else some (record h { quantity = h.quantity - units; last = some f })

  -- One round.
  unfoldable pub replay_fill : Fill → Holding → Option Holding
  unfolding trade
  replay_fill f h = if f.voided then some h else do
    units ← decimal x.wide_digit f.quantity
    price ← decimal x.wide_digit f.price
    trade f.action f units price h

  unfoldable pub replay : List Fill → Holding → Option Holding
  unfolding replay_fill
  replay [] h = some h
  replay (f ∷ fs) h = do h' ← replay_fill f h; replay fs h'

  pub record Projection : Type 0 where
    pub fills : List FillRevision
    pub history : List FillRevision
    pub recorded_quantity : String
    pub fill_sequence : ℕ
    pub average_entry_price : Option x.Average
    pub status : PositionStatus
    pub last_fill : Option Fill

  abbrev pub status_of : Holding → PositionStatus
  status_of h =
      if not (h.quantity == 0) then open_position else if is_some h.last then closed else empty

  abbrev pub projection : List FillRevision → Holding → Projection
  projection history h = record {
    fills = project_fills history;
    history = history;
    recorded_quantity = number_text h.quantity;
    fill_sequence = max_sequence history;
    average_entry_price = if h.quantity == 0 then none else some h.average;
    status = status_of h;
    last_fill = h.last;
  }

  -- `_project`; `none` is ValueError.
  unfoldable pub project : List FillRevision → Option Projection
  unfolding replay project_fills max_sequence
  project history = do
    h ← replay (map fill_of_revision (project_fills history)) no_holding
    some (projection history h)

-- A row of `position_state_revisions`, with its payload.
pub record StateRevision : Type 0 where
  pub position_id : String
  pub revision : ℕ
  pub request_id : String
  pub request_hash : String
  pub stage : Option ℕ
  pub stop_price : Option String
  pub note : String
  pub fill_sequence : ℕ
  pub confirmed_at_ms : ℕ

pub data StateStatus : Type 0 where
  not_open unconfirmed needs_review confirmed : StateStatus

pub record CurrentState : Type 0 where
  pub status : StateStatus
  pub revision : ℕ
  pub stage : Option ℕ
  pub stop_price : Option String
  pub confirmed_at_ms : Option ℕ

abbrev pub last_state : List StateRevision → Option StateRevision
last_state [] = none
last_state (s ∷ []) = some s
last_state (s ∷ t ∷ rest) = last_state (t ∷ rest)

abbrev pub is_open : PositionStatus → Bool
is_open open_position = true
is_open _ = false

abbrev pub state_status : Bool → ℕ → StateRevision → StateStatus
state_status opened sequence s =
    if not opened then not_open else if s.fill_sequence == sequence then confirmed else needs_review

abbrev pub is_confirmed : StateStatus → Bool
is_confirmed confirmed = true
is_confirmed _ = false

abbrev pub state_of_latest : Bool → ℕ → Option StateRevision → CurrentState
state_of_latest opened sequence none = record {
  status = if not opened then not_open else unconfirmed;
  revision = 0;
  stage = none;
  stop_price = none;
  confirmed_at_ms = none;
}
state_of_latest opened sequence (some s) =
    let status = state_status opened sequence s in
    record {
      status = status;
      revision = s.revision;
      stage = if is_confirmed status then s.stage else none;
      stop_price = if is_confirmed status then s.stop_price else none;
      confirmed_at_ms = some s.confirmed_at_ms;
    }

-- `_current_state`
unfoldable pub current_state : (x : Externals) → Projection x → List StateRevision → CurrentState
current_state x p history = state_of_latest (is_open p.status) p.fill_sequence (last_state history)
