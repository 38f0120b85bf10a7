-- ===== src/Ledger/Fill.antt =====
-- mu_strategy/manual_positions.py: what a submitted form says (`_identifier`, `_note`,
-- `_request_identity`, `_fill`). The type tests `isinstance(…, str)` are the type `Payload`; `none`
-- is ValueError, which is all that these functions raise.
pub mod Facts
use Prim.Native.Char.{code}
use mu_5x_fibonacci_trading.Base.{
  ℕ, zero, suc, String, Bool, true, false, not, ◌&&◌, ◌||◌, Option, none, some, List, [], ◌∷◌,
  str_eq, ltb, leb, ◌==◌, if◌then◌else◌, codes, count_codes, is_space, is_hex_text, is_some, length,
}
use mu_5x_fibonacci_trading.Execution.Intent.Codec.{◌>>=◌}
use mu_5x_fibonacci_trading.Ledger.Externals.{Payload, Externals}
use mu_5x_fibonacci_trading.Ledger.Decimal.{decimal, stage, number_text, digit}

-- `payload.get(name)`
unfoldable pub get : String → Payload → Option String
get name [] = none
get name ((key, value) ∷ rest) = if str_eq key name then some value else get name rest

-- `payload.get(name, "")`
abbrev pub get_or_empty : Option String → String
get_or_empty none = ""
get_or_empty (some s) = s

-- `_identifier`
abbrev pub identifier : Option String → Option String
identifier none = none
identifier (some s) = if is_hex_text 32 s then some s else none

-- `str.strip`
unfoldable pub strip_left : String → String
strip_left String.[] = String.[]
strip_left (String.◌∷◌ c s) = if is_space (code c) then strip_left s else String.◌∷◌ c s

abbrev pub cons_unless_blank : Bool → String → String → String
cons_unless_blank true String.[] whole = String.[]
cons_unless_blank _ rest whole = whole

unfoldable pub strip_right : String → String
strip_right String.[] = String.[]
strip_right (String.◌∷◌ c s) =
    let rest = strip_right s in cons_unless_blank (is_space (code c)) rest (String.◌∷◌ c rest)

-- `_note`; of the text it keeps the strip.
unfoldable pub note_of : String → Option String
unfolding strip_left strip_right
note_of s = if leb (count_codes (codes s)) 2000 then some (strip_right (strip_left s)) else none

pub data Action : Type 0 where
  buy sell : Action

abbrev pub parse_action : Option String → Option Action
parse_action none = none
parse_action (some s) =
    if str_eq s "buy" then some buy else if str_eq s "sell" then some sell else none

pub record Fill : Type 0 where
  pub action : Action
  pub quantity : String
  pub price : String
  pub time_ms : ℕ
  pub stage : Option ℕ
  pub stop_price : Option String
  pub note : String
  pub voided : Bool

-- `expected` if the test passes.
abbrev pub check : Bool → Option (Unit {0})
check true = some tt
check false = none

-- What `_read` asks of the stage and of the stop of a state.
abbrev pub stage_in_range : Option ℕ → Bool
stage_in_range none = true
stage_in_range (some n) = leb 1 n && leb n 99

abbrev parse_voided : String → Option Bool
parse_voided s = if str_eq s "" then some false else if str_eq s "yes" then some true else none

module _ (x : Externals) where
  -- A pattern of digits, `d`, and of other characters, which stand for themselves.
  unfoldable pub matches : List ℕ → List ℕ → Bool
  matches [] [] = true
  matches [] (c ∷ cs) = false
  matches (p ∷ ps) [] = false
  matches (p ∷ ps) (c ∷ cs) =
      (if p == b'd' then is_some (digit x.wide_digit c) else p == c) && matches ps cs

  abbrev is_time : List ℕ → Bool
  is_time cs = matches (codes "dddd-dd-ddTdd:dd") cs || matches (codes "dddd-dd-ddTdd:dd:dd") cs

  abbrev pub executed_at : String → Option ℕ
  executed_at s = if is_time (codes s) then x.beijing_ms s else none

  -- `_number(_decimal(value))`
  unfoldable pub amount : Option String → Option String
  amount none = none
  amount (some s) = do n ← decimal x.wide_digit s; some (number_text n)

  abbrev pub stop_readable : Option String → Bool
  stop_readable none = true
  stop_readable (some s) = is_some (decimal x.wide_digit s)

  -- The amount of a field that may be left empty.
  abbrev pub optional_amount : String → Option (Option String)
  optional_amount s = if str_eq s "" then some none else do text ← amount (some s); some (some text)

  -- `_request_identity`: the request, the position and the digest.
  unfoldable pub request_identity : Payload → Option (String × String × String)
  unfolding get
  request_identity p = do
    request_id ← identifier (get "request_id" p)
    position_id ← identifier (get "position_id" p)
    some (request_id, position_id, x.digest p)

  -- `_fill`
  unfoldable pub fill_of : Payload → ℕ → Option Fill
  unfolding get amount note_of matches
  fill_of p now = do
    action ← parse_action (get "action" p)
    quantity ← amount (get "quantity" p)
    price ← amount (get "price" p)
    time_ms ← executed_at (get_or_empty (get "executed_at" p))
    _ ← check (ltb 0 time_ms && leb time_ms now)
    note ← note_of (get_or_empty (get "note" p))
    stage ← stage x.wide_digit (get_or_empty (get "stage" p))
    stop ← optional_amount (get_or_empty (get "stop_price" p))
    voided ← parse_voided (get_or_empty (get "voided" p))
    some (record {
      action = action;
      quantity = quantity;
      price = price;
      time_ms = time_ms;
      stage = stage;
      stop_price = stop;
      note = note;
      voided = voided;
    })
