-- ===== src/Ledger/Tests.antt =====
-- The ledger at concrete forms: a purchase, a partial sale, a sale of more than is held, a
-- confirmation, and the same form sent twice.
use mu_5x_fibonacci_trading.Base.{
  ℕ, ◌+◌, ◌-◌, ◌*◌, ◌/◌, ◌≤◌, ◌≡◌, refl, String, Bool, true, false, none, some, List, [], ◌∷◌, map,
  Result, ok, err, codes, ◌==◌, if◌then◌else◌, count_codes, is_hex_text, transaction, arith,
}
use mu_5x_fibonacci_trading.Runtime.{Json}
use mu_5x_fibonacci_trading.Execution.Sample.{toy}
use mu_5x_fibonacci_trading.Notification.Observation.{Observations}
use mu_5x_fibonacci_trading.Notification.Outbox.{empty_outbox, delivery_record, row_record}
use mu_5x_fibonacci_trading.Ledger.Externals.{Externals, Payload, DigitsBelowTen}
use mu_5x_fibonacci_trading.Ledger.Decimal.{
  decimal, number_text, read_digits, digits_onto, fraction_digits, nat_text, stage,
}
use mu_5x_fibonacci_trading.Ledger.Decimal.RoundTrip.{decimal-number_text}
use mu_5x_fibonacci_trading.Ledger.Fill.{
  Fill, buy, sell, get, strip_left, strip_right, note_of, amount, matches, request_identity,
  fill_of,
}
use mu_5x_fibonacci_trading.Ledger.Replay.{
  FillRevision, StateRevision, open_position, needs_review, upsert, latest_from, insert_by, sort_by,
  project_fills, max_sequence, trade, replay_fill, replay, Projection, project, current_state,
  fill_of_revision, is_confirmed, revision_of,
}
use mu_5x_fibonacci_trading.Ledger.Replay.Order.{by_time}
use mu_5x_fibonacci_trading.Ledger.Store.{
  LedgerError, value_error, Ledger, empty_ledger, PositionView, read_positions, read, history_of,
}
use mu_5x_fibonacci_trading.Ledger.Form.{SignalFields, entry_source, new_position, swap_codes}
use mu_5x_fibonacci_trading.Ledger.Save.{save}
use mu_5x_fibonacci_trading.Ledger.Confirm.{save_state}
use mu_5x_fibonacci_trading.Ledger.Requests.{LedgerRequest, save_request, state_request, step, run}
use mu_5x_fibonacci_trading.Ledger.Readable.Calls.{run-IsReadable, run-project_fills}
use mu_5x_fibonacci_trading.Ledger.Once.{Extends, run-Extends, save_once}
use mu_5x_fibonacci_trading.Ledger.Balance.{bought, sold, project_balance}
use mu_5x_fibonacci_trading.Ledger.Stale.{fill_unconfirms}

abbrev plain_observations : Observations
plain_observations = record {
  Observation = Unit {0};
  to_dict = λ _. Json.null;
  from_dict = λ _. some tt;
  same_observation = λ _ _. true;
  is_ready_for_review = λ _. true;
  has_entry_evidence = λ _. true;
}

abbrev plain_fields : SignalFields plain_observations
plain_fields = record {
  observation_id = λ _. "";
  symbol = λ _. "";
  strategy_name = λ _. "";
  strategy_config_fingerprint = λ _. "";
  trusted_run_id = λ _. none;
}

abbrev total_codes : Payload → ℕ
total_codes [] = 0
total_codes ((key, value) ∷ rest) = count_codes (codes value) + total_codes rest

abbrev toy_digest : ℕ → String
toy_digest n = nat_text n

-- Whole units in the average; every text of a time is a second after 1970.
abbrev plain : Externals
plain = record {
  digest = λ p. toy_digest (total_codes p);
  wide_digit = λ _. none;
  beijing_ms = λ _. some 1000;
  Average = ℕ;
  of_units = λ n. n;
  add = λ a b. a + b;
  mul = λ a b. a * b;
  div = λ a b. a / b;
}

plain_below_ten : DigitsBelowTen plain
plain_below_ten c d h = absurd (cc h)

abbrev position_1 : String
position_1 = "00000000000000000000000000000001"

abbrev request_1 : String
request_1 = "0000000000000000000000000000000a"

abbrev request_2 : String
request_2 = "0000000000000000000000000000000b"

abbrev fill_form : String → String → String → String → Payload
fill_form request command action quantity =
    ("request_id", request)
    ∷ ("position_id", position_1)
    ∷ ("command", command)
    ∷ ("action", action)
    ∷ ("quantity", quantity)
    ∷ ("price", "101.50")
    ∷ ("executed_at", "2026-01-05T09:30")
    ∷ ("confirmed", "yes")
    ∷ ("symbol", "MU-USDT-SWAP")
    ∷ ("unit", "contracts")
    ∷ []

abbrev purchase : Payload
purchase = fill_form request_1 "create" "buy" "2.50"

abbrev sale : Payload
sale = fill_form request_2 "append" "sell" "1"

abbrev oversale : Payload
oversale = fill_form request_2 "append" "sell" "2.6"

abbrev confirmation : Payload
confirmation =
    ("request_id", request_1)
    ∷ ("position_id", position_1)
    ∷ ("stage", "1")
    ∷ ("stop_price", "95.0")
    ∷ ("confirmed", "yes")
    ∷ ("expected_fill_sequence", "1")
    ∷ ("expected_state_revision", "0")
    ∷ []

abbrev buys : LedgerRequest
buys = save_request empty_outbox purchase 4999

abbrev sells : LedgerRequest
sells = save_request empty_outbox sale 5999

abbrev confirms : LedgerRequest
confirms = state_request confirmation 5499

-- The ledger after calls; to unfold this is to unfold all that the calls run.
after : List LedgerRequest → Ledger
unfolding run step save save_state transaction read read_positions project replay replay_fill trade
    project_fills latest_from upsert sort_by insert_by max_sequence current_state decimal
    read_digits number_text digits_onto fraction_digits nat_text stage get strip_left strip_right
    note_of amount matches request_identity fill_of entry_source delivery_record row_record
    new_position swap_codes is_hex_text
after rs = run toy plain_observations plain_fields plain rs empty_ledger

abbrev shown_of : Result LedgerError (List (PositionView plain)) → List (String × Bool)
shown_of (err e) = []
shown_of (ok []) = []
shown_of (ok (v ∷ vs)) = (v.projection.recorded_quantity, is_confirmed v.current_state.status) ∷ []

abbrev shown : List LedgerRequest → List (String × Bool)
shown rs = shown_of (read plain (after rs)).0

bought_shown : shown (buys ∷ []) ≡ ("2.5", false) ∷ []
unfolding after
bought_shown = refl

confirmed_shown : shown (buys ∷ confirms ∷ []) ≡ ("2.5", true) ∷ []
unfolding after
confirmed_shown = refl

sold_shown : shown (buys ∷ confirms ∷ sells ∷ sells ∷ []) ≡ ("1.5", false) ∷ []
unfolding after
sold_shown = refl

oversold_refused :
    (save toy plain_observations plain_fields plain empty_outbox oversale 6000
      (after (buys ∷ []))).0
    ≡ err value_error
unfolding after
oversold_refused = refl

decimal-number_text_example :
    decimal (λ _. none) (number_text 2_500_000_000_000) ≡ some 2_500_000_000_000
decimal-number_text_example =
    decimal-number_text (λ _. none) 2_500_000_000_000 (omega arith) (omega arith)

run-IsReadable_example :
    (views : List (PositionView plain)) × (read plain
        (run toy plain_observations plain_fields plain (buys ∷ confirms ∷ sells ∷ []) empty_ledger)
      ≡ (
        ok views,
        run toy plain_observations plain_fields plain (buys ∷ confirms ∷ sells ∷ []) empty_ledger,
      ))
run-IsReadable_example =
    run-IsReadable plain toy plain_observations plain_fields plain_below_ten
      (buys ∷ confirms ∷ sells ∷ [])

run-Extends_example :
    Extends
      (after (buys ∷ []))
      (run toy plain_observations plain_fields plain (confirms ∷ sells ∷ []) (after (buys ∷ [])))
run-Extends_example =
    run-Extends toy plain_observations plain_fields plain plain_below_ten (confirms ∷ sells ∷ [])
      (after (buys ∷ []))

save_once_example :
    save toy plain_observations plain_fields plain empty_outbox purchase 9000 (
      run toy plain_observations plain_fields plain
        (confirms ∷ sells ∷ [])
        (save toy plain_observations plain_fields plain empty_outbox purchase 5000 empty_ledger).1)
    ≡ (
      ok position_1,
      run toy plain_observations plain_fields plain
          (confirms ∷ sells ∷ [])
          (save toy plain_observations plain_fields plain empty_outbox purchase 5000
            empty_ledger).1,
    )
unfolding after
save_once_example =
    save_once toy plain_observations plain_fields plain plain_below_ten empty_ledger empty_outbox
      empty_outbox purchase 5000 9000 position_1 refl (confirms ∷ sells ∷ [])

abbrev bought_fill : Fill
bought_fill = record {
  action = buy;
  quantity = "2.5";
  price = "101.5";
  time_ms = 1000;
  stage = none;
  stop_price = none;
  note = "";
  voided = false;
}

abbrev sold_fill : Fill
sold_fill = record bought_fill { action = sell; quantity = "1" }

abbrev row_of : ℕ → String → ℕ → Fill → FillRevision
row_of sequence request now fill = record {
  sequence = sequence;
  request_id = request;
  request_hash = toy_digest (if sequence == 1 then 123 else 121);
  position_id = position_1;
  fill_id = request;
  revision = 1;
  recorded_at_ms = now;
  fill = fill;
}

abbrev traded : List FillRevision
traded = row_of 1 request_1 5000 bought_fill ∷ row_of 2 request_2 6000 sold_fill ∷ []

abbrev seen : Projection plain
seen = record {
  fills = traded;
  history = traded;
  recorded_quantity = "1.5";
  fill_sequence = 2;
  average_entry_price = some 101_500_000_000_000;
  status = open_position;
  last_fill = some sold_fill;
}

project_balance_example :
    (sold plain (bought_fill ∷ []) ≤ bought plain (bought_fill ∷ []))
    × (seen.recorded_quantity
        ≡ number_text (
            bought plain (map fill_of_revision seen.fills)
            - sold plain (map fill_of_revision seen.fills)))
unfolding after
project_balance_example =
    project_balance plain traded {p = seen} (bought_fill ∷ []) (sold_fill ∷ []) refl refl

run-project_fills_example :
    project_fills (
      history_of plain position_1
        (run toy plain_observations plain_fields plain (buys ∷ sells ∷ []) empty_ledger))
    ≡ map revision_of (
        sort_by by_time (
          latest_from [] (
            history_of plain position_1
              (run toy plain_observations plain_fields plain (buys ∷ sells ∷ []) empty_ledger))))
run-project_fills_example =
    run-project_fills plain toy plain_observations plain_fields plain_below_ten (buys ∷ sells ∷ [])
      position_1

abbrev state_1 : StateRevision
state_1 = record {
  position_id = position_1;
  revision = 1;
  request_id = request_1;
  request_hash = toy_digest 74;
  stage = some 1;
  stop_price = some "95";
  note = "";
  fill_sequence = 1;
  confirmed_at_ms = 5500;
}

abbrev view_1 : PositionView plain
view_1 = record {
  position = record {
    position_id = position_1;
    symbol = "MU-USDT-SWAP";
    unit = "contracts";
    label = "";
    signal_source = none;
    created_at_ms = 5000;
  };
  projection = seen;
  current_state = record {
    status = needs_review;
    revision = 1;
    stage = none;
    stop_price = none;
    confirmed_at_ms = some 5500;
  };
  state_history = state_1 ∷ [];
}

fill_unconfirms_example : is_confirmed view_1.current_state.status ≡ false
unfolding after
fill_unconfirms_example =
    fill_unconfirms toy plain_observations plain_fields plain plain_below_ten (buys ∷ confirms ∷ [])
      empty_outbox sale 6000 (request_2, position_1, plain.digest sale) position_1 (view_1 ∷ [])
      {v = view_1} refl refl refl refl refl
