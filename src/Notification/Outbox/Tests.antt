-- ===== src/Notification/Outbox/Tests.antt =====
-- The outbox at concrete calls: a service fault that is sent, and one that is released unsent.
use mu_5x_fibonacci_trading.Base.{
  inl, ℕ, min, ◌+◌, ◌*◌, ◌≤◌, ◌≡◌, refl, String, true, false, none, some, List, [], ◌∷◌, ◌==◌,
  Option, All, is_hex_text, transaction, length, ok,
}
use mu_5x_fibonacci_trading.Runtime.{Json}
use mu_5x_fibonacci_trading.Runtime.Json.{num, object}
use mu_5x_fibonacci_trading.Runtime.Fields.{end, field}
use mu_5x_fibonacci_trading.Execution.Sample.{toy}
use mu_5x_fibonacci_trading.Notification.Observation.{Observations}
use mu_5x_fibonacci_trading.Notification.Event.{
  service_fault, confirmed, failed, pending, AlertEvent, is_digest, alert_event_id, alert_valid,
  context_valid, alert_to_dict, alert_from_json, read_alert, same_event,
}
use mu_5x_fibonacci_trading.Notification.Outbox.{
  OutboxRow, Outbox, empty_outbox, enqueue, delivery_record, row_record, history, retry_delay,
  suppress,
}
use mu_5x_fibonacci_trading.Notification.Outbox.Operations.{
  claim, finish, defer_unstarted, resolve, retry_failed,
}
use mu_5x_fibonacci_trading.Notification.Event.Laws.{alert_from_json-alert_to_dict}
use mu_5x_fibonacci_trading.Notification.Outbox.Again.{enqueue_again}
use mu_5x_fibonacci_trading.Notification.Outbox.Backoff.{retry_delay_lem}
use mu_5x_fibonacci_trading.Notification.Outbox.Claim.{IsReadable}
use mu_5x_fibonacci_trading.Notification.Outbox.Due.{HasClaimed, claim_due}
use mu_5x_fibonacci_trading.Notification.Outbox.Moves.{Move}
use mu_5x_fibonacci_trading.Notification.Outbox.Calls.{
  OutboxCall, enqueue_call, claim_call, finish_call, defer_call, outbox_step, outbox_run,
  outbox_step-Move,
}
use mu_5x_fibonacci_trading.Notification.Outbox.Sound.{IsSound}
use mu_5x_fibonacci_trading.Notification.Outbox.Ledger.{is_start, is_release, count_entries}
use mu_5x_fibonacci_trading.Notification.Outbox.Laws.{
  ConfirmedAfter, Extends, run_attempts, run-IsSound, run_confirmed, run-history-Extends,
}

abbrev read_number : Json → Option ℕ
read_number (object (field k (num n) end)) = some n
read_number _ = none

abbrev toy_observations : Observations
toy_observations = record {
  Observation = ℕ;
  to_dict = λ n. object (field "observed_at_ms" (num n) end);
  from_dict = read_number;
  same_observation = λ a b. a == b;
  is_ready_for_review = λ _. true;
  has_entry_evidence = λ _. true;
}

abbrev fault_id : String
fault_id = "0000000000000000000000000000000000000000000000000000000000000000"

abbrev fault : AlertEvent toy toy_observations
fault = record {
  kind = service_fault;
  identity = fault_id;
  occurred_at_ms = 1000;
  review_until_ms = none;
  reason = "runtime_changed";
  observation = none;
  related_event_id = none;
  problems = "runtime.stopped" ∷ [];
}

abbrev Call : Type 0
Call = OutboxCall toy toy_observations

abbrev sent : List Call
sent =
    enqueue_call fault 1000 none
    ∷ claim_call 1000
    ∷ defer_call fault_id 1000 "source_not_caught_up"
    ∷ claim_call 31000
    ∷ finish_call fault_id failed 31000 "timeout" true
    ∷ claim_call 91000
    ∷ finish_call fault_id confirmed 91000 "accepted" false
    ∷ []

-- The outbox after calls; to unfold this is to unfold all that the calls run.
outbox_after : List Call → Outbox
unfolding outbox_run outbox_step enqueue delivery_record row_record history alert_event_id
    alert_valid context_valid alert_to_dict alert_from_json read_alert same_event suppress claim
    finish defer_unstarted resolve retry_failed transaction retry_delay is_hex_text
outbox_after cs = outbox_run toy toy_observations cs empty_outbox

sent_history : length (outbox_after sent).history ≡ 7
unfolding outbox_after
sent_history = refl

abbrev sent_outbox : Outbox
sent_outbox = outbox_run toy toy_observations sent empty_outbox

sent_confirmed : ConfirmedAfter fault_id 2 sent_outbox
unfolding outbox_after
sent_confirmed = (_, refl, refl, refl)

outbox_step-Move_example :
    Move sent_outbox (outbox_step toy toy_observations (claim_call 200000) sent_outbox)
unfolding outbox_after
outbox_step-Move_example =
    outbox_step-Move toy toy_observations (claim_call 200000) sent_outbox (refl, tt)

run_attempts_example :
    let history = (outbox_run toy toy_observations sent empty_outbox).history in
    count_entries is_start fault_id history ≤ count_entries is_release fault_id history + 3
run_attempts_example = run_attempts toy toy_observations sent fault_id

run-IsSound_example : All IsSound (outbox_run toy toy_observations sent empty_outbox).rows
run-IsSound_example = run-IsSound toy toy_observations sent

abbrev later : List Call
later = claim_call 900000 ∷ finish_call fault_id failed 900000 "late" true ∷ []

run_confirmed_example :
    ConfirmedAfter fault_id 2 (outbox_run toy toy_observations later sent_outbox)
unfolding outbox_after
run_confirmed_example =
    run_confirmed toy toy_observations later sent_outbox fault_id 2 (refl, tt) sent_confirmed

run-history-Extends_example :
    Extends sent_outbox.history (outbox_run toy toy_observations later sent_outbox)
unfolding outbox_after
run-history-Extends_example = run-history-Extends toy toy_observations later sent_outbox (refl, tt)

retry_delay_lem_example :
    (60000 ≤ retry_delay 3)
    × (retry_delay 3 ≤ 3600000)
    × (retry_delay 3 ≤ retry_delay (3 + 1))
    × (retry_delay (3 + 2) ≡ min 3600000 (2 * retry_delay (3 + 1)))
retry_delay_lem_example = retry_delay_lem 3

fault_valid : alert_valid toy toy_observations fault ≡ true
unfolding outbox_after
fault_valid = refl

alert_from_json-alert_to_dict_example :
    alert_from_json toy toy_observations (alert_to_dict toy toy_observations fault) ≡ some fault
alert_from_json-alert_to_dict_example =
    alert_from_json-alert_to_dict toy toy_observations fault (inl refl) fault_valid

abbrev fault_row : OutboxRow
fault_row = record {
  event_id = fault_id;
  payload = alert_to_dict toy toy_observations fault;
  state = pending;
  attempts = 0;
  next_attempt_ms = 1000;
  retryable = false;
  suppressed_reason = none;
}

abbrev pending_outbox : Outbox
pending_outbox = record { rows = fault_row ∷ []; history = [] }

fault_row-IsReadable : IsReadable toy toy_observations fault_row fault
unfolding outbox_after
fault_row-IsReadable = record { digest = refl; payload = refl; consistent = refl }

claim_due_example : HasClaimed toy toy_observations 1000 3 pending_outbox
claim_due_example =
    claim_due toy toy_observations 1000 3 pending_outbox (refl, tt)
      ((fault, fault_row-IsReadable), tt)

-- The outbox after the first enqueueing.
abbrev enqueued : Outbox
enqueued = (enqueue toy toy_observations fault 1000 none empty_outbox).1

fault_digest : is_digest (alert_event_id toy toy_observations fault) ≡ true
unfolding outbox_after
fault_digest = refl

enqueued_ok : (enqueue toy toy_observations fault 1000 none empty_outbox).0 ≡ ok tt
unfolding outbox_after
enqueued_ok = refl

enqueue_again_example :
    enqueue toy toy_observations fault 2000 (some "review_expired") enqueued ≡ (ok tt, enqueued)
enqueue_again_example =
    enqueue_again toy toy_observations fault (inl refl) fault_valid fault_digest 1000 2000 none
      (some "review_expired") empty_outbox refl enqueued_ok
