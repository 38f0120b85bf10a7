-- ===== src/Notification/Outbox/Again.antt =====
-- A reminder that is enqueued again.
use mu_5x_fibonacci_trading.Base.{
  ℕ, ◌≡◌, refl, ◌∙◌, String, Bool, true, false, not, ◌==◌, Option, none, some, List, [], ◌∷◌, ◌++◌,
  Result, ok, find, find-append_none, eq_refl, continue, raise_if, same_option, arith,
}
use mu_5x_fibonacci_trading.Runtime.{Runtime}
use mu_5x_fibonacci_trading.Notification.Observation.{Observations}
use mu_5x_fibonacci_trading.Notification.Event.{
  AlertEvent, alert_valid, alert_event_id, same_event, kind_value, is_digest,
  same_optional_observation, same_optional_num, same_problems,
}
use mu_5x_fibonacci_trading.Notification.Event.Laws.{
  IsService, alert_valid-none, alert_from_json-alert_to_dict,
}
use mu_5x_fibonacci_trading.Notification.Outbox.{
  NotifyError, notification_error, Outbox, has_event_id, DeliveryRecord, delivery_record, history,
  new_row, insert_or_verify, enqueue, reason_valid,
}
use mu_5x_fibonacci_trading.Notification.Outbox.Reading.{
  ReadOutcome, missing, present, failing, delivery_record_lem,
}
use mu_5x_fibonacci_trading.Notification.Outbox.Claim.{IsReadable, delivery_record-found}

num_refl : (n : ℕ) → (n == n) ≡ true
num_refl n = ground arith

module _ (rt : Runtime) (obs : Observations) where
  same_problems_refl : (ps : List String) → same_problems rt obs ps ps ≡ true
  same_problems_refl [] = refl
  same_problems_refl (p ∷ ps) = rw (eq_refl p, same_problems_refl ps)

  same_optional_num_refl : (n : Option ℕ) → same_optional_num rt obs n n ≡ true
  same_optional_num_refl none = refl
  same_optional_num_refl (some n) = num_refl n

  same_optional_text_refl : (s : Option String) → same_option s s ≡ true
  same_optional_text_refl none = refl
  same_optional_text_refl (some s) = eq_refl s

  same_observation-none :
      (o : Option obs.Observation) → o ≡ none → same_optional_observation rt obs o o ≡ true
  same_observation-none none h = refl
  same_observation-none (some o) h = absurd (cc h)

  same_event_refl : (e : AlertEvent rt obs) → e.observation ≡ none → same_event rt obs e e ≡ true
  unfolding same_event
  same_event_refl e free = rw (
    eq_refl (kind_value e.kind),
    eq_refl e.identity,
    eq_refl e.reason,
    num_refl,
    same_optional_num_refl,
    same_observation-none e.observation free,
    same_optional_text_refl,
    same_problems_refl,
  )

  module _ (e : AlertEvent rt obs) (service : IsService e.kind)
      (valid : alert_valid rt obs e ≡ true)
      (digest : is_digest (alert_event_id rt obs e) ≡ true) where
    new_row-IsReadable :
        (now : ℕ) (reason : Option String)
        → reason_valid reason ≡ true
        → IsReadable rt obs (new_row rt obs e e now reason) e
    new_row-IsReadable now reason r = record {
      digest = digest;
      payload = alert_from_json-alert_to_dict rt obs e service valid;
      consistent = rw (eq_refl (alert_event_id rt obs e), r);
    }

    unchanged :
        (b : Bool) (db : Outbox)
        → ((raise_if b notification_error) db).0 ≡ ok tt
        → (raise_if b notification_error) db ≡ (ok tt, db)
    unchanged true db h = cc h
    unchanged false db h = refl

    verified :
        (now now' : ℕ) (reason reason' : Option String) (db : Outbox)
        (out : Result NotifyError (Option (DeliveryRecord rt obs)) × Outbox)
        → reason_valid reason ≡ true
        → delivery_record rt obs (alert_event_id rt obs e) db ≡ out
        → ReadOutcome rt obs (alert_event_id rt obs e) db out
        → (continue out (insert_or_verify rt obs e e now reason)).0 ≡ ok tt
        → continue
            (delivery_record rt obs
              (alert_event_id rt obs e)
              (continue out (insert_or_verify rt obs e e now reason)).1)
            (insert_or_verify rt obs e e now' reason')
          ≡ (ok tt, (continue out (insert_or_verify rt obs e e now reason)).1)
    unfolding history
    verified now now' reason reason' db out v same (missing p) h =
        let new = new_row rt obs e e now reason in
        let id = alert_event_id rt obs e in
        let found : find (has_event_id id) (db.rows ++ new ∷ []) ≡ some new =
          find-append_none (has_event_id id) db.rows new p ∙ rw (eq_refl id) in
        rw (
          delivery_record-found rt obs
              (continue (ok none, db) (insert_or_verify rt obs e e now reason)).1 new e found
              (new_row-IsReadable now reason v),
          same_event_refl e (alert_valid-none rt obs e service valid),
        )
    verified now now' reason reason' db out v same (failing x) h = absurd (cc h)
    verified now now' reason reason' db out v same (present r event p q c) h =
        let kept = unchanged (not (same_event rt obs event e)) db h in rw (kept, same) kept

    -- Where enqueue has returned for a valid reminder of a service fault or of its end, whose event id
    -- is a digest, given a reason that the schema admits, enqueueing it again, at any time and with any reason, returns and changes
    -- nothing: no second row and no second history entry.
    pub enqueue_again :
        (now now' : ℕ) (reason reason' : Option String) (db : Outbox)
        → reason_valid reason ≡ true
        → (enqueue rt obs e now reason db).0 ≡ ok tt
        → enqueue rt obs e now' reason' (enqueue rt obs e now reason db).1
          ≡ (ok tt, (enqueue rt obs e now reason db).1)
    unfolding enqueue
    enqueue_again now now' reason reason' db v h =
        let parsed = alert_from_json-alert_to_dict rt obs e service valid in
        rw parsed (
          verified now now' reason reason' db (delivery_record rt obs (alert_event_id rt obs e) db)
            v refl (delivery_record_lem rt obs (alert_event_id rt obs e) db) (rw parsed at h))
