-- ===== src/Notification/Outbox/Due.antt =====
-- mu_strategy/notifications/store.py: which row `claim` takes, and what it writes.
pub mod First
use mathlib.Core.Path.{subst}
use mu_5x_fibonacci_trading.Base.{
  ℕ, ◌+◌, ◌≡◌, refl, ap, ◌∙◌, ◌⊎◌, inl, inr, false, Option, none, some, List, [], ◌∷◌, ◌++◌, find,
  update_where, All, All-find, ok, String,
}
use mu_5x_fibonacci_trading.Runtime.{Runtime}
use mu_5x_fibonacci_trading.Notification.Observation.{Observations}
use mu_5x_fibonacci_trading.Notification.Event.{unknown, AlertEvent}
use mu_5x_fibonacci_trading.Notification.Outbox.{
  OutboxRow, HistoryAction, Outbox, has_event_id, claimable, claimed_row, entry, DeliveryRecord,
}
use mu_5x_fibonacci_trading.Notification.Outbox.Operations.{claim}
use mu_5x_fibonacci_trading.Notification.Outbox.Unique.{IsUnique}
use mu_5x_fibonacci_trading.Notification.Outbox.Claim.{IsReadable, after_claim, claim_lem}
use mu_5x_fibonacci_trading.Notification.Outbox.Due.First.{IsDue, IsFirst, find-IsFirst, update_at}

module _ (rt : Runtime) (obs : Observations) where
  -- The row `r` has been taken for an attempt: it is UNKNOWN with one more attempt and no retry, the
  -- history has one entry more, and the other rows are as they were.
  abbrev taken_outbox : ℕ → Outbox → List OutboxRow → OutboxRow → List OutboxRow → Outbox
  taken_outbox now db before r after = record {
    rows =
        before
        ++ record r { state = unknown; attempts = r.attempts + 1; retryable = false } ∷ after;
    history =
        db.history ++ entry r.event_id now HistoryAction.attempt_started "unknown" db.history ∷ [];
  }

  abbrev taken_record : OutboxRow → AlertEvent rt obs → DeliveryRecord rt obs
  taken_record r event = record {
    event = event;
    state = unknown;
    attempts = r.attempts + 1;
    next_attempt_ms = r.next_attempt_ms;
    retryable = false;
    suppressed_reason = none;
  }

  -- What `claim` has done with the first row that is due, or without one
  abbrev pub HasClaimed : ℕ → ℕ → Outbox → Type 0
  HasClaimed now max_attempts db =
      (All (λ r. ¬ IsDue now max_attempts r) db.rows
        × (claim rt obs now max_attempts db ≡ (ok none, db)))
      ⊎ ((before : List OutboxRow) × (r : OutboxRow) × (after : List OutboxRow)
          × (event : AlertEvent rt obs) × (db.rows ≡ before ++ r ∷ after)
          × All (λ q. ¬ IsDue now max_attempts q) before
          × IsDue now max_attempts r
          × IsReadable rt obs r event
          × (claim rt obs now max_attempts db
              ≡ (ok (some (taken_record r event)), taken_outbox now db before r after)))

  abbrev AreReadable : Outbox → Type 0
  AreReadable db = All (λ r. (event : AlertEvent rt obs) × IsReadable rt obs r event) db.rows

  claimed :
      (now max_attempts : ℕ) (db : Outbox) (o : Option OutboxRow)
      → IsUnique db.rows
      → AreReadable db
      → find (claimable now max_attempts) db.rows ≡ o
      → IsFirst now max_attempts db.rows o
      → HasClaimed now max_attempts db
  unfolding claim
  claimed now max_attempts db none u readable found first = inl (first, rw found refl)
  claimed now max_attempts db (some r) u readable found (before, after, same, idle, due) =
      let (event, h) =
        All-find (λ r. (event : AlertEvent rt obs) × IsReadable rt obs r event)
          (claimable now max_attempts) db.rows readable found in
      let rows : update_where (has_event_id r.event_id) claimed_row db.rows
          ≡ before ++ claimed_row r ∷ after =
        ap (update_where (has_event_id r.event_id) claimed_row) same
        ∙ update_at claimed_row before r after (subst IsUnique same u) in
      inr (
        before,
        r,
        after,
        event,
        same,
        idle,
        due,
        h,
        claim_lem rt obs now max_attempts db r event u found h
            ∙ ap
                (λ (reason : Option String). (
                  ok (some (record (taken_record r event) { suppressed_reason = reason })),
                  after_claim rt obs now r db,
                ))
                due.0
            ∙ ap
                (λ (rs : List OutboxRow). (
                  ok (some (taken_record r event)),
                  record (after_claim rt obs now r db) { rows = rs },
                ))
                rows,
      )

  -- Where the event ids differ and every row can be read, `claim` takes the first row that is not
  -- suppressed, below the limit of attempts, due, and pending or failed with a retry allowed: it
  -- returns its reminder as UNKNOWN with one more attempt, and has written that row and a history entry
  -- and nothing else. Where no row is so, it returns None and changes nothing.
  pub claim_due :
      (now max_attempts : ℕ) (db : Outbox)
      → IsUnique db.rows
      → All (λ r. (event : AlertEvent rt obs) × IsReadable rt obs r event) db.rows
      → HasClaimed now max_attempts db
  claim_due now max_attempts db u readable =
      claimed now max_attempts db (find (claimable now max_attempts) db.rows) u readable refl
        (find-IsFirst now max_attempts db.rows)
