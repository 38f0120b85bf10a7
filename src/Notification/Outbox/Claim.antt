-- ===== src/Notification/Outbox/Claim.antt =====
-- `claim` of mu_strategy/notifications/store.py, once its row is found.
use mu_5x_fibonacci_trading.Base.{
  ℕ, ◌≡◌, refl, ap, ◌∙◌, true, some, find, ok, eq_iff, eq_refl, arith, map_option, updated,
  find-update_where,
}
use mu_5x_fibonacci_trading.Runtime.{Runtime}
use mu_5x_fibonacci_trading.Notification.Observation.{Observations}
use mu_5x_fibonacci_trading.Notification.Event.{
  AlertEvent, alert_event_id, alert_from_json, is_digest,
}
use mu_5x_fibonacci_trading.Notification.Outbox.{
  OutboxRow, HistoryAction, Outbox, has_event_id, claimable, claimed_row, changed, logged,
  to_record, row_consistent, row_record, delivery_record, history,
}
use mu_5x_fibonacci_trading.Notification.Outbox.Operations.{claim, claim_row}
use mu_5x_fibonacci_trading.Notification.Outbox.Unique.{IsUnique, find_own}

module _ (rt : Runtime) (obs : Observations) where
  -- The row is one that `record` reads: its payload is its event, and the columns agree.
  pub record IsReadable (r : OutboxRow) (event : AlertEvent rt obs) : Type 0 where
    pub digest : is_digest r.event_id ≡ true
    pub payload : alert_from_json rt obs r.payload ≡ some event
    pub consistent : row_consistent rt obs r event ≡ true

  pub delivery_record-found :
      (db : Outbox) (r : OutboxRow) (event : AlertEvent rt obs)
      → find (has_event_id r.event_id) db.rows ≡ some r
      → IsReadable r event
      → delivery_record rt obs r.event_id db ≡ (ok (some (to_record rt obs r event)), db)
  unfolding delivery_record row_record
  delivery_record-found db r event f h = rw (h.digest, f, h.payload, h.consistent)

  claimed-IsReadable :
      (r : OutboxRow) (event : AlertEvent rt obs)
      → IsReadable r event
      → IsReadable (claimed_row r) event
  claimed-IsReadable r event h = record {
    digest = h.digest;
    payload = h.payload;
    consistent = let c = h.consistent in ground arith;
  }

  -- The outbox after a claim.
  abbrev pub after_claim : ℕ → OutboxRow → Outbox → Outbox
  after_claim now r db =
      logged r.event_id now HistoryAction.attempt_started "unknown"
        (changed r.event_id claimed_row db)

  event_id_of_consistent :
      (r : OutboxRow) (event : AlertEvent rt obs)
      → row_consistent rt obs r event ≡ true
      → alert_event_id rt obs event ≡ r.event_id
  event_id_of_consistent r event c =
      (eq_iff (alert_event_id rt obs event) r.event_id).0 (ground (arith, c))

  claimed_found :
      (now : ℕ) (db : Outbox) (r : OutboxRow)
      → find (has_event_id r.event_id) db.rows ≡ some r
      → find (has_event_id r.event_id) (after_claim now r db).rows ≡ some (claimed_row r)
  claimed_found now db r f =
      find-update_where (has_event_id r.event_id) (has_event_id r.event_id) claimed_row db.rows
        (λ x. refl)
      ∙ ap (map_option (updated (has_event_id r.event_id) claimed_row)) f
      ∙ rw (updated, eq_refl r.event_id)

  claim_row_lem :
      (now : ℕ) (db : Outbox) (r : OutboxRow) (event : AlertEvent rt obs)
      → find (has_event_id r.event_id) db.rows ≡ some r
      → IsReadable r event
      → claim_row rt obs now (some r) db
        ≡ (ok (some (to_record rt obs (claimed_row r) event)), after_claim now r db)
  unfolding history
  claim_row_lem now db r event f h =
      rw (delivery_record-found db r event f h, event_id_of_consistent r event h.consistent)
        (delivery_record-found (after_claim now r db) (claimed_row r) event
          (claimed_found now db r f) (claimed-IsReadable r event h))

  -- `claim` by the row that its SELECT finds
  pub claim_lem :
      (now max_attempts : ℕ) (db : Outbox) (r : OutboxRow) (event : AlertEvent rt obs)
      → IsUnique db.rows
      → find (claimable now max_attempts) db.rows ≡ some r
      → IsReadable r event
      → claim rt obs now max_attempts db
        ≡ (ok (some (to_record rt obs (claimed_row r) event)), after_claim now r db)
  unfolding claim
  claim_lem now max_attempts db r event u p h =
      rw p (claim_row_lem now db r event (find_own (claimable now max_attempts) db.rows u p) h)
