-- ===== src/Notification/Outbox/Ledger.antt =====
-- The delivery history accounts for the attempts of every row.
use mu_5x_fibonacci_trading.Base.{
  ℕ, ◌+◌, ◌≡◌, refl, ap, sym, ◌∙◌, eq_iff, eq_refl, String, Bool, true, false, ◌&&◌, Option, none,
  some, List, [], ◌∷◌, ◌++◌, find, inl, inr, Bool-cases, str_eq, arith, find_test, map_option,
  updated, find-append_some, find-append_none, find-update_where, if◌then◌else◌, update_where,
}
use mu_5x_fibonacci_trading.Notification.Outbox.{
  OutboxRow, HistoryAction, HistoryRow, Outbox, has_event_id, entry,
}
use mu_5x_fibonacci_trading.Notification.Outbox.Moves.{
  RowMove, suppressing, starting, finishing, releasing, retrying, Move, staying, recording, moving,
}
use mu_5x_fibonacci_trading.Notification.Outbox.Unique.{RowMove-event_id}

abbrev pub is_start : HistoryAction → Bool
is_start HistoryAction.attempt_started = true
is_start _ = false

abbrev pub is_release : HistoryAction → Bool
is_release HistoryAction.attempt_not_started = true
is_release _ = false

-- The entries of an event whose action passes a test.
abbrev pub count_entries : (HistoryAction → Bool) → String → List HistoryRow → ℕ
count_entries test id [] = 0
count_entries test id (h ∷ hs) =
    (if str_eq h.event_id id && test h.action then 1 else 0) + count_entries test id hs

abbrev pub attempts_of : Option OutboxRow → ℕ
attempts_of none = 0
attempts_of (some r) = r.attempts

-- The attempts started for an event are its recorded attempts and those released unsent.
abbrev pub IsBalanced : Outbox → Type 0
IsBalanced db =
    (id : String)
    → count_entries is_start id db.history
      ≡ attempts_of (find (has_event_id id) db.rows) + count_entries is_release id db.history

count_entries-append :
    (test : HistoryAction → Bool) (id : String) (hs : List HistoryRow) (h : HistoryRow)
    → count_entries test id (hs ++ h ∷ [])
      ≡ count_entries test id hs + (if str_eq h.event_id id && test h.action then 1 else 0)
count_entries-append test id [] h = omega arith
count_entries-append test id (x ∷ hs) h = omega (arith, count_entries-append test id hs h)

-- The balance of one row under its move.
RowMove-attempts :
    {action : HistoryAction} {r : OutboxRow} {change : OutboxRow → OutboxRow}
    → RowMove action r change
    → r.attempts + (if is_start action then 1 else 0)
      ≡ (change r).attempts + (if is_release action then 1 else 0)
RowMove-attempts (suppressing reason h) = omega arith
RowMove-attempts (starting now h) = omega arith
RowMove-attempts (finishing state retryable next h k) = omega arith
RowMove-attempts (releasing next h k) = omega arith
RowMove-attempts (retrying next h k l) = omega arith

attempts-append_found :
    (rs : List OutboxRow) (new : OutboxRow) (id : String) (found : Option OutboxRow)
    → new.attempts ≡ 0
    → find (has_event_id id) rs ≡ found
    → attempts_of (find (has_event_id id) (rs ++ new ∷ [])) ≡ attempts_of found
attempts-append_found rs new id (some x) z p =
    ap attempts_of (find-append_some (has_event_id id) rs new p)
attempts-append_found rs new id none z p =
    ap attempts_of (find-append_none (has_event_id id) rs new p)
    ∙ (elim (Bool-cases (str_eq new.event_id id)) [ inl hit ↦ rw hit z | inr miss ↦ rw miss ])

-- The rows that an UPDATE by `key` and a search by `id` have in common.
attempts-update_same :
    (rs : List OutboxRow) (key : String) (change : OutboxRow → OutboxRow) {r : OutboxRow}
    → ((x : OutboxRow) → (change x).event_id ≡ x.event_id)
    → find (has_event_id key) rs ≡ some r
    → attempts_of (find (has_event_id key) (update_where (has_event_id key) change rs))
      ≡ (change r).attempts
attempts-update_same rs key change {r} same f =
    ap attempts_of (
      find-update_where (has_event_id key) (has_event_id key) change rs
        (λ x. ap (λ s. str_eq s key) (same x)))
    ∙ ap (λ o. attempts_of (map_option (updated (has_event_id key) change) o)) f
    ∙ rw (updated, find_test (has_event_id key) rs f)

attempts-updated_other :
    (key id : String) (change : OutboxRow → OutboxRow) (rs : List OutboxRow)
    (found : Option OutboxRow)
    → str_eq key id ≡ false
    → find (has_event_id id) rs ≡ found
    → attempts_of (map_option (updated (has_event_id key) change) found) ≡ attempts_of found
attempts-updated_other key id change rs none other p = refl
attempts-updated_other key id change rs (some x) other p =
    elim (Bool-cases (str_eq x.event_id key)) [
      | inl hit ↦ absurd (
          cc (
            other,
            (eq_iff x.event_id key).0 hit,
            (eq_iff x.event_id id).0 (find_test (has_event_id id) rs p),
          ))
      | inr miss ↦ rw (updated, miss)
    ]

attempts-update_other :
    (rs : List OutboxRow) (key id : String) (change : OutboxRow → OutboxRow)
    → ((x : OutboxRow) → (change x).event_id ≡ x.event_id)
    → str_eq key id ≡ false
    → attempts_of (find (has_event_id id) (update_where (has_event_id key) change rs))
      ≡ attempts_of (find (has_event_id id) rs)
attempts-update_other rs key id change same other =
    ap attempts_of (
      find-update_where (has_event_id id) (has_event_id key) change rs
        (λ x. ap (λ s. str_eq s id) (same x)))
    ∙ attempts-updated_other key id change rs (find (has_event_id id) rs) other refl

-- Both counts of an event grow by what one entry adds.
balance_entry :
    (id : String) (hs : List HistoryRow) (h : HistoryRow) (before after : ℕ)
    → count_entries is_start id hs ≡ before + count_entries is_release id hs
    → before + (if str_eq h.event_id id && is_start h.action then 1 else 0)
      ≡ after + (if str_eq h.event_id id && is_release h.action then 1 else 0)
    → count_entries is_start id (hs ++ h ∷ []) ≡ after + count_entries is_release id (hs ++ h ∷ [])
balance_entry id hs h before after b e =
    omega
      (arith, count_entries-append is_start id hs h, count_entries-append is_release id hs h, b, e)

balance_move :
    (db : Outbox) (action : HistoryAction) (r : OutboxRow) (change : OutboxRow → OutboxRow)
    (key : String) (id : String)
    → find (has_event_id key) db.rows ≡ some r
    → RowMove action r change
    → attempts_of (find (has_event_id id) db.rows)
        + (if str_eq key id && is_start action then 1 else 0)
      ≡ attempts_of (find (has_event_id id) (update_where (has_event_id key) change db.rows))
        + (if str_eq key id && is_release action then 1 else 0)
balance_move db action r change key id f m = elim (Bool-cases (str_eq key id)) [
  | inl hit ↦
      rw
        (
          sym ((eq_iff key id).0 hit),
          eq_refl key,
          f,
          attempts-update_same db.rows key change (RowMove-event_id m) f,
        )
        (RowMove-attempts m)
  | inr miss ↦ rw (miss, attempts-update_other db.rows key id change (RowMove-event_id m) miss)
]

pub Move-IsBalanced : {db db' : Outbox} → Move db db' → IsBalanced db → IsBalanced db'
Move-IsBalanced staying b = b
Move-IsBalanced {db} (recording new now result free s n t) b = λ id.
    balance_entry id db.history (entry new.event_id now HistoryAction.recorded result db.history)
      (attempts_of (find (has_event_id id) db.rows))
      (attempts_of (find (has_event_id id) (db.rows ++ new ∷ []))) (b id)
      (rw (attempts-append_found db.rows new id (find (has_event_id id) db.rows) n refl))
Move-IsBalanced {db} (moving action r change key now result f m) b = λ id.
    balance_entry id db.history (entry key now action result db.history)
      (attempts_of (find (has_event_id id) db.rows))
      (attempts_of (find (has_event_id id) (update_where (has_event_id key) change db.rows))) (b id)
      (balance_move db action r change key id f m)
