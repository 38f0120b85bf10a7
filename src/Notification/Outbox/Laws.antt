-- ===== src/Notification/Outbox/Laws.antt =====
-- What any sequence of calls does to the outbox.
use mathlib.Core.Path.{subst}
use mathlib.Core.List.{append-nil, append_assoc}
use mu_5x_fibonacci_trading.Base.{
  ℕ, ◌+◌, ◌≤◌, ◌≡◌, refl, ap, sym, ◌∙◌, String, true, Option, none, some, List, [], ◌∷◌, ◌++◌, find,
  inl, inr, Bool-cases, str_eq, eq_iff, arith, All, All-find, find_test, map_option, updated,
  find-append_some, find-update_where,
}
use mu_5x_fibonacci_trading.Runtime.{Runtime}
use mu_5x_fibonacci_trading.Notification.Observation.{Observations}
use mu_5x_fibonacci_trading.Notification.Event.{confirmed}
use mu_5x_fibonacci_trading.Notification.Outbox.{
  OutboxRow, HistoryAction, HistoryRow, Outbox, empty_outbox, has_event_id, entry,
}
use mu_5x_fibonacci_trading.Notification.Outbox.Moves.{
  RowMove, suppressing, starting, finishing, releasing, retrying, Move, staying, recording, moving,
}
use mu_5x_fibonacci_trading.Notification.Outbox.Unique.{IsUnique, RowMove-event_id}
use mu_5x_fibonacci_trading.Notification.Outbox.Calls.{OutboxCall, outbox_run, outbox_induction}
use mu_5x_fibonacci_trading.Notification.Outbox.Sound.{IsSound, Move-IsSound}
use mu_5x_fibonacci_trading.Notification.Outbox.Ledger.{
  is_start, is_release, count_entries, attempts_of, IsBalanced, Move-IsBalanced,
}

-- The row of an event is confirmed, after so many attempts.
abbrev pub ConfirmedAfter : String → ℕ → Outbox → Type 0
ConfirmedAfter id attempts db =
    (r : OutboxRow) × (find (has_event_id id) db.rows ≡ some r)
    × (r.state ≡ confirmed)
    × (r.attempts ≡ attempts)

RowMove-confirmed :
    {action : HistoryAction} {r : OutboxRow} {change : OutboxRow → OutboxRow}
    → RowMove action r change
    → r.state ≡ confirmed
    → ((change r).state ≡ confirmed) × ((change r).attempts ≡ r.attempts)
RowMove-confirmed (suppressing reason h) c = (c, refl)
RowMove-confirmed {r = r} (starting now h) c = ground arith
RowMove-confirmed (finishing state retryable next h k) c = absurd (cc (h, c))
RowMove-confirmed (releasing next h k) c = absurd (cc (h, c))
RowMove-confirmed (retrying next h k l) c = absurd (cc (h, c))

same_row :
    (rs : List OutboxRow) (id key : String) {r x : OutboxRow}
    → find (has_event_id key) rs ≡ some r
    → find (has_event_id id) rs ≡ some x
    → str_eq x.event_id key ≡ true
    → r ≡ x
same_row rs id key {x = x} f p hit = cc (
  f,
  p,
  (eq_iff x.event_id key).0 hit,
  (eq_iff x.event_id id).0 (find_test (has_event_id id) rs p),
)

moved_confirmed :
    (db : Outbox) (id key : String) {action : HistoryAction} {r x : OutboxRow}
    {change : OutboxRow → OutboxRow}
    → find (has_event_id key) db.rows ≡ some r
    → RowMove action r change
    → find (has_event_id id) db.rows ≡ some x
    → x.state ≡ confirmed
    → ((updated (has_event_id key) change x).state ≡ confirmed)
      × ((updated (has_event_id key) change x).attempts ≡ x.attempts)
moved_confirmed db id key {r = r} {x} {change} f m p c = elim (Bool-cases (str_eq x.event_id key)) [
  | inl hit ↦
      let same = same_row db.rows id key f p hit in
      rw (updated, hit)
        (subst (λ y. ((change y).state ≡ confirmed) × ((change y).attempts ≡ y.attempts)) same
          (RowMove-confirmed m (ap (λ (y : OutboxRow). y.state) same ∙ c)))
  | inr miss ↦ rw (updated, miss) (c, refl)
]

pub Move-ConfirmedAfter :
    {db db' : Outbox} (id : String) (attempts : ℕ)
    → ConfirmedAfter id attempts db
    → Move db db'
    → ConfirmedAfter id attempts db'
Move-ConfirmedAfter id attempts c staying = c
Move-ConfirmedAfter {db} id attempts (r, f, s, a) (recording new now result free p n t) =
    (r, find-append_some (has_event_id id) db.rows new f, s, a)
Move-ConfirmedAfter {db} id attempts (x, f, s, a) (moving action r change key now result g m) =
    let (s', a') = moved_confirmed db id key g m f s in
    (
      updated (has_event_id key) change x,
      find-update_where (has_event_id id) (has_event_id key) change db.rows
            (λ y. ap (λ t. str_eq t id) (RowMove-event_id m y))
          ∙ ap (map_option (updated (has_event_id key) change)) f,
      s',
      a' ∙ a,
    )

attempts-bounded :
    (rs : List OutboxRow) (id : String) (found : Option OutboxRow)
    → find (has_event_id id) rs ≡ found
    → All IsSound rs
    → attempts_of found ≤ 3
attempts-bounded rs id none p a = omega arith
attempts-bounded rs id (some r) p a = (All-find IsSound (has_event_id id) rs a p).0

module _ (rt : Runtime) (obs : Observations) where
  -- After any calls on an empty outbox, for every event the attempts that were started exceed those
  -- that were released unsent by at most three.
  pub run_attempts :
      (cs : List (OutboxCall rt obs)) (id : String)
      → let history = (outbox_run rt obs cs empty_outbox).history in
        count_entries is_start id history ≤ count_entries is_release id history + 3
  run_attempts cs id =
      let (u, (b, a)) =
        outbox_induction rt obs (λ db. IsBalanced db × All IsSound db.rows)
          (λ db db' u (b, a) m. (Move-IsBalanced m b, Move-IsSound u a m)) cs empty_outbox tt
          ((λ id. refl), tt) in
      let db = outbox_run rt obs cs empty_outbox in
      omega (arith, b id, attempts-bounded db.rows id (find (has_event_id id) db.rows) refl a)

  -- After any calls on an empty outbox every row has at most three attempts, at least one unless it
  -- is PENDING, and is retryable only where it is FAILED.
  pub run-IsSound :
      (cs : List (OutboxCall rt obs)) → All IsSound (outbox_run rt obs cs empty_outbox).rows
  run-IsSound cs =
      (outbox_induction rt obs (λ db. All IsSound db.rows) (λ db db' u a m. Move-IsSound u a m) cs
        empty_outbox tt tt).1

  -- On an outbox whose event ids differ, a CONFIRMED event stays CONFIRMED, and is not attempted
  -- again, whatever is called.
  pub run_confirmed :
      (cs : List (OutboxCall rt obs)) (db : Outbox) (id : String) (attempts : ℕ)
      → IsUnique db.rows
      → ConfirmedAfter id attempts db
      → ConfirmedAfter id attempts (outbox_run rt obs cs db)
  run_confirmed cs db id attempts u c =
      (outbox_induction rt obs (ConfirmedAfter id attempts)
        (λ db db' u c m. Move-ConfirmedAfter id attempts c m) cs db u c).1

-- The history is only added to.
abbrev pub Extends : List HistoryRow → Outbox → Type 0
Extends hs db = (new : List HistoryRow) × (db.history ≡ hs ++ new)

Extends-entry :
    (hs : List HistoryRow) (db : Outbox) (h : HistoryRow)
    → Extends hs db
    → (new : List HistoryRow) × (db.history ++ h ∷ [] ≡ hs ++ new)
Extends-entry hs db h (new, p) =
    (new ++ h ∷ [], ap (λ l. l ++ h ∷ []) p ∙ append_assoc hs new (h ∷ []))

Move-Extends :
    {db db' : Outbox} (hs : List HistoryRow) → Extends hs db → Move db db' → Extends hs db'
Move-Extends hs e staying = e
Move-Extends {db} hs e (recording new now result free p n t) =
    Extends-entry hs db (entry new.event_id now HistoryAction.recorded result db.history) e
Move-Extends {db} hs e (moving action r change key now result g m) =
    Extends-entry hs db (entry key now action result db.history) e

-- On an outbox whose event ids differ, no call removes, reorders or changes a history entry.
pub run-history-Extends :
    (rt : Runtime) (obs : Observations) (cs : List (OutboxCall rt obs)) (db : Outbox)
    → IsUnique db.rows
    → Extends db.history (outbox_run rt obs cs db)
run-history-Extends rt obs cs db u =
    (outbox_induction rt obs (Extends db.history) (λ a b u e m. Move-Extends db.history e m) cs db u
      ([], sym (append-nil db.history))).1
