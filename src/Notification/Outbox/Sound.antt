-- ===== src/Notification/Outbox/Sound.antt =====
-- What every row of a reachable outbox satisfies.
use mathlib.Core.Path.{subst}
use mu_5x_fibonacci_trading.Base.{
  ◌≤◌, ◌≡◌, refl, ap, eq_iff, String, Bool, true, false, none, some, List, [], ◌∷◌, find,
  update_where, inl, inr, Bool-cases, str_eq, arith, All, All-append, All-find,
}
use mu_5x_fibonacci_trading.Notification.Event.{DeliveryState, pending, failed, same_delivery}
use mu_5x_fibonacci_trading.Notification.Outbox.{OutboxRow, HistoryAction, Outbox, has_event_id}
use mu_5x_fibonacci_trading.Notification.Outbox.Moves.{
  RowMove, suppressing, starting, finishing, releasing, retrying, Move, staying, recording, moving,
}
use mu_5x_fibonacci_trading.Notification.Outbox.Unique.{IsUnique}

-- At most three attempts; a state other than `pending` has one; only `failed` is retryable.
abbrev pub IsSound : OutboxRow → Type 0
IsSound r =
    (r.attempts ≤ 3)
    × (same_delivery r.state pending ≡ false → 1 ≤ r.attempts)
    × (r.retryable ≡ true → r.state ≡ failed)

failed_of_same : (s : DeliveryState) → same_delivery s failed ≡ true → s ≡ failed
failed_of_same s h = ground arith

RowMove-IsSound :
    {action : HistoryAction} {r : OutboxRow} {change : OutboxRow → OutboxRow}
    → RowMove action r change
    → IsSound r
    → IsSound (change r)
RowMove-IsSound (suppressing reason h) s = s
RowMove-IsSound {r = r} (starting now h) (a, b, c) = (ground arith, λ _. omega arith, λ p. cc p)
RowMove-IsSound {r = r} (finishing state retryable next h k) (a, b, c) =
    (a, λ _. b (ap (λ s. same_delivery s pending) h), λ p. failed_of_same state (ground arith))
RowMove-IsSound {r = r} (releasing next h k) (a, b, c) = (omega arith, λ p. cc p, λ p. cc p)
RowMove-IsSound {r = r} (retrying next h k l) (a, b, c) = (a, b, λ _. h)

update-find-none :
    {A : Type 0} (test : A → Bool) (change : A → A) (rs : List A)
    → find test rs ≡ none
    → update_where test change rs ≡ rs
update-find-none test change [] h = refl
update-find-none test change (r ∷ rs) h = elim (Bool-cases (test r)) [
  | inl hit ↦ absurd (cc (rw (hit, find) at h))
  | inr miss ↦ rw miss (ap (λ l. r ∷ l) (update-find-none test change rs (rw (miss, find) at h)))
]

-- An UPDATE by event id changes the row that `record` reads, and no other.
All-update_id :
    (P : OutboxRow → Type 0) (id : String) (change : OutboxRow → OutboxRow) (rs : List OutboxRow)
    {r : OutboxRow}
    → IsUnique rs
    → find (has_event_id id) rs ≡ some r
    → P (change r)
    → All P rs
    → All P (update_where (has_event_id id) change rs)
All-update_id P id change [] u f p a = tt
All-update_id P id change (x ∷ rs) {r} u f p a = elim (Bool-cases (str_eq x.event_id id)) [
  | inl hit ↦ rw hit (
    subst (λ y. P (change y)) (cc (rw (hit, find) at f)) p,
    rw
        (update-find-none (has_event_id id) change rs
          (subst (λ s. find (has_event_id s) rs ≡ none) ((eq_iff x.event_id id).0 hit) u.0))
        a.1,
  )
  | inr miss ↦ rw miss (a.0, All-update_id P id change rs u.1 (rw (miss, find) at f) p a.1)
]

pub Move-IsSound :
    {db db' : Outbox} → IsUnique db.rows → All IsSound db.rows → Move db db' → All IsSound db'.rows
Move-IsSound u a staying = a
Move-IsSound {db} u a (recording new now result free s n t) =
    All-append IsSound db.rows (new ∷ []) a
      ((omega (arith, n), (λ p. cc (p, s)), (λ p. cc (p, t))), tt)
Move-IsSound {db} u a (moving action r change id now result f m) =
    All-update_id IsSound id change db.rows u f
      (RowMove-IsSound m (All-find IsSound (has_event_id id) db.rows a f)) a
