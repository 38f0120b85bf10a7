-- ===== src/Notification/Outbox/Unique.antt =====
-- The PRIMARY KEY of the outbox: no two rows have one event id.
use mathlib.Core.Path.{subst}
use mu_5x_fibonacci_trading.Base.{
  ◌≡◌, refl, ap, ◌∙◌, String, Bool, false, none, some, List, [], ◌∷◌, ◌++◌, find, update_where,
  find-append_none, find-update_where, map_option, updated, str_eq, eq_iff, eq_refl, inl, inr,
  Bool-cases,
}
use mu_5x_fibonacci_trading.Notification.Outbox.{OutboxRow, HistoryAction, Outbox, has_event_id}
use mu_5x_fibonacci_trading.Notification.Outbox.Moves.{
  RowMove, suppressing, starting, finishing, releasing, retrying, Move, staying, recording, moving,
}

abbrev pub IsUnique : List OutboxRow → Type 0
IsUnique [] = Unit {0}
IsUnique (r ∷ rs) = (find (has_event_id r.event_id) rs ≡ none) × IsUnique rs

-- A row without the id of a search is passed over.
pub find-head_other :
    (id : String) (r : OutboxRow) (rs : List OutboxRow)
    → find (has_event_id id) (r ∷ rs) ≡ none
    → (str_eq r.event_id id ≡ false) × (find (has_event_id id) rs ≡ none)
find-head_other id r rs h = elim (Bool-cases (str_eq r.event_id id)) [
  | inl hit ↦ absurd (cc (rw (hit, find) at h))
  | inr miss ↦ (miss, rw (miss, find) at h)
]

pub str_eq_other : (a b : String) → str_eq a b ≡ false → str_eq b a ≡ false
str_eq_other a b h = elim (Bool-cases (str_eq b a)) [
  | inl same ↦ absurd (cc (h, eq_refl a, (eq_iff b a).0 same))
  | inr other ↦ other
]

pub IsUnique-append :
    (rs : List OutboxRow) (new : OutboxRow)
    → find (has_event_id new.event_id) rs ≡ none
    → IsUnique rs
    → IsUnique (rs ++ new ∷ [])
IsUnique-append [] new free u = (refl, tt)
IsUnique-append (r ∷ rs) new free u =
    let (other, rest) = find-head_other new.event_id r rs free in
    (
      find-append_none (has_event_id r.event_id) rs new u.0
          ∙ (rw (str_eq_other r.event_id new.event_id other)),
      IsUnique-append rs new rest u.1,
    )

find-update_none :
    (id : String) (test : OutboxRow → Bool) (change : OutboxRow → OutboxRow) (rs : List OutboxRow)
    → ((x : OutboxRow) → (change x).event_id ≡ x.event_id)
    → find (has_event_id id) rs ≡ none
    → find (has_event_id id) (update_where test change rs) ≡ none
find-update_none id test change rs same h =
    find-update_where (has_event_id id) test change rs (λ x. ap (λ s. str_eq s id) (same x))
    ∙ ap (map_option (updated test change)) h

pub IsUnique-update :
    (test : OutboxRow → Bool) (change : OutboxRow → OutboxRow) (rs : List OutboxRow)
    → ((x : OutboxRow) → (change x).event_id ≡ x.event_id)
    → IsUnique rs
    → IsUnique (update_where test change rs)
IsUnique-update test change [] same u = tt
IsUnique-update test change (r ∷ rs) same u = elim (Bool-cases (test r)) [
  | inl hit ↦
      rw (hit, same r)
        (
          find-update_none r.event_id test change rs same u.0,
          IsUnique-update test change rs same u.1,
        )
  | inr miss ↦
      rw miss (
        find-update_none r.event_id test change rs same u.0,
        IsUnique-update test change rs same u.1,
      )
]

-- Every row is found by its id.
find_own_head :
    (x : OutboxRow) (rs : List OutboxRow) {r : OutboxRow}
    → x ≡ r
    → find (has_event_id r.event_id) (x ∷ rs) ≡ some r
find_own_head x rs p =
    subst (λ y. find (has_event_id y.event_id) (x ∷ rs) ≡ some y) p (rw (eq_refl x.event_id, find))

find_own_tail :
    (x : OutboxRow) (rs : List OutboxRow) {r : OutboxRow}
    → find (has_event_id x.event_id) rs ≡ none
    → find (has_event_id r.event_id) rs ≡ some r
    → find (has_event_id r.event_id) (x ∷ rs) ≡ some r
find_own_tail x rs {r} free h = elim (Bool-cases (str_eq x.event_id r.event_id)) [
  | inl hit ↦ absurd (cc (free, h, (eq_iff x.event_id r.event_id).0 hit))
  | inr miss ↦ rw (miss, find) h
]

pub find_own :
    (test : OutboxRow → Bool) (rs : List OutboxRow) {r : OutboxRow}
    → IsUnique rs
    → find test rs ≡ some r
    → find (has_event_id r.event_id) rs ≡ some r
find_own test [] u h = absurd (cc h)
find_own test (x ∷ rs) u h = elim (Bool-cases (test x)) [
  | inl hit ↦ find_own_head x rs (cc (rw (hit, find) at h))
  | inr miss ↦ find_own_tail x rs u.0 (find_own test rs u.1 (rw (miss, find) at h))
]

pub RowMove-event_id :
    {action : HistoryAction} {r : OutboxRow} {change : OutboxRow → OutboxRow}
    → RowMove action r change
    → (x : OutboxRow) → (change x).event_id ≡ x.event_id
RowMove-event_id (suppressing reason h) x = refl
RowMove-event_id (starting now h) x = refl
RowMove-event_id (finishing state retryable next h k) x = refl
RowMove-event_id (releasing next h k) x = refl
RowMove-event_id (retrying next h k l) x = refl

pub Move-IsUnique : {db db' : Outbox} → Move db db' → IsUnique db.rows → IsUnique db'.rows
Move-IsUnique staying u = u
Move-IsUnique {db} (recording new now result free s a t) u = IsUnique-append db.rows new free u
Move-IsUnique {db} (moving action r change id now result found m) u =
    IsUnique-update (has_event_id id) change db.rows (RowMove-event_id m) u
