-- ===== src/Ledger/Replay/Order.antt =====
-- Histories whose numbers rise: there the key of the sort, a time and a number, orders as the time
-- alone does in a stable sort.
use mu_5x_fibonacci_trading.Base.{
  ℕ, ◌+◌, ◌≤◌, ◌<◌, max, ◌≡◌, refl, ap, ◌∙◌, Bool, List, [], ◌∷◌, ◌++◌, map, leb, str_eq, arith,
  All, select, Bool-cases, inl, inr,
}
use mu_5x_fibonacci_trading.Ledger.Replay.{
  FillRevision, Latest, upsert, latest_from, at_or_before, insert_by, sort_by, revision_of,
  project_fills, max_sequence,
}

abbrev pub by_time : Latest → Latest → Bool
by_time d e = leb d.row.fill.time_ms e.row.fill.time_ms

-- The numbers rise from `n` and stay below `m`.
abbrev pub Rising : ℕ → ℕ → List FillRevision → Type 0
Rising n m [] = n ≤ m
Rising n m (r ∷ rs) = (n ≤ r.sequence) × Rising (r.sequence + 1) m rs

abbrev RisingFirst : ℕ → ℕ → List Latest → Type 0
RisingFirst n m [] = n ≤ m
RisingFirst n m (e ∷ es) = (n ≤ e.first) × RisingFirst (e.first + 1) m es

weaken_start : (n k m : ℕ) (rs : List FillRevision) → k ≤ n → Rising n m rs → Rising k m rs
weaken_start n k m [] h a = omega arith
weaken_start n k m (r ∷ rs) h a = (omega arith, a.1)

pub Rising-select :
    (test : FillRevision → Bool) (n m : ℕ) (rs : List FillRevision)
    → Rising n m rs
    → Rising n m (select test rs)
Rising-select test n m [] a = a
Rising-select test n m (r ∷ rs) a = elim (Bool-cases (test r)) [
  | inl hit ↦ rw (hit, select, Rising) (a.0, Rising-select test (r.sequence + 1) m rs a.1)
  | inr miss ↦
      rw (miss, select)
        (weaken_start (r.sequence + 1) n m (select test rs) (omega arith)
          (Rising-select test (r.sequence + 1) m rs a.1))
]

pub Rising-append :
    (n m : ℕ) (rs : List FillRevision) (r : FillRevision)
    → Rising n m rs
    → m ≤ r.sequence
    → Rising n (r.sequence + 1) (rs ++ r ∷ [])
Rising-append n m [] r a h = (omega arith, omega arith)
Rising-append n m (q ∷ rs) r a h = (a.0, Rising-append (q.sequence + 1) m rs r a.1 h)

-- The bound that the greatest number gives.
pub Rising-max_sequence :
    (n m : ℕ) (rs : List FillRevision) → Rising n m rs → Rising n (max n (max_sequence rs + 1)) rs
unfolding max_sequence
Rising-max_sequence n m [] a = omega arith
Rising-max_sequence n m (r ∷ rs) a =
    let e : max (r.sequence + 1) (max_sequence rs + 1)
        ≡ max n (max r.sequence (max_sequence rs) + 1) =
      omega arith in
    (a.0, rw (← e) (Rising-max_sequence (r.sequence + 1) m rs a.1))

widen_end : (n m k : ℕ) (es : List Latest) → RisingFirst n m es → m ≤ k → RisingFirst n k es
widen_end n m k [] a h = omega arith
widen_end n m k (e ∷ es) a h = (a.0, widen_end (e.first + 1) m k es a.1 h)

upsert-RisingFirst :
    (n m : ℕ) (r : FillRevision) (es : List Latest)
    → RisingFirst n m es
    → m ≤ r.sequence
    → RisingFirst n (r.sequence + 1) (upsert r es)
unfolding upsert
upsert-RisingFirst n m r [] a h = (omega arith, omega arith)
upsert-RisingFirst n m r (e ∷ es) a h = elim (Bool-cases (str_eq e.row.fill_id r.fill_id)) [
  | inl own ↦
      rw (own, RisingFirst) (a.0, widen_end (e.first + 1) m (r.sequence + 1) es a.1 (omega arith))
  | inr other ↦ rw (other, RisingFirst) (a.0, upsert-RisingFirst (e.first + 1) m r es a.1 h)
]

latest_from-RisingFirst :
    (n m k : ℕ) (es : List Latest) (rs : List FillRevision)
    → RisingFirst n m es
    → Rising m k rs
    → RisingFirst n k (latest_from es rs)
unfolding latest_from
latest_from-RisingFirst n m k es [] a b = widen_end n m k es a b
latest_from-RisingFirst n m k es (r ∷ rs) a b =
    latest_from-RisingFirst n (r.sequence + 1) k (upsert r es) rs
      (upsert-RisingFirst n m r es a b.0) b.1

-- The number does not count where those of the others are greater.
insert_by-by_time :
    (e : Latest) (ds : List Latest)
    → All (λ d. e.first < d.first) ds
    → insert_by at_or_before e ds ≡ insert_by by_time e ds
unfolding insert_by
insert_by-by_time e [] a = refl
insert_by-by_time e (d ∷ ds) a = ground (arith, insert_by-by_time e ds a.1)

All-insert_by :
    (P : Latest → Type 0) (before : Latest → Latest → Bool) (e : Latest) (ds : List Latest)
    → P e
    → All P ds
    → All P (insert_by before e ds)
unfolding insert_by
All-insert_by P before e [] p a = (p, tt)
All-insert_by P before e (d ∷ ds) p a = elim (Bool-cases (before e d)) [
  | inl first ↦ rw (first, All) (p, a)
  | inr later ↦ rw (later, All) (a.0, All-insert_by P before e ds p a.1)
]

All-sort_by :
    (P : Latest → Type 0) (before : Latest → Latest → Bool) (es : List Latest)
    → All P es
    → All P (sort_by before es)
unfolding sort_by
All-sort_by P before [] a = tt
All-sort_by P before (e ∷ es) a =
    All-insert_by P before e (sort_by before es) a.0 (All-sort_by P before es a.1)

RisingFirst-All :
    (n k m : ℕ) (es : List Latest) → k < n → RisingFirst n m es → All (λ e. k < e.first) es
RisingFirst-All n k m [] h a = tt
RisingFirst-All n k m (e ∷ es) h a =
    (omega arith, RisingFirst-All (e.first + 1) k m es (omega arith) a.1)

sort_by-by_time :
    (n m : ℕ) (es : List Latest) → RisingFirst n m es → sort_by at_or_before es ≡ sort_by by_time es
unfolding sort_by
sort_by-by_time n m [] a = refl
sort_by-by_time n m (e ∷ es) a =
    insert_by-by_time e (sort_by at_or_before es) (
      All-sort_by (λ d. e.first < d.first) at_or_before es
        (RisingFirst-All (e.first + 1) e.first m es (omega arith) a.1))
    ∙ ap (insert_by by_time e) (sort_by-by_time (e.first + 1) m es a.1)

-- In a history whose numbers rise, the fills are the latest revisions in a stable sort by time: those
-- of one time keep the order in which they were first submitted.
pub project_fills_stable :
    (n m : ℕ) (history : List FillRevision)
    → Rising n m history
    → project_fills history ≡ map revision_of (sort_by by_time (latest_from [] history))
unfolding project_fills
project_fills_stable n m history a = ap (map revision_of) (
    sort_by-by_time 0 m (latest_from [] history)
      (latest_from-RisingFirst 0 n m [] history (omega arith) a))
