-- ===== src/Ledger/Replay/Stable.antt =====
-- What a replay gives does not depend on the numbers of the revisions.
use mu_5x_fibonacci_trading.Base.{
  ℕ, ◌≡◌, refl, sym, ap, ◌∙◌, List, [], ◌∷◌, map, str_eq, Bool-cases, inl, inr,
}
use mu_5x_fibonacci_trading.Ledger.Fill.{Fill}
use mu_5x_fibonacci_trading.Ledger.Replay.{
  FillRevision, Latest, upsert, latest_from, insert_by, sort_by, revision_of, fill_of_revision,
  project_fills,
}
use mu_5x_fibonacci_trading.Ledger.Replay.Order.{by_time, Rising, project_fills_stable}

-- A revision without its number.
abbrev pub unnumbered : FillRevision → FillRevision
unnumbered r = record r { sequence = 0 }

abbrev unnumbered_latest : Latest → Latest
unnumbered_latest e = record { first = 0; row = unnumbered e.row }

map-upsert :
    (r : FillRevision) (es : List Latest)
    → map unnumbered_latest (upsert r es) ≡ upsert (unnumbered r) (map unnumbered_latest es)
unfolding upsert
map-upsert r [] = refl
map-upsert r (e ∷ es) = elim (Bool-cases (str_eq e.row.fill_id r.fill_id)) [
  | inl own ↦ rw own refl
  | inr other ↦ rw other (ap (λ l. unnumbered_latest e ∷ l) (map-upsert r es))
]

map-latest_from :
    (es : List Latest) (rs : List FillRevision)
    → map unnumbered_latest (latest_from es rs)
      ≡ latest_from (map unnumbered_latest es) (map unnumbered rs)
unfolding latest_from
map-latest_from es [] = refl
map-latest_from es (r ∷ rs) =
    map-latest_from (upsert r es) rs ∙ ap (λ l. latest_from l (map unnumbered rs)) (map-upsert r es)

map-insert_by :
    (e : Latest) (ds : List Latest)
    → map unnumbered_latest (insert_by by_time e ds)
      ≡ insert_by by_time (unnumbered_latest e) (map unnumbered_latest ds)
unfolding insert_by
map-insert_by e [] = refl
map-insert_by e (d ∷ ds) = elim (Bool-cases (by_time e d)) [
  | inl first ↦ rw first refl
  | inr later ↦ rw later (ap (λ l. unnumbered_latest d ∷ l) (map-insert_by e ds))
]

map-sort_by :
    (es : List Latest)
    → map unnumbered_latest (sort_by by_time es) ≡ sort_by by_time (map unnumbered_latest es)
unfolding sort_by
map-sort_by [] = refl
map-sort_by (e ∷ es) =
    map-insert_by e (sort_by by_time es)
    ∙ ap (insert_by by_time (unnumbered_latest e)) (map-sort_by es)

-- The fills that are replayed.
abbrev pub replayed : List FillRevision → List Fill
replayed history = map fill_of_revision (project_fills history)

abbrev fills_of : List Latest → List Fill
fills_of es = map fill_of_revision (map revision_of es)

fills_of-unnumbered : (es : List Latest) → fills_of es ≡ fills_of (map unnumbered_latest es)
fills_of-unnumbered [] = refl
fills_of-unnumbered (e ∷ es) = ap (λ l. e.row.fill ∷ l) (fills_of-unnumbered es)

replayed-unnumbered :
    (n m : ℕ) (history : List FillRevision)
    → Rising n m history
    → replayed history ≡ fills_of (sort_by by_time (latest_from [] (map unnumbered history)))
replayed-unnumbered n m history a =
    ap (map fill_of_revision) (project_fills_stable n m history a)
    ∙ fills_of-unnumbered (sort_by by_time (latest_from [] history))
    ∙ ap fills_of
        (map-sort_by (latest_from [] history) ∙ ap (sort_by by_time) (map-latest_from [] history))

-- Histories that differ in their numbers alone, both rising, are replayed alike.
pub replayed_alike :
    (n m k l : ℕ) (history other : List FillRevision)
    → Rising n m history
    → Rising k l other
    → map unnumbered history ≡ map unnumbered other
    → replayed history ≡ replayed other
replayed_alike n m k l history other a b same =
    replayed-unnumbered n m history a
    ∙ ap (λ rs. fills_of (sort_by by_time (latest_from [] rs))) same
    ∙ sym (replayed-unnumbered k l other b)
