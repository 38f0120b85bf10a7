-- ===== src/Ledger/Readable.antt =====
-- The ledger can be read: what this asks of the tables, and that reading then returns.
pub mod Calls
use mathlib.Core.Path.{subst}
use mathlib.Core.List.{map-append, append-nil}
use mu_5x_fibonacci_trading.Base.{
  ℕ, suc, ◌+◌, ◌≤◌, max, ◌≡◌, refl, sym, ap, ◌∙◌, String, Bool, true, false, not, ◌&&◌, ◌||◌,
  Option, none, some, List, [], ◌∷◌, ◌++◌, map, str_eq, eq_refl, eq_iff, leb, if◌then◌else◌,
  is_some, select, any, all, Exec, Result, ok, err, raise_if, ◌>>=◌, ◌>>◌, All, All-append,
  Bool-cases, inl, inr, arith, Option-cases, continue,
}
use mu_5x_fibonacci_trading.Runtime.{Runtime}
use mu_5x_fibonacci_trading.Notification.Observation.{Observations}
use mu_5x_fibonacci_trading.Ledger.Externals.{Externals, DigitsBelowTen}
use mu_5x_fibonacci_trading.Ledger.Replay.{
  FillRevision, StateRevision, Projection, project, max_sequence, is_open, replay, no_holding,
  projection,
}
use mu_5x_fibonacci_trading.Ledger.Replay.Order.{
  Rising, Rising-select, Rising-append, Rising-max_sequence,
}
use mu_5x_fibonacci_trading.Ledger.Replay.Stable.{unnumbered, replayed, replayed_alike}
use mu_5x_fibonacci_trading.Ledger.Store.{
  Position, Ledger, empty_ledger, has_position_id, of_position, known_position, history_of,
  states_of, state_valid, PositionView, position_view, view_of, read_positions, read, fills_known,
  states_known,
}
use mu_5x_fibonacci_trading.Ledger.Form.{SignalFields}
use mu_5x_fibonacci_trading.Ledger.Save.{next_sequence}
use mu_5x_fibonacci_trading.Ledger.Requests.{
  LedgerRequest, save_request, state_request, step, run, run_induction,
}
use mu_5x_fibonacci_trading.Ledger.Moves.{
  Move, stay, opened, created, added, confirmed, IsNewFill, IsNewState, trial_row, with_fill,
}
use mu_5x_fibonacci_trading.Ledger.Moves.Saving.{save-Move}
use mu_5x_fibonacci_trading.Ledger.Moves.Confirming.{save_state-Move}

pub select-append {ℓ} :
    {A : Type ℓ} (test : A → Bool) (xs : List A) (y : A)
    → select test (xs ++ y ∷ []) ≡ select test xs ++ (if test y then y ∷ [] else [])
select-append test [] y = elim (Bool-cases (test y)) [
  | inl hit ↦ rw (hit, select)
  | inr miss ↦ rw (miss, select)
]
select-append test (x ∷ xs) y = elim (Bool-cases (test x)) [
  | inl hit ↦ rw (hit, select) (ap (λ l. x ∷ l) (select-append test xs y))
  | inr miss ↦ rw (miss, select) (select-append test xs y)
]

all-All {ℓ} : {A : Type ℓ} (f : A → Bool) (xs : List A) → All (λ a. f a ≡ true) xs → all f xs ≡ true
all-All f [] h = refl
all-All f (x ∷ xs) h = rw (h.0, all-All f xs h.1) refl

pub max_sequence-append :
    (rs : List FillRevision) (r : FillRevision)
    → max_sequence (rs ++ r ∷ []) ≡ max (max_sequence rs) r.sequence
unfolding max_sequence
max_sequence-append [] r = omega arith
max_sequence-append (q ∷ rs) r = omega (arith, max_sequence-append rs r)

module _ (x : Externals) where
  abbrev pub Replays : Ledger → Position → Type 0
  Replays l p = is_some (project x (history_of x p.position_id l)) ≡ true

  abbrev pub IsKnown : List Position → String → Type 0
  IsKnown ps id = known_position x ps id ≡ true

  pub record IsReadable (l : Ledger) : Type 0 where
    pub rising : Rising 1 (next_sequence l) l.fills
    pub fills : All (λ (r : FillRevision). IsKnown l.positions r.position_id) l.fills
    pub replays : All (Replays l) l.positions
    pub known : All (λ (s : StateRevision). IsKnown l.positions s.position_id) l.states
    pub valid : All (λ (s : StateRevision). state_valid x s ≡ true) l.states

  -- Reading returns.
  Reads : Ledger → Type 0
  Reads l = (views : List (PositionView x)) × (read x l ≡ (ok views, l))

  read_positions-ok :
      (l : Ledger) (ps : List Position)
      → All (Replays l) ps
      → (views : List (PositionView x)) × (read_positions x ps l ≡ (ok views, l))
  unfolding read_positions
  read_positions-ok l [] h = ([], refl)
  read_positions-ok l (p ∷ ps) h =
      let (views, rest) = read_positions-ok l ps h.1 in
      elim (Option-cases (project x (history_of x p.position_id l))) [
        | inl failed ↦ absurd (cc (rw failed at h.0))
        | inr (seen, projected) ↦
            (position_view x p (states_of x p.position_id l) seen ∷ views, rw (projected, rest))
      ]

  pub IsReadable-read :
      (l : Ledger) → IsReadable l → (views : List (PositionView x)) × (read x l ≡ (ok views, l))
  unfolding read
  IsReadable-read l h =
      let (views, done) = read_positions-ok l l.positions h.replays in
      (
        views,
        rw (
          all-All (λ (r : FillRevision). known_position x l.positions r.position_id) l.fills
              h.fills,
          all-All (state_valid x) l.states h.valid,
          all-All (λ (s : StateRevision). known_position x l.positions s.position_id) l.states
              h.known,
          done,
        ),
      )

  -- A replay goes through where one with the same fills does.
  project_alike :
      (history other : List FillRevision)
      → replayed history ≡ replayed other
      → is_some (project x other) ≡ true
      → is_some (project x history) ≡ true
  unfolding project
  project_alike history other same h =
      elim (Option-cases (replay x (replayed history) (no_holding x))) [
        | inl failed ↦ absurd (cc (rw (← same, failed) at h))
        | inr (holding, ran) ↦ rw ran refl
      ]

  -- The trial replay stands for that of the row as it is stored.
  pub trial_row-alike :
      (l : Ledger) (history : List FillRevision) (r : FillRevision)
      → Rising 1 (next_sequence l) history
      → IsNewFill x l history r
      → is_some (project x (history ++ r ∷ [])) ≡ true
  trial_row-alike l history r a new =
      let t = trial_row r history in
      project_alike (history ++ r ∷ []) (history ++ t ∷ [])
        (replayed_alike 1 (r.sequence + 1) 1 (t.sequence + 1) (history ++ r ∷ [])
          (history ++ t ∷ [])
          (Rising-append 1 (next_sequence l) history r a (omega (arith, new.number)))
          (Rising-append 1 (max 1 (max_sequence history + 1)) history t
            (Rising-max_sequence 1 (next_sequence l) history a) (omega arith))
          (map-append unnumbered history (r ∷ []) ∙ sym (map-append unnumbered history (t ∷ []))))
        new.trial
