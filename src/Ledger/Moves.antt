-- ===== src/Ledger/Moves.antt =====
-- What a call of the ledger does to its tables: nothing, or one more fill, with its position if it
-- is new, or one more state.
pub mod Saving
pub mod Confirming
use mu_5x_fibonacci_trading.Base.{
  ℕ, suc, ◌+◌, ◌≡◌, refl, sym, ap, ◌∙◌, String, Bool, true, false, Option, none, some, List, [],
  ◌∷◌, ◌++◌, any, is_some, leb,
}
use mu_5x_fibonacci_trading.Ledger.Externals.{Externals}
use mu_5x_fibonacci_trading.Ledger.Replay.{
  FillRevision, StateRevision, Projection, project, max_sequence, is_open, current_state,
}
use mu_5x_fibonacci_trading.Ledger.Store.{
  Position, Ledger, known_position, history_of, states_of, state_valid,
}
use mu_5x_fibonacci_trading.Ledger.Save.{clashes, next_sequence}
use mu_5x_fibonacci_trading.Ledger.Confirm.{state_clashes}

-- The row of the trial replay: its number follows those of the position.
abbrev pub trial_row : FillRevision → List FillRevision → FillRevision
trial_row r history = record r { sequence = max_sequence history + 1 }

abbrev pub with_fill : FillRevision → List Position → Ledger → Ledger
with_fill r ps l = record l { present = true; positions = ps; fills = l.fills ++ r ∷ [] }

abbrev pub with_state : StateRevision → Ledger → Ledger
with_state s l = record l { states = l.states ++ s ∷ [] }

module _ (x : Externals) where
  -- A row that was inserted after a trial replay behind `history`.
  pub record IsNewFill (l : Ledger) (history : List FillRevision) (r : FillRevision) : Type 0 where
    pub number : r.sequence ≡ next_sequence l
    pub fresh : any (clashes r) l.fills ≡ false
    pub trial : is_some (project x (history ++ trial_row r history ∷ [])) ≡ true

  -- A state that was confirmed against what the ledger shows.
  pub record IsNewState (l : Ledger) (s : StateRevision) : Type 0 where
    pub known : known_position x l.positions s.position_id ≡ true
    pub valid : leb 1 s.fill_sequence ≡ true → state_valid x s ≡ true
    pub seen : Projection x
    pub projected : project x (history_of x s.position_id l) ≡ some seen
    pub opened : is_open seen.status ≡ true
    pub sequence : s.fill_sequence ≡ seen.fill_sequence
    pub revision : s.revision ≡ (current_state x seen (states_of x s.position_id l)).revision + 1
    pub fresh : any (state_clashes s) l.states ≡ false

  pub data Move (l : Ledger) : Ledger → Type 0 where
    stay : Move l l
    opened : Move l (record l { present = true })
    created :
        (p : Position) (r : FillRevision)
        → known_position x l.positions p.position_id ≡ false
        → r.position_id ≡ p.position_id
        → IsNewFill l [] r
        → Move l (with_fill r (p ∷ l.positions) l)
    added :
        (r : FillRevision)
        → known_position x l.positions r.position_id ≡ true
        → IsNewFill l (history_of x r.position_id l) r
        → Move l (with_fill r l.positions l)
    confirmed : (s : StateRevision) → IsNewState l s → Move l (with_state s l)
