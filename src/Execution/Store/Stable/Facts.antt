-- ===== src/Execution/Store/Stable/Facts.antt =====
-- What no call of the execution store undoes: recorded intents, reserved selections, and the
-- identity of a reservation, whose state only follows the allowed transitions.
use mu_5x_fibonacci_trading.Base.{
  ℕ, ◌≡◌, refl, ap, sym, ◌∙◌, String, true, false, some, List, find, find-append_some,
  find-update_where, map_option, updated, Bool-cases, inl, inr, arith,
}
use mu_5x_fibonacci_trading.Runtime.{Runtime}
use mu_5x_fibonacci_trading.Execution.Intent.{OrderIntent, ExecutionEnvironment}
use mu_5x_fibonacci_trading.Execution.Store.{
  Db, IntentRow, ActionSelection, intent_has_id, selection_of_action,
}
use mu_5x_fibonacci_trading.Execution.Store.Operations.{unreserved_at, select_intent}
use mu_5x_fibonacci_trading.Execution.Store.Mutations.{selected_at, mark_reserved}
use mu_5x_fibonacci_trading.Execution.Store.Requests.{Request, run}
use mu_5x_fibonacci_trading.Execution.Store.Stable.{IsStable, run-Keeps}

abbrev HasIntent : String → IntentRow → Db → Type 0
HasIntent id r db = find (intent_has_id id) db.intents ≡ some r

HasIntent-IsStable : (rt : Runtime) (id : String) (r : IntentRow) → IsStable rt (HasIntent id r)
HasIntent-IsStable rt id r = record {
  intent = λ new db h. find-append_some (intent_has_id id) db.intents new h;
  selection = λ _ db h. h;
  reservation = λ _ db h. h;
  event = λ _ db h. h;
  superseded = λ _ _ _ db h. h;
  reserved = λ _ _ db h. h;
  transitioned = λ _ _ _ _ _ _ db h. h;
}

-- A recorded intent is neither removed nor changed by any calls.
pub intent_permanent :
    (rt : Runtime) (rs : List Request) (db : Db) (id : String) (r : IntentRow)
    → find (intent_has_id id) db.intents ≡ some r
    → find (intent_has_id id) (run rt rs db).intents ≡ some r
intent_permanent rt rs db id r h =
    run-Keeps rt (HasIntent id r) (HasIntent-IsStable rt id r) rs db h

abbrev HasSelection : ExecutionEnvironment → String → ActionSelection → Db → Type 0
HasSelection env action s db = find (selection_of_action env action) db.selections ≡ some s

module _ (rt : Runtime) (env : ExecutionEnvironment) (action : String) (s : ActionSelection) where
  superseded_other :
      (i : OrderIntent) (version next : ℕ)
      → s.mutation_reserved ≡ true
      → updated (unreserved_at rt i version) (select_intent rt i next) s ≡ s
  superseded_other i version next h =
      let fenced : unreserved_at rt i version s ≡ false = ground arith in rw (updated, fenced)

  reserved_again :
      (i : OrderIntent) (version : ℕ)
      → s.mutation_reserved ≡ true
      → updated (selected_at rt i version) (mark_reserved rt) s ≡ s
  reserved_again i version h = elim (Bool-cases (selected_at rt i version s)) [
    | inl hit ↦ rw (updated, hit) (ap (λ b. record s { mutation_reserved = b }) (sym h))
    | inr miss ↦ rw (updated, miss)
  ]

  HasSelection-IsStable : s.mutation_reserved ≡ true → IsStable rt (HasSelection env action s)
  HasSelection-IsStable fixed = record {
    intent = λ _ db h. h;
    selection = λ new db h. find-append_some (selection_of_action env action) db.selections new h;
    reservation = λ _ db h. h;
    event = λ _ db h. h;
    superseded = λ i version next db h.
        find-update_where (selection_of_action env action) (unreserved_at rt i version)
          (select_intent rt i next) db.selections (λ x. refl)
        ∙ ap (map_option (updated (unreserved_at rt i version) (select_intent rt i next))) h
        ∙ ap some (superseded_other i version next fixed);
    reserved = λ i version db h.
        find-update_where (selection_of_action env action) (selected_at rt i version)
          (mark_reserved rt) db.selections (λ x. refl)
        ∙ ap (map_option (updated (selected_at rt i version) (mark_reserved rt))) h
        ∙ ap some (reserved_again i version fixed);
    transitioned = λ _ _ _ _ _ _ db h. h;
  }

-- Once a mutation is reserved for a business action, no calls change which intent, fingerprint and
-- version is selected for it, nor take the reservation mark off.
pub reserved_selection_fixed :
    (rt : Runtime) (rs : List Request) (db : Db) (env : ExecutionEnvironment) (action : String)
    (s : ActionSelection)
    → find (selection_of_action env action) db.selections ≡ some s
    → s.mutation_reserved ≡ true
    → find (selection_of_action env action) (run rt rs db).selections ≡ some s
reserved_selection_fixed rt rs db env action s h fixed =
    run-Keeps rt (HasSelection env action s) (HasSelection-IsStable rt env action s fixed) rs db h
