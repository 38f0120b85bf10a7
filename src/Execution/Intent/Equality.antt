-- ===== src/Execution/Intent/Equality.antt =====
-- The dataclass equality of order intents, and of optional ones.
use mathlib.Core.Bool.{decide, decide_iff}
use native.Mathlib.Decide.{ℕ_discrete}
use mu_5x_fibonacci_trading.Base.{◌≡◌, refl, Bool, true, String-discrete}
use mu_5x_fibonacci_trading.Execution.Intent.{OrderIntent}
use mu_5x_fibonacci_trading.Entry.Decision.{EntryDecisionCode}

unfoldable pub EntryDecisionCode-discrete : Discrete EntryDecisionCode
EntryDecisionCode-discrete = hlevel

unfoldable pub OrderIntent-discrete : Discrete OrderIntent
OrderIntent-discrete = hlevel (ℕ_discrete, String-discrete, EntryDecisionCode-discrete)

unfoldable pub same_intent : OrderIntent → OrderIntent → Bool
same_intent i j = decide (OrderIntent-discrete i j)

pub same_intent→eq : (i j : OrderIntent) → same_intent i j ≡ true → i ≡ j
unfolding same_intent
same_intent→eq i j h = (decide_iff (OrderIntent-discrete i j)).0 h

pub same_intent_refl : (i : OrderIntent) → same_intent i i ≡ true
unfolding same_intent
same_intent_refl i = (decide_iff (OrderIntent-discrete i i)).1 refl
