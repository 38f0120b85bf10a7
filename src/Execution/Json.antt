-- ===== src/Execution/Json.antt =====
-- Equality of JSON values: of the canonical texts that the database stores.
use mathlib.Core.Bool.{decide, decide_iff}
use native.Mathlib.Decide.{ℕ_discrete}
use mu_5x_fibonacci_trading.Base.{◌≡◌, refl, Bool, true, String-discrete}
use mu_5x_fibonacci_trading.Runtime.{Json}

unfoldable pub Json-discrete : Discrete Json
Json-discrete = hlevel (ℕ_discrete, String-discrete)

unfoldable pub same_json : Json → Json → Bool
same_json a b = decide (Json-discrete a b)

pub same_json→eq : (a b : Json) → same_json a b ≡ true → a ≡ b
unfolding same_json
same_json→eq a b h = (decide_iff (Json-discrete a b)).0 h

pub same_json_refl : (a : Json) → same_json a a ≡ true
unfolding same_json
same_json_refl a = (decide_iff (Json-discrete a a)).1 refl
