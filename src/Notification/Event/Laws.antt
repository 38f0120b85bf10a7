-- ===== src/Notification/Event/Laws.antt =====
-- The round trip of a reminder through its dictionary.
use mu_5x_fibonacci_trading.Base.{
  ℕ, not, is_some, ◌⊎◌, inl, inr, arith, ◌≡◌, refl, String, true, Option, none, some, List, [], ◌∷◌,
  eq_refl,
}
use mu_5x_fibonacci_trading.Runtime.{Runtime}
use mu_5x_fibonacci_trading.Runtime.Json.{text}
use mu_5x_fibonacci_trading.Notification.Observation.{Observations}
use mu_5x_fibonacci_trading.Notification.Event.{
  AlertKind, entry_review, signal_invalidated, service_fault, service_recovered, AlertEvent,
  kind_value, read_kind, read_problems, problem_items, read_optional_num, optional_num,
  read_optional_text, optional_text, read_observation, observation_json, context_valid, alert_valid,
  alert_to_dict, read_alert, alert_from_json,
}

read_problems-problem_items : (ps : List String) → read_problems (problem_items ps) ≡ some ps
read_problems-problem_items [] = refl
read_problems-problem_items (p ∷ ps) = rw (read_problems-problem_items ps)

read_optional_num-optional_num : (n : Option ℕ) → read_optional_num (some (optional_num n)) ≡ some n
read_optional_num-optional_num none = refl
read_optional_num-optional_num (some n) = refl

read_optional_text-optional_text :
    (s : Option String) → read_optional_text (some (optional_text s)) ≡ some s
read_optional_text-optional_text none = refl
read_optional_text-optional_text (some s) = refl

-- A reminder of a fault of the service, or of its end
abbrev pub IsService : AlertKind → Type 0
IsService k = (k ≡ service_fault) ⊎ (k ≡ service_recovered)

module _ (rt : Runtime) (obs : Observations) where
  open obs use {Observation}

  read_kind-kind_value : (k : AlertKind) → read_kind rt obs (some (text (kind_value k))) ≡ some k
  read_kind-kind_value entry_review = refl
  read_kind-kind_value signal_invalidated = refl
  read_kind-kind_value service_fault = refl
  read_kind-kind_value service_recovered = refl

  no_observation : (o : Option Observation) → not (is_some o) ≡ true → o ≡ none
  no_observation none h = refl
  no_observation (some o) h = absurd (cc h)

  -- A valid reminder of the service carries no observation.
  pub alert_valid-none :
      (e : AlertEvent rt obs)
      → IsService e.kind
      → alert_valid rt obs e ≡ true
      → e.observation ≡ none
  unfolding alert_valid context_valid
  alert_valid-none e (inl k) v = no_observation e.observation (ground (arith, rw k at v))
  alert_valid-none e (inr k) v = no_observation e.observation (ground (arith, rw k at v))

  read_observation-none :
      (o : Option Observation)
      → o ≡ none
      → read_observation rt obs (some (observation_json rt obs o)) ≡ some o
  read_observation-none none h = refl
  read_observation-none (some o) h = absurd (cc h)

  -- A valid reminder of a fault of the service, or of its end, survives `to_dict` and `from_json`.
  pub alert_from_json-alert_to_dict :
      (e : AlertEvent rt obs)
      → IsService e.kind
      → alert_valid rt obs e ≡ true
      → alert_from_json rt obs (alert_to_dict rt obs e) ≡ some e
  unfolding alert_from_json alert_to_dict read_alert
  alert_from_json-alert_to_dict e k v = rw (
    read_problems-problem_items,
    read_kind-kind_value,
    read_optional_num-optional_num,
    read_observation-none e.observation (alert_valid-none e k v),
    read_optional_text-optional_text,
    v,
    eq_refl,
  )
