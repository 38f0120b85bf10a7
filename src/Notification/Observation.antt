-- ===== src/Notification/Observation.antt =====
-- What the notifications use of mu_strategy/observations.py: the codec of an observation and the
-- two facts that an entry reminder asks for. `from_dict` is `none` where the source raises.
use mu_5x_fibonacci_trading.Base.{Bool, Option}
use mu_5x_fibonacci_trading.Runtime.{Json}

pub record Observations : Type 1 where
  pub Observation : Type 0
  pub to_dict : Observation → Json
  pub from_dict : Json → Option Observation
  pub same_observation : Observation → Observation → Bool
  pub is_ready_for_review : Observation → Bool
  pub has_entry_evidence : Observation → Bool
