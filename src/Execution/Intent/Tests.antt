-- ===== src/Execution/Intent/Tests.antt =====
-- The theorems on order intents at concrete intents.
use mu_5x_fibonacci_trading.Base.{◌+◌, ◌*◌, ◌≤◌, ◌<◌, ◌≡◌, some}
use mu_5x_fibonacci_trading.Execution.Sample.{toy, first_intent, first-validate}
use mu_5x_fibonacci_trading.Execution.Intent.{scanner_interval_ms}
use mu_5x_fibonacci_trading.Execution.Intent.Codec.{to_dict, from_dict}
use mu_5x_fibonacci_trading.Execution.Intent.Laws.{validate_times, from_dict-to_dict}

times_test :
    (first_intent.signal_time_ms ≤ first_intent.observed_at_ms)
    × (first_intent.observed_at_ms ≤ first_intent.created_at_ms)
    × (first_intent.created_at_ms < first_intent.expires_at_ms)
    × (first_intent.expires_at_ms
        ≡ first_intent.signal_time_ms
          + first_intent.second_pullback_wait_bars * scanner_interval_ms)
times_test = validate_times toy first_intent first-validate

from_dict-to_dict_example : from_dict toy (to_dict first_intent) ≡ some first_intent
from_dict-to_dict_example = from_dict-to_dict toy first_intent first-validate
