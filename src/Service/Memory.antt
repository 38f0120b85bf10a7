-- ===== src/Service/Memory.antt =====
-- mu_strategy/signal_service.py: `_event` and `_phase`.
use mu_5x_fibonacci_trading.Base.{
  ℕ, zero, suc, ◌+◌, ◌-◌, ◌*◌, String, List, [], ◌∷◌, ◌>>=◌, ◌>>◌, length,
}
use mathlib.Core.List.{◌++◌ as append}
use mu_5x_fibonacci_trading.Service.Health.{Phase, EventKind, ServiceState}
use mu_5x_fibonacci_trading.Service.Valid.{event_limit}
use mu_5x_fibonacci_trading.Service.World.{Outside, Supervised, now_ms, memory, remember, write}

abbrev pub deadline_grace : ℕ
deadline_grace = 30000

-- `xs[n:]`
abbrev pub drop_first {ℓ} : {A : Type ℓ} → ℕ → List A → List A
drop_first zero xs = xs
drop_first (suc n) [] = []
drop_first (suc n) (x ∷ xs) = drop_first n xs

-- `xs[-n:]` for a positive n
abbrev pub keep_last {ℓ} : {A : Type ℓ} → ℕ → List A → List A
keep_last n xs = drop_first (length xs - n) xs

unfoldable pub add_event : EventKind → ℕ → List String → ServiceState → ServiceState
add_event kind now problems s = record s {
  events = keep_last event_limit (
      append s.events (
        record { sequence = s.event_sequence + 1; at_ms = now; kind = kind; problems = problems }
        ∷ []));
  event_sequence = s.event_sequence + 1;
}

-- `_event`
abbrev pub record_event : Outside → EventKind → List String → Supervised (Unit {0})
record_event o kind problems =
    now_ms o >>= λ now. memory >>= λ s. remember (add_event kind now problems s)

-- `_phase`
unfoldable pub set_phase : Outside → Phase → ℕ → Supervised (Unit {0})
set_phase o phase timeout = now_ms o >>= λ now. memory >>= λ s.
    let entered : ServiceState = record s {
      phase = phase;
      updated_at_ms = now;
      deadline_ms = now + timeout * 1000 + deadline_grace;
    } in
    remember entered >> write o entered
