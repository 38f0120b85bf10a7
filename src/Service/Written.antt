-- ===== src/Service/Written.antt =====
-- mu_strategy/service_health.py: how `write` ends.
use mu_5x_fibonacci_trading.Base.{
  ◌≡◌, refl, Bool, true, false, not, some, ◌∷◌, str_eq, if◌then◌else◌, Result, ok, err, raise_if,
  ◌>>=◌,
}
use mu_5x_fibonacci_trading.Service.Health.{ServiceState}
use mu_5x_fibonacci_trading.Service.Valid.{service_valid}
use mu_5x_fibonacci_trading.Service.Document.{within_limit}
use mu_5x_fibonacci_trading.Service.World.{
  Outside, ServiceError, health_state_error, World, Supervised, replace_file, refuse, write,
}

abbrev pub Outcome : Type 0 → Type 0
Outcome A = Result ServiceError A × World

module _ (o : Outside) where
  -- What `write` asks of a state, and `read` of the file.
  abbrev pub IsWritten : ServiceState → Type 0
  IsWritten s =
      (service_valid s ≡ true)
      × (str_eq s.data_dir o.data_dir ≡ true)
      × (within_limit o.json_size s ≡ true)

  -- A valid state of this directory whose text exceeds the limit
  abbrev pub IsTooLarge : ServiceState → Type 0
  IsTooLarge s =
      (service_valid s ≡ true)
      × (str_eq s.data_dir o.data_dir ≡ true)
      × (within_limit o.json_size s ≡ false)

  pub guarded :
      {A : Type 0} (Q : Outcome A → Type 0) (w : World) (b : Bool) (e : ServiceError)
      (m : Supervised A)
      → Q (err e, w)
      → (b ≡ false → Q (m w))
      → Q ((raise_if b e >>= λ _. m) w)
  guarded Q w true e m fails h = fails
  guarded Q w false e m fails h = h refl

  written : (b : Bool) → not b ≡ false → b ≡ true
  written true h = refl
  written false h = absurd (cc h)

  sized :
      (Q : Outcome (Unit {0}) → Type 0) (b : Bool) (s : ServiceState) (w : World)
      → (b ≡ false → Q (err health_state_error, record w { refused = s ∷ w.refused }))
      → (b ≡ true → Q (ok tt, record w { disk = some s }))
      → Q ((if b then replace_file s else refuse s) w)
  sized Q true s w large h = h refl
  sized Q false s w large h = large refl

  -- A write fails and changes nothing, or is refused for the size, or replaces the file.
  pub writes :
      (Q : Outcome (Unit {0}) → Type 0) (s : ServiceState) (w : World)
      → Q (err health_state_error, w)
      → (IsTooLarge s → Q (err health_state_error, record w { refused = s ∷ w.refused }))
      → (IsWritten s → Q (ok tt, record w { disk = some s }))
      → Q (write o s w)
  unfolding write
  writes Q s w fails large h = guarded Q w (not (service_valid s)) _ _ fails (λ valid.
      guarded Q w (not (str_eq s.data_dir o.data_dir)) _ _ fails (λ own.
        let v = written _ valid in
        let d = written _ own in
        sized Q (within_limit o.json_size s) s w (λ no. large (v, d, no)) (λ yes. h (v, d, yes))))
