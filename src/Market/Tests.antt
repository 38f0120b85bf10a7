-- ===== src/Market/Tests.antt =====
-- The trust policy at a concrete snapshot.
use mu_5x_fibonacci_trading.Base.{
  ◌-◌, ◌*◌, max, ◌≡◌, String, ◌&&◌, none, some, List, [], ◌∷◌, leb, all, any, ltb,
}
use mu_5x_fibonacci_trading.Market.Policy.{
  DatasetHealth, AvailabilityState, IntegrityState, FreshnessState, RefreshAttemptStatus,
  SnapshotUsability, health_of, trust_decide, assess_freshness, derive_snapshot_usability,
  trading_strict_policy, is_available, is_valid, is_fresh,
}
use mu_5x_fibonacci_trading.Market.Laws.{
  fresh_intervals, manifest_fits, dataset_fits, freshness_fits, is_fresh_state, is_usable_snapshot,
  trust_decide-allowed, derive_snapshot_usability_lem, assess_freshness_lem,
}

abbrev healthy : DatasetHealth
healthy = record {
  availability = AvailabilityState.available;
  integrity = IntegrityState.valid;
  freshness = FreshnessState.fresh;
  reasons = [];
  rows = 500;
}

abbrev old : DatasetHealth
old = record healthy { freshness = FreshnessState.stale }

abbrev healths : List (String × DatasetHealth)
healths = ("5m", healthy) ∷ ("15m", old) ∷ []

abbrev required : List String
required = "5m" ∷ "15m" ∷ []

trust_decide-allowed_example :
    (trust_decide trading_strict_policy RefreshAttemptStatus.success SnapshotUsability.usable
      healths required none).allowed
    ≡ (manifest_fits trading_strict_policy RefreshAttemptStatus.success SnapshotUsability.usable
          none
        && (all (λ s. dataset_fits trading_strict_policy (health_of s healths)) required
            && all
                (λ s. freshness_fits trading_strict_policy (health_of s healths))
                (fresh_intervals required none)))
trust_decide-allowed_example =
    trust_decide-allowed trading_strict_policy RefreshAttemptStatus.success SnapshotUsability.usable
      healths required none

derive_snapshot_usability_lem_example :
    is_usable_snapshot (derive_snapshot_usability (healthy ∷ old ∷ [])) ≡ (
      any (λ h. ltb 0 h.rows) (healthy ∷ old ∷ [])
      && all (λ h. is_available h && (is_valid h && is_fresh h)) (healthy ∷ old ∷ []))
derive_snapshot_usability_lem_example = derive_snapshot_usability_lem (healthy ∷ old ∷ [])

assess_freshness_lem_example :
    is_fresh_state (assess_freshness 3 2000000 300000 (some 1200000)).state
    ≡ (leb 1200000 2000000 && leb (2000000 - 1200000) (300000 * max 1 3))
assess_freshness_lem_example = assess_freshness_lem 3 2000000 300000 1200000
