-- ===== src/Market/Laws.antt =====
-- When a snapshot is trusted, usable and fresh: an independent description of each decision.
use mu_5x_fibonacci_trading.Base.{
  ℕ, ◌-◌, ◌*◌, max, ◌≡◌, refl, ap, ◌∙◌, String, Bool, true, false, not, ◌&&◌, ◌||◌, Option, none,
  some, List, [], ◌∷◌, length, ◌==◌, leb, ltb, any, all, arith, inl, inr, Bool-cases, if◌then◌else◌,
}
use mu_5x_fibonacci_trading.Market.Policy.{
  RefreshAttemptStatus, SnapshotUsability, DatasetHealth, FreshnessState, is_available, is_valid,
  is_fresh, is_stale, is_unknown, is_usable, derive_snapshot_usability, assess_freshness,
  TrustPolicy, TrustDecision, health_of, fresh_or, fresh_loop, usable_or, usable_loop,
  freshness_required, is_none, manifest_gate, trust_decide,
}

-- The manifest is acceptable to the policy.
abbrev pub manifest_fits :
    TrustPolicy → RefreshAttemptStatus → SnapshotUsability → Option (List String) → Bool
manifest_fits policy RefreshAttemptStatus.failed usability freshness =
    not policy.require_manifest_success
manifest_fits policy _ SnapshotUsability.invalid freshness = not policy.require_manifest_success
manifest_fits policy _ SnapshotUsability.stale freshness =
    not policy.require_manifest_success || not (is_none freshness)
manifest_fits policy _ SnapshotUsability.usable freshness = true

abbrev pub dataset_fits : TrustPolicy → Option DatasetHealth → Bool
dataset_fits policy none = false
dataset_fits policy (some h) = is_available h && (is_valid h || policy.allow_invalid)

abbrev pub freshness_fits : TrustPolicy → Option DatasetHealth → Bool
freshness_fits policy none = false
freshness_fits policy (some h) = is_fresh h || not policy.require_fresh

fresh_step :
    (policy : TrustPolicy) (found : Option DatasetHealth) (rest : TrustDecision)
    → (fresh_or policy found rest).allowed ≡ (freshness_fits policy found && rest.allowed)
fresh_step policy none rest = refl
fresh_step policy (some h) rest = ground arith

usable_step :
    (policy : TrustPolicy) (found : Option DatasetHealth) (rest : TrustDecision)
    → (usable_or policy found rest).allowed ≡ (dataset_fits policy found && rest.allowed)
usable_step policy none rest = refl
usable_step policy (some h) rest = ground arith

and_assoc : (a b c : Bool) → (a && (b && c)) ≡ ((a && b) && c)
and_assoc a b c = ground arith

manifest_step :
    (policy : TrustPolicy) (attempt : RefreshAttemptStatus) (usability : SnapshotUsability)
    (freshness : Option (List String)) (rest : TrustDecision)
    → (manifest_gate policy attempt usability freshness rest).allowed
      ≡ (manifest_fits policy attempt usability freshness && rest.allowed)
manifest_step policy attempt usability freshness rest = ground arith

fresh_loop-allowed :
    (policy : TrustPolicy) (healths : List (String × DatasetHealth)) (intervals : List String)
    → (fresh_loop policy healths intervals).allowed
      ≡ all (λ s. freshness_fits policy (health_of s healths)) intervals
fresh_loop-allowed policy healths [] = refl
fresh_loop-allowed policy healths (s ∷ rest) =
    fresh_step policy (health_of s healths) (fresh_loop policy healths rest)
    ∙ ap (λ b. freshness_fits policy (health_of s healths) && b)
        (fresh_loop-allowed policy healths rest)

usable_loop-allowed :
    (policy : TrustPolicy) (healths : List (String × DatasetHealth)) (intervals : List String)
    (after : TrustDecision)
    → (usable_loop policy healths intervals after).allowed
      ≡ (all (λ s. dataset_fits policy (health_of s healths)) intervals && after.allowed)
usable_loop-allowed policy healths [] after = refl
usable_loop-allowed policy healths (s ∷ rest) after =
    usable_step policy (health_of s healths) (usable_loop policy healths rest after)
    ∙ ap (λ b. dataset_fits policy (health_of s healths) && b)
        (usable_loop-allowed policy healths rest after)
    ∙ and_assoc (dataset_fits policy (health_of s healths)) _ after.allowed

-- The intervals that have to be fresh: those named for it, or all required ones where none is named.
abbrev pub fresh_intervals : List String → Option (List String) → List String
fresh_intervals required none = required
fresh_intervals required (some named) = if length named == 0 then required else named

freshness_required_lem :
    (required : List String) (named : Option (List String))
    → freshness_required required named ≡ fresh_intervals required named
freshness_required_lem required none = refl
freshness_required_lem required (some []) = refl
freshness_required_lem required (some (s ∷ rest)) =
    let many : (length (s ∷ rest) == 0) ≡ false = ground arith in rw many refl

-- The decision allows just where the manifest is acceptable, every required interval is available
-- and valid (or invalid data is allowed), and every interval that has to be fresh (those named for it,
-- or the required ones where none is named) is fresh (or freshness is not required).
pub trust_decide-allowed :
    (policy : TrustPolicy) (attempt : RefreshAttemptStatus) (usability : SnapshotUsability)
    (healths : List (String × DatasetHealth)) (required : List String)
    (freshness : Option (List String))
    → (trust_decide policy attempt usability healths required freshness).allowed ≡ (
        manifest_fits policy attempt usability freshness
        && (all (λ s. dataset_fits policy (health_of s healths)) required
            && all
                (λ s. freshness_fits policy (health_of s healths))
                (fresh_intervals required freshness)))
unfolding trust_decide
trust_decide-allowed policy attempt usability healths required freshness =
    let last = fresh_loop policy healths (freshness_required required freshness) in
    manifest_step policy attempt usability freshness (usable_loop policy healths required last)
    ∙ ap (λ b. manifest_fits policy attempt usability freshness && b)
        (usable_loop-allowed policy healths required last
          ∙ ap (λ b. all (λ s. dataset_fits policy (health_of s healths)) required && b)
              (fresh_loop-allowed policy healths (freshness_required required freshness)
                ∙ ap (all (λ s. freshness_fits policy (health_of s healths)))
                    (freshness_required_lem required freshness)))

any-not :
    (f : DatasetHealth → Bool) (ds : List DatasetHealth) → any (λ h. not (f h)) ds ≡ not (all f ds)
any-not f [] = refl
any-not f (d ∷ ds) = ground (arith, any-not f ds)

abbrev pub is_usable_snapshot : SnapshotUsability → Bool
is_usable_snapshot SnapshotUsability.usable = true
is_usable_snapshot _ = false

abbrev is_sound : DatasetHealth → Bool
is_sound h = is_available h && (is_valid h && is_fresh h)

-- The chain of `derive_snapshot_usability` as one test.
chain :
    (u a v k s : Bool)
    → is_usable_snapshot (
        if not u
        then SnapshotUsability.invalid
        else if not a
        then SnapshotUsability.invalid
        else if not v
        then SnapshotUsability.invalid
        else if k
        then SnapshotUsability.invalid
        else if s
        then SnapshotUsability.stale
        else SnapshotUsability.usable)
      ≡ (u && (a && (v && (not k && not s))))
chain u a v k s = ground arith

fresh_of_states : (h : DatasetHealth) → is_fresh h ≡ (not (is_unknown h) && not (is_stale h))
fresh_of_states h = ground arith

all_sound :
    (ds : List DatasetHealth)
    → (all is_available ds
        && (all is_valid ds && (not (any is_unknown ds) && not (any is_stale ds))))
      ≡ all is_sound ds
all_sound [] = refl
all_sound (d ∷ ds) = ground (arith, all_sound ds, fresh_of_states d)

usable_rows :
    (ds : List DatasetHealth)
    → all is_sound ds ≡ true
    → any is_usable ds ≡ any (λ h. ltb 0 h.rows) ds
unfolding is_usable
usable_rows [] h = refl
usable_rows (d ∷ ds) h = ground (arith, usable_rows ds)

-- A snapshot is usable just where every dataset is available, valid and fresh, and one has rows.
pub derive_snapshot_usability_lem :
    (ds : List DatasetHealth)
    → is_usable_snapshot (derive_snapshot_usability ds)
      ≡ (any (λ h. ltb 0 h.rows) ds && all is_sound ds)
unfolding derive_snapshot_usability
derive_snapshot_usability_lem ds =
    rw (any-not is_available ds, any-not is_valid ds)
      (chain (any is_usable ds) (all is_available ds) (all is_valid ds) (any is_unknown ds)
          (any is_stale ds)
        ∙ ap (λ b. any is_usable ds && b) (all_sound ds)
        ∙ elim (Bool-cases (all is_sound ds)) [
          | inl sound ↦ rw (sound, usable_rows ds sound)
          | inr unsound ↦ rw unsound (ground arith)
        ])

abbrev pub is_fresh_state : FreshnessState → Bool
is_fresh_state FreshnessState.fresh = true
is_fresh_state _ = false

-- Data is fresh just where its last confirmed bar is not ahead of the clock and no older than the
-- allowed number of bars, of which there is always one.
pub assess_freshness_lem :
    (bars now interval last : ℕ)
    → is_fresh_state (assess_freshness bars now interval (some last)).state
      ≡ (leb last now && leb (now - last) (interval * max 1 bars))
unfolding assess_freshness
assess_freshness_lem bars now interval last = ground arith
