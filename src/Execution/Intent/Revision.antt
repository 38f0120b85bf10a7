-- ===== src/Execution/Intent/Revision.antt =====
-- `classify_intent_revision` of mu_strategy/execution/intents.py.
use mu_5x_fibonacci_trading.Base.{
  String, ◌≡◌, false, ◌⊎◌, Bool, true, not, Option, none, some, arith, str_eq, if◌then◌else◌,
  is_some,
}
use mu_5x_fibonacci_trading.Runtime.{Runtime}
use mu_5x_fibonacci_trading.Execution.Intent.{OrderIntent, intent_fingerprint, same_environment}
use mu_5x_fibonacci_trading.Execution.Intent.Codec.{to_dict, from_dict}

pub data IntentRevisionAction : Type 0 where
  create reuse supersede conflict : IntentRevisionAction

pub record IntentRevisionPlan : Type 0 where
  pub action : IntentRevisionAction
  pub intent : OrderIntent
  pub supersedes_intent_id : Option String

module _ (rt : Runtime) where
  -- `_validate_revision_intent`
  abbrev pub revision_valid : OrderIntent → Bool
  revision_valid i = is_some (from_dict rt (to_dict i))

  abbrev classify_existing : OrderIntent → OrderIntent → Bool → Option IntentRevisionPlan
  classify_existing existing candidate mutation_reserved =
      if not (revision_valid existing)
      then none
      else if not (same_environment existing.environment candidate.environment)
      then none
      else if not (str_eq existing.business_action_id candidate.business_action_id)
      then none
      else if str_eq (intent_fingerprint rt existing) (intent_fingerprint rt candidate)
      then some (record {
        action = IntentRevisionAction.reuse;
        intent = existing;
        supersedes_intent_id = none;
      })
      else if mutation_reserved
      then some (record {
        action = IntentRevisionAction.conflict;
        intent = existing;
        supersedes_intent_id = none;
      })
      else some (record {
        action = IntentRevisionAction.supersede;
        intent = candidate;
        supersedes_intent_id = some existing.intent_id;
      })

  -- `none` is OrderIntentRevisionError.
  unfoldable pub classify_intent_revision :
      Option OrderIntent → OrderIntent → Bool → Option IntentRevisionPlan
  classify_intent_revision none candidate mutation_reserved =
      if not (revision_valid candidate)
      then none
      else if mutation_reserved
      then none
      else some (record {
        action = IntentRevisionAction.create;
        intent = candidate;
        supersedes_intent_id = none;
      })
  classify_intent_revision (some existing) candidate mutation_reserved =
      if not (revision_valid candidate)
      then none
      else classify_existing existing candidate mutation_reserved

abbrev plan_of : IntentRevisionAction → OrderIntent → Option String → IntentRevisionPlan
plan_of action i supersedes = record {
  action = action;
  intent = i;
  supersedes_intent_id = supersedes;
}

-- The plan that keeps an intent
abbrev pub kept : OrderIntent → IntentRevisionPlan
kept i = plan_of IntentRevisionAction.reuse i none

module _ (rt : Runtime) (existing : Option OrderIntent) (candidate : OrderIntent)
    (reserved : Bool) where
  -- A plan that mixes no actions, leaves a reserved action alone, and is stable.
  pub record IsPlan (plan : IntentRevisionPlan) : Type 0 where
    pub valid : revision_valid rt plan.intent ≡ true
    pub environment : same_environment plan.intent.environment candidate.environment ≡ true
    pub action : str_eq plan.intent.business_action_id candidate.business_action_id ≡ true
    pub untouched : (reserved ≡ false) ⊎ (existing ≡ some plan.intent)
    pub superseded :
        (plan.supersedes_intent_id ≡ none)
        ⊎ ((e : OrderIntent) × (existing ≡ some e)
            × (plan.supersedes_intent_id ≡ some e.intent_id)
            × (plan.intent ≡ candidate)
            × (reserved ≡ false))
    pub again :
        (classify_intent_revision rt (some plan.intent) candidate reserved
          ≡ some (kept plan.intent))
        ⊎ ((reserved ≡ true)
            × (classify_intent_revision rt (some plan.intent) candidate reserved ≡ some plan))

-- Why no plan is made
abbrev pub IsRefused : Runtime → Option OrderIntent → OrderIntent → Bool → Type 0
IsRefused rt none candidate reserved = (revision_valid rt candidate ≡ false) ⊎ (reserved ≡ true)
IsRefused rt (some e) candidate reserved =
    (revision_valid rt candidate ≡ false)
    ⊎ ((revision_valid rt e ≡ false)
        ⊎ ((same_environment e.environment candidate.environment ≡ false)
            ⊎ (str_eq e.business_action_id candidate.business_action_id ≡ false)))

abbrev IsDecided : Runtime → Option OrderIntent → OrderIntent → Bool → Type 0
IsDecided rt existing candidate reserved =
    ((plan : IntentRevisionPlan) × (classify_intent_revision rt existing candidate reserved
        ≡ some plan)
      × IsPlan rt existing candidate reserved plan)
    ⊎ ((classify_intent_revision rt existing candidate reserved ≡ none)
        × IsRefused rt existing candidate reserved)

-- For a reserved action every plan keeps the existing intent.
pub reserved_keeps_intent :
    (rt : Runtime) (existing candidate : OrderIntent) {plan : IntentRevisionPlan}
    → classify_intent_revision rt (some existing) candidate true ≡ some plan
    → plan.intent ≡ existing
unfolding classify_intent_revision
reserved_keeps_intent rt existing candidate h = ground arith
