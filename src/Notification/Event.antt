-- ===== src/Notification/Event.antt =====
-- mu_strategy/notifications/events.py: the reminder, what makes it valid and its dictionary.
pub mod Laws
use mu_5x_fibonacci_trading.Base.{
  ℕ, ◌+◌, String, Bool, true, false, not, ◌&&◌, ◌||◌, Option, none, some, List, [], ◌∷◌, str_eq,
  codes, leb, ltb, ◌==◌, if◌then◌else◌, is_hex_text, count_codes, contains_text, is_some,
  same_option,
}
use mu_5x_fibonacci_trading.Runtime.{Runtime, Json, Items, Fields}
use mu_5x_fibonacci_trading.Runtime.Json.{null, num, text, array, object}
use mu_5x_fibonacci_trading.Runtime.Items.{nil, cons}
use mu_5x_fibonacci_trading.Runtime.Fields.{end, field}
use mu_5x_fibonacci_trading.Execution.Intent.Codec.{lookup_field, field_names, same_names, ◌>>=◌}
use mu_5x_fibonacci_trading.Notification.Observation.{Observations}

pub data AlertKind : Type 0 where
  entry_review signal_invalidated service_fault service_recovered : AlertKind

abbrev pub kind_value : AlertKind → String
kind_value entry_review = "entry_review"
kind_value signal_invalidated = "signal_invalidated"
kind_value service_fault = "service_fault"
kind_value service_recovered = "service_recovered"

-- `AlertKind(value)`
abbrev pub parse_kind : String → Option AlertKind
parse_kind s =
    if str_eq s "entry_review"
    then some entry_review
    else if str_eq s "signal_invalidated"
    then some signal_invalidated
    else if str_eq s "service_fault"
    then some service_fault
    else if str_eq s "service_recovered"
    then some service_recovered
    else none

pub data DeliveryState : Type 0 where
  pending confirmed failed unknown : DeliveryState

abbrev pub same_delivery : DeliveryState → DeliveryState → Bool
same_delivery pending pending = true
same_delivery confirmed confirmed = true
same_delivery failed failed = true
same_delivery unknown unknown = true
same_delivery _ _ = false

-- `digest` passes.
abbrev pub is_digest : String → Bool
is_digest s = is_hex_text 64 s

abbrev optional_digest : Option String → Bool
optional_digest none = true
optional_digest (some s) = is_digest s

abbrev is_problem_code : ℕ → Bool
is_problem_code c =
    (leb b'a' c && leb c b'z')
    || (leb b'A' c && leb c b'Z')
    || (leb b'0' c && leb c b'9')
    || c == b'_'
    || c == b'.'
    || c == b'-'

abbrev all_problem_codes : List ℕ → Bool
all_problem_codes [] = true
all_problem_codes (c ∷ cs) = is_problem_code c && all_problem_codes cs

-- `[a-zA-Z0-9_.-]{1,100}` matches each problem.
abbrev problems_valid : List String → Bool
problems_valid [] = true
problems_valid (p ∷ ps) =
    ltb 0 (count_codes (codes p))
    && leb (count_codes (codes p)) 100
    && all_problem_codes (codes p)
    && problems_valid ps

abbrev no_problems : List String → Bool
no_problems [] = true
no_problems (p ∷ ps) = false

abbrev pub reasons : List String
reasons =
    "ready" ∷ "decision_changed" ∷ "source_unavailable" ∷ "review_expired" ∷ "signal_replaced"
    ∷ "health_event" ∷ "runtime_changed" ∷ []

abbrev review_after : ℕ → Option ℕ → Bool
review_after occurred none = true
review_after occurred (some until) = leb (occurred + 1) until

abbrev problem_items : List String → Items
problem_items [] = nil
problem_items (p ∷ ps) = cons (text p) (problem_items ps)

abbrev optional_num : Option ℕ → Json
optional_num none = null
optional_num (some n) = num n

abbrev optional_text : Option String → Json
optional_text none = null
optional_text (some s) = text s

abbrev read_text : Option Json → Option String
read_text (some (text s)) = some s
read_text _ = none

abbrev read_num : Option Json → Option ℕ
read_num (some (num n)) = some n
read_num _ = none

abbrev read_optional_text : Option Json → Option (Option String)
read_optional_text (some null) = some none
read_optional_text (some (text s)) = some (some s)
read_optional_text _ = none

abbrev read_optional_num : Option Json → Option (Option ℕ)
read_optional_num (some null) = some none
read_optional_num (some (num n)) = some (some n)
read_optional_num _ = none

abbrev read_problems : Items → Option (List String)
read_problems nil = some []
read_problems (cons (text p) rest) = do ps ← read_problems rest; some (p ∷ ps)
read_problems (cons _ rest) = none

abbrev read_problem_array : Option Json → Option (List String)
read_problem_array (some (array items)) = read_problems items
read_problem_array _ = none

abbrev is_one : Option Json → Bool
is_one (some (num n)) = n == 1
is_one _ = false

abbrev pub expected_names : List String
expected_names =
    "schema_version" ∷ "event_id" ∷ "kind" ∷ "identity" ∷ "occurred_at_ms" ∷ "review_until_ms"
    ∷ "reason" ∷ "observation" ∷ "related_event_id" ∷ "problems" ∷ []

module _ (rt : Runtime) (obs : Observations) where
  open rt use {sha256_hex}
  open obs use {Observation, to_dict, from_dict, is_ready_for_review, has_entry_evidence}

  pub record AlertEvent : Type 0 where
    pub kind : AlertKind
    pub identity : String
    pub occurred_at_ms : ℕ
    pub review_until_ms : Option ℕ
    pub reason : String
    pub observation : Option Observation
    pub related_event_id : Option String
    pub problems : List String

  -- `event_id`: the digest of the kind and the identity.
  unfoldable pub alert_event_id : AlertEvent → String
  alert_event_id e =
      sha256_hex
        (object (field "identity" (text e.identity) (field "kind" (text (kind_value e.kind)) end)))

  abbrev is_readable : Option Observation → Bool
  is_readable none = false
  is_readable (some o) = is_some (from_dict (to_dict o))

  abbrev is_entry_evidence : Option Observation → Bool
  is_entry_evidence none = false
  is_entry_evidence (some o) = is_ready_for_review o && has_entry_evidence o

  -- What each kind of reminder carries.
  unfoldable pub context_valid : AlertEvent → Bool
  context_valid e = elim e.kind [
    | entry_review ↦
        is_readable e.observation
        && no_problems e.problems
        && is_entry_evidence e.observation
        && is_some e.review_until_ms
        && not (is_some e.related_event_id)
        && str_eq e.reason "ready"
    | signal_invalidated ↦
        is_readable e.observation
        && no_problems e.problems
        && is_some e.related_event_id
        && not (is_some e.review_until_ms)
    | service_fault ↦
        not (is_some e.observation)
        && not (is_some e.related_event_id)
        && not (is_some e.review_until_ms)
    | service_recovered ↦
        not (is_some e.observation)
        && not (is_some e.related_event_id)
        && not (is_some e.review_until_ms)
  ]

  -- `__post_init__` passes; what it raises is always NotificationError.
  unfoldable pub alert_valid : AlertEvent → Bool
  unfolding context_valid
  alert_valid e =
      is_digest e.identity
      && contains_text e.reason reasons
      && review_after e.occurred_at_ms e.review_until_ms
      && optional_digest e.related_event_id
      && problems_valid e.problems
      && context_valid e

  abbrev observation_json : Option Observation → Json
  observation_json none = null
  observation_json (some o) = to_dict o

  abbrev alert_fields : AlertEvent → Fields
  alert_fields e = field "event_id" (text (alert_event_id e)) (
      field "identity" (text e.identity) (
        field "kind" (text (kind_value e.kind)) (
          field "observation" (observation_json e.observation) (
            field "occurred_at_ms" (num e.occurred_at_ms) (
              field "problems" (array (problem_items e.problems)) (
                field "reason" (text e.reason) (
                  field "related_event_id" (optional_text e.related_event_id) (
                    field "review_until_ms" (optional_num e.review_until_ms)
                      (field "schema_version" (num 1) end)))))))))

  -- `to_dict`, its keys in the order of the canonical text.
  unfoldable pub alert_to_dict : AlertEvent → Json
  alert_to_dict e = object (alert_fields e)

  abbrev read_observation : Option Json → Option (Option Observation)
  read_observation none = none
  read_observation (some null) = some none
  read_observation (some j) = do o ← from_dict j; some (some o)

  abbrev keep_valid : AlertEvent → Option AlertEvent
  keep_valid e = if alert_valid e then some e else none

  -- The last test of `from_json`.
  abbrev keep_identified : String → AlertEvent → Option AlertEvent
  keep_identified id e = if str_eq (alert_event_id e) id then some e else none

  abbrev read_kind : Option Json → Option AlertKind
  read_kind (some (text s)) = parse_kind s
  read_kind _ = none

  unfoldable pub read_alert : Fields → Option AlertEvent
  unfolding alert_valid alert_event_id
  read_alert fs = do
    problems ← read_problem_array (lookup_field "problems" fs)
    kind ← read_kind (lookup_field "kind" fs)
    identity ← read_text (lookup_field "identity" fs)
    occurred_at_ms ← read_num (lookup_field "occurred_at_ms" fs)
    review_until_ms ← read_optional_num (lookup_field "review_until_ms" fs)
    reason ← read_text (lookup_field "reason" fs)
    observation ← read_observation (lookup_field "observation" fs)
    related_event_id ← read_optional_text (lookup_field "related_event_id" fs)
    event ← keep_valid (record {
      kind = kind;
      identity = identity;
      occurred_at_ms = occurred_at_ms;
      review_until_ms = review_until_ms;
      reason = reason;
      observation = observation;
      related_event_id = related_event_id;
      problems = problems;
    })
    id ← read_text (lookup_field "event_id" fs)
    keep_identified id event

  -- `from_json`, from the decoded value; `none` is NotificationError.
  unfoldable pub alert_from_json : Json → Option AlertEvent
  unfolding read_alert
  alert_from_json (object fs) =
      if same_names (field_names fs) expected_names && is_one (lookup_field "schema_version" fs)
      then read_alert fs
      else none
  alert_from_json _ = none

  abbrev pub same_optional_observation : Option Observation → Option Observation → Bool
  same_optional_observation none none = true
  same_optional_observation (some a) (some b) = obs.same_observation a b
  same_optional_observation _ _ = false

  abbrev pub same_optional_num : Option ℕ → Option ℕ → Bool
  same_optional_num none none = true
  same_optional_num (some a) (some b) = a == b
  same_optional_num _ _ = false

  abbrev pub same_problems : List String → List String → Bool
  same_problems [] [] = true
  same_problems (p ∷ ps) (q ∷ qs) = str_eq p q && same_problems ps qs
  same_problems _ _ = false

  -- The dataclass equality of events.
  unfoldable pub same_event : AlertEvent → AlertEvent → Bool
  same_event a b =
      str_eq (kind_value a.kind) (kind_value b.kind)
      && str_eq a.identity b.identity
      && a.occurred_at_ms == b.occurred_at_ms
      && same_optional_num a.review_until_ms b.review_until_ms
      && str_eq a.reason b.reason
      && same_optional_observation a.observation b.observation
      && same_option a.related_event_id b.related_event_id
      && same_problems a.problems b.problems
