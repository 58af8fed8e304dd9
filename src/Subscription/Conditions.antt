-- ===== src/Subscription/Conditions.antt =====
-- api/eventing/v1alpha2/condition.go and the setters of SubscriptionStatus. A call of
-- `metav1.Now()` is the argument `now`; an `error` is its text, `none` for nil.
pub mod Setting
pub mod Readiness
use eventing_manager.Base.{
  ℕ, String, Bool, true, false, not, ◌&&◌, ◌||◌, ◌==◌, ◌!=◌, string_eq, if◌then◌else◌, Option, none,
  some, List, [], ◌∷◌, ◌++◌, length, nat_eq, nat_beq, keep, all,
}
use eventing_manager.Base.Dict.{Dict, lookup, insert}
use eventing_manager.Subscription.{Condition, SubscriptionStatus, Backend}

abbrev pub condition_subscribed : String
condition_subscribed = "Subscribed"

abbrev pub condition_subscription_active : String
condition_subscription_active = "Subscription active"

abbrev pub condition_subscription_spec_valid : String
condition_subscription_spec_valid = "Subscription spec valid"

abbrev pub condition_api_rule_status : String
condition_api_rule_status = "APIRule status"

abbrev pub condition_webhook_call_status : String
condition_webhook_call_status = "Webhook call status"

abbrev pub condition_true : String
condition_true = "True"

abbrev pub condition_false : String
condition_false = "False"

abbrev pub condition_unknown : String
condition_unknown = "Unknown"

unfoldable pub contain_condition_type : List Condition → String → Bool
contain_condition_type [] type = false
contain_condition_type (c ∷ cs) type = c.type == type || contain_condition_type cs type

-- The last loop of `initializeConditions`, which appends each expected condition that is missing.
unfoldable pub append_missing : List Condition → List Condition → List Condition → List Condition
unfolding contain_condition_type
append_missing [] given final = final
append_missing (e ∷ es) given final =
    append_missing es given (if contain_condition_type given e.type then final else final ++ e ∷ [])

unfoldable pub initialize_conditions : List Condition → List Condition → List Condition
unfolding append_missing
initialize_conditions initial current = append_missing initial current current

unknown_condition : ℕ → String → Condition
unknown_condition now type = record {
  type = type;
  status = condition_unknown;
  last_transition_time = now;
  reason = "";
  message = "";
}

unfoldable pub make_subscription_conditions : ℕ → List Condition
unfolding unknown_condition
make_subscription_conditions now =
    unknown_condition now condition_api_rule_status
    ∷ unknown_condition now condition_subscribed
    ∷ unknown_condition now condition_subscription_active
    ∷ unknown_condition now condition_webhook_call_status
    ∷ unknown_condition now condition_subscription_spec_valid
    ∷ []

-- The method `InitializeConditions`
unfoldable pub initialize_status_conditions : ℕ → SubscriptionStatus → SubscriptionStatus
unfolding initialize_conditions make_subscription_conditions
initialize_status_conditions now s = record s {
  conditions = initialize_conditions (make_subscription_conditions now) s.conditions;
}

contain_all_types : List Condition → List Condition → Bool
unfolding contain_condition_type
contain_all_types [] cs = true
contain_all_types (e ∷ es) cs = contain_condition_type cs e.type && contain_all_types es cs

unfoldable pub contain_same_condition_types : List Condition → List Condition → Bool
unfolding contain_all_types
contain_same_condition_types c₁ c₂ = length c₁ == length c₂ && contain_all_types c₁ c₂

all_true : List Condition → Bool
all_true [] = true
all_true (c ∷ cs) = if c.status != condition_true then false else all_true cs

unfoldable pub is_ready : ℕ → SubscriptionStatus → Bool
unfolding contain_same_condition_types make_subscription_conditions all_true
is_ready now s =
    contain_same_condition_types (make_subscription_conditions now) s.conditions
    && all_true s.conditions

unfoldable pub find_condition : List Condition → String → Option Condition
find_condition [] type = none
find_condition (c ∷ cs) type = if type == c.type then some c else find_condition cs type

unfoldable pub should_update_ready_status : ℕ → SubscriptionStatus → Bool
unfolding is_ready
should_update_ready_status now s =
    (not s.ready && is_ready now s) || (s.ready && not (is_ready now s))

unfoldable pub make_condition : ℕ → String → String → String → String → Condition
make_condition now type reason status message = record {
  type = type;
  status = status;
  last_transition_time = now;
  reason = reason;
  message = message;
}

unfoldable pub is_condition_subscribed : List Condition → Bool
is_condition_subscribed [] = false
is_condition_subscribed (c ∷ cs) =
    if c.type == condition_subscribed && c.status == condition_true
    then true
    else is_condition_subscribed cs

unfoldable pub is_condition_webhook_call : List Condition → Bool
is_condition_webhook_call [] = false
is_condition_webhook_call (c ∷ cs) =
    if c.type == condition_webhook_call_status
      && (c.status == condition_true || c.status == condition_unknown)
    then true
    else is_condition_webhook_call cs

unfoldable pub get_condition_api_rule_status : List Condition → String
get_condition_api_rule_status [] = condition_unknown
get_condition_api_rule_status (c ∷ cs) =
    if c.type == condition_api_rule_status then c.status else get_condition_api_rule_status cs

-- `SetConditionAPIRuleStatus`
unfoldable pub set_condition_api_rule_status : ℕ → Option String → List Condition → List Condition
unfolding make_condition
set_condition_api_rule_status now none cs =
    make_condition now condition_api_rule_status "APIRule status ready" condition_true ""
    ∷ keep (λ c. c.type != condition_api_rule_status) cs
set_condition_api_rule_status now (some text) cs =
    make_condition now condition_api_rule_status "APIRule status not ready" condition_false text
    ∷ keep (λ c. c.type != condition_api_rule_status) cs

unfoldable pub condition_equals : Condition → Condition → Bool
condition_equals existing expected =
    existing.type == expected.type
    && existing.status == expected.status
    && existing.reason == expected.reason
    && existing.message == expected.message

-- `existingMap`: a later condition of a type replaces an earlier one.
condition_map : List Condition → Dict String Condition → Dict String Condition
unfolding insert
condition_map [] m = m
condition_map (c ∷ cs) m = condition_map cs (insert c.type c m)

-- A missing key of a Go map reads as the zero value.
abbrev pub zero_condition : Condition
zero_condition = record {
  type = "";
  status = "";
  last_transition_time = 0;
  reason = "";
  message = "";
}

read_condition : Dict String Condition → String → Condition
unfolding lookup
read_condition m type = elim (lookup type m) [ some c ↦ c | none ↦ zero_condition ]

unfoldable pub conditions_equals : List Condition → List Condition → Bool
unfolding condition_equals condition_map read_condition
conditions_equals existing expected =
    length existing == length expected
    && all (λ value. condition_equals (read_condition (condition_map existing []) value.type) value)
        expected

unfoldable pub make_subscription_active_condition : ℕ → Option String → Condition
unfolding make_condition
make_subscription_active_condition now none =
    make_condition now condition_subscription_active "NATS Subscription active" condition_true ""
make_subscription_active_condition now (some text) =
    make_condition now condition_subscription_active "NATS Subscription not active" condition_false
      text

unfoldable pub make_subscription_spec_valid_condition : ℕ → Option String → Condition
unfolding make_condition
make_subscription_spec_valid_condition now none =
    make_condition now condition_subscription_spec_valid
      "Subscription spec has no validation errors" condition_true ""
make_subscription_spec_valid_condition now (some text) =
    make_condition now condition_subscription_spec_valid "Subscription spec has validation errors"
      condition_false text

-- The loop of `setCondition`: the conditions built, and the flags `isFound` and `isSet`.
unfoldable pub replace_condition :
    Condition → List Condition → List Condition → Bool → Bool → List Condition × Bool × Bool
replace_condition c [] built found set = (built, found, set)
replace_condition c (d ∷ ds) built found set = elim (d.type != c.type) [
  | true ↦ replace_condition c ds (built ++ d ∷ []) found set
  | false ↦ elim (condition_equals d c) [
    | true ↦ replace_condition c ds built true set
    | false ↦ replace_condition c ds (built ++ c ∷ []) true true
  ]
]

finish_set : Condition → List Condition → List Condition × Bool × Bool → List Condition
finish_set c old (built, false, set) = built ++ c ∷ []
finish_set c old (built, true, true) = built
finish_set c old (built, true, false) = old

unfoldable pub set_condition : Condition → List Condition → List Condition
unfolding replace_condition finish_set
set_condition c cs = finish_set c cs (replace_condition c cs [] false false)

unfoldable pub set_subscription_active_condition :
    ℕ → Option String → SubscriptionStatus → SubscriptionStatus
unfolding set_condition make_subscription_active_condition
set_subscription_active_condition now err s = record s {
  conditions = set_condition (make_subscription_active_condition now err) s.conditions;
}

unfoldable pub set_subscription_spec_valid_condition :
    ℕ → Option String → SubscriptionStatus → SubscriptionStatus
unfolding set_condition make_subscription_spec_valid_condition
set_subscription_spec_valid_condition now err s = record s {
  conditions = set_condition (make_subscription_spec_valid_condition now err) s.conditions;
}

unfoldable pub set_not_ready : SubscriptionStatus → SubscriptionStatus
set_not_ready s = record s { ready = false }

unfoldable pub clear_conditions : SubscriptionStatus → SubscriptionStatus
clear_conditions s = record s { conditions = [] }

unfoldable pub clear_backend : SubscriptionStatus → SubscriptionStatus
clear_backend s = record s { backend = record { types = [] } }

unfoldable pub clear_types : SubscriptionStatus → SubscriptionStatus
clear_types s = record s { types = [] }
