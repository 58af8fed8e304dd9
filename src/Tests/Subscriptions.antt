-- ===== src/Tests/Subscriptions.antt =====
-- Conditions, and the validation of a subscription.
use eventing_manager.Base.{
  ◌≡◌, refl, ℕ, String, true, false, none, some, [], ◌∷◌, All, length, inr, if◌then◌else◌, ◌==◌,
  string_eq,
}
use eventing_manager.Base.Dict.{lookup}
use eventing_manager.Errors.{sentinel}
use eventing_manager.Subscription.{Condition, Subscription, SubscriptionStatus}
use eventing_manager.Subscription.Conditions.{
  find_condition, set_condition, condition_equals, initialize_conditions, is_ready,
  contain_condition_type,
}
use eventing_manager.Subscription.Conditions.Readiness.{
  is_ready_sound, find_condition-initialize_conditions, expected_types, IsTrueAt,
}
use eventing_manager.Subscription.Conditions.Setting.{
  find_condition-set_condition, find_condition-set_condition_other, set_condition-set_condition,
}
use eventing_manager.Subscription.Finalizers.{
  is_finalizer_set, add_finalizer, remove_finalizer, contains_finalizer, finalizer_lem,
  is_finalizer_set-eq-contains_finalizer,
}
use eventing_manager.Subscription.Types.{
  contains_string, remove_string, contains_string-remove_string,
}
use eventing_manager.Base.Dict.{insert}
use eventing_manager.Base.Int.{atoi}
use eventing_manager.Errors.{make_error}
use eventing_manager.Validator.{
  Libraries, validate, validate_spec, get_duplicates, validate_type_matching, validate_source,
  is_invalid_ce, validate_types, duplicates_from, validate_each_type, validate_type,
  validate_config, is_not_int, validate_sink, is_valid_scheme, get_sink_data, validate_host,
  validate_sink_service,
}
use eventing_manager.Validator.Spec.{IsValid, validate_sound}
use eventing_manager.Validator.Types.{IsDistinct, get_duplicates-IsDistinct}

abbrev condition : String → ℕ → Condition
condition type at = record {
  type = type;
  status = "True";
  last_transition_time = at;
  reason = "";
  message = "";
}

abbrev active : Condition
active = condition "Subscription active" 1

abbrev ready_status : SubscriptionStatus
ready_status = record {
  conditions =
      condition "Subscribed" 1
      ∷ active
      ∷ condition "Subscription spec valid" 1
      ∷ condition "APIRule status" 1
      ∷ condition "Webhook call status" 1
      ∷ [];
  ready = true;
  types = [];
  backend = record { types = [] };
}

find_condition-set_condition_example :
    (d : Condition) × (find_condition (set_condition active []) "Subscription active" ≡ some d)
    × (condition_equals d active ≡ true)
find_condition-set_condition_example = find_condition-set_condition active []

find_condition-set_condition_other_example :
    find_condition (set_condition active ready_status.conditions) "Subscribed"
    ≡ find_condition ready_status.conditions "Subscribed"
find_condition-set_condition_other_example =
    find_condition-set_condition_other active "Subscribed" ready_status.conditions (λ e. cc)

equal_conditions : condition_equals active (condition "Subscription active" 9) ≡ true
unfolding condition_equals
equal_conditions = refl

set_condition-set_condition_example :
    set_condition (condition "Subscription active" 9) (set_condition active ready_status.conditions)
    ≡ set_condition active ready_status.conditions
set_condition-set_condition_example =
    set_condition-set_condition active (condition "Subscription active" 9) equal_conditions
      ready_status.conditions

is_ready-ready_status : is_ready 2 ready_status ≡ true
unfolding is_ready
is_ready-ready_status = refl

is_ready_sound_example :
    (length ready_status.conditions ≡ 5) × All (IsTrueAt ready_status.conditions) expected_types
is_ready_sound_example = is_ready_sound 2 ready_status is_ready-ready_status

find_condition-initialize_conditions_example :
    find_condition (initialize_conditions ready_status.conditions (active ∷ [])) "Subscribed" ≡ (
      if contain_condition_type (active ∷ []) "Subscribed"
      then find_condition (active ∷ []) "Subscribed"
      else find_condition ready_status.conditions "Subscribed")
find_condition-initialize_conditions_example =
    find_condition-initialize_conditions ready_status.conditions (active ∷ []) "Subscribed"

contains_string-remove_string_example :
    contains_string (remove_string ("a" ∷ "b" ∷ "a" ∷ []) "a") "b"
    ≡ (if ◌==◌ {A = String} "a" "b" then false else contains_string ("a" ∷ "b" ∷ "a" ∷ []) "b")
contains_string-remove_string_example = contains_string-remove_string ("a" ∷ "b" ∷ "a" ∷ []) "a" "b"

get_duplicates-IsDistinct_example :
    (get_duplicates ("a" ∷ "b" ∷ []) ≡ [] → IsDistinct ("a" ∷ "b" ∷ []))
    × (IsDistinct ("a" ∷ "b" ∷ []) → get_duplicates ("a" ∷ "b" ∷ []) ≡ [])
get_duplicates-IsDistinct_example = get_duplicates-IsDistinct ("a" ∷ "b" ∷ [])

abbrev orders_without_finalizer : Subscription
orders_without_finalizer = record {
  namespace = "shop";
  name = "orders";
  finalizers = "foregroundDeletion" ∷ [];
  in_deletion = true;
  spec = record { sink = ""; type_matching = "standard"; source = ""; types = []; config = [] };
  status = ready_status;
}

finalizer_lem_example :
    (is_finalizer_set (add_finalizer orders_without_finalizer) ≡ true)
    × (is_finalizer_set (remove_finalizer orders_without_finalizer) ≡ false)
    × (is_finalizer_set orders_without_finalizer ≡ false
        → remove_finalizer (add_finalizer orders_without_finalizer) ≡ orders_without_finalizer)
finalizer_lem_example = finalizer_lem orders_without_finalizer

is_finalizer_set-eq-contains_finalizer_example :
    is_finalizer_set orders_without_finalizer ≡ contains_finalizer orders_without_finalizer
is_finalizer_set-eq-contains_finalizer_example =
    is_finalizer_set-eq-contains_finalizer orders_without_finalizer

-- Every sink parses to the host of one service, which is there.
abbrev libraries : Libraries
libraries = record {
  parse_request_host = λ sink. inr "orders.shop.svc.cluster.local:8080";
  is_invalid_event = λ source type. false;
  random_type = "abcdefghij";
  text_of = λ e. "";
  to_aggregate = λ es. sentinel "invalid";
  service_exists = λ namespace name. namespace == "shop";
}

abbrev orders : Subscription
orders = record {
  namespace = "shop";
  name = "orders";
  finalizers = [];
  in_deletion = false;
  spec = record {
    sink = "http://orders.shop.svc.cluster.local:8080";
    type_matching = "standard";
    source = "store";
    types = "order.created.v1" ∷ "order.paid.v1" ∷ [];
    config = ("maxInFlightMessages", "20") ∷ [];
  };
  status = ready_status;
}

validate-orders : validate libraries orders ≡ none
unfolding validate validate_spec validate_type_matching validate_source is_invalid_ce validate_types
    get_duplicates duplicates_from lookup insert validate_each_type validate_type validate_config
    is_not_int validate_sink is_valid_scheme get_sink_data validate_host validate_sink_service
    make_error atoi
validate-orders = refl

validate_sound_example : IsValid libraries orders
validate_sound_example = validate_sound libraries orders validate-orders
