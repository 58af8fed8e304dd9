-- ===== src/Subscription.antt =====
-- The Subscription resource (api/eventing/v1alpha2/subscription_types.go, status_types.go,
-- constants.go). Metadata is the namespace, the name, the finalizers and the deletion mark.
pub mod Conditions
pub mod Types
pub mod Finalizers
use eventing_manager.Base.{ℕ, String, Bool, List}
use eventing_manager.Base.Dict.{Dict}

pub record EventType : Type 0 where
  pub original_type : String
  pub clean_type : String

pub record JetStreamTypes : Type 0 where
  pub original_type : String
  pub consumer_name : String

-- `Condition`; the transition time counts the seconds of `metav1.Now()`.
pub record Condition : Type 0 where
  pub type : String
  pub status : String
  pub last_transition_time : ℕ
  pub reason : String
  pub message : String

-- The fields of `Backend` that the NATS backend fills; those of EventMesh are not modelled.
pub record Backend : Type 0 where
  pub types : List JetStreamTypes

pub record SubscriptionSpec : Type 0 where
  pub sink : String
  pub type_matching : String
  pub source : String
  pub types : List String
  pub config : Dict String String

pub record SubscriptionStatus : Type 0 where
  pub conditions : List Condition
  pub ready : Bool
  pub types : List EventType
  pub backend : Backend

pub record Subscription : Type 0 where
  pub namespace : String
  pub name : String
  pub finalizers : List String
  pub in_deletion : Bool
  pub spec : SubscriptionSpec
  pub status : SubscriptionStatus

abbrev pub type_matching_standard : String
type_matching_standard = "standard"

abbrev pub type_matching_exact : String
type_matching_exact = "exact"

abbrev pub max_in_flight_messages : String
max_in_flight_messages = "maxInFlightMessages"

abbrev pub protocol_settings_qos : String
protocol_settings_qos = "qos"

abbrev pub webhook_auth_type : String
webhook_auth_type = "type"

abbrev pub webhook_auth_grant_type : String
webhook_auth_grant_type = "grantType"

-- `Finalizer`, the API group
abbrev pub finalizer : String
finalizer = "eventing.kyma-project.io"
