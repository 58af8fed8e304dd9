-- ===== src/JetStream.antt =====
-- The JetStream backend (pkg/backend/jetstream): its configuration, keys, and in-memory state.
pub mod NatsClient
pub mod Subjects
pub mod Config
pub mod Connection
pub mod Consumers
pub mod Backend
use eventing_manager.Base.{
  ◌≡◌, ◌↔◌, ℕ, ℤ, String, Bool, true, false, ◌&&◌, Option, Eq, ◌==◌, string_eq, eq_iff, arith,
  if◌then◌else◌,
}
use eventing_manager.Base.Dict.{Dict}
use eventing_manager.Cleaner.{Cleaner}
use NatsClient.{Nats}

-- `env.NATSConfig` (pkg/env/nats_config.go); durations are in seconds.
pub record NatsConfig : Type 0 where
  pub url : String
  pub max_reconnects : ℤ
  pub reconnect_wait : ℕ
  pub event_type_prefix : String
  pub js_stream_name : String
  pub js_subject_prefix : String
  pub js_stream_storage_type : String
  pub js_stream_replicas : ℤ
  pub js_stream_retention_policy : String
  pub js_stream_max_messages : ℤ
  pub js_stream_max_bytes : String
  pub js_stream_max_msgs_per_topic : ℤ
  pub js_stream_discard_policy : String
  pub js_consumer_deliver_policy : String

-- `SubscriptionSubjectIdentifier` (types.go)
pub record SubscriptionSubjectIdentifier : Type 0 where
  pub consumer_name : String
  pub namespaced_subject_name : String

abbrev pub key_beq : SubscriptionSubjectIdentifier → SubscriptionSubjectIdentifier → Bool
key_beq a b =
    a.consumer_name == b.consumer_name && a.namespaced_subject_name == b.namespaced_subject_name

pub key_beq_iff : (a b : SubscriptionSubjectIdentifier) → (key_beq a b ≡ true) ↔ (a ≡ b)
key_beq_iff a b = ground (
  arith,
  eq_iff a.consumer_name b.consumer_name,
  eq_iff a.namespaced_subject_name b.namespaced_subject_name,
)

instance abbrev pub key_eq : Eq SubscriptionSubjectIdentifier
key_eq = record { beq = key_beq; beq_iff = key_beq_iff }

-- `type JetStream struct` with the state of the NATS library beside it. The logger and the metrics
-- have no part in what the operations decide.
pub record JetStream (N : Nats) : Type 0 where
  pub config : NatsConfig
  pub conn : Option N.Conn
  pub js_ctx : Option N.Context
  -- `connClosedHandler != nil`
  pub has_conn_closed_handler : Bool
  pub has_client : Bool
  pub subscriptions : Dict SubscriptionSubjectIdentifier N.Sub
  pub sinks : Dict String String
  pub cleaner : Cleaner
  pub default_max_in_flight_messages : ℤ
  pub server : N.State
