-- ===== src/SubscriptionReconciler.antt =====
-- The reconciler of subscriptions for NATS (internal/controller/eventing/subscription/jetstream/
-- reconciler.go), on the JetStream backend. Recorded events and logs are left out.
pub mod Status
pub mod Metrics
pub mod Deletion
pub mod Reconcile
use eventing_manager.Base.{
  ℕ, String, Bool, true, false, ◌&&◌, not, Option, none, some, List, [], ◌∷◌, ◌++◌, ◌==◌, string_eq,
  if◌then◌else◌,
}
use eventing_manager.Cleaner.{Cleaner}
use eventing_manager.Errors.{Error, sentinel, join_errors, is_error, make_error, terminal}
use eventing_manager.Exec.{
  Outcome, ok, err, panic, Exec, pure, fail, lift, gets, modify, when, handle, looking, ◌>>=◌, ◌>>◌,
}
use eventing_manager.JetStream.{JetStream}
use eventing_manager.JetStream.Backend.{
  sync_subscription, delete_subscription, delete_subscriptions_only,
}
use eventing_manager.JetStream.Consumers.{err_missing_subscription}
use eventing_manager.JetStream.NatsClient.{Nats}
use eventing_manager.JetStream.Subjects.{
  get_clean_event_types, get_clean_event_types_from_event_types, get_jetstream_subjects,
  get_backend_jetstream_types,
}
use eventing_manager.Runtime.{Result, Reply, done}
use eventing_manager.Subscription.{
  Subscription, SubscriptionStatus, EventType, JetStreamTypes, finalizer,
}
use eventing_manager.Subscription.Conditions.{
  conditions_equals, set_subscription_active_condition, set_subscription_spec_valid_condition,
  set_not_ready, clear_types, clear_backend, clear_conditions,
}
use eventing_manager.Subscription.Finalizers.{is_in_deletion, contains_finalizer, add_finalizer}
use eventing_manager.Subscription.Types.{contains_string, remove_string}
use eventing_manager.Validator.{err_sink_validation_failed}

-- What the reconciler calls of the cluster, the validator and the metrics collector.
pub record Kube : Type 1 where
  pub State : Type 0
  -- `err.Error()`, `kerrors.IsNotFound`, `metav1.Now()`
  pub text_of : Error → String
  pub is_not_found : Error → Bool
  pub now : State → ℕ
  -- `client.Client`: `Update` writes the answer of the server into its argument
  pub get_subscription : String → String → Exec State Subscription
  pub update_subscription : Subscription → Exec State Subscription
  pub update_status : Subscription → Exec State (Unit {0})
  -- `validator.SubscriptionValidator`
  pub validate_spec_of : Subscription → State → Option Error
  -- `metrics.Collector`, by the subscription, the consumer and the stream
  pub remove_subscription_status : Subscription → String → String → State → State
  pub record_subscription_status : Subscription → String → String → State → State

-- `type Reconciler struct`, the copy of the subscription that a call works on, and the cluster.
pub record SubscriptionReconciler (K : Kube) (N : Nats) : Type 0 where
  pub backend : JetStream N
  pub cleaner : Cleaner
  pub subscription : Subscription
  pub cluster : K.State

module _ (K : Kube) (N : Nats) where
  abbrev pub S : Type 0
  S = SubscriptionReconciler K N

  unfoldable pub on_cluster : {A : Type 0} → Exec K.State A → Exec S A
  on_cluster m s = let (r, t) = m s.cluster in (r, record s { cluster = t })

  unfoldable pub on_backend : {A : Type 0} → Exec (JetStream N) A → Exec S A
  on_backend m s = let (r, b) = m s.backend in (r, record s { backend = b })

  unfoldable pub set_status : (SubscriptionStatus → SubscriptionStatus) → Exec S (Unit {0})
  set_status f = modify (λ s.
      let sub = s.subscription in record s { subscription = record sub { status = f sub.status } })

  unfoldable pub text_of_error : Option Error → Option String
  text_of_error none = none
  text_of_error (some e) = some (K.text_of e)
