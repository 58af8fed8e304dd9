-- ===== src/SubscriptionReconciler/Reconcile.antt =====
-- The reconciliation of a subscription (internal/controller/eventing/subscription/jetstream/
-- reconciler.go).
pub mod Syncing
use eventing_manager.Base.{
  ℕ, String, Bool, true, false, ◌&&◌, not, Option, none, some, List, [], ◌∷◌, ◌++◌, ◌==◌, string_eq,
  if◌then◌else◌,
}
use eventing_manager.Cleaner.{Cleaner}
use eventing_manager.Errors.{Error, sentinel, join_errors, is_error, make_error, terminal}
use eventing_manager.Exec.{
  Outcome, ok, err, panic, Exec, pure, fail, lift, gets, modify, when, handle, looking, ◌>>=◌, ◌>>◌,
}
use eventing_manager.JetStream.{JetStream}
use eventing_manager.JetStream.Backend.{
  sync_subscription, delete_subscription, delete_subscriptions_only,
}
use eventing_manager.JetStream.Consumers.{err_missing_subscription}
use eventing_manager.JetStream.NatsClient.{Nats}
use eventing_manager.JetStream.Subjects.{
  get_clean_event_types, get_clean_event_types_from_event_types, get_jetstream_subjects,
  get_backend_jetstream_types,
}
use eventing_manager.Runtime.{Result, Reply, done}
use eventing_manager.Subscription.{
  Subscription, SubscriptionStatus, EventType, JetStreamTypes, finalizer,
}
use eventing_manager.Subscription.Conditions.{
  conditions_equals, set_subscription_active_condition, set_subscription_spec_valid_condition,
  set_not_ready, clear_types, clear_backend, clear_conditions,
}
use eventing_manager.Subscription.Finalizers.{is_in_deletion, contains_finalizer, add_finalizer}
use eventing_manager.Subscription.Types.{contains_string, remove_string}
use eventing_manager.Validator.{err_sink_validation_failed}
use eventing_manager.SubscriptionReconciler.{
  Kube, SubscriptionReconciler, S, on_cluster, on_backend, set_status, text_of_error,
}
use eventing_manager.SubscriptionReconciler.Status.{
  sync_subscription_status, update_subscription_status,
}
use eventing_manager.SubscriptionReconciler.Metrics.{with_metrics}
use eventing_manager.SubscriptionReconciler.Deletion.{
  add_finalizer_to_subscription, handle_subscription_deletion,
}

abbrev pub requeue_duration : ℕ
requeue_duration = 10

module _ (K : Kube) (N : Nats) (digest : String → String) where
  -- The status of a subscription whose validation failed
  invalidate : Option Error → Exec (S K N) (Unit {0})
  unfolding set_status
  invalidate none = pure tt
  invalidate (some e) = do
    set_status K N set_not_ready
    set_status K N clear_types
    set_status K N clear_backend
    set_status K N clear_conditions

  unfoldable pub validate_subscription : Exec (S K N) (Option Error)
  unfolding invalidate set_status text_of_error
  validate_subscription = looking (λ s. do
    invalidate (K.validate_spec_of s.subscription s.cluster)
    set_status K N (
        set_subscription_spec_valid_condition (K.now s.cluster)
          (text_of_error K N (K.validate_spec_of s.subscription s.cluster)))
    pure (K.validate_spec_of s.subscription s.cluster))

  unfoldable pub sync_event_types : Exec (S K N) (Unit {0})
  unfolding set_status
  sync_event_types = looking (λ s. do
    let cleaned = get_clean_event_types s.subscription s.cleaner
    set_status K N (λ st. record st { types = cleaned })
    types ← lift (
        get_backend_jetstream_types digest s.subscription (
          get_jetstream_subjects s.backend.cleaner s.backend.config s.subscription.spec.source
            (get_clean_event_types_from_event_types cleaned) s.subscription.spec.type_matching))
    set_status K N (λ st. record st { backend = record { types = types } }))

  -- `Reconcile`, after a validation that failed
  report_invalid : Error → Exec (S K N) Reply
  report_invalid e =
      handle (update_subscription_status K N) (λ f. pure (done, some (join_errors e (some f))))
        (λ _. pure (done, some (terminal e)))

  refuse_subscription : Error → Exec (S K N) Reply
  unfolding on_backend report_invalid
  refuse_subscription e =
      if is_error e err_sink_validation_failed
      then looking (λ s.
        handle (on_backend K N (delete_subscriptions_only N digest s.subscription))
          (λ f. pure (done, some f)) (λ _. report_invalid e))
      else report_invalid e

  -- `Reconcile`, after a failure of the backend
  report_sync_error : Error → Exec (S K N) Reply
  report_sync_error e =
      handle (sync_subscription_status K N (some e)) (λ f. pure (done, some f))
        (λ _.
          if is_error e err_missing_subscription
          then pure (record { requeue = false; requeue_after = requeue_duration }, none)
          else pure (done, some e))

  -- `return kctrl.Result{}, r.syncSubscriptionStatus(ctx, desiredSubscription, nil, log)`
  report_synced : Exec (S K N) Reply
  report_synced =
      handle (sync_subscription_status K N none) (λ f. pure (done, some f)) (λ _. pure (done, none))

  -- `Reconcile`, from the synchronisation with the backend on
  unfoldable pub sync_backend : Exec (S K N) Reply
  unfolding report_sync_error report_synced
  sync_backend = looking (λ s.
      handle (on_backend K N (sync_subscription N digest s.subscription)) report_sync_error
        (λ _. report_synced))

  -- `Reconcile`, from the synchronisation of the types on: an error of syncing the status is dropped.
  sync_all : Exec (S K N) Reply
  unfolding sync_backend
  sync_all =
      handle sync_event_types
        (λ e.
          handle (sync_subscription_status K N (some e)) (λ f. pure (done, some e))
            (λ _. pure (done, some e)))
        (λ _. sync_backend)

  after_validation : Option Error → Exec (S K N) Reply
  unfolding refuse_subscription sync_all
  after_validation none = sync_all
  after_validation (some e) = refuse_subscription e

  -- `Reconcile` of a subscription that is not in deletion
  unfoldable pub reconcile_subscription : Exec (S K N) Reply
  unfolding after_validation
  reconcile_subscription = looking (λ s.
      if contains_finalizer s.subscription
      then (do r ← validate_subscription; after_validation r)
      else add_finalizer_to_subscription K N digest)

  unfoldable pub reconcile : String → String → Exec (S K N) Reply
  unfolding on_cluster with_metrics
  reconcile namespace name =
      handle (on_cluster K N (K.get_subscription namespace name))
        (λ e. pure (done, if K.is_not_found e then none else some e))
        (λ sub. do
          modify (λ s. record s { subscription = sub })
          if is_in_deletion sub
              then handle_subscription_deletion K N digest
              else with_metrics K N sub reconcile_subscription)
