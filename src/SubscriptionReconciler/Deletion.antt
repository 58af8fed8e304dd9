-- ===== src/SubscriptionReconciler/Deletion.antt =====
-- Finalizers and the deletion of a subscription (internal/controller/eventing/subscription/jetstream/
-- reconciler.go).
pub mod Releasing
use eventing_manager.Base.{String, none, some, List, [], ◌∷◌, string_eq, if◌then◌else◌}
use eventing_manager.Errors.{Error, sentinel, make_error}
use eventing_manager.Exec.{Exec, pure, modify, handle, looking, ◌>>◌}
use eventing_manager.JetStream.Backend.{delete_subscription}
use eventing_manager.JetStream.NatsClient.{Nats}
use eventing_manager.Runtime.{Reply, done}
use eventing_manager.Subscription.{Subscription, JetStreamTypes, finalizer}
use eventing_manager.Subscription.Finalizers.{add_finalizer}
use eventing_manager.Subscription.Types.{contains_string, remove_string}
use eventing_manager.SubscriptionReconciler.{Kube, S, on_cluster, on_backend}
use eventing_manager.SubscriptionReconciler.Status.{sync_subscription_status}

abbrev pub err_failed_to_delete_sub : Error
err_failed_to_delete_sub = sentinel "failed to delete JetStream subscription"

abbrev pub err_failed_to_update_finalizers : Error
err_failed_to_update_finalizers = sentinel "failed to update subscription's finalizers"

module _ (K : Kube) (N : Nats) (digest : String → String) where
  unfoldable pub add_finalizer_to_subscription : Exec (S K N) Reply
  unfolding on_cluster
  add_finalizer_to_subscription = looking (λ s. do
    modify (λ t. record t { subscription = add_finalizer s.subscription })
    handle (on_cluster K N (K.update_subscription (add_finalizer s.subscription)))
        (λ e. pure (done, some (make_error err_failed_to_update_finalizers e)))
        (λ answer. do modify (λ t. record t { subscription = answer }); pure (done, none)))

  remove_metrics : Subscription → List JetStreamTypes → S K N → S K N
  remove_metrics sub [] s = s
  remove_metrics sub (t ∷ ts) s = remove_metrics sub ts (record s {
    cluster =
        K.remove_subscription_status sub t.consumer_name s.backend.config.js_stream_name s.cluster;
  })

  -- `handleSubscriptionDeletion`, once the backend has deleted the subscription
  release : Exec (S K N) Reply
  unfolding on_cluster remove_metrics
  release = looking (λ s. do
    let sub = s.subscription
    let freed = record sub { finalizers = remove_string sub.finalizers finalizer }
    modify (λ t. record t { subscription = freed })
    handle (on_cluster K N (K.update_subscription freed))
        (λ e. pure (done, some (make_error err_failed_to_update_finalizers e)))
        (λ answer. do
          modify (λ t. record t { subscription = answer })
          modify (remove_metrics answer sub.status.backend.types)
          pure (done, none)))

  -- A return of the error, or of the one of syncing the status
  report_deletion_error : Error → Exec (S K N) Reply
  report_deletion_error e =
      handle (sync_subscription_status K N (some e)) (λ f. pure (done, some f))
        (λ _. pure (done, some e))

  unfoldable pub handle_subscription_deletion : Exec (S K N) Reply
  unfolding on_backend release report_deletion_error
  handle_subscription_deletion = looking (λ s.
      if contains_string s.subscription.finalizers finalizer
      then handle (on_backend K N (delete_subscription N digest s.subscription))
          (λ e. report_deletion_error (make_error err_failed_to_delete_sub e)) (λ _. release)
      else pure (done, none))
