-- ===== src/SubscriptionReconciler/Metrics.antt =====
-- The metrics of a subscription (internal/controller/eventing/subscription/jetstream/reconciler.go).
use eventing_manager.Base.{String, Bool, true, false, List, [], ◌∷◌, ◌==◌, string_eq, if◌then◌else◌}
use eventing_manager.Exec.{Exec}
use eventing_manager.JetStream.NatsClient.{Nats}
use eventing_manager.Runtime.{Reply}
use eventing_manager.Subscription.{Subscription, JetStreamTypes}
use eventing_manager.SubscriptionReconciler.{Kube, S}

module _ (K : Kube) (N : Nats) where
  has_consumer : String → List JetStreamTypes → Bool
  has_consumer name [] = false
  has_consumer name (t ∷ ts) = if name == t.consumer_name then true else has_consumer name ts

  remove_stale_metrics : Subscription → List JetStreamTypes → List JetStreamTypes → S K N → S K N
  unfolding has_consumer
  remove_stale_metrics current [] desired s = s
  remove_stale_metrics current (t ∷ ts) desired s =
      let kept = has_consumer t.consumer_name desired in
      let removed = record s {
        cluster =
            K.remove_subscription_status current t.consumer_name s.backend.config.js_stream_name
              s.cluster;
      } in
      remove_stale_metrics current ts desired (if kept then s else removed)

  record_metrics : Subscription → List JetStreamTypes → S K N → S K N
  record_metrics desired [] s = s
  record_metrics desired (t ∷ ts) s = record_metrics desired ts (record s {
    cluster =
        K.record_subscription_status desired t.consumer_name s.backend.config.js_stream_name
          s.cluster;
  })

  unfoldable pub update_subscription_metrics : Subscription → Subscription → S K N → S K N
  unfolding remove_stale_metrics record_metrics
  update_subscription_metrics current desired s =
      record_metrics desired desired.status.backend.types
        (remove_stale_metrics current current.status.backend.types desired.status.backend.types s)

  -- `defer r.updateSubscriptionMetrics(currentSubscription, desiredSubscription)`
  unfoldable pub with_metrics : Subscription → Exec (S K N) Reply → Exec (S K N) Reply
  with_metrics current m s =
      let (r, t) = m s in (r, update_subscription_metrics current t.subscription t)
