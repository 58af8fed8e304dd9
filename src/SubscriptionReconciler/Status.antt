-- ===== src/SubscriptionReconciler/Status.antt =====
-- Writing the status of a subscription (internal/controller/eventing/subscription/jetstream/
-- reconciler.go, and pkg/object/equality.go).
pub mod Frames
use eventing_manager.Base.{
  Bool, true, false, ◌&&◌, not, Option, none, some, List, [], ◌∷◌, ◌==◌, string_eq,
}
use eventing_manager.Errors.{Error, sentinel, make_error}
use eventing_manager.Exec.{Exec, pure, fail, when, handle, looking, ◌>>=◌, ◌>>◌}
use eventing_manager.JetStream.NatsClient.{Nats}
use eventing_manager.Subscription.{Subscription, SubscriptionStatus, EventType, JetStreamTypes}
use eventing_manager.Subscription.Conditions.{conditions_equals, set_subscription_active_condition}
use eventing_manager.SubscriptionReconciler.{Kube, S, on_cluster, set_status, text_of_error}

abbrev pub err_failed_to_update_status : Error
err_failed_to_update_status = sentinel "failed to update JetStream subscription status"

same_types : List EventType → List EventType → Bool
same_types [] [] = true
same_types (a ∷ rest) (b ∷ others) =
    a.original_type == b.original_type && a.clean_type == b.clean_type && same_types rest others
same_types _ _ = false

same_jetstream_types : List JetStreamTypes → List JetStreamTypes → Bool
same_jetstream_types [] [] = true
same_jetstream_types (a ∷ rest) (b ∷ others) =
    a.original_type == b.original_type
    && a.consumer_name == b.consumer_name
    && same_jetstream_types rest others
same_jetstream_types _ _ = false

same_bool : Bool → Bool → Bool
same_bool true b = b
same_bool false b = not b

-- `IsSubscriptionStatusEqual` (pkg/object/equality.go). A nil slice is an empty one here, and the
-- fields of the EventMesh backend are left out.
unfoldable pub is_subscription_status_equal : SubscriptionStatus → SubscriptionStatus → Bool
unfolding same_types same_jetstream_types same_bool
is_subscription_status_equal old new =
    same_bool old.ready new.ready
    && same_types old.types new.types
    && same_jetstream_types old.backend.types new.backend.types
    && conditions_equals old.conditions new.conditions

module _ (K : Kube) (N : Nats) where
  unfoldable pub update_status : Subscription → Subscription → Exec (S K N) (Unit {0})
  unfolding on_cluster
  update_status old new = when (not (is_subscription_status_equal old.status new.status)) (
      handle (on_cluster K N (K.update_status new))
        (λ e. fail (make_error err_failed_to_update_status e)) (λ _. pure tt))

  unfoldable pub update_subscription_status : Exec (S K N) (Unit {0})
  unfolding on_cluster
  update_subscription_status = looking (λ s. do
    actual ← on_cluster K N (K.get_subscription s.subscription.namespace s.subscription.name)
    handle (update_status actual (record actual { status = s.subscription.status }))
        (λ e. fail (make_error err_failed_to_update_status e)) (λ _. pure tt))

  abbrev pub is_none : Option Error → Bool
  is_none none = true
  is_none (some e) = false

  -- The status for an error, or for none, of the backend
  report : Option Error → Exec (S K N) (Unit {0})
  unfolding set_status text_of_error
  report e = looking (λ s. do
    set_status K N (λ st. record st { ready = is_none e })
    set_status K N (set_subscription_active_condition (K.now s.cluster) (text_of_error K N e)))

  unfoldable pub sync_subscription_status : Option Error → Exec (S K N) (Unit {0})
  unfolding report
  sync_subscription_status e = do report e; update_subscription_status
