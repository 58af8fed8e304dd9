-- ===== src/Operator/Deletion.antt =====
-- Finalizers and the deletion of the Eventing resource (internal/controller/operator/eventing:
-- controller.go, utils.go).
pub mod Steady
pub mod Refusing
use eventing_manager.Base.{String, ◌<>◌, Bool, true, none, some, ◌==◌, string_eq, if◌then◌else◌}
use eventing_manager.Errors.{Error, sentinel}
use eventing_manager.Exec.{Exec, pure, modify, handle, ◌>>◌}
use eventing_manager.Operator.{
  Cluster, Operator, BackendSpec, Eventing, Reply, done, on_cluster, looking, set_status,
  stamp_status, reply_error,
}
use eventing_manager.Operator.{nats_backend_type}
use eventing_manager.Operator.EventMesh.{stop_event_mesh_sub_manager}
use eventing_manager.Operator.Nats.{stop_nats_sub_manager}
use eventing_manager.Operator.Status.{
  sync_status_with_nats_err, sync_status_with_publisher_proxy_err_with_reason,
  sync_status_with_subscription_manager_err_with_reason, sync_status_with_deletion_err,
}
use eventing_manager.OperatorStatus.{
  set_state_warning, set_state_error, set_subscription_manager_ready_condition_to_false,
  set_publisher_proxy_condition_to_false,
}
use eventing_manager.Operator.{nats_backend_type}
use eventing_manager.Base.{Option}

abbrev pub finalizer_name : String
finalizer_name = "eventing.operator.kyma-project.io/finalizer"

abbrev pub err_subscription_exists : Error
err_subscription_exists = sentinel "cannot delete the eventing module as subscription exists"

-- `GetPublisherClusterRoleName`, and the same for the binding (pkg/eventing/utils.go)
unfoldable pub get_publisher_cluster_role_name : Eventing → String
get_publisher_cluster_role_name cr = cr.name <> "-publisher-proxy"

unfoldable pub get_publisher_cluster_role_binding_name : Eventing → String
get_publisher_cluster_role_binding_name cr = cr.name <> "-publisher-proxy"

module _ (C : Cluster) where
  unfoldable pub contains_finalizer : Eventing → Bool
  contains_finalizer cr = C.contains_finalizer_of cr.finalizers finalizer_name

  -- `r.Update(ctx, eventing)`: an error leaves the argument as it is.
  update_eventing : Eventing → Exec (Operator C) Reply
  update_eventing cr = do
    modify (λ s. record s { eventing = cr })
    handle (on_cluster (C.update cr)) (λ e. pure (done, some e))
        (λ answer. do modify (λ s. record s { eventing = answer }); pure (done, none))

  unfoldable pub add_finalizer : Exec (Operator C) Reply
  unfolding update_eventing
  add_finalizer = looking (λ s.
      let cr = s.eventing in
      update_eventing (record cr { finalizers = C.with_finalizer cr.finalizers finalizer_name }))

  unfoldable pub remove_finalizer : Exec (Operator C) Reply
  unfolding update_eventing
  remove_finalizer = looking (λ s.
      let cr = s.eventing in
      update_eventing
        (record cr { finalizers = C.without_finalizer_of cr.finalizers finalizer_name }))

  unfoldable pub delete_cluster_scoped_resources : Exec (Operator C) (Unit {0})
  delete_cluster_scoped_resources = looking (λ s. do
    on_cluster
        (C.delete_cluster_role (get_publisher_cluster_role_name s.eventing) s.eventing.namespace)
    on_cluster (
        C.delete_cluster_role_binding (get_publisher_cluster_role_binding_name s.eventing)
          s.eventing.namespace))

  -- `handleEventingDeletion`, after the manager was stopped
  finish_deletion : Exec (Operator C) Reply
  finish_deletion = do
    stamp_status (λ set now.
        set_subscription_manager_ready_condition_to_false set now "Stopped"
          "Subscription manager is stopped")
    handle delete_cluster_scoped_resources
        (λ e.
          reply_error done (sync_status_with_publisher_proxy_err_with_reason C "DeletionError" e))
        (λ _. do
          stamp_status (λ set now.
              set_publisher_proxy_condition_to_false set now "Deleted" "Publisher proxy is deleted")
          remove_finalizer)

  stop_and_finish : BackendSpec → Exec (Operator C) Reply
  unfolding finish_deletion
  stop_and_finish backend =
      if backend.type == nats_backend_type
      then handle (stop_nats_sub_manager C true)
          (λ e. reply_error done (sync_status_with_nats_err C e)) (λ _. finish_deletion)
      else handle (stop_event_mesh_sub_manager C true)
          (λ e. reply_error done (
            sync_status_with_subscription_manager_err_with_reason C
              "EventMeshSubscriptionManagerStopFailed" e))
          (λ _. finish_deletion)

  -- `handleEventingDeletion`, once the finalizer is there and the backend is known
  delete_backend : BackendSpec → Exec (Operator C) Reply
  unfolding stop_and_finish
  delete_backend backend =
      handle (on_cluster C.subscription_exists)
        (λ e. do set_status set_state_error; reply_error done (sync_status_with_deletion_err C e))
        (λ exists.
          if exists
          then (do
            set_status set_state_warning
            reply_error (record { requeue = true; requeue_after = 0 })
                (sync_status_with_deletion_err C err_subscription_exists))
          else stop_and_finish backend)

  delete_specified : Option BackendSpec → Exec (Operator C) Reply
  unfolding delete_backend
  delete_specified none = remove_finalizer
  delete_specified (some backend) = delete_backend backend

  unfoldable pub handle_eventing_deletion : Exec (Operator C) Reply
  unfolding delete_specified
  handle_eventing_deletion = looking (λ s.
      if contains_finalizer s.eventing
      then delete_specified s.eventing.backend
      else pure (done, none))
