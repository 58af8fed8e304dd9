-- ===== src/Operator/Status.antt =====
-- Writing the status of the Eventing resource (internal/controller/operator/eventing/status.go).
pub mod Steady
pub mod Frames
pub mod Readiness
use eventing_manager.Base.{
  ℕ, String, ◌<>◌, Bool, false, ◌&&◌, not, none, some, ◌==◌, string_eq, int_eq, if◌then◌else◌,
}
use eventing_manager.Errors.{Error, join_errors}
use eventing_manager.Exec.{Outcome, ok, panic, Exec, pure, lift, when, handle, ◌>>=◌, ◌>>◌}
use eventing_manager.Operator.{
  Cluster, Operator, Eventing, Deployment, Reply, done, on_cluster, looking, set_status,
  stamp_status, reply_error, reply_of,
}
use eventing_manager.OperatorStatus.{
  EventingStatus, is_equal, remove_unsupported_conditions, set_state_processing, set_state_warning,
  set_state_error, state_error, clear_publisher_service, set_publisher_service,
  update_condition_backend_available, update_condition_publisher_proxy_ready,
  update_condition_subscription_manager_ready, update_condition_deletion,
  set_publisher_proxy_ready_to_true,
}
use eventing_manager.Base.{Option}
use eventing_manager.Base.{ℤ}

abbrev pub requeue_time_for_status_check : ℕ
requeue_time_for_status_check = 10

-- `publisherProxySuffix` of pkg/eventing/utils.go, behind the name of the resource
unfoldable pub get_publisher_publish_service_name : Eventing → String
get_publisher_publish_service_name cr = cr.name <> "-publisher-proxy"

unfoldable pub set_state : String → EventingStatus → EventingStatus
set_state state es = record es { state = state }

-- `IsDeploymentReady`: the first comparison already reads the deployment and the replicas of its spec.
has_replicas : Deployment → Option ℤ → Outcome Bool
has_replicas d none = panic
has_replicas d (some n) =
    ok (d.available_replicas == n && d.ready_replicas == n && d.updated_replicas == n)

unfoldable pub is_deployment_ready : Option Deployment → Outcome Bool
unfolding has_replicas
is_deployment_ready none = panic
is_deployment_ready (some d) = has_replicas d d.replicas

module _ (C : Cluster) where
  unfoldable pub init_state_processing : Exec (Operator C) (Unit {0})
  init_state_processing =
      looking (λ s. when (s.eventing.status.state == "") (set_status set_state_processing))

  unfoldable pub update_status : Eventing → Eventing → Exec (Operator C) (Unit {0})
  update_status old new =
      let status = remove_unsupported_conditions new.status in
      when (not (is_equal C.conditions_equal old.status status))
        (on_cluster (C.update_status (record new { status = status })))

  unfoldable pub sync_eventing_status : Exec (Operator C) (Unit {0})
  sync_eventing_status = looking (λ s. do
    actual ← on_cluster (C.get s.eventing.namespace s.eventing.name)
    update_status actual (record actual { status = s.eventing.status }))

  -- `errors.Join(err, r.syncEventingStatus(…))`
  unfoldable pub sync_with : Error → Exec (Operator C) Error
  sync_with e =
      handle sync_eventing_status (λ f. pure (join_errors e (some f)))
        (λ _. pure (join_errors e none))

  unfoldable pub sync_status_with_nats_state : String → Error → Exec (Operator C) Error
  sync_status_with_nats_state state e = do
    set_status (set_state state)
    stamp_status (λ set now.
        update_condition_backend_available set now "False" "NATSUnavailable" (C.text_of e))
    sync_with e

  unfoldable pub sync_status_with_nats_err : Error → Exec (Operator C) Error
  sync_status_with_nats_err e = sync_status_with_nats_state state_error e

  unfoldable pub sync_status_for_empty_backend : String → Exec (Operator C) (Unit {0})
  sync_status_for_empty_backend message = do
    set_status set_state_warning
    stamp_status (λ set now.
        update_condition_backend_available set now "False" "BackendNotSpecified" message)
    sync_eventing_status

  unfoldable pub sync_status_with_publisher_proxy_err_with_reason :
      String → Error → Exec (Operator C) Error
  sync_status_with_publisher_proxy_err_with_reason reason e = do
    set_status set_state_error
    stamp_status
        (λ set now. update_condition_publisher_proxy_ready set now "False" reason (C.text_of e))
    sync_with e

  unfoldable pub sync_status_with_publisher_proxy_err : Error → Exec (Operator C) Error
  sync_status_with_publisher_proxy_err e =
      sync_status_with_publisher_proxy_err_with_reason "DeployFailed" e

  unfoldable pub sync_sub_manager_status_with_nats_state : String → Error → Exec (Operator C) Error
  sync_sub_manager_status_with_nats_state state e = do
    set_status (set_state state)
    stamp_status (λ set now.
        update_condition_subscription_manager_ready set now "False"
          "EventMeshSubscriptionManagerFailed" (C.text_of e))
    sync_with e

  unfoldable pub sync_status_with_subscription_manager_err_with_reason :
      String → Error → Exec (Operator C) Error
  sync_status_with_subscription_manager_err_with_reason reason e = do
    set_status set_state_error
    stamp_status (λ set now.
        update_condition_subscription_manager_ready set now "False" reason (C.text_of e))
    sync_with e

  unfoldable pub sync_status_with_subscription_manager_err : Error → Exec (Operator C) Error
  sync_status_with_subscription_manager_err e =
      sync_status_with_subscription_manager_err_with_reason "EventMeshSubscriptionManagerFailed" e

  -- Unlike the others, it does not return the error that it is given.
  unfoldable pub sync_status_with_subscription_manager_failed_condition :
      Error → Exec (Operator C) (Unit {0})
  sync_status_with_subscription_manager_failed_condition e = do
    set_status set_state_error
    stamp_status (λ set now.
        update_condition_subscription_manager_ready set now "False"
          "EventMeshSubscriptionManagerFailed" (C.text_of e))
    sync_eventing_status

  unfoldable pub sync_status_with_deletion_err : Error → Exec (Operator C) Error
  sync_status_with_deletion_err e = do
    stamp_status
        (λ set now. update_condition_deletion set now "False" "DeletionError" (C.text_of e))
    sync_with e

  -- What `handleEventingState` does with the deployment that the cluster has.
  report_deployment : Option Deployment → Exec (Operator C) Reply
  report_deployment d = do
    ready ← lift (is_deployment_ready d)
    if ready
        then (do
          stamp_status set_publisher_proxy_ready_to_true
          looking (λ s. set_status (
              set_publisher_service (get_publisher_publish_service_name s.eventing)
                s.eventing.namespace))
          reply_of done sync_eventing_status)
        else (do
          set_status set_state_processing
          stamp_status (λ set now.
              update_condition_publisher_proxy_ready set now "False" "Processing"
                "Eventing publisher proxy deployment is in progress")
          reply_of (record { requeue = false; requeue_after = requeue_time_for_status_check })
              sync_eventing_status)

  unfoldable pub handle_eventing_state : Deployment → Exec (Operator C) Reply
  unfolding report_deployment
  handle_eventing_state deployment = do
    set_status clear_publisher_service
    handle (on_cluster (C.get_deployment deployment.name deployment.namespace))
        (λ e. do
          stamp_status (λ set now.
              update_condition_publisher_proxy_ready set now "False" "DeploymentStatusSyncFailed"
                (C.text_of e))
          reply_error done (sync_status_with_publisher_proxy_err e))
        (λ d. report_deployment d)
