-- ===== src/Operator/Backends.antt =====
-- The two backends and the switch between them (internal/controller/operator/eventing/controller.go).
pub mod Steady
pub mod Switching
use eventing_manager.Base.{String, true, Option, none, some, ◌==◌, string_eq, if◌then◌else◌}
use eventing_manager.Errors.{Error, sentinel, note, wrap, terminal, is_error}
use eventing_manager.Exec.{Exec, pure, when, handle, ◌>>=◌, ◌>>◌}
use eventing_manager.JetStream.{NatsConfig}
use eventing_manager.NatsConnection.{err_cannot_connect}
use eventing_manager.Operator.{
  Cluster, Operator, Deployment, Reply, done, on_cluster, looking, with_backend, set_status,
  stamp_status, reply_error,
}
use eventing_manager.Operator.{nats_backend_type}
use eventing_manager.Operator.Secrets.{
  err_event_mesh_secret_malformatted, is_malformatted_secret_err,
}
use eventing_manager.Operator.EventMesh.{
  err_event_mesh_secret_missing, stop_event_mesh_sub_manager, reconcile_event_mesh_sub_manager,
}
use eventing_manager.Operator.Nats.{
  get_nats_config, stop_nats_sub_manager, reconcile_nats_sub_manager, start_nats_cr_watch,
  stop_nats_cr_watch, connect_to_nats, disconnect_from_nats,
}
use eventing_manager.Operator.Status.{
  sync_status_with_nats_state, sync_status_with_nats_err, sync_status_with_publisher_proxy_err,
  sync_sub_manager_status_with_nats_state, sync_status_with_subscription_manager_err,
  handle_eventing_state,
}
use eventing_manager.OperatorStatus.{
  set_state_processing, state_warning, clear_conditions, is_previous_backend_empty,
  is_spec_backend_type_changed, set_subscription_manager_ready_condition_to_true,
  set_nats_available_condition_to_true, set_event_mesh_available_condition_to_true,
}
use eventing_manager.Operator.{nats_backend_type}

abbrev pub err_nats_module_missing : Error
err_nats_module_missing = sentinel "NATS module has to be installed"

abbrev pub err_api_gateway_module_missing : Error
err_api_gateway_module_missing =
    sentinel "API-Gateway module is needed for EventMesh backend. APIRules CRD is not installed"

module _ (C : Cluster) where
  -- Stopping the previously active backend.
  stop_backend : String → Exec (Operator C) (Unit {0})
  stop_backend previous =
      if previous == nats_backend_type
      then (do stop_nats_sub_manager C true; stop_nats_cr_watch C; disconnect_from_nats C)
      else stop_event_mesh_sub_manager C true

  -- `handleBackendSwitching` where the backend is another one
  switch_backend : Exec (Operator C) (Unit {0})
  unfolding stop_backend
  switch_backend = looking (λ s. do
    stop_backend s.eventing.status.active_backend
    set_status set_state_processing
    set_status clear_conditions
    looking (λ t. on_cluster (C.delete_publisher_proxy_resources t.eventing)))

  unfoldable pub handle_backend_switching : Exec (Operator C) (Unit {0})
  unfolding switch_backend
  handle_backend_switching = looking (λ s.
      if is_previous_backend_empty s.eventing.status
      then pure tt
      else with_backend (λ backend.
        when (is_spec_backend_type_changed backend.type s.eventing.status) switch_backend))

  -- The NATS configuration is made for the NATS backend only.
  nats_config_for : String → Exec (Operator C) (Option NatsConfig)
  nats_config_for backend_type =
      if backend_type == nats_backend_type
      then (do config ← get_nats_config C; pure (some config))
      else pure none

  unfoldable pub handle_publisher_proxy : String → Exec (Operator C) Deployment
  unfolding nats_config_for
  handle_publisher_proxy backend_type = do
    config ← nats_config_for backend_type
    deployment ← looking (λ s. on_cluster (C.deploy_publisher_proxy s.eventing config backend_type))
    looking (λ s. on_cluster (C.deploy_publisher_proxy_resources s.eventing deployment))
    pure deployment

  -- `reconcileNATSBackend` without the CRD of NATS
  report_nats_module_missing : Error → Exec (Operator C) Reply
  report_nats_module_missing e =
      handle (looking (λ s. on_cluster (C.delete_publisher_proxy_resources s.eventing)))
        (λ del_err. pure (done, some del_err))
        (λ _.
          reply_error done
            (sync_status_with_nats_state C state_warning (wrap err_nats_module_missing e)))

  report_connection_error : Error → Exec (Operator C) Reply
  report_connection_error e =
      if is_error e err_cannot_connect
      then reply_error done
          (do joined ← sync_status_with_nats_state C state_warning e; pure (terminal joined))
      else reply_error done (sync_status_with_nats_state C state_warning e)

  -- `reconcileNATSBackend`, once connected
  run_nats_backend : Exec (Operator C) Reply
  run_nats_backend = do
    stamp_status set_nats_available_condition_to_true
    handle (with_backend (λ backend. handle_publisher_proxy backend.type))
        (λ e. reply_error done (sync_status_with_publisher_proxy_err C e))
        (λ deployment.
          handle (reconcile_nats_sub_manager C)
            (λ e. reply_error done (sync_status_with_nats_err C e))
            (λ _. handle_eventing_state C deployment))

  unfoldable pub reconcile_nats_backend : Exec (Operator C) Reply
  unfolding report_nats_module_missing report_connection_error run_nats_backend
  reconcile_nats_backend =
      handle (on_cluster (C.get_crd "nats.operator.kyma-project.io"))
        (λ e. if C.is_not_found e then report_nats_module_missing e else pure (done, some e))
        (λ _.
          handle (start_nats_cr_watch C) (λ e. reply_error done (sync_status_with_nats_err C e))
            (λ _. handle (connect_to_nats C) report_connection_error (λ _. run_nats_backend)))

  report_secret_error : Error → Exec (Operator C) Reply
  report_secret_error e =
      if C.is_not_found e
      then reply_error done
          (sync_sub_manager_status_with_nats_state C state_warning err_event_mesh_secret_missing)
      else reply_error done
          (sync_status_with_subscription_manager_err C (note e "failed to get EventMesh secret"))

  report_sub_manager_error : Error → Exec (Operator C) Reply
  report_sub_manager_error e =
      if is_malformatted_secret_err e
      then reply_error done (
          sync_sub_manager_status_with_nats_state C state_warning
            err_event_mesh_secret_malformatted)
      else reply_error done (sync_status_with_subscription_manager_err C e)

  -- `reconcileEventMeshBackend`, once the manager runs
  run_event_mesh_backend : Exec (Operator C) Reply
  run_event_mesh_backend = do
    stamp_status set_event_mesh_available_condition_to_true
    stamp_status set_subscription_manager_ready_condition_to_true
    handle (with_backend (λ backend. handle_publisher_proxy backend.type))
        (λ e. reply_error done (sync_status_with_publisher_proxy_err C e)) (handle_eventing_state C)

  unfoldable pub reconcile_event_mesh_backend : Exec (Operator C) Reply
  unfolding report_secret_error report_sub_manager_error run_event_mesh_backend
  reconcile_event_mesh_backend =
      handle (on_cluster C.api_rule_crd_exists)
        (λ e. reply_error done (sync_status_with_subscription_manager_err C e))
        (λ enabled.
          if enabled
          then handle
              (with_backend (λ backend. on_cluster (C.get_secret backend.event_mesh_secret)))
              report_secret_error
              (λ secret.
                handle (reconcile_event_mesh_sub_manager C secret) report_sub_manager_error
                  (λ _. run_event_mesh_backend))
          else reply_error done
              (sync_status_with_subscription_manager_err C err_api_gateway_module_missing))
