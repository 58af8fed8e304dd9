-- ===== src/Operator/Reconcile.antt =====
-- The reconciliation of the Eventing resource (internal/controller/operator/eventing/controller.go).
pub mod Steady
pub mod Forbidding
use eventing_manager.Base.{
  [], String, ◌<>◌, Bool, true, false, ◌&&◌, not, Option, none, some, ◌==◌, string_eq,
  if◌then◌else◌,
}
use eventing_manager.Errors.{Error, sentinel, note, terminal}
use eventing_manager.Exec.{Exec, pure, modify, when, handle, ◌>>◌}
use eventing_manager.Operator.{
  BackendConfig, Oauth2Credentials, Eventing, Cluster, Operator, BackendSpec, Eventing, Reply, done,
  on_cluster, looking, with_backend, set_status, stamp_status, reply_error, reply_of,
}
use eventing_manager.Operator.{nats_backend_type, event_mesh_backend_type}
use eventing_manager.Operator.Backends.{
  handle_backend_switching, reconcile_nats_backend, reconcile_event_mesh_backend,
}
use eventing_manager.Operator.Deletion.{contains_finalizer, add_finalizer, handle_eventing_deletion}
use eventing_manager.Operator.Status.{
  init_state_processing, sync_eventing_status, sync_status_for_empty_backend,
  sync_status_with_subscription_manager_err,
}
use eventing_manager.OperatorStatus.{
  set_state_error, sync_status_active_backend, has_empty_backend,
  update_condition_publisher_proxy_ready,
}
use eventing_manager.Operator.{nats_backend_type}

abbrev pub err_unsupported_backed_type : Error
err_unsupported_backed_type = sentinel "backend type not supported"

-- The type of the backend that the resource specifies, if it does.
abbrev pub backend_type_of : Option BackendSpec → Option String
backend_type_of none = none
backend_type_of (some backend) = some backend.type

-- `NewReconciler`, with the cluster beside it; no call has set the resource yet.
unfoldable pub new_reconciler :
    (C : Cluster) → BackendConfig → Option (String × String) → Eventing → C.State → Operator C
new_reconciler C backend_config allowed cr cluster = record {
  nats_sub_manager = none;
  event_mesh_sub_manager = none;
  is_nats_sub_manager_started = false;
  is_event_mesh_sub_manager_started = false;
  oauth2_credentials = record {
    client_id = "";
    client_secret = "";
    token_url = "";
    certs_url = "";
  };
  backend_config = backend_config;
  allowed_eventing_cr = allowed;
  cluster_scoped_resources_watched = false;
  nats_watchers = [];
  nats_connection = none;
  eventing = cr;
  cluster = cluster;
}

module _ (C : Cluster) where
  -- `r.backendConfig.PublisherConfig.ApplicationCRDEnabled = …`, and passing the configuration on
  store_application_crd_enabled : Bool → Operator C → Operator C
  store_application_crd_enabled enabled s =
      let config = s.backend_config in
      let config' = record config { application_crd_enabled = enabled } in
      record s { backend_config = config'; cluster = C.set_backend_config config' s.cluster }

  reconcile_backend : String → Exec (Operator C) Reply
  reconcile_backend type =
      if type == nats_backend_type
      then reconcile_nats_backend C
      else if type == event_mesh_backend_type
      then reconcile_event_mesh_backend C
      else pure (done, some (terminal (note err_unsupported_backed_type type)))

  -- `handleEventingReconcile`, once there is a backend
  reconcile_specified_backend : Exec (Operator C) Reply
  unfolding store_application_crd_enabled reconcile_backend
  reconcile_specified_backend =
      handle (handle_backend_switching C)
        (λ e. reply_error done (sync_status_with_subscription_manager_err C e))
        (λ _. with_backend (λ backend. do
          set_status (sync_status_active_backend backend.type)
          handle (on_cluster C.application_crd_exists)
              (λ e. reply_error done (sync_status_with_subscription_manager_err C e))
              (λ enabled. do
                modify (store_application_crd_enabled enabled)
                reconcile_backend backend.type)))

  unfoldable pub handle_eventing_reconcile : Exec (Operator C) Reply
  unfolding reconcile_specified_backend
  handle_eventing_reconcile = looking (λ s.
      if contains_finalizer C s.eventing
      then (do
        init_state_processing C
        if has_empty_backend (backend_type_of s.eventing.backend)
            then reply_of done (
                sync_status_for_empty_backend C
                  "Backend config is not provided. Please specify a backend.")
            else reconcile_specified_backend)
      else add_finalizer C)

  forbid : String × String → Exec (Operator C) Bool
  forbid (namespace, name) = do
    set_status set_state_error
    stamp_status (λ set now. update_condition_publisher_proxy_ready set now "False" "Forbidden" (
        "Only a single Eventing CR with name: "
        <> (name
            <> (" and namespace: "
                <> (namespace <> " is allowed to be created in a Kyma cluster.")))))
    sync_eventing_status C
    pure false

  is_allowed : String × String → Eventing → Bool
  is_allowed (namespace, name) cr = cr.name == name && cr.namespace == namespace

  unfoldable pub handle_eventing_cr_allowed_check : String × String → Exec (Operator C) Bool
  unfolding forbid is_allowed
  handle_eventing_cr_allowed_check allowed =
      looking (λ s. if is_allowed allowed s.eventing then pure true else forbid allowed)

  -- The check of `r.allowedEventingCR`, if there is one, and what comes after it.
  check_allowed : Option (String × String) → Exec (Operator C) Reply
  check_allowed none = handle_eventing_reconcile
  check_allowed (some allowed) =
      handle (handle_eventing_cr_allowed_check allowed) (λ e. pure (done, some e))
        (λ result. if result then handle_eventing_reconcile else pure (done, none))

  -- `Reconcile`, from the check of the deletion timestamp on
  dispatch : Exec (Operator C) Reply
  unfolding check_allowed
  dispatch = looking (λ s.
      if s.eventing.in_deletion
      then handle_eventing_deletion C
      else check_allowed s.allowed_eventing_cr)

  watch_cluster_scoped_resources : Exec (Operator C) (Unit {0})
  watch_cluster_scoped_resources = looking (λ s. when (not s.cluster_scoped_resources_watched) (do
    on_cluster (C.watch_kind "ClusterRole" s.eventing)
    on_cluster (C.watch_kind "ClusterRoleBinding" s.eventing)
    modify (λ t. record t { cluster_scoped_resources_watched = true })))

  unfoldable pub reconcile : String → String → Exec (Operator C) Reply
  unfolding dispatch watch_cluster_scoped_resources
  reconcile namespace name =
      handle (on_cluster (C.get namespace name))
        (λ e. pure (done, if C.is_not_found e then none else some e))
        (λ cr. do
          modify (λ s. record s { eventing = cr })
          handle watch_cluster_scoped_resources (λ e. pure (done, some e)) (λ _. dispatch))
