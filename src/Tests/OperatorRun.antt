-- ===== src/Tests/OperatorRun.antt =====
-- The reconciler of the Eventing resource on a cluster in which everything is there and ready. The
-- state counts the calls that changed something.
use eventing_manager.Operator.Status.Readiness.{IsReported, IsUnanswered}
use eventing_manager.Operator.Nats.Calling.{IsManaged}
use eventing_manager.Operator.Backends.Switching.{Stops}
use eventing_manager.Base.{
  ◌≡◌, ◌≢◌, refl, ℕ, pos, String, Bool, true, false, none, some, [], ◌∷◌, ◌++◌, ◌+◌,
}
use eventing_manager.Exec.{ok, panic, ok-ne-panic, Exec}
use eventing_manager.JetStream.{NatsConfig}
use eventing_manager.Operator.{
  Cluster, Operator, Eventing, BackendSpec, BackendConfig, Deployment, Secret, Reply,
}
use eventing_manager.Operator.Core.{IsCalm, core, IsConsistent, some-ne-none}
use eventing_manager.Operator.Lifecycle.{reconciled, Reachable, start, step, reachable-IsConsistent}
use eventing_manager.Exec.{◌>>=◌, pure, lift, gets, modify, when, handle}
use eventing_manager.Operator.{
  on_cluster, produce, looking, with_backend, advance_cluster, set_status,
}
use eventing_manager.Operator.Core.{IsReady}
use eventing_manager.Base.Dict.{lookup}
use eventing_manager.Operator.Nats.Managing.{reconcile_nats_sub_manager_lem}
use eventing_manager.Operator.EventMesh.{reconcile_event_mesh_sub_manager}
use eventing_manager.Operator.Deletion.{
  handle_eventing_deletion, contains_finalizer, err_subscription_exists,
}
use eventing_manager.Operator.Deletion.Refusing.{
  Refused, requeued, handle_eventing_deletion-IsErrorReply,
}
use eventing_manager.Operator.Status.{handle_eventing_state}
use eventing_manager.Operator.Status.Frames.{IsErrorReply}
use eventing_manager.Operator.Status.Readiness.{handle_eventing_state_lem}
use eventing_manager.Operator.Nats.{
  get_nats_config, get_nats_url, get_default_subscription_config, stop_nats_sub_manager,
  start_nats_sub_manager, reconcile_nats_sub_manager,
}
use eventing_manager.Operator.Backends.{handle_backend_switching}
use eventing_manager.Operator.Backends.Switching.{IsSwitched, handle_backend_switching_lem}
use eventing_manager.Operator.Reconcile.Forbidding.{Forbidden, reconcile-Forbidden}
use eventing_manager.Operator.Nats.{stop_nats_cr_watch, disconnect_from_nats}
use eventing_manager.OperatorStatus.{is_previous_backend_empty, is_spec_backend_type_changed}
use eventing_manager.Operator.Reconcile.{reconcile, new_reconciler}
use eventing_manager.OperatorStatus.{EventingStatus}
use eventing_manager.Base.{◌⊎◌}
use eventing_manager.Operator.Status.{is_deployment_ready}

abbrev done_at : {A : Type 0} → A → Exec ℕ A
done_at a t = (ok a, t + 1)

abbrev there : {A : Type 0} → A → Exec ℕ A
there a t = (ok a, t)

abbrev backend : String → BackendSpec
backend type = record {
  type = type;
  nats_stream_storage_type = "File";
  nats_stream_replicas = pos 3;
  nats_stream_max_size = "700Mi";
  nats_max_msgs_per_topic = pos 1000000;
  event_mesh_secret = "kyma-system/eventing-backend";
  event_type_prefix = "sap.kyma.custom";
  domain = "kyma.example.com";
}

abbrev status : String → EventingStatus
status active = record {
  active_backend = active;
  backend_config_hash = pos 0;
  state = "";
  publisher_service = "";
  conditions = [];
}

abbrev eventing : String → Eventing
eventing type = record {
  namespace = "kyma-system";
  name = "eventing";
  finalizers = "eventing.operator.kyma-project.io/finalizer" ∷ [];
  in_deletion = false;
  backend = some (backend type);
  status = status type;
}

abbrev deployment : Deployment
deployment = record {
  name = "eventing-publisher-proxy";
  namespace = "kyma-system";
  available_replicas = pos 2;
  ready_replicas = pos 2;
  updated_replicas = pos 2;
  replicas = some (pos 2);
}

abbrev nats_config : NatsConfig
nats_config = record {
  url = "";
  max_reconnects = pos 10;
  reconnect_wait = 3;
  event_type_prefix = "";
  js_stream_name = "sap";
  js_subject_prefix = "";
  js_stream_storage_type = "";
  js_stream_replicas = pos 1;
  js_stream_retention_policy = "interest";
  js_stream_max_messages = pos 1;
  js_stream_max_bytes = "";
  js_stream_max_msgs_per_topic = pos 1;
  js_stream_discard_policy = "new";
  js_consumer_deliver_policy = "new";
}

abbrev config : BackendConfig
config = record {
  application_crd_enabled = false;
  default_subscription_config = record {
    max_in_flight_messages = pos 10;
    dispatcher_retry_period = 300;
    dispatcher_max_retries = pos 10;
  };
  eventing_webhook_auth_secret_name = "eventing-webhook-auth";
}

abbrev secret : Secret
secret = record {
  name = "eventing-backend";
  namespace = "kyma-system";
  labels = [];
  data_of =
      ("namespace", "ns")
      ∷ ("messaging", "[]")
      ∷ ("client_id", "id")
      ∷ ("client_secret", "s")
      ∷ ("token_url", "t")
      ∷ ("certs_url", "c")
      ∷ [];
  string_data = [];
}

-- The type of the backend of the only resource, and the answer to whether subscriptions exist.
abbrev cluster : String → Bool → Cluster
cluster type exists = record {
  State = ℕ;
  Manager = String;
  Connection = String;
  Watcher = String;
  text_of = λ e. "error";
  is_not_found = λ e. false;
  set_status_condition = λ c cs. c ∷ cs;
  conditions_equal = λ cs ds. false;
  now = λ t. t;
  contains_finalizer_of = λ fs f. true;
  with_finalizer = λ fs f. fs ++ f ∷ [];
  without_finalizer_of = λ fs f. [];
  get = λ namespace name. there (eventing type);
  update = λ cr. done_at cr;
  update_status = λ cr. done_at tt;
  watch_kind = λ kind cr. done_at tt;
  watch_events = λ w cr. done_at tt;
  new_watcher = λ namespace t. (namespace, t + 1);
  is_watcher_started = λ w t. true;
  start_watcher = λ w t. t + 1;
  stop_watcher = λ w t. t + 1;
  application_crd_exists = there true;
  api_rule_crd_exists = there true;
  get_crd = λ name. there tt;
  get_secret = λ name. there secret;
  patch_apply = λ s. done_at s;
  get_config_map = λ name namespace. there [];
  delete_cluster_role = λ name namespace. done_at tt;
  delete_cluster_role_binding = λ name namespace. done_at tt;
  get_deployment = λ name namespace. there (some deployment);
  get_nats_resources = λ namespace. there (("eventing-nats", namespace) ∷ []);
  subscription_exists = there exists;
  deploy_publisher_proxy = λ cr c type. done_at deployment;
  deploy_publisher_proxy_resources = λ cr d. done_at tt;
  delete_publisher_proxy_resources = λ cr. done_at tt;
  get_backend_config = λ t. config;
  set_backend_config = λ c t. t;
  new_jetstream_manager = λ cr c t. ("nats", t + 1);
  new_event_mesh_manager = λ domain. done_at "eventmesh";
  init_manager = λ m. done_at tt;
  start_manager = λ m subs params. done_at tt;
  stop_manager = λ m cleanup. done_at tt;
  build_connection = λ t. ("connection", t + 1);
  connect_nats = λ c cr. done_at tt;
  disconnect_nats = λ c t. t + 1;
  env_nats_config = λ t. ok nats_config;
  hash_nats = λ subs c. ok (pos 42);
  hash_text = λ text. ok (pos 43);
  unmarshal_messages = λ text. ok [];
  set_env = λ name value. done_at tt;
}

cluster-IsCalm : (type : String) (exists : Bool) → IsCalm (cluster type exists)
cluster-IsCalm type exists = record {
  get = λ namespace name t. ok-ne-panic _;
  update = λ cr t. ok-ne-panic _;
  update_status = λ cr t. ok-ne-panic _;
  watch_kind = λ kind cr t. ok-ne-panic _;
  watch_events = λ w cr t. ok-ne-panic _;
  application_crd_exists = λ t. ok-ne-panic _;
  api_rule_crd_exists = λ t. ok-ne-panic _;
  get_crd = λ name t. ok-ne-panic _;
  get_secret = λ name t. ok-ne-panic _;
  patch_apply = λ s t. ok-ne-panic _;
  get_config_map = λ name namespace t. ok-ne-panic _;
  delete_cluster_role = λ name namespace t. ok-ne-panic _;
  delete_cluster_role_binding = λ name namespace t. ok-ne-panic _;
  get_deployment = λ name namespace t. ok-ne-panic _;
  get_nats_resources = λ namespace t. ok-ne-panic _;
  subscription_exists = λ t. ok-ne-panic _;
  deploy_publisher_proxy = λ cr c type t. ok-ne-panic _;
  deploy_publisher_proxy_resources = λ cr d t. ok-ne-panic _;
  delete_publisher_proxy_resources = λ cr t. ok-ne-panic _;
  new_event_mesh_manager = λ domain t. ok-ne-panic _;
  init_manager = λ m t. ok-ne-panic _;
  start_manager = λ m subs params t. ok-ne-panic _;
  stop_manager = λ m cleanup t. ok-ne-panic _;
  connect_nats = λ c cr t. ok-ne-panic _;
  env_nats_config = λ t. ok-ne-panic _;
  hash_nats = λ subs c. ok-ne-panic _;
  hash_text = λ text. ok-ne-panic _;
  unmarshal_messages = λ text. ok-ne-panic _;
  set_env = λ name value t. ok-ne-panic _;
}

abbrev nats_cluster : Cluster
nats_cluster = cluster "NATS" false

abbrev fresh : Operator nats_cluster
fresh = new_reconciler nats_cluster config none (eventing "NATS") 0

abbrev running : Operator nats_cluster
running = (reconcile nats_cluster "kyma-system" "eventing" fresh).1

fresh-Reachable : Reachable nats_cluster fresh
fresh-Reachable = start config none (eventing "NATS") 0

running-Reachable : Reachable nats_cluster running
running-Reachable = step fresh-Reachable (reconciled "kyma-system" "eventing" fresh)

reachable-IsConsistent_example :
    (running.is_nats_sub_manager_started ≡ true → running.nats_sub_manager ≢ none)
    × (running.is_event_mesh_sub_manager_started ≡ true → running.event_mesh_sub_manager ≢ none)
reachable-IsConsistent_example =
    reachable-IsConsistent (cluster-IsCalm "NATS" false) running-Reachable

idle-IsReady :
    (C : Cluster) (type : String) (t : C.State)
    → IsReady (core (new_reconciler C config none (eventing type) t))
unfolding new_reconciler
idle-IsReady C type t = ((tt, tt), some-ne-none (backend type))

-- A reconciler that works on the resource and has started no manager.
abbrev idle : Operator nats_cluster
idle = fresh

abbrev managed : Operator nats_cluster
managed = (reconcile_nats_sub_manager nats_cluster idle).1

idle-managed : reconcile_nats_sub_manager nats_cluster idle ≡ (ok tt, managed)
unfolding reconcile_nats_sub_manager new_reconciler get_nats_config get_nats_url
    stop_nats_sub_manager start_nats_sub_manager get_default_subscription_config on_cluster produce
    looking with_backend advance_cluster set_status ◌>>=◌ pure lift gets modify when
idle-managed = refl

reconcile_nats_sub_manager_lem_example :
    (c : NatsConfig) × (s' : Operator nats_cluster) × (get_nats_config nats_cluster idle
      ≡ (ok c, s'))
    × (nats_cluster.hash_nats (get_default_subscription_config nats_cluster idle) c
        ≡ ok managed.eventing.status.backend_config_hash)
    × (managed.is_nats_sub_manager_started ≡ true)
    × (managed.nats_sub_manager ≢ none)
    × IsManaged
        (get_default_subscription_config nats_cluster idle)
        managed.eventing.status.backend_config_hash
        s'
        managed
reconcile_nats_sub_manager_lem_example =
    reconcile_nats_sub_manager_lem (cluster-IsCalm "NATS" false) idle managed
      (idle-IsReady nats_cluster "NATS" 0) idle-managed

abbrev mesh_cluster : Cluster
mesh_cluster = cluster "EventMesh" true

abbrev mesh_idle : Operator mesh_cluster
mesh_idle = new_reconciler mesh_cluster config none (eventing "EventMesh") 0

abbrev mesh_managed : Operator mesh_cluster
mesh_managed = (reconcile_event_mesh_sub_manager mesh_cluster secret mesh_idle).1

mesh_idle-backend : mesh_idle.eventing.backend ≡ some (backend "EventMesh")
unfolding new_reconciler
mesh_idle-backend = refl

mesh_idle-finalizer : contains_finalizer mesh_cluster mesh_idle.eventing ≡ true
unfolding new_reconciler contains_finalizer
mesh_idle-finalizer = refl

mesh_idle-exist : mesh_cluster.subscription_exists mesh_idle.cluster ≡ (ok true, 0)
unfolding new_reconciler
mesh_idle-exist = refl

handle_eventing_deletion-IsErrorReply_example :
    (reply : Reply) × (u : Operator mesh_cluster) × (handle_eventing_deletion mesh_cluster mesh_idle
      ≡ (ok reply, u))
    × (Refused (cluster-IsCalm "EventMesh" true) (core mesh_idle) u
        × IsErrorReply requeued err_subscription_exists reply)
handle_eventing_deletion-IsErrorReply_example =
    handle_eventing_deletion-IsErrorReply (cluster-IsCalm "EventMesh" true) (backend "EventMesh")
      mesh_idle 0 mesh_idle-finalizer mesh_idle-backend mesh_idle-exist

handle_eventing_state_lem_example :
    ((reply : Reply) × (t : Operator nats_cluster) × (handle_eventing_state nats_cluster deployment
          idle
        ≡ (ok reply, t))
      × IsReported (cluster-IsCalm "NATS" false) 0 deployment t)
    ⊎ ((t : Operator nats_cluster) × (handle_eventing_state nats_cluster deployment idle
          ≡ (panic, t))
        × IsUnanswered (cluster-IsCalm "NATS" false) 0 deployment)
unfolding new_reconciler
handle_eventing_state_lem_example =
    handle_eventing_state_lem (cluster-IsCalm "NATS" false) deployment idle

-- A cluster without the deployment of the publisher proxy: `handleEventingState` uses the nil.
abbrev bare_cluster : Cluster
bare_cluster = record nats_cluster { get_deployment = λ name namespace. there none }

bare-panic :
    (handle_eventing_state bare_cluster deployment
      (new_reconciler bare_cluster config none (eventing "NATS") 0)).0
    ≡ panic
unfolding handle_eventing_state on_cluster set_status handle ◌>>=◌ modify lift new_reconciler
    is_deployment_ready looking pure
bare-panic = refl

-- A reconciler with a manager for NATS that runs, and a resource that asks for EventMesh.
abbrev switching : Operator mesh_cluster
switching = record mesh_idle {
  nats_sub_manager = some "nats";
  is_nats_sub_manager_started = true;
  eventing = record (eventing "EventMesh") { status = status "NATS" };
}

abbrev switched : Operator mesh_cluster
switched = (handle_backend_switching mesh_cluster switching).1

switching-switched : handle_backend_switching mesh_cluster switching ≡ (ok tt, switched)
unfolding handle_backend_switching new_reconciler on_cluster looking with_backend ◌>>=◌ pure lift
    gets modify when set_status stop_nats_sub_manager stop_nats_cr_watch disconnect_from_nats
    is_previous_backend_empty is_spec_backend_type_changed advance_cluster lookup
switching-switched = refl

switching-changed : is_spec_backend_type_changed "EventMesh" (status "NATS") ≡ true
unfolding is_spec_backend_type_changed
switching-changed = refl

switching-active : is_previous_backend_empty (status "NATS") ≡ false
unfolding is_previous_backend_empty
switching-active = refl

switching-IsConsistent : IsConsistent (core switching)
unfolding new_reconciler
switching-IsConsistent = (tt, tt)

handle_backend_switching_lem_example :
    Stops (cluster-IsCalm "EventMesh" true) "NATS" switching
    × IsSwitched (cluster-IsCalm "EventMesh" true) "NATS" switched
handle_backend_switching_lem_example =
    handle_backend_switching_lem (cluster-IsCalm "EventMesh" true) (backend "EventMesh") switching
      switched switching-IsConsistent refl switching-active switching-changed switching-switched

-- A reconciler that allows the resource `kyma-system/other` only.
abbrev strict : Operator nats_cluster
strict = new_reconciler nats_cluster config (some ("kyma-system", "other")) (eventing "NATS") 0

strict-got : nats_cluster.get "kyma-system" "eventing" strict.cluster ≡ (ok (eventing "NATS"), 0)
unfolding new_reconciler
strict-got = refl

strict-allowed : strict.allowed_eventing_cr ≡ some ("kyma-system", "other")
unfolding new_reconciler
strict-allowed = refl

strict-strange :
    ¬ (((eventing "NATS").name ≡ "other") × ((eventing "NATS").namespace ≡ "kyma-system"))
strict-strange p = cc

reconcile-Forbidden_example :
    (reply : Reply) × (u : Operator nats_cluster) × (reconcile nats_cluster "kyma-system" "eventing"
        strict
      ≡ (ok reply, u))
    × Forbidden
        (cluster-IsCalm "NATS" false)
        (core (record strict { eventing = eventing "NATS" }))
        reply
        u
reconcile-Forbidden_example =
    reconcile-Forbidden (cluster-IsCalm "NATS" false) "kyma-system" "other" (eventing "NATS") 0
      strict "kyma-system" "eventing" strict-got refl strict-allowed strict-strange
