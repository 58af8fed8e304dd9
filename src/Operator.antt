-- ===== src/Operator.antt =====
-- The reconciler of the Eventing resource (internal/controller/operator/eventing): its interfaces, its
-- state, and the steps that its files share.
pub mod Core
pub mod Calls
pub mod Status
pub mod Nats
pub mod Secrets
pub mod EventMesh
pub mod Deletion
pub mod Backends
pub mod Reconcile
pub mod Lifecycle
pub use eventing_manager.Runtime.{Result, Reply, done}
unfoldable pub use eventing_manager.Exec.{looking}
use eventing_manager.Base.{◌≡◌, refl, ℕ, ℤ, String, Bool, true, false, Option, none, some, List}
use eventing_manager.Base.Dict.{Dict}
use eventing_manager.Errors.{Error}
use eventing_manager.Exec.{Outcome, ok, err, panic, Exec, pure, modify, handle}
use eventing_manager.JetStream.{NatsConfig}
use eventing_manager.OperatorStatus.{Condition, EventingStatus}

-- `Backend` and `BackendConfig` (api/operator/v1alpha1/eventing_types.go); the size is the text of the
-- quantity.
pub record BackendSpec : Type 0 where
  pub type : String
  pub nats_stream_storage_type : String
  pub nats_stream_replicas : ℤ
  pub nats_stream_max_size : String
  pub nats_max_msgs_per_topic : ℤ
  pub event_mesh_secret : String
  pub event_type_prefix : String
  pub domain : String

abbrev pub nats_backend_type : String
nats_backend_type = "NATS"

abbrev pub event_mesh_backend_type : String
event_mesh_backend_type = "EventMesh"

-- The Eventing resource; the reconciler itself reads no more of it.
pub record Eventing : Type 0 where
  pub namespace : String
  pub name : String
  pub finalizers : List String
  -- `!DeletionTimestamp.IsZero()`
  pub in_deletion : Bool
  pub backend : Option BackendSpec
  pub status : EventingStatus

-- `env.DefaultSubscriptionConfig`, durations in seconds
pub record DefaultSubscriptionConfig : Type 0 where
  pub max_in_flight_messages : ℤ
  pub dispatcher_retry_period : ℕ
  pub dispatcher_max_retries : ℤ

-- The part of `env.BackendConfig` that the reconciler reads or writes.
pub record BackendConfig : Type 0 where
  pub application_crd_enabled : Bool
  pub default_subscription_config : DefaultSubscriptionConfig
  pub eventing_webhook_auth_secret_name : String

-- The name, the status and the spec of a Deployment, as `IsDeploymentReady` reads them.
pub record Deployment : Type 0 where
  pub name : String
  pub namespace : String
  pub available_replicas : ℤ
  pub ready_replicas : ℤ
  pub updated_replicas : ℤ
  pub replicas : Option ℤ

pub record Secret : Type 0 where
  pub name : String
  pub namespace : String
  pub labels : Dict String String
  pub data_of : Dict String String
  pub string_data : Dict String String

-- `Message`, `Broker` and `OAuthCredentials` (service_instance_secret.go)
pub record Message : Type 0 where
  pub broker_type : String
  pub client_id : String
  pub client_secret : String
  pub grant_type : String
  pub token_endpoint : String
  pub uri : String

-- `manager.Params`, by the names in pkg/subscriptionmanager/manager
abbrev pub Params : Type 0
Params = Dict String String

-- The cluster and the other interfaces that the reconciler calls, over one unknown state. A manager, a
-- connection and a watcher are references into that state.
pub record Cluster : Type 1 where
  pub State : Type 0
  pub Manager : Type 0
  pub Connection : Type 0
  pub Watcher : Type 0
  -- `err.Error()`, `kerrors.IsNotFound`
  pub text_of : Error → String
  pub is_not_found : Error → Bool
  -- `meta.SetStatusCondition`, `natsv1alpha1.ConditionsEquals`, `kmetav1.Now`
  pub set_status_condition : Condition → List Condition → List Condition
  pub conditions_equal : List Condition → List Condition → Bool
  pub now : State → ℕ
  -- package controllerutil
  pub contains_finalizer_of : List String → String → Bool
  pub with_finalizer : List String → String → List String
  pub without_finalizer_of : List String → String → List String
  -- `client.Client`: `Update` writes the answer of the server into its argument
  pub get : String → String → Exec State Eventing
  pub update : Eventing → Exec State Eventing
  pub update_status : Eventing → Exec State (Unit {0})
  -- `controller.Watch` on a kind, and on the events of a watcher
  pub watch_kind : String → Eventing → Exec State (Unit {0})
  pub watch_events : Watcher → Eventing → Exec State (Unit {0})
  -- `watcher.NewResourceWatcher` for the NATS resources of a namespace, and `watcher.Watcher`
  pub new_watcher : String → State → Watcher × State
  pub is_watcher_started : Watcher → State → Bool
  pub start_watcher : Watcher → State → State
  pub stop_watcher : Watcher → State → State
  -- `k8s.Client`
  pub application_crd_exists : Exec State Bool
  pub api_rule_crd_exists : Exec State Bool
  pub get_crd : String → Exec State (Unit {0})
  pub get_secret : String → Exec State Secret
  pub patch_apply : Secret → Exec State Secret
  -- the data of the ConfigMap of the name in the namespace
  pub get_config_map : String → String → Exec State (Dict String String)
  pub delete_cluster_role : String → String → Exec State (Unit {0})
  pub delete_cluster_role_binding : String → String → Exec State (Unit {0})
  -- nil if there is no such Deployment
  pub get_deployment : String → String → Exec State (Option Deployment)
  -- the names and namespaces of the NATS resources in a namespace
  pub get_nats_resources : String → Exec State (List (String × String))
  -- `eventing.Manager`
  pub subscription_exists : Exec State Bool
  pub deploy_publisher_proxy : Eventing → Option NatsConfig → String → Exec State Deployment
  pub deploy_publisher_proxy_resources : Eventing → Deployment → Exec State (Unit {0})
  pub delete_publisher_proxy_resources : Eventing → Exec State (Unit {0})
  pub get_backend_config : State → BackendConfig
  pub set_backend_config : BackendConfig → State → State
  -- `subscriptionmanager.ManagerFactory` and `manager.Manager`
  pub new_jetstream_manager : Eventing → NatsConfig → State → Manager × State
  pub new_event_mesh_manager : String → Exec State Manager
  pub init_manager : Manager → Exec State (Unit {0})
  pub start_manager : Manager → DefaultSubscriptionConfig → Params → Exec State (Unit {0})
  pub stop_manager : Manager → Bool → Exec State (Unit {0})
  -- `natsconnection.Builder` and `natsconnection.Interface`
  pub build_connection : State → Connection × State
  pub connect_nats : Connection → Eventing → Exec State (Unit {0})
  pub disconnect_nats : Connection → State → State
  -- `env.GetNATSConfig`, `hashstructure.Hash`, `json.Unmarshal`, `os.Setenv`
  pub env_nats_config : State → Outcome NatsConfig
  pub hash_nats : DefaultSubscriptionConfig → NatsConfig → Outcome ℤ
  pub hash_text : String → Outcome ℤ
  pub unmarshal_messages : String → Outcome (List Message)
  pub set_env : String → String → Exec State (Unit {0})

-- `oauth2Credentials`
pub record Oauth2Credentials : Type 0 where
  pub client_id : String
  pub client_secret : String
  pub token_url : String
  pub certs_url : String

-- `type Reconciler struct`, the copy of the resource that the call works on, and the cluster.
pub record Operator (C : Cluster) : Type 0 where
  pub nats_sub_manager : Option C.Manager
  pub event_mesh_sub_manager : Option C.Manager
  pub is_nats_sub_manager_started : Bool
  pub is_event_mesh_sub_manager_started : Bool
  pub oauth2_credentials : Oauth2Credentials
  pub backend_config : BackendConfig
  -- the namespace and the name of `allowedEventingCR`
  pub allowed_eventing_cr : Option (String × String)
  pub cluster_scoped_resources_watched : Bool
  pub nats_watchers : Dict String C.Watcher
  pub nats_connection : Option C.Connection
  pub eventing : Eventing
  pub cluster : C.State

module _ {C : Cluster} {A : Type 0} where
  unfoldable pub on_cluster : Exec C.State A → Exec (Operator C) A
  on_cluster m s = let (r, t) = m s.cluster in (r, record s { cluster = t })

  -- A call that makes something and cannot fail.
  unfoldable pub produce : (C.State → A × C.State) → Exec (Operator C) A
  unfolding on_cluster
  produce m = on_cluster (λ t. let (a, t') = m t in (ok a, t'))

  -- `eventing.Spec.Backend.…`, which is a nil dereference if the resource has no backend
  abbrev pub give_backend :
      Option BackendSpec → (BackendSpec → Exec (Operator C) A) → Exec (Operator C) A
  give_backend none m s = (panic, s)
  give_backend (some b) m s = m b s

  unfoldable pub with_backend : (BackendSpec → Exec (Operator C) A) → Exec (Operator C) A
  with_backend m s = give_backend s.eventing.backend m s

module _ {C : Cluster} where
  unfoldable pub advance_cluster : (C.State → C.State) → Exec (Operator C) (Unit {0})
  advance_cluster f = modify (λ s. record s { cluster = f s.cluster })

  unfoldable pub set_status : (EventingStatus → EventingStatus) → Exec (Operator C) (Unit {0})
  set_status f =
      modify
        (λ s. let cr = s.eventing in record s { eventing = record cr { status = f cr.status } })

  -- A setter of a condition, with the library's `SetStatusCondition` and the time.
  unfoldable pub stamp_status :
      ((Condition → List Condition → List Condition) → ℕ → EventingStatus → EventingStatus)
      → Exec (Operator C) (Unit {0})
  stamp_status f = modify (λ s.
      let cr = s.eventing in
      record s {
        eventing = record cr { status = f C.set_status_condition (C.now s.cluster) cr.status };
      })

  -- `return result, err` for an error that there is
  unfoldable pub reply_error : Result → Exec (Operator C) Error → Exec (Operator C) Reply
  reply_error result m = handle m (λ e. pure (result, some e)) (λ e. pure (result, some e))

  -- `return result, m()`
  unfoldable pub reply_of : Result → Exec (Operator C) (Unit {0}) → Exec (Operator C) Reply
  reply_of result m = handle m (λ e. pure (result, some e)) (λ _. pure (result, none))
