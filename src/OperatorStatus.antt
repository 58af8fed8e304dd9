-- ===== src/OperatorStatus.antt =====
-- The Eventing resource's status (api/operator/v1alpha1: status.go, eventing_types.go).
pub mod Laws
use eventing_manager.Base.{
  ◌≡◌, ◌≢◌, ℕ, ℤ, String, ◌<>◌, Bool, true, false, ◌&&◌, ◌||◌, Option, none, some, List, [], ◌∷◌,
  ◌==◌, ◌!=◌, string_eq, int_eq, if◌then◌else◌,
}
use eventing_manager.Base.Text.{is_all_space}

-- `kmetav1.Condition`
pub record Condition : Type 0 where
  pub type : String
  pub status : String
  pub last_transition_time : ℕ
  pub reason : String
  pub message : String

pub record EventingStatus : Type 0 where
  pub active_backend : String
  -- `BackendConfigHash`
  pub backend_config_hash : ℤ
  pub state : String
  pub publisher_service : String
  pub conditions : List Condition

abbrev pub state_ready : String
state_ready = "Ready"

abbrev pub state_error : String
state_error = "Error"

abbrev pub state_processing : String
state_processing = "Processing"

abbrev pub state_warning : String
state_warning = "Warning"

abbrev pub condition_backend_available : String
condition_backend_available = "BackendAvailable"

abbrev pub condition_publisher_proxy_ready : String
condition_publisher_proxy_ready = "PublisherProxyReady"

abbrev pub condition_subscription_manager_ready : String
condition_subscription_manager_ready = "SubscriptionManagerReady"

abbrev pub condition_deleted : String
condition_deleted = "Deleted"

-- `getSupportedConditionsTypes` as a test
unfoldable pub is_supported : String → Bool
is_supported t =
    t == condition_backend_available
    || t == condition_publisher_proxy_ready
    || t == condition_subscription_manager_ready
    || t == condition_deleted

keep_supported : List Condition → List Condition
unfolding is_supported
keep_supported [] = []
keep_supported (c ∷ cs) =
    let rest = keep_supported cs in if is_supported c.type then c ∷ rest else rest

unfoldable pub remove_unsupported_conditions : EventingStatus → EventingStatus
unfolding keep_supported
remove_unsupported_conditions es = record es { conditions = keep_supported es.conditions }

unfoldable pub clear_conditions : EventingStatus → EventingStatus
clear_conditions es = record es { conditions = [] }

unfoldable pub set_state_warning : EventingStatus → EventingStatus
set_state_warning es = record es { state = state_warning }

unfoldable pub set_state_processing : EventingStatus → EventingStatus
set_state_processing es = record es { state = state_processing }

unfoldable pub set_state_error : EventingStatus → EventingStatus
set_state_error es = record es { state = state_error }

unfoldable pub clear_publisher_service : EventingStatus → EventingStatus
clear_publisher_service es = record es { publisher_service = "" }

unfoldable pub set_publisher_service : String → String → EventingStatus → EventingStatus
set_publisher_service name namespace es = record es {
  publisher_service = name <> ("." <> namespace);
}

-- `(*Eventing).SyncStatusActiveBackend`, for the backend type of the spec
unfoldable pub sync_status_active_backend : String → EventingStatus → EventingStatus
sync_status_active_backend type es = record es { active_backend = type }

unfoldable pub is_previous_backend_empty : EventingStatus → Bool
is_previous_backend_empty es = es.active_backend == ""

unfoldable pub is_spec_backend_type_changed : String → EventingStatus → Bool
is_spec_backend_type_changed type es = es.active_backend != type

-- `HasEmptyBackend`, for the type of the backend that the spec may have
unfoldable pub has_empty_backend : Option String → Bool
has_empty_backend none = true
has_empty_backend (some type) = is_all_space type

-- `IsEqual`, with `ConditionsEquals` of the NATS manager
unfoldable pub is_equal :
    (List Condition → List Condition → Bool) → EventingStatus → EventingStatus → Bool
is_equal conditions_equals es status =
    es.active_backend == status.active_backend
    && es.backend_config_hash == status.backend_config_hash
    && es.state == status.state
    && es.publisher_service == status.publisher_service
    && conditions_equals es.conditions status.conditions

-- `meta.SetStatusCondition` of the Kubernetes library, and the time.
module _ (set_status_condition : Condition → List Condition → List Condition) (now : ℕ) where
  update_condition : String → String → String → String → EventingStatus → EventingStatus
  update_condition type status reason message es =
      let condition : Condition = record {
        type = type;
        status = status;
        last_transition_time = now;
        reason = reason;
        message = message;
      } in
      record es { conditions = set_status_condition condition es.conditions }

  unfoldable pub update_condition_backend_available :
      String → String → String → EventingStatus → EventingStatus
  unfolding update_condition
  update_condition_backend_available status reason message es =
      update_condition condition_backend_available status reason message es

  unfoldable pub update_condition_publisher_proxy_ready :
      String → String → String → EventingStatus → EventingStatus
  unfolding update_condition
  update_condition_publisher_proxy_ready status reason message es =
      update_condition condition_publisher_proxy_ready status reason message es

  unfoldable pub update_condition_subscription_manager_ready :
      String → String → String → EventingStatus → EventingStatus
  unfolding update_condition
  update_condition_subscription_manager_ready status reason message es =
      update_condition condition_subscription_manager_ready status reason message es

  unfoldable pub update_condition_deletion :
      String → String → String → EventingStatus → EventingStatus
  unfolding update_condition
  update_condition_deletion status reason message es =
      update_condition condition_deleted status reason message es

  unfoldable pub set_subscription_manager_ready_condition_to_true : EventingStatus → EventingStatus
  set_subscription_manager_ready_condition_to_true es =
      update_condition_subscription_manager_ready "True" "EventMeshSubscriptionManagerReady"
        "Subscription manager is ready" es

  unfoldable pub set_subscription_manager_ready_condition_to_false :
      String → String → EventingStatus → EventingStatus
  set_subscription_manager_ready_condition_to_false reason message es =
      update_condition_subscription_manager_ready "False" reason message es

  unfoldable pub set_nats_available_condition_to_true : EventingStatus → EventingStatus
  set_nats_available_condition_to_true es =
      update_condition_backend_available "True" "NATSAvailable" "NATS is available" es

  unfoldable pub set_event_mesh_available_condition_to_true : EventingStatus → EventingStatus
  set_event_mesh_available_condition_to_true es =
      update_condition_backend_available "True" "EventMeshConfigAvailable"
        "EventMesh config is available" es

  unfoldable pub set_publisher_proxy_condition_to_false :
      String → String → EventingStatus → EventingStatus
  set_publisher_proxy_condition_to_false reason message es =
      update_condition_publisher_proxy_ready "False" reason message es

  unfoldable pub set_publisher_proxy_ready_to_true : EventingStatus → EventingStatus
  set_publisher_proxy_ready_to_true es =
      update_condition_publisher_proxy_ready "True" "Deployed" "Publisher proxy is deployed"
        (record es { state = state_ready })

  unfoldable pub set_state_ready : EventingStatus → EventingStatus
  set_state_ready es =
      update_condition_publisher_proxy_ready "True" "Deployed" "Publisher proxy is deployed" (
        update_condition_backend_available "True" "NATSAvailable" "NATS is available"
          (record es { state = state_ready }))
