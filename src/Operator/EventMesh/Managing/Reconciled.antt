-- ===== src/Operator/EventMesh/Managing/Reconciled.antt =====
-- What a reconciliation of the subscription manager for EventMesh has called.
use eventing_manager.Base.{◌≡◌, String, int_eq}
use eventing_manager.Exec.{ok}
use eventing_manager.Operator.{Cluster, Operator, BackendSpec}
use eventing_manager.Operator.Core.{IsCalm}
use eventing_manager.Operator.EventMesh.{get_event_mesh_backend_config_hash}
use eventing_manager.Operator.EventMesh.Calling.{IsManaged}
use eventing_manager.Operator.EventMesh.{check_domain, get_event_mesh_sub_manager_params}
use eventing_manager.Operator.Nats.{get_default_subscription_config}

module _ {C : Cluster} (calm : IsCalm C) where
  -- A run of `manage_event_mesh` for the backend: the domain, and the calls that it makes.
  abbrev pub IsManagedFor : BackendSpec → Operator C → Type 0
  IsManagedFor backend t =
      (z : Operator C) × (s' : Operator C) × (domain : String) × (check_domain C backend.domain z
        ≡ (ok domain, s'))
      × (get_event_mesh_backend_config_hash C backend.event_mesh_secret backend.event_type_prefix
            domain
          ≡ ok t.eventing.status.backend_config_hash)
      × IsManaged (get_default_subscription_config C s') (get_event_mesh_sub_manager_params C s')
          t.eventing.status.backend_config_hash s' t
