-- ===== src/Operator/Deletion/Steady.antt =====
-- The deletion of the resource returns a reply and keeps the managers consistent.
use eventing_manager.Base.{true, Option, none, some, ◌==◌, string_eq}
use eventing_manager.Exec.Leads.{
  Leads, Leads-pure, Leads-modify, Leads-if, Leads-bind, Leads-handle, Leads-mono,
}
use eventing_manager.Operator.{Cluster, Operator, BackendSpec, Eventing, nats_backend_type}
use eventing_manager.Operator.Core.{
  Core, IsCalm, At, Steady, IsConsistent, Steady-on_cluster, Leads-looking, Leads-set_status,
  Leads-stamp_status, Leads-reply_error,
}
use eventing_manager.Operator.Deletion.{
  contains_finalizer, update_eventing, add_finalizer, remove_finalizer,
  delete_cluster_scoped_resources, finish_deletion, stop_and_finish, delete_backend,
  delete_specified, handle_eventing_deletion,
}
use eventing_manager.Operator.EventMesh.Managing.{stop_event_mesh_sub_manager-IsStopped}
use eventing_manager.Operator.Nats.Managing.{stop_nats_sub_manager-IsStopped}
use eventing_manager.Operator.Status.Steady.{
  sync_status_with_nats_err-Steady, sync_status_with_publisher_proxy_err_with_reason-Steady,
  sync_status_with_subscription_manager_err_with_reason-Steady,
  sync_status_with_deletion_err-Steady,
}

module _ {C : Cluster} (calm : IsCalm C) where
  delete_cluster_scoped_resources-Steady :
      {K : Core C → Type 0} → Steady K (delete_cluster_scoped_resources C)
  unfolding delete_cluster_scoped_resources
  delete_cluster_scoped_resources-Steady = Leads-looking _ (λ x p.
      Leads-bind _ _ _ (Steady-on_cluster _ (calm.delete_cluster_role _ _))
        (λ _. Steady-on_cluster _ (calm.delete_cluster_role_binding _ _)))

module _ {C : Cluster} (calm : IsCalm C) {E : Operator C → Type 0} where
  update_eventing-Steady :
      (cr : Eventing) → Leads (At IsConsistent) (update_eventing C cr) (λ _. At IsConsistent) E
  unfolding update_eventing
  update_eventing-Steady cr =
      Leads-bind _ (λ _. At IsConsistent) _ (Leads-modify _ (λ s p. record { holds = p.holds }))
        (λ _.
          Leads-handle _ _ _ _ _ (Steady-on_cluster _ (calm.update cr))
            (λ e. Leads-pure _ (λ s p. p))
            (λ answer.
              Leads-bind _ (λ _. At IsConsistent) _
                (Leads-modify _ (λ s p. record { holds = p.holds }))
                (λ _. Leads-pure _ (λ s p. p))))

  pub add_finalizer-Steady : Leads (At IsConsistent) (add_finalizer C) (λ _. At IsConsistent) E
  unfolding add_finalizer
  add_finalizer-Steady = Leads-looking _ (λ x p. update_eventing-Steady _)

  remove_finalizer-Steady : Leads (At IsConsistent) (remove_finalizer C) (λ _. At IsConsistent) E
  unfolding remove_finalizer
  remove_finalizer-Steady = Leads-looking _ (λ x p. update_eventing-Steady _)

  finish_deletion-Steady : Leads (At IsConsistent) (finish_deletion C) (λ _. At IsConsistent) E
  unfolding finish_deletion
  finish_deletion-Steady = Leads-bind _ _ _ (Leads-stamp_status _) (λ _.
      Leads-handle _ _ _ _ _ (delete_cluster_scoped_resources-Steady calm)
        (λ e.
          Leads-reply_error _ _ (sync_status_with_publisher_proxy_err_with_reason-Steady calm _ e))
        (λ _. Leads-bind _ _ _ (Leads-stamp_status _) (λ _. remove_finalizer-Steady)))

  stop_and_finish-Steady :
      (backend : BackendSpec)
      → Leads (At IsConsistent) (stop_and_finish C backend) (λ _. At IsConsistent) E
  unfolding stop_and_finish
  stop_and_finish-Steady backend =
      Leads-if (backend.type == nats_backend_type)
        (λ _.
          Leads-handle _ _ _ _ _
            (stop_nats_sub_manager-IsStopped calm (λ c p. p.0) (λ c p. (tt, p.1)) true)
            (λ e. Leads-reply_error _ _ (sync_status_with_nats_err-Steady calm e))
            (λ _. Leads-mono (λ s p. p.0) (λ _ s p. p) (λ s p. p) finish_deletion-Steady))
        (λ _.
          Leads-handle _ _ _ _ _
            (stop_event_mesh_sub_manager-IsStopped calm (λ c p. p.1) (λ c p. (p.0, tt)) true)
            (λ e.
              Leads-reply_error _ _
                (sync_status_with_subscription_manager_err_with_reason-Steady calm _ e))
            (λ _. Leads-mono (λ s p. p.0) (λ _ s p. p) (λ s p. p) finish_deletion-Steady))

  delete_backend-Steady :
      (backend : BackendSpec)
      → Leads (At IsConsistent) (delete_backend C backend) (λ _. At IsConsistent) E
  unfolding delete_backend
  delete_backend-Steady backend =
      Leads-handle _ _ _ _ _ (Steady-on_cluster _ calm.subscription_exists)
        (λ e.
          Leads-bind _ _ _ (Leads-set_status _)
            (λ _. Leads-reply_error _ _ (sync_status_with_deletion_err-Steady calm e)))
        (λ exists.
          Leads-if exists
            (λ _.
              Leads-bind _ _ _ (Leads-set_status _)
                (λ _. Leads-reply_error _ _ (sync_status_with_deletion_err-Steady calm _)))
            (λ _. stop_and_finish-Steady backend))

  delete_specified-Steady :
      (o : Option BackendSpec)
      → Leads (At IsConsistent) (delete_specified C o) (λ _. At IsConsistent) E
  unfolding delete_specified
  delete_specified-Steady none = remove_finalizer-Steady
  delete_specified-Steady (some backend) = delete_backend-Steady backend

  pub handle_eventing_deletion-Steady :
      Leads (At IsConsistent) (handle_eventing_deletion C) (λ _. At IsConsistent) E
  unfolding handle_eventing_deletion
  handle_eventing_deletion-Steady = Leads-looking _ (λ x p.
      Leads-if (contains_finalizer C x.eventing) (λ _. delete_specified-Steady _)
        (λ _. Leads-pure _ (λ s q. q)))
