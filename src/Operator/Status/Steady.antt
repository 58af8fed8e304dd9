-- ===== src/Operator/Status/Steady.antt =====
-- Writing the status touches nothing of the core, and ends without a panic.
use eventing_manager.Base.{◌≡◌, refl, ℤ, String, Option, none, some}
use eventing_manager.Errors.{Error}
use eventing_manager.Exec.{ok}
use eventing_manager.Exec.Leads.{
  Leads, Leads-pure, Leads-given, Leads-if, Leads-when, Leads-bind, Leads-handle,
}
use eventing_manager.Operator.{Cluster, Operator, Eventing, Deployment}
use eventing_manager.Operator.Core.{
  Core, IsCalm, At, Steady, Steady-on_cluster, Leads-on_cluster_answer, Leads-looking,
  Leads-set_status, Leads-stamp_status, Leads-reply_error, Leads-reply_of,
}
use eventing_manager.Operator.Status.{
  init_state_processing, update_status, sync_eventing_status, sync_with,
  sync_status_with_nats_state, sync_status_with_nats_err, sync_status_for_empty_backend,
  sync_status_with_publisher_proxy_err_with_reason, sync_status_with_publisher_proxy_err,
  sync_sub_manager_status_with_nats_state, sync_status_with_subscription_manager_err_with_reason,
  sync_status_with_subscription_manager_err, sync_status_with_subscription_manager_failed_condition,
  sync_status_with_deletion_err, has_replicas, is_deployment_ready, report_deployment,
  handle_eventing_state,
}
use eventing_manager.Exec.{panic}
use eventing_manager.Exec.{err}
use eventing_manager.Exec.Leads.{LeadsOr}
use eventing_manager.Operator.Core.{IsUnreadable}
use eventing_manager.Operator.Core.{Crashed}
use eventing_manager.Exec.{ok-ne-panic}
use eventing_manager.Exec.Leads.{Leads-total}
use eventing_manager.Exec.Leads.{Leads-lift_cases}
use eventing_manager.Exec.Leads.{Leads-crash}

has_replicas-panic : (d : Deployment) (o : Option ℤ) → has_replicas d o ≡ panic → o ≡ none
unfolding has_replicas
has_replicas-panic d none h = refl
has_replicas-panic d (some n) h = elim (ok-ne-panic _ h) [ ]

has_replicas-returns :
    {A : Type 0} (d : Deployment) (o : Option ℤ) (e : Error) → has_replicas d o ≡ err e → A
unfolding has_replicas
has_replicas-returns d none e h = cc
has_replicas-returns d (some n) e h = cc

-- `IsDeploymentReady` panics on nil and on nil replicas only, and has no error.
pub is_deployment_ready-panic :
    (o : Option Deployment) → is_deployment_ready o ≡ panic → IsUnreadable o
unfolding is_deployment_ready
is_deployment_ready-panic none h = tt
is_deployment_ready-panic (some d) h = has_replicas-panic d d.replicas h

pub is_deployment_ready-returns :
    {A : Type 0} (o : Option Deployment) (e : Error) → is_deployment_ready o ≡ err e → A
unfolding is_deployment_ready
is_deployment_ready-returns none e h = cc
is_deployment_ready-returns (some d) e h = has_replicas-returns d d.replicas e h

-- The cluster has answered so for the deployment.
abbrev pub Fetched : (C : Cluster) → Deployment → Option Deployment → Type 0
Fetched C d o = (u : C.State) × ((C.get_deployment d.name d.namespace u).0 ≡ ok o)

module _ {C : Cluster} (calm : IsCalm C) {K : Core C → Type 0} where
  pub init_state_processing-Steady :
      {E : Operator C → Type 0} → Leads (At K) (init_state_processing C) (λ _ s. At K s) E
  unfolding init_state_processing
  init_state_processing-Steady =
      Leads-looking _ (λ x p. Leads-when _ (λ _. Leads-set_status _) (λ _ s p. p))

  update_status-Steady : (old new : Eventing) → Steady K (update_status C old new)
  unfolding update_status
  update_status-Steady old new =
      Leads-when _ (λ _. Steady-on_cluster _ (calm.update_status _)) (λ _ s p. p)

  pub sync_eventing_status-Steady : Steady K (sync_eventing_status C)
  unfolding sync_eventing_status
  sync_eventing_status-Steady = Leads-looking _ (λ x p.
      Leads-bind _ _ _ (Steady-on_cluster _ (calm.get _ _)) (λ actual. update_status-Steady _ _))

  pub sync_with-Steady : (e : Error) → Steady K (sync_with C e)
  unfolding sync_with
  sync_with-Steady e =
      Leads-handle _ _ _ _ _ sync_eventing_status-Steady (λ f. Leads-pure _ (λ s p. p))
        (λ _. Leads-pure _ (λ s p. p))

  pub sync_status_with_nats_state-Steady :
      (state : String) (e : Error) → Steady K (sync_status_with_nats_state C state e)
  unfolding sync_status_with_nats_state
  sync_status_with_nats_state-Steady state e =
      Leads-bind _ _ _ (Leads-set_status _)
        (λ _. Leads-bind _ _ _ (Leads-stamp_status _) (λ _. sync_with-Steady e))

  pub sync_status_with_nats_err-Steady : (e : Error) → Steady K (sync_status_with_nats_err C e)
  unfolding sync_status_with_nats_err
  sync_status_with_nats_err-Steady e = sync_status_with_nats_state-Steady _ e

  pub sync_status_for_empty_backend-Steady :
      (message : String) → Steady K (sync_status_for_empty_backend C message)
  unfolding sync_status_for_empty_backend
  sync_status_for_empty_backend-Steady message =
      Leads-bind _ _ _ (Leads-set_status _)
        (λ _. Leads-bind _ _ _ (Leads-stamp_status _) (λ _. sync_eventing_status-Steady))

  pub sync_status_with_publisher_proxy_err_with_reason-Steady :
      (reason : String) (e : Error)
      → Steady K (sync_status_with_publisher_proxy_err_with_reason C reason e)
  unfolding sync_status_with_publisher_proxy_err_with_reason
  sync_status_with_publisher_proxy_err_with_reason-Steady reason e =
      Leads-bind _ _ _ (Leads-set_status _)
        (λ _. Leads-bind _ _ _ (Leads-stamp_status _) (λ _. sync_with-Steady e))

  pub sync_status_with_publisher_proxy_err-Steady :
      (e : Error) → Steady K (sync_status_with_publisher_proxy_err C e)
  unfolding sync_status_with_publisher_proxy_err
  sync_status_with_publisher_proxy_err-Steady e =
      sync_status_with_publisher_proxy_err_with_reason-Steady _ e

  pub sync_sub_manager_status_with_nats_state-Steady :
      (state : String) (e : Error) → Steady K (sync_sub_manager_status_with_nats_state C state e)
  unfolding sync_sub_manager_status_with_nats_state
  sync_sub_manager_status_with_nats_state-Steady state e =
      Leads-bind _ _ _ (Leads-set_status _)
        (λ _. Leads-bind _ _ _ (Leads-stamp_status _) (λ _. sync_with-Steady e))

  pub sync_status_with_subscription_manager_err_with_reason-Steady :
      (reason : String) (e : Error)
      → Steady K (sync_status_with_subscription_manager_err_with_reason C reason e)
  unfolding sync_status_with_subscription_manager_err_with_reason
  sync_status_with_subscription_manager_err_with_reason-Steady reason e =
      Leads-bind _ _ _ (Leads-set_status _)
        (λ _. Leads-bind _ _ _ (Leads-stamp_status _) (λ _. sync_with-Steady e))

  pub sync_status_with_subscription_manager_err-Steady :
      (e : Error) → Steady K (sync_status_with_subscription_manager_err C e)
  unfolding sync_status_with_subscription_manager_err
  sync_status_with_subscription_manager_err-Steady e =
      sync_status_with_subscription_manager_err_with_reason-Steady _ e

  pub sync_status_with_subscription_manager_failed_condition-Steady :
      (e : Error) → Steady K (sync_status_with_subscription_manager_failed_condition C e)
  unfolding sync_status_with_subscription_manager_failed_condition
  sync_status_with_subscription_manager_failed_condition-Steady e =
      Leads-bind _ _ _ (Leads-set_status _)
        (λ _. Leads-bind _ _ _ (Leads-stamp_status _) (λ _. sync_eventing_status-Steady))

  pub sync_status_with_deletion_err-Steady :
      (e : Error) → Steady K (sync_status_with_deletion_err C e)
  unfolding sync_status_with_deletion_err
  sync_status_with_deletion_err-Steady e =
      Leads-bind _ _ _ (Leads-stamp_status _) (λ _. sync_with-Steady e)

  module _ {E : Operator C → Type 0} where
    report_deployment-Steady :
        (o : Option Deployment)
        → LeadsOr (λ s. At K s × IsUnreadable o) (At K) (report_deployment C o) (λ _ s. At K s) E
    unfolding report_deployment
    report_deployment-Steady o =
        Leads-bind _ (λ _. At K) _
          (Leads-lift_cases (is_deployment_ready o) (λ b s e p. p)
            (λ e s h p. is_deployment_ready-returns o e h)
            (λ s h p. (p, is_deployment_ready-panic o h)))
          (λ r.
            Leads-if r
              (λ _. Leads-bind _ _ _ (Leads-stamp_status _) (λ _.
                Leads-bind _ _ _ (Leads-looking _ (λ x p. Leads-set_status _))
                  (λ _. Leads-reply_of _ _ sync_eventing_status-Steady)))
              (λ _. Leads-bind _ _ _ (Leads-set_status _) (λ _.
                Leads-bind _ _ _ (Leads-stamp_status _)
                  (λ _. Leads-reply_of _ _ sync_eventing_status-Steady))))

    -- It returns a reply, or panics on the deployment that the cluster has answered with.
    pub handle_eventing_state-Steady :
        (d : Deployment) → LeadsOr (Crashed K) (At K) (handle_eventing_state C d) (λ _ s. At K s) E
    unfolding handle_eventing_state
    handle_eventing_state-Steady d =
        Leads-bind _ (λ _. At K) _ (Leads-set_status _)
          (λ _.
            Leads-handle _ (λ o s. At K s × Fetched C d o) (At K) _ _
              (Leads-total (
                Leads-on_cluster_answer _ (Fetched C d) (calm.get_deployment _ _)
                  (λ u o e. (u, e))))
              (λ e.
                Leads-bind _ _ _ (Leads-stamp_status _)
                  (λ _. Leads-reply_error _ _ (sync_status_with_publisher_proxy_err-Steady e)))
              (λ o. Leads-given (λ f.
                Leads-crash (λ s q. (q.0, d.name, d.namespace, (f.0, o, f.1, q.1)))
                  (report_deployment-Steady o))))
