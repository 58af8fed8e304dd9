-- ===== src/Operator/Backends/Steady.antt =====
-- The backends return a reply and keep the managers consistent.
use eventing_manager.Base.{true, ◌==◌, string_eq, String}
use eventing_manager.Errors.{Error, is_error}
use eventing_manager.Exec.Leads.{
  LeadsOr, Leads-total, Leads-pure, Leads-if, Leads-when, Leads-bind, Leads-handle, Leads-mono,
}
use eventing_manager.NatsConnection.{err_cannot_connect}
use eventing_manager.Operator.{Cluster, Operator, nats_backend_type, looking, on_cluster}
use eventing_manager.Operator.Core.{
  Crashed, Core, IsCalm, At, Steady, IsReady, Steady-on_cluster, Leads-looking, Leads-with_backend,
  Leads-set_status, Leads-stamp_status, Leads-reply_error,
}
use eventing_manager.Operator.Backends.{
  stop_backend, switch_backend, handle_backend_switching, nats_config_for, handle_publisher_proxy,
  report_nats_module_missing, report_connection_error, run_nats_backend, reconcile_nats_backend,
  report_secret_error, report_sub_manager_error, run_event_mesh_backend,
  reconcile_event_mesh_backend,
}
use eventing_manager.Operator.EventMesh.Managing.{
  stop_event_mesh_sub_manager-IsStopped, reconcile_event_mesh_sub_manager-Steady,
}
use eventing_manager.Operator.Nats.Managing.{
  stop_nats_sub_manager-IsStopped, reconcile_nats_sub_manager-Steady,
}
use eventing_manager.Operator.Nats.Steady.{
  start_nats_cr_watch-Steady, stop_nats_cr_watch-Steady, connect_to_nats-Steady,
  disconnect_from_nats-Steady, get_nats_config-Steady,
}
use eventing_manager.OperatorStatus.{is_previous_backend_empty, is_spec_backend_type_changed}
use eventing_manager.Operator.Secrets.{is_malformatted_secret_err}
use eventing_manager.Operator.Status.Steady.{
  sync_status_with_nats_err-Steady, sync_status_with_nats_state-Steady,
  sync_status_with_publisher_proxy_err-Steady, sync_sub_manager_status_with_nats_state-Steady,
  sync_status_with_subscription_manager_err-Steady, handle_eventing_state-Steady,
}

module _ {C : Cluster} (calm : IsCalm C) where
  stop_backend-Steady : (previous : String) → Steady IsReady (stop_backend C previous)
  unfolding stop_backend
  stop_backend-Steady previous =
      Leads-if (previous == nats_backend_type)
        (λ _.
          Leads-bind _ _ _
            (Leads-mono (λ s p. p) (λ _ s p. p.0) (λ s p. p)
              (stop_nats_sub_manager-IsStopped calm (λ c p. p.0.0) (λ c p. ((tt, p.0.1), p.1))
                true))
            (λ _.
              Leads-bind _ _ _ (stop_nats_cr_watch-Steady calm)
                (λ _. disconnect_from_nats-Steady calm)))
        (λ _.
          Leads-mono (λ s p. p) (λ _ s p. p.0) (λ s p. p)
            (stop_event_mesh_sub_manager-IsStopped calm (λ c p. p.0.1) (λ c p. ((p.0.0, tt), p.1))
              true))

  delete_proxy-Steady :
      {K : Core C → Type 0}
      → Steady K (looking (λ s. on_cluster (C.delete_publisher_proxy_resources s.eventing)))
  delete_proxy-Steady =
      Leads-looking _ (λ x p. Steady-on_cluster _ (calm.delete_publisher_proxy_resources _))

  switch_backend-Steady : Steady IsReady (switch_backend C)
  unfolding switch_backend
  switch_backend-Steady = Leads-looking _ (λ x p. Leads-bind _ _ _ (stop_backend-Steady _) (λ _.
      Leads-bind _ _ _ (Leads-set_status _)
        (λ _. Leads-bind _ _ _ (Leads-set_status _) (λ _. delete_proxy-Steady))))

  pub handle_backend_switching-Steady : Steady IsReady (handle_backend_switching C)
  unfolding handle_backend_switching
  handle_backend_switching-Steady = Leads-looking _ (λ x p.
      Leads-if (is_previous_backend_empty x.eventing.status) (λ _. Leads-pure _ (λ s q. q))
        (λ _.
          Leads-with_backend _ (λ s q. q.holds.1)
            (λ b.
              Leads-when (is_spec_backend_type_changed b.type x.eventing.status)
                (λ _. switch_backend-Steady) (λ _ s q. q))))

  nats_config_for-Steady : (backend_type : String) → Steady IsReady (nats_config_for C backend_type)
  unfolding nats_config_for
  nats_config_for-Steady backend_type =
      Leads-if (backend_type == nats_backend_type)
        (λ _.
          Leads-bind _ _ _ (get_nats_config-Steady calm (λ c p. p.1))
            (λ config. Leads-pure _ (λ s p. p)))
        (λ _. Leads-pure _ (λ s p. p))

  handle_publisher_proxy-Steady :
      (backend_type : String) → Steady IsReady (handle_publisher_proxy C backend_type)
  unfolding handle_publisher_proxy
  handle_publisher_proxy-Steady backend_type =
      Leads-bind _ _ _ (nats_config_for-Steady backend_type) (λ config.
        Leads-bind _ _ _
          (Leads-looking _ (λ x p. Steady-on_cluster _ (calm.deploy_publisher_proxy _ _ _)))
          (λ d.
            Leads-bind _ _ _
              (Leads-looking _
                (λ x p. Steady-on_cluster _ (calm.deploy_publisher_proxy_resources _ _)))
              (λ _. Leads-pure _ (λ s p. p))))

  module _ {E : Operator C → Type 0} where
    report_nats_module_missing-Steady :
        (e : Error)
        → LeadsOr
            (Crashed IsReady)
            (At IsReady)
            (report_nats_module_missing C e)
            (λ _. At IsReady)
            E
    unfolding report_nats_module_missing
    report_nats_module_missing-Steady e =
        Leads-handle _ _ _ _ _ (Leads-total delete_proxy-Steady) (λ f. Leads-pure _ (λ s p. p))
          (λ _. Leads-reply_error _ _ (sync_status_with_nats_state-Steady calm _ _))

    report_connection_error-Steady :
        (e : Error)
        → LeadsOr (Crashed IsReady) (At IsReady) (report_connection_error C e) (λ _. At IsReady) E
    unfolding report_connection_error
    report_connection_error-Steady e =
        Leads-if (is_error e err_cannot_connect)
          (λ _. Leads-reply_error _ _ (
            Leads-bind _ _ _ (sync_status_with_nats_state-Steady calm _ e)
              (λ joined. Leads-pure _ (λ s p. p))))
          (λ _. Leads-reply_error _ _ (sync_status_with_nats_state-Steady calm _ e))

    run_nats_backend-Steady :
        LeadsOr (Crashed IsReady) (At IsReady) (run_nats_backend C) (λ _. At IsReady) E
    unfolding run_nats_backend
    run_nats_backend-Steady = Leads-bind _ _ _ (Leads-stamp_status _) (λ _.
        Leads-handle _ _ _ _ _
          (Leads-with_backend _ (λ s p. p.holds.1)
            (λ b. Leads-total (handle_publisher_proxy-Steady _)))
          (λ e. Leads-reply_error _ _ (sync_status_with_publisher_proxy_err-Steady calm e))
          (λ d.
            Leads-handle _ _ _ _ _ (Leads-total (reconcile_nats_sub_manager-Steady calm))
              (λ e. Leads-reply_error _ _ (sync_status_with_nats_err-Steady calm e))
              (λ _.
                Leads-mono (λ s p. p.0) (λ _ s p. p) (λ s p. p)
                  (handle_eventing_state-Steady calm d))))

    pub reconcile_nats_backend-Steady :
        LeadsOr (Crashed IsReady) (At IsReady) (reconcile_nats_backend C) (λ _. At IsReady) E
    unfolding reconcile_nats_backend
    reconcile_nats_backend-Steady =
        Leads-handle _ _ _ _ _ (Leads-total (Steady-on_cluster _ (calm.get_crd _)))
          (λ e.
            Leads-if (C.is_not_found e) (λ _. report_nats_module_missing-Steady e)
              (λ _. Leads-pure _ (λ s p. p)))
          (λ _.
            Leads-handle _ _ _ _ _ (Leads-total (start_nats_cr_watch-Steady calm))
              (λ e. Leads-reply_error _ _ (sync_status_with_nats_err-Steady calm e))
              (λ _.
                Leads-handle _ _ _ _ _ (Leads-total (connect_to_nats-Steady calm))
                  report_connection_error-Steady (λ _. run_nats_backend-Steady)))

    report_secret_error-Steady :
        (e : Error)
        → LeadsOr (Crashed IsReady) (At IsReady) (report_secret_error C e) (λ _. At IsReady) E
    unfolding report_secret_error
    report_secret_error-Steady e =
        Leads-if (C.is_not_found e)
          (λ _. Leads-reply_error _ _ (sync_sub_manager_status_with_nats_state-Steady calm _ _))
          (λ _. Leads-reply_error _ _ (sync_status_with_subscription_manager_err-Steady calm _))

    report_sub_manager_error-Steady :
        (e : Error)
        → LeadsOr (Crashed IsReady) (At IsReady) (report_sub_manager_error C e) (λ _. At IsReady) E
    unfolding report_sub_manager_error
    report_sub_manager_error-Steady e =
        Leads-if (is_malformatted_secret_err e)
          (λ _. Leads-reply_error _ _ (sync_sub_manager_status_with_nats_state-Steady calm _ _))
          (λ _. Leads-reply_error _ _ (sync_status_with_subscription_manager_err-Steady calm _))

    run_event_mesh_backend-Steady :
        LeadsOr (Crashed IsReady) (At IsReady) (run_event_mesh_backend C) (λ _. At IsReady) E
    unfolding run_event_mesh_backend
    run_event_mesh_backend-Steady = Leads-bind _ _ _ (Leads-stamp_status _) (λ _.
        Leads-bind _ _ _ (Leads-stamp_status _) (λ _.
          Leads-handle _ _ _ _ _
            (Leads-with_backend _ (λ s p. p.holds.1)
              (λ b. Leads-total (handle_publisher_proxy-Steady _)))
            (λ e. Leads-reply_error _ _ (sync_status_with_publisher_proxy_err-Steady calm e))
            (λ d. handle_eventing_state-Steady calm d)))

    pub reconcile_event_mesh_backend-Steady :
        LeadsOr (Crashed IsReady) (At IsReady) (reconcile_event_mesh_backend C) (λ _. At IsReady) E
    unfolding reconcile_event_mesh_backend
    reconcile_event_mesh_backend-Steady =
        Leads-handle _ _ _ _ _ (Leads-total (Steady-on_cluster _ calm.api_rule_crd_exists))
          (λ e. Leads-reply_error _ _ (sync_status_with_subscription_manager_err-Steady calm e))
          (λ enabled.
            Leads-if enabled
              (λ _.
                Leads-handle _ _ _ _ _
                  (Leads-with_backend _ (λ s p. p.holds.1)
                    (λ b. Leads-total (Steady-on_cluster _ (calm.get_secret _))))
                  report_secret_error-Steady
                  (λ secret.
                    Leads-handle _ _ _ _ _
                      (Leads-total (reconcile_event_mesh_sub_manager-Steady calm secret))
                      report_sub_manager_error-Steady (λ _. run_event_mesh_backend-Steady)))
              (λ _.
                Leads-reply_error _ _ (sync_status_with_subscription_manager_err-Steady calm _)))
