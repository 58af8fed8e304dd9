-- ===== src/Operator/Reconcile/Steady.antt =====
-- A reconciliation returns a reply and keeps the managers consistent.
use eventing_manager.Base.{◌≡◌, ◌≢◌, ap, false, Option, none, some, ◌==◌, string_eq, String}
use eventing_manager.Exec.Leads.{
  LeadsOr, Leads-total, Leads-crash, Leads-pure, Leads-modify, Leads-if, Leads-when, Leads-bind,
  Leads-handle, Leads-mono,
}
use eventing_manager.Operator.{
  Cluster, Operator, BackendSpec, nats_backend_type, event_mesh_backend_type,
}
use eventing_manager.Operator.Core.{
  Crashed, Core, IsCalm, At, Steady, IsConsistent, IsReady, Steady-on_cluster, Leads-looking,
  Leads-looking_at, Leads-with_backend, Leads-set_status, Leads-stamp_status, Leads-reply_error,
  Leads-reply_of, some-ne-none,
}
use eventing_manager.Operator.Backends.Steady.{
  handle_backend_switching-Steady, reconcile_nats_backend-Steady,
  reconcile_event_mesh_backend-Steady,
}
use eventing_manager.Operator.Deletion.{contains_finalizer}
use eventing_manager.Operator.Deletion.Steady.{
  add_finalizer-Steady, handle_eventing_deletion-Steady,
}
use eventing_manager.Operator.Reconcile.{
  store_application_crd_enabled, reconcile_backend, reconcile_specified_backend, backend_type_of,
  handle_eventing_reconcile, forbid, is_allowed, handle_eventing_cr_allowed_check, check_allowed,
  dispatch, watch_cluster_scoped_resources, reconcile,
}
use eventing_manager.Operator.Status.Steady.{
  init_state_processing-Steady, sync_eventing_status-Steady, sync_status_for_empty_backend-Steady,
  sync_status_with_subscription_manager_err-Steady,
}
use eventing_manager.OperatorStatus.{has_empty_backend}
use eventing_manager.Base.{subst}
use eventing_manager.Base.{sym}

specified : (o : Option BackendSpec) → has_empty_backend (backend_type_of o) ≡ false → o ≢ none
unfolding has_empty_backend
specified none h = λ e. cc
specified (some b) h = some-ne-none b

module _ {C : Cluster} (calm : IsCalm C) where
  watch-Steady : {K : Core C → Type 0} → Steady K (watch_cluster_scoped_resources C)
  unfolding watch_cluster_scoped_resources
  watch-Steady = Leads-looking _ (λ x p.
      Leads-when _
        (λ _. Leads-bind _ _ _ (Steady-on_cluster _ (calm.watch_kind _ _)) (λ _.
          Leads-bind _ _ _ (Steady-on_cluster _ (calm.watch_kind _ _))
            (λ _. Leads-modify _ (λ s q. record { holds = q.holds }))))
        (λ _ s q. q))

  handle_eventing_cr_allowed_check-Steady :
      {K : Core C → Type 0} (allowed : String × String)
      → Steady K (handle_eventing_cr_allowed_check C allowed)
  unfolding handle_eventing_cr_allowed_check forbid
  handle_eventing_cr_allowed_check-Steady allowed = Leads-looking _ (λ x p.
      Leads-if (is_allowed C allowed x.eventing) (λ _. Leads-pure _ (λ s q. q))
        (λ _. Leads-bind _ _ _ (Leads-set_status _) (λ _.
          Leads-bind _ _ _ (Leads-stamp_status _) (λ _.
            Leads-bind _ _ _ (sync_eventing_status-Steady calm) (λ _. Leads-pure _ (λ s q. q))))))

  -- The core of a resource with the backend that was seen.
  abbrev Seen : Option BackendSpec → Core C → Type 0
  Seen o c = IsConsistent c × (c.backend ≡ o)

  module _ {E : Operator C → Type 0} where
    reconcile_backend-Steady :
        (type : String)
        → LeadsOr (Crashed IsReady) (At IsReady) (reconcile_backend C type) (λ _. At IsReady) E
    unfolding reconcile_backend
    reconcile_backend-Steady type =
        Leads-if (type == nats_backend_type) (λ _. reconcile_nats_backend-Steady calm)
          (λ _.
            Leads-if (type == event_mesh_backend_type)
              (λ _. reconcile_event_mesh_backend-Steady calm) (λ _. Leads-pure _ (λ s p. p)))

    reconcile_specified_backend-Steady :
        LeadsOr (Crashed IsReady) (At IsReady) (reconcile_specified_backend C) (λ _. At IsReady) E
    unfolding reconcile_specified_backend store_application_crd_enabled
    reconcile_specified_backend-Steady =
        Leads-handle _ _ _ _ _ (Leads-total (handle_backend_switching-Steady calm))
          (λ e. Leads-reply_error _ _ (sync_status_with_subscription_manager_err-Steady calm e))
          (λ _.
            Leads-with_backend _ (λ s p. p.holds.1)
              (λ b. Leads-bind _ _ _ (Leads-set_status _) (λ _.
                Leads-handle _ _ _ _ _
                  (Leads-total (Steady-on_cluster _ calm.application_crd_exists))
                  (λ e.
                    Leads-reply_error _ _ (sync_status_with_subscription_manager_err-Steady calm e))
                  (λ enabled.
                    Leads-bind _ (λ _. At IsReady) _
                      (Leads-modify _ (λ s p. record { holds = p.holds }))
                      (λ _. reconcile_backend-Steady b.type)))))

    handle_eventing_reconcile-Steady :
        LeadsOr
          (Crashed IsConsistent)
          (At IsConsistent)
          (handle_eventing_reconcile C)
          (λ _. At IsConsistent)
          E
    unfolding handle_eventing_reconcile
    handle_eventing_reconcile-Steady =
        Leads-looking_at (λ s. s) _
          (λ x.
            Leads-if (contains_finalizer C x.eventing)
              (λ _.
                Leads-mono (λ s p. record { holds = (p.0.holds, ap (λ z. z.eventing.backend) p.1) })
                  (λ _ s p. p) (λ s p. p)
                  (Leads-bind _ (λ _. At (Seen x.eventing.backend)) _
                    (Leads-total (init_state_processing-Steady calm))
                    (λ _.
                      Leads-if (has_empty_backend (backend_type_of x.eventing.backend))
                        (λ _.
                          Leads-mono (λ s p. record { holds = p.holds.0 }) (λ _ s p. p) (λ s p. p)
                            (Leads-reply_of _ _ (sync_status_for_empty_backend-Steady calm _)))
                        (λ there.
                          Leads-mono
                            (λ s p. record {
                              holds = (
                                p.holds.0,
                                subst (λ o. o ≢ none) (sym p.holds.1) (specified _ there),
                              );
                            })
                            (λ _ s p. record { holds = p.holds.0 }) (λ s p. p)
                            (Leads-crash (λ s q. (record { holds = q.0.holds.0 }, q.1, q.2, q.3))
                              reconcile_specified_backend-Steady)))))
              (λ _.
                Leads-mono (λ s p. p.0) (λ _ s p. p) (λ s p. p)
                  (Leads-total (add_finalizer-Steady calm))))

    check_allowed-Steady :
        (o : Option (String × String))
        → LeadsOr
            (Crashed IsConsistent)
            (At IsConsistent)
            (check_allowed C o)
            (λ _. At IsConsistent)
            E
    unfolding check_allowed
    check_allowed-Steady none = handle_eventing_reconcile-Steady
    check_allowed-Steady (some allowed) =
        Leads-handle _ _ _ _ _ (Leads-total (handle_eventing_cr_allowed_check-Steady allowed))
          (λ e. Leads-pure _ (λ s p. p))
          (λ result.
            Leads-if result (λ _. handle_eventing_reconcile-Steady) (λ _. Leads-pure _ (λ s p. p)))

    dispatch-Steady :
        LeadsOr (Crashed IsConsistent) (At IsConsistent) (dispatch C) (λ _. At IsConsistent) E
    unfolding dispatch
    dispatch-Steady = Leads-looking _ (λ x p.
        Leads-if x.eventing.in_deletion (λ _. Leads-total (handle_eventing_deletion-Steady calm))
          (λ _. check_allowed-Steady _))

    pub reconcile-Steady :
        (namespace name : String)
        → LeadsOr
            (Crashed IsConsistent)
            (At IsConsistent)
            (reconcile C namespace name)
            (λ _. At IsConsistent)
            E
    unfolding reconcile
    reconcile-Steady namespace name =
        Leads-handle _ _ _ _ _ (Leads-total (Steady-on_cluster _ (calm.get namespace name)))
          (λ e. Leads-pure _ (λ s p. p))
          (λ cr.
            Leads-bind _ (λ _. At IsConsistent) _
              (Leads-modify _ (λ s p. record { holds = p.holds }))
              (λ _.
                Leads-handle _ _ _ _ _ (Leads-total watch-Steady) (λ e. Leads-pure _ (λ s p. p))
                  (λ _. dispatch-Steady)))
