-- ===== src/Operator/Reconcile/Forbidding.antt =====
-- The reconciliation of a resource that is not the allowed one.
use eventing_manager.Base.{
  ◌≡◌, refl, sym, ap, subst, ◌∙◌, true, false, none, some, String, string_eq, eq_iff, arith,
}
use eventing_manager.Exec.{ok}
use eventing_manager.Exec.Leads.{
  Leads, Leads-returns, Leads-pure, Leads-modify, Leads-if, Leads-when, Leads-bind, Leads-handle,
  Leads-mono,
}
use eventing_manager.Operator.{Cluster, Operator, Eventing, Reply, set_status, stamp_status}
use eventing_manager.Operator.Core.{
  Core, core, IsCalm, Leads-looking, Leads-looking_at, Leads-on_cluster, Leads-on_cluster_from,
  some-ne-none, not_both,
}
use eventing_manager.Operator.Reconcile.{
  forbid, is_allowed, handle_eventing_cr_allowed_check, check_allowed, dispatch,
  watch_cluster_scoped_resources, reconcile,
}
use eventing_manager.Operator.Status.Frames.{sync_eventing_status-Frame}
use eventing_manager.OperatorStatus.{
  state_error, set_state_error, update_condition_publisher_proxy_ready,
}
use eventing_manager.Operator.Core.{some-ne-none}

is_allowed-eq :
    (C : Cluster) (namespace name : String) (cr : Eventing)
    → is_allowed C (namespace, name) cr ≡ true
    → (cr.name ≡ name) × (cr.namespace ≡ namespace)
unfolding is_allowed
is_allowed-eq C namespace name cr h =
    ground (arith, eq_iff cr.name name, eq_iff cr.namespace namespace)

module _ {C : Cluster} (calm : IsCalm C) (c : Core C) where
  abbrev pub Forbidden : Reply → Operator C → Type 0
  Forbidden reply x = (core x ≡ c) × (reply.1 ≡ none → x.eventing.status.state ≡ state_error)

  module _ (namespace name : String) (cr : Eventing) (present : cr.in_deletion ≡ false)
      (strange : ¬ ((cr.name ≡ name) × (cr.namespace ≡ namespace))) where
    -- The reconciler that has fetched the resource.
    abbrev Fetched : Operator C → Type 0
    Fetched x = (core x ≡ c) × (x.allowed_eventing_cr ≡ some (namespace, name)) × (x.eventing ≡ cr)

    watch-Fetched : Leads Fetched (watch_cluster_scoped_resources C) (λ _ x. Fetched x) Fetched
    unfolding watch_cluster_scoped_resources
    watch-Fetched = Leads-looking _ (λ y q.
        Leads-when _
          (λ _.
            Leads-bind _ (λ _ x. Fetched x) _
              (Leads-on_cluster _ (calm.watch_kind _ _) (λ x t p. p) (λ x t p. p))
              (λ _.
                Leads-bind _ (λ _ x. Fetched x) _
                  (Leads-on_cluster _ (calm.watch_kind _ _) (λ x t p. p) (λ x t p. p))
                  (λ _. Leads-modify _ (λ x p. p))))
          (λ _ x p. p))

    forbid-Forbidden :
        Leads Fetched
          (forbid C (namespace, name))
          (λ result x. (result ≡ false) × ((core x ≡ c) × (x.eventing.status.state ≡ state_error)))
          (λ x. (core x ≡ c) × (x.eventing.status.state ≡ state_error))
    unfolding forbid set_status stamp_status set_state_error update_condition_publisher_proxy_ready
    forbid-Forbidden =
        Leads-bind _ (λ _ x. (core x ≡ c) × (x.eventing.status.state ≡ state_error)) _
          (Leads-modify _ (λ x p. (p.0, refl)))
          (λ _.
            Leads-bind _ (λ _ x. (core x ≡ c) × (x.eventing.status.state ≡ state_error)) _
              (Leads-modify _ (λ x p. p))
              (λ _.
                Leads-bind _ (λ _ x. (core x ≡ c) × (x.eventing.status.state ≡ state_error)) _
                  (sync_eventing_status-Frame calm (λ x t p. p))
                  (λ _. Leads-pure _ (λ x p. (refl, p)))))

    check-Forbidden :
        Leads Fetched
          (handle_eventing_cr_allowed_check C (namespace, name))
          (λ result x. (result ≡ false) × ((core x ≡ c) × (x.eventing.status.state ≡ state_error)))
          (λ x. (core x ≡ c) × (x.eventing.status.state ≡ state_error))
    unfolding handle_eventing_cr_allowed_check
    check-Forbidden =
        Leads-looking_at (λ z. z) _
          (λ x.
            Leads-if (is_allowed C (namespace, name) x.eventing)
              (λ yes. record {
                at = λ z p.
                    elim (strange (
                      is_allowed-eq C namespace name cr (
                        ap (λ y. is_allowed C (namespace, name) y)
                          (sym p.0.2 ∙ ap (λ y. y.eventing) p.1)
                        ∙ yes))) [ ];
              })
              (λ no. Leads-mono (λ z p. p.0) (λ r z p. p) (λ z p. p) forbid-Forbidden))

    check_allowed-Forbidden :
        {E : Operator C → Type 0}
        → Leads Fetched (check_allowed C (some (namespace, name))) Forbidden E
    unfolding check_allowed
    check_allowed-Forbidden =
        Leads-handle _ _ _ _ _ check-Forbidden (λ f. Leads-pure _ (λ x p. (p.0, λ _. p.1)))
          (λ result.
            Leads-if result (λ yes. record { at = λ z p. not_both p.0 yes })
              (λ no. Leads-pure _ (λ x p. (p.1.0, λ _. p.1.1))))

    dispatch-Forbidden : {E : Operator C → Type 0} → Leads Fetched (dispatch C) Forbidden E
    unfolding dispatch
    dispatch-Forbidden {E} =
        Leads-looking_at (λ z. z) _
          (λ x.
            Leads-if x.eventing.in_deletion
              (λ yes. record {
                at = λ z p.
                    not_both present
                      (ap (λ y. y.in_deletion) (sym p.0.2 ∙ ap (λ y. y.eventing) p.1) ∙ yes);
              })
              (λ no. record {
                at = λ z p.
                    (subst (λ o. Leads Fetched (check_allowed C o) Forbidden E)
                        (sym p.0.1 ∙ ap (λ y. y.allowed_eventing_cr) p.1)
                        check_allowed-Forbidden).at
                      z p.0;
              }))

-- Where one resource is allowed only, the reconciliation of another one that is not in deletion
-- returns a reply and leaves both managers and their flags alone, and the finalizers and the backend
-- as they were fetched. If the reply has no error, the state is an error.
pub reconcile-Forbidden :
    {C : Cluster} (calm : IsCalm C) (namespace name : String) (cr : Eventing) (t : C.State)
    (s : Operator C) (fetched_namespace fetched_name : String)
    → C.get fetched_namespace fetched_name s.cluster ≡ (ok cr, t)
    → cr.in_deletion ≡ false
    → s.allowed_eventing_cr ≡ some (namespace, name)
    → ¬ ((cr.name ≡ name) × (cr.namespace ≡ namespace))
    → (reply : Reply) × (u : Operator C) × (reconcile C fetched_namespace fetched_name s
        ≡ (ok reply, u))
      × Forbidden calm (core (record s { eventing = cr })) reply u
unfolding reconcile
reconcile-Forbidden {C} calm namespace name cr t s ns n got present allowed strange =
    Leads-returns _ s refl (
      Leads-handle _ _ (λ x. ⊥) _ _ (Leads-on_cluster_from _ s cr t got)
        (λ e. record { at = λ x p. elim p [ ] })
        (λ a.
          Leads-bind _ (λ _ x. W x) _
            (Leads-modify _ (λ x p. (
              ap (λ y. core (record y { eventing = a })) p.1
                  ∙ ap (λ e. core (record s { eventing = e })) p.0,
              ap (λ y. y.allowed_eventing_cr) p.1 ∙ allowed,
              p.0,
            )))
            (λ _.
              Leads-handle _ _ _ _ _
                (watch-Fetched calm (core (record s { eventing = cr })) namespace name cr present
                  strange)
                (λ e. Leads-pure _ (λ x p. (p.0, λ f. elim (some-ne-none e f) [ ])))
                (λ _.
                  dispatch-Forbidden calm (core (record s { eventing = cr })) namespace name cr
                    present strange))))
  where
    W : Operator C → Type 0
    W = Fetched calm (core (record s { eventing = cr })) namespace name cr present strange
