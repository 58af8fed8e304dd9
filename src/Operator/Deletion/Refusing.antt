-- ===== src/Operator/Deletion/Refusing.antt =====
-- The deletion of the resource while subscriptions exist.
use eventing_manager.Base.{◌≡◌, refl, sym, ap, ◌∙◌, true, Option, none, some}
use eventing_manager.Errors.{is_error}
use eventing_manager.Exec.{ok}
use eventing_manager.Exec.Leads.{
  Leads, Leads-returns, Leads-modify, Leads-if, Leads-bind, Leads-handle, Leads-mono,
}
use eventing_manager.Operator.{
  Cluster, Operator, BackendSpec, Reply, Result, set_status, stamp_status,
}
use eventing_manager.Operator.Core.{
  Core, core, IsCalm, Leads-looking_at, Leads-on_cluster_from, not_both, some-ne-none,
}
use eventing_manager.Operator.Deletion.{
  contains_finalizer, delete_backend, delete_specified, handle_eventing_deletion,
  err_subscription_exists,
}
use eventing_manager.Operator.Status.Frames.{
  IsErrorReply, reply_error-IsErrorReply, sync_with-is_error,
}
use eventing_manager.Operator.Status.{sync_status_with_deletion_err}
use eventing_manager.OperatorStatus.{state_warning, set_state_warning, update_condition_deletion}
use eventing_manager.Exec.{◌>>=◌}
use eventing_manager.Operator.{reply_error}

abbrev pub requeued : Result
requeued = record { requeue = true; requeue_after = 0 }

itself : is_error err_subscription_exists err_subscription_exists ≡ true
unfolding is_error
itself = refl

module _ {C : Cluster} (calm : IsCalm C) (c : Core C) where
  -- The managers, the finalizers and the backend are as they were, and the state is a warning.
  abbrev pub Refused : Operator C → Type 0
  Refused s = (core s ≡ c) × (s.eventing.status.state ≡ state_warning)

  refuse :
      {E : Operator C → Type 0}
      → Leads
          (λ s. core s ≡ c)
          (set_status set_state_warning >>= λ _.
            reply_error requeued (sync_status_with_deletion_err C err_subscription_exists))
          (λ reply s. Refused s × IsErrorReply requeued err_subscription_exists reply)
          E
  unfolding set_status set_state_warning sync_status_with_deletion_err stamp_status
      update_condition_deletion
  refuse =
      Leads-bind _ (λ _ s. Refused s) _ (Leads-modify _ (λ s p. (p, refl)))
        (λ _. reply_error-IsErrorReply requeued err_subscription_exists _ (
          Leads-bind _ (λ _ s. Refused s) _ (Leads-modify _ (λ s p. p))
            (λ _.
              sync_with-is_error calm (λ s t p. p) err_subscription_exists err_subscription_exists
                itself)))

module _ {C : Cluster} (calm : IsCalm C) where
  module _ (backend : BackendSpec) (s : Operator C) (t : C.State)
      (finalizer : contains_finalizer C s.eventing ≡ true)
      (specified : s.eventing.backend ≡ some backend)
      (exist : C.subscription_exists s.cluster ≡ (ok true, t)) where
    delete_backend-Refused :
        {E : Operator C → Type 0} (b : BackendSpec)
        → Leads
            (λ x. x ≡ s)
            (delete_backend C b)
            (λ reply x.
              Refused calm (core s) x × IsErrorReply requeued err_subscription_exists reply)
            E
    unfolding delete_backend
    delete_backend-Refused b =
        Leads-handle _ _ (λ x. ⊥) _ _ (Leads-on_cluster_from _ s true t exist)
          (λ e. record { at = λ x p. elim p [ ] })
          (λ exists.
            Leads-if exists
              (λ yes.
                Leads-mono (λ x p. ap (λ z. core z) p.1) (λ r x p. p) (λ x p. p)
                  (refuse calm (core s)))
              (λ no. record { at = λ x p. not_both no p.0 }))

    delete_specified-Refused :
        {E : Operator C → Type 0} (o : Option BackendSpec)
        → s.eventing.backend ≡ o
        → Leads
            (λ x. x ≡ s)
            (delete_specified C o)
            (λ reply x.
              Refused calm (core s) x × IsErrorReply requeued err_subscription_exists reply)
            E
    unfolding delete_specified
    delete_specified-Refused none e = elim (some-ne-none backend (sym specified ∙ e)) [ ]
    delete_specified-Refused (some b) e = delete_backend-Refused b

    -- On calm interfaces, the deletion of a resource that has the finalizer and a backend, while
    -- subscriptions exist, is refused: the reply asks for another reconciliation and its error is
    -- that subscriptions exist, the state is a warning, and the managers, the finalizers and the
    -- backend are as they were.
    pub handle_eventing_deletion-IsErrorReply :
        (reply : Reply) × (u : Operator C) × (handle_eventing_deletion C s ≡ (ok reply, u))
        × (Refused calm (core s) u × IsErrorReply requeued err_subscription_exists reply)
    unfolding handle_eventing_deletion
    handle_eventing_deletion-IsErrorReply = Leads-returns _ s refl (
        Leads-looking_at (λ z. z) _
          (λ x.
            Leads-if (contains_finalizer C x.eventing)
              (λ yes. record {
                at = λ z p.
                    (delete_specified-Refused x.eventing.backend
                        (ap (λ y. y.eventing.backend) (sym p.0 ∙ p.1))).at
                      z p.0;
              })
              (λ no. record {
                at = λ z p.
                    not_both no
                      (ap (λ y. contains_finalizer C y.eventing) (sym p.1 ∙ p.0) ∙ finalizer);
              })))
