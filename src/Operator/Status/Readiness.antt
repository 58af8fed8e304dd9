-- ===== src/Operator/Status/Readiness.antt =====
-- When `handleEventingState` reports that Eventing is ready.
use eventing_manager.Base.{
  ◌≡◌, ◌≢◌, refl, sym, ap, ◌∙◌, String, Bool, true, false, ◌==◌, ◌&&◌, int_eq, string_eq, eq_iff,
  Option, none, some, ℤ, arith,
}
use eventing_manager.Base.Int.{int_beq_iff}
use eventing_manager.Errors.{Error}
use eventing_manager.Exec.{ok, panic}
use eventing_manager.Exec.Leads.{
  LeadsOr, Leads-total, Leads-replies, Leads-crash, Leads-lift_cases, Leads-pure, Leads-modify,
  Leads-given, Leads-if, Leads-bind, Leads-handle, Leads-mono,
}
use eventing_manager.Operator.{
  Cluster, Operator, Deployment, Reply, set_status, stamp_status, reply_error, reply_of,
}
use eventing_manager.Operator.Core.{IsUnreadable, IsCalm, Leads-looking}
use eventing_manager.Operator.Status.{
  has_replicas, is_deployment_ready, report_deployment, handle_eventing_state, sync_eventing_status,
  sync_status_with_publisher_proxy_err, sync_status_with_publisher_proxy_err_with_reason,
}
use eventing_manager.Operator.Status.Frames.{sync_eventing_status-Frame, sync_with-Frame}
use eventing_manager.Operator.Status.Steady.{is_deployment_ready-panic, is_deployment_ready-returns}
use eventing_manager.OperatorStatus.{
  update_condition_publisher_proxy_ready, set_state_processing, set_state_error, state_ready,
  state_error, state_processing,
}
use eventing_manager.Operator.{Result}
use eventing_manager.Operator.Status.{update_condition_publisher_proxy_ready}
use eventing_manager.Base.{eq_iff}
use eventing_manager.Operator.Status.{set_state_processing}
use eventing_manager.Base.{◌⊎◌}
use eventing_manager.Operator.Core.{Leads-on_cluster_seen}

-- All replicas that the spec asks for are available, ready and updated.
abbrev pub IsUp : Deployment → Type 0
IsUp d =
    (d.replicas ≡ some d.available_replicas)
    × (d.replicas ≡ some d.ready_replicas)
    × (d.replicas ≡ some d.updated_replicas)

counts : (a r u n : ℤ) → (a == n && r == n && u == n) ≡ true → (n ≡ a) × (n ≡ r) × (n ≡ u)
counts a r u n h = ground (arith, int_beq_iff a n, int_beq_iff r n, int_beq_iff u n)

ok-true : (b : Bool) → ok b ≡ ok true → b ≡ true
ok-true b h = cc

has_replicas-IsUp :
    (d : Deployment) (o : Option ℤ)
    → has_replicas d o ≡ ok true
    → (o ≡ some d.available_replicas) × (o ≡ some d.ready_replicas) × (o ≡ some d.updated_replicas)
unfolding has_replicas
has_replicas-IsUp d none h = cc
has_replicas-IsUp d (some n) h =
    let c = counts d.available_replicas d.ready_replicas d.updated_replicas n (ok-true _ h) in
    (ap some c.0, ap some c.1, ap some c.2)

is_deployment_ready-IsUp : (d : Deployment) → is_deployment_ready (some d) ≡ ok true → IsUp d
unfolding is_deployment_ready
is_deployment_ready-IsUp d h = has_replicas-IsUp d d.replicas h

module _ {C : Cluster} (calm : IsCalm C) (u : C.State) where
  -- What the cluster answers for the deployment.
  abbrev Answers : Deployment → Option Deployment → Type 0
  Answers deployment o = (C.get_deployment deployment.name deployment.namespace u).0 ≡ ok o

  -- A ready state is that of a deployment that the cluster has reported.
  abbrev pub IsReported : Deployment → Operator C → Type 0
  IsReported deployment s =
      s.eventing.status.state ≡ state_ready
      → (d : Deployment) × ((C.get_deployment deployment.name deployment.namespace u).0
          ≡ ok (some d))
        × IsUp d

  -- The cluster has no deployment, or one without replicas in its spec.
  abbrev pub IsUnanswered : Deployment → Type 0
  IsUnanswered deployment =
      (o : Option Deployment) × ((C.get_deployment deployment.name deployment.namespace u).0 ≡ ok o)
      × IsUnreadable o

  sync-IsReported :
      {X E : Operator C → Type 0} (deployment : Deployment) (result : Result)
      (P : Operator C → Type 0)
      → ((s : Operator C) (t : C.State) → P s → P (record s { cluster = t }))
      → ((s : Operator C) → P s → IsReported deployment s)
      → LeadsOr X P (reply_of result (sync_eventing_status C)) (λ _ s. IsReported deployment s) E
  unfolding reply_of
  sync-IsReported deployment result P frame h =
      Leads-handle _ _ _ _ _ (Leads-total (sync_eventing_status-Frame calm frame))
        (λ e. Leads-pure _ h) (λ _. Leads-pure _ h)

  not_ready : (state : String) → (state == state_ready) ≡ false → state ≢ state_ready
  not_ready state h e = ground (arith, eq_iff state state_ready)

  reported-IsUp :
      (deployment : Deployment) (o : Option Deployment)
      → Answers deployment o
      → is_deployment_ready o ≡ ok true
      → (d : Deployment) × Answers deployment (some d) × IsUp d
  unfolding is_deployment_ready
  reported-IsUp deployment none f h = cc
  reported-IsUp deployment (some d) f h = (d, f, is_deployment_ready-IsUp d h)

  report_deployment-IsReported :
      {E : Operator C → Type 0} (deployment : Deployment) (o : Option Deployment)
      → Answers deployment o
      → LeadsOr
          (λ s. IsUnreadable o)
          (λ s. Unit {0})
          (report_deployment C o)
          (λ _ s. IsReported deployment s)
          E
  unfolding report_deployment set_status stamp_status update_condition_publisher_proxy_ready
      set_state_processing
  report_deployment-IsReported deployment o f =
      Leads-bind _ (λ r s. Unit {0} × (is_deployment_ready o ≡ ok r)) _
        (Leads-lift_cases (is_deployment_ready o) (λ r s e p. (tt, e))
          (λ x s e p. is_deployment_ready-returns o x e) (λ s e p. is_deployment_ready-panic o e))
        (λ r. Leads-given (λ up.
          Leads-if r
            (λ yes.
              Leads-bind _ (λ _ s. Unit {0}) _ (Leads-modify _ (λ s p. tt))
                (λ _.
                  Leads-bind _ (λ _ s. Unit {0}) _
                    (Leads-looking _ (λ x p. Leads-modify _ (λ s q. tt)))
                    (λ _.
                      sync-IsReported deployment _ (λ s. Unit {0}) (λ s t p. tt)
                        (λ s p state. reported-IsUp deployment o f (up ∙ ap ok yes)))))
            (λ no.
              Leads-bind _ (λ _ s. s.eventing.status.state ≡ state_processing) _
                (Leads-modify _ (λ s p. refl))
                (λ _.
                  Leads-bind _ (λ _ s. s.eventing.status.state ≡ state_processing) _
                    (Leads-modify _ (λ s p. p))
                    (λ _.
                      sync-IsReported deployment _ (λ s. s.eventing.status.state ≡ state_processing)
                        (λ s t p. p)
                        (λ s p state.
                          elim (not_ready state_processing refl (sym p ∙ state)) [ ]))))))

  error-IsReported :
      {X E : Operator C → Type 0} (deployment : Deployment) (result : Result) (e : Error)
      → LeadsOr X
          (λ s. Unit {0})
          (reply_error result (sync_status_with_publisher_proxy_err C e))
          (λ _ s. IsReported deployment s)
          E
  unfolding reply_error sync_status_with_publisher_proxy_err
      sync_status_with_publisher_proxy_err_with_reason set_status stamp_status set_state_error
      update_condition_publisher_proxy_ready
  error-IsReported deployment result e =
      Leads-handle _ _ _ _ _
        (Leads-total (
          Leads-bind _ (λ _ s. s.eventing.status.state ≡ state_error) _
            (Leads-modify _ (λ s p. refl))
            (λ _.
              Leads-bind _ (λ _ s. s.eventing.status.state ≡ state_error) _
                (Leads-modify _ (λ s p. p)) (λ _. sync_with-Frame calm (λ s t p. p) e))))
        (λ f. Leads-pure _ failed) (λ f. Leads-pure _ failed)
    where
      failed : (s : Operator C) → s.eventing.status.state ≡ state_error → IsReported deployment s
      failed s p state = elim (not_ready state_error refl (sym p ∙ state)) [ ]

  handle_eventing_state-IsReported :
      {E : Operator C → Type 0} (deployment : Deployment)
      → LeadsOr
          (λ s. IsUnanswered deployment)
          (λ s. s.cluster ≡ u)
          (handle_eventing_state C deployment)
          (λ _ s. IsReported deployment s)
          E
  unfolding handle_eventing_state set_status stamp_status
  handle_eventing_state-IsReported deployment =
      Leads-bind _ (λ _ s. s.cluster ≡ u) _ (Leads-modify _ (λ s p. p))
        (λ _.
          Leads-handle _ (λ o s. Unit {0} × Answers deployment o) (λ s. Unit {0}) _ _
            (Leads-mono (λ s p. p) (λ o s p. (tt, p)) (λ s p. p)
              (Leads-total (
                Leads-on_cluster_seen (C.get_deployment deployment.name deployment.namespace) u
                  (calm.get_deployment _ _))))
            (λ e.
              Leads-bind _ (λ _ s. Unit {0}) _ (Leads-modify _ (λ s p. tt))
                (λ _. error-IsReported deployment _ e))
            (λ o.
              Leads-given (λ f.
                Leads-crash (λ s p. (o, f, p)) (report_deployment-IsReported deployment o f))))

-- On calm interfaces, `handleEventingState` returns a reply or panics. After a reply the state of the
-- resource is ready only if the cluster has answered `GetDeployment` with a deployment of the publisher
-- proxy that has as many replicas available, ready and updated as its spec asks for. It panics only if
-- the cluster has answered with no deployment or with one without replicas in its spec.
pub handle_eventing_state_lem :
    {C : Cluster} (calm : IsCalm C) (deployment : Deployment) (s : Operator C)
    → ((reply : Reply) × (t : Operator C) × (handle_eventing_state C deployment s ≡ (ok reply, t))
        × IsReported calm s.cluster deployment t)
      ⊎ ((t : Operator C) × (handle_eventing_state C deployment s ≡ (panic, t))
          × IsUnanswered calm s.cluster deployment)
handle_eventing_state_lem calm deployment s =
    Leads-replies _ s refl (handle_eventing_state-IsReported calm s.cluster deployment)
