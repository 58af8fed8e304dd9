-- ===== src/Operator/Backends/Switching.antt =====
-- What a switch of the backend leaves behind.
use eventing_manager.Base.{
  ◌≡◌, refl, sym, ap, subst, ◌∙◌, Bool, true, false, some, [], String, ◌==◌, string_eq, arith,
  if◌then◌else◌,
}
use eventing_manager.Exec.{ok, bind-eq-ok, looking}
use eventing_manager.Operator.Calls.{
  IsStoppedBy, if-eq-true, if-eq-false, when-eq-true, with_backend-eq,
}
use eventing_manager.Operator.Nats.{stop_nats_sub_manager}
use eventing_manager.Operator.Nats.Calling.{stop_nats_sub_manager-calls}
use eventing_manager.Operator.EventMesh.Calling.{stop_event_mesh_sub_manager-calls}
use eventing_manager.Exec.Leads.{
  Leads, Leads-ok, Leads-modify, Leads-if, Leads-when, Leads-bind, Leads-mono,
}
use eventing_manager.Operator.{Cluster, Operator, BackendSpec, nats_backend_type, set_status}
use eventing_manager.Operator.Core.{
  Core, core, IsCalm, At, IsConsistent, Leads-looking, Leads-looking_at, Leads-on_cluster,
  Leads-with_backend_at, not_both,
}
use eventing_manager.Operator.Backends.{stop_backend, switch_backend, handle_backend_switching}
use eventing_manager.Operator.EventMesh.Managing.{stop_event_mesh_sub_manager-IsStopped}
use eventing_manager.Operator.Nats.Managing.{stop_nats_sub_manager-IsStopped}
use eventing_manager.Operator.Nats.Steady.{stop_nats_cr_watch-Steady, disconnect_from_nats-Steady}
use eventing_manager.OperatorStatus.{
  set_state_processing, clear_conditions, state_processing, is_previous_backend_empty,
  is_spec_backend_type_changed,
}

module _ {C : Cluster} (calm : IsCalm C) where
  -- The manager of the backend type is not started.
  abbrev pub IsStopped : String → Core C → Type 0
  IsStopped previous c =
      (if previous == nats_backend_type
        then c.is_nats_sub_manager_started
        else c.is_event_mesh_sub_manager_started)
      ≡ false

  module _ (previous : String) where
    abbrev K : Core C → Type 0
    K c = IsConsistent c × IsStopped previous c

    picked : (b x y : Bool) → b ≡ true → x ≡ false → (if b then x else y) ≡ false
    picked b x y h e = ground arith

    other : (b x y : Bool) → b ≡ false → y ≡ false → (if b then x else y) ≡ false
    other b x y h e = ground arith

    stop_backend-IsStopped :
        Leads (At IsConsistent) (stop_backend C previous) (λ _. At K) (At IsConsistent)
    unfolding stop_backend
    stop_backend-IsStopped =
        Leads-if (previous == nats_backend_type)
          (λ yes.
            Leads-bind _ (λ _. At K) _
              (Leads-mono (λ s p. p) (λ _ s p. record { holds = (p.0.holds, picked _ _ _ yes p.1) })
                (λ s p. p)
                (stop_nats_sub_manager-IsStopped calm (λ c p. p.0) (λ c p. (tt, p.1)) true))
              (λ _.
                Leads-mono (λ s p. p) (λ _ s p. p) (λ s p. record { holds = p.holds.0 })
                  (Leads-bind _ _ _ (stop_nats_cr_watch-Steady calm)
                    (λ _. disconnect_from_nats-Steady calm))))
          (λ no.
            Leads-mono (λ s p. p) (λ _ s p. record { holds = (p.0.holds, other _ _ _ no p.1) })
              (λ s p. p)
              (stop_event_mesh_sub_manager-IsStopped calm (λ c p. p.1) (λ c p. (p.0, tt)) true))

    -- The status is reset, and the previous manager is stopped.
    abbrev pub IsSwitched : Operator C → Type 0
    IsSwitched s =
        IsStopped previous (core s)
        × (s.eventing.status.state ≡ state_processing)
        × (s.eventing.status.conditions ≡ [])

  stop_from :
      (previous x : String)
      → Leads
          (λ s.
            (At IsConsistent s × (s.eventing.status.active_backend ≡ previous))
            × (s.eventing.status.active_backend ≡ x))
          (stop_backend C x)
          (λ r s. IsStopped previous (core s))
          (λ s. Unit {0})
  stop_from previous x = record {
    at = λ s p.
        (Leads-mono {P' = At IsConsistent} {R = λ r s. IsStopped previous (core s)} (λ s q. q)
            (λ r s q. subst (λ y. IsStopped y (core s)) (sym p.1 ∙ p.0.1) q.holds.1) (λ s q. tt)
            (stop_backend-IsStopped x)).at
          s p.0.0;
  }

  switch_backend-IsSwitched :
      (previous : String)
      → Leads
          (λ s. At IsConsistent s × (s.eventing.status.active_backend ≡ previous))
          (switch_backend C)
          (λ _ s. IsSwitched previous s)
          (λ s. Unit {0})
  unfolding switch_backend set_status set_state_processing clear_conditions
  switch_backend-IsSwitched previous =
      Leads-looking_at (λ s. s.eventing.status.active_backend) _
        (λ x.
          Leads-bind _ (λ _ s. IsStopped previous (core s)) _ (stop_from previous x)
            (λ _.
              Leads-bind _
                (λ _ s. IsStopped previous (core s) × (s.eventing.status.state ≡ state_processing))
                _ (Leads-modify _ (λ s p. (p, refl)))
                (λ _.
                  Leads-bind _ (λ _ s. IsSwitched previous s) _
                    (Leads-modify _ (λ s p. (p.0, p.1, refl)))
                    (λ _. Leads-looking _ (λ y q.
                      Leads-on_cluster _ (calm.delete_publisher_proxy_resources _) (λ s t p. p)
                        (λ s t p. tt))))))

  -- The manager of the backend type, if it ran, was stopped by a call on the cluster as it was.
  abbrev pub Stops : String → Operator C → Type 0
  Stops previous s =
      ((previous == nats_backend_type) ≡ true
        → s.is_nats_sub_manager_started ≡ true
        → IsStoppedBy C s.nats_sub_manager true s.cluster)
      × ((previous == nats_backend_type) ≡ false
          → s.is_event_mesh_sub_manager_started ≡ true
          → IsStoppedBy C s.event_mesh_sub_manager true s.cluster)

  stop_backend-Stops :
      (previous : String) (s t : Operator C)
      → IsConsistent (core s)
      → stop_backend C previous s ≡ (ok tt, t)
      → Stops previous s
  unfolding stop_backend
  stop_backend-Stops previous s t p e = (
    λ yes on.
        let (_, s₁, e₁, _) =
          bind-eq-ok (stop_nats_sub_manager C true) _ s (if-eq-true _ _ _ s yes e) in
        (stop_nats_sub_manager-calls true s s₁ e₁ p.0 on).0,
    λ no on. (stop_event_mesh_sub_manager-calls true s t (if-eq-false _ _ _ s no e) p.1 on).0,
  )

  handle_backend_switching-Stops :
      (backend : BackendSpec) (s t : Operator C)
      → IsConsistent (core s)
      → s.eventing.backend ≡ some backend
      → is_previous_backend_empty s.eventing.status ≡ false
      → is_spec_backend_type_changed backend.type s.eventing.status ≡ true
      → handle_backend_switching C s ≡ (ok tt, t)
      → Stops s.eventing.status.active_backend s
  unfolding handle_backend_switching switch_backend looking
  handle_backend_switching-Stops backend s t p specified there changed e =
      let e₁ = with_backend-eq _ backend s specified (if-eq-false _ _ _ s there e) in
      let (_, s₁, e₂, _) =
        bind-eq-ok (stop_backend C s.eventing.status.active_backend) _ s
          (when-eq-true _ _ s changed e₁) in
      stop_backend-Stops s.eventing.status.active_backend s s₁ p e₂

  handle_backend_switching-IsSwitched :
      (backend : BackendSpec) (s t : Operator C)
      → IsConsistent (core s)
      → s.eventing.backend ≡ some backend
      → is_previous_backend_empty s.eventing.status ≡ false
      → is_spec_backend_type_changed backend.type s.eventing.status ≡ true
      → handle_backend_switching C s ≡ (ok tt, t)
      → IsSwitched s.eventing.status.active_backend t
  unfolding handle_backend_switching
  handle_backend_switching-IsSwitched backend s t p specified there changed e =
      Leads-ok
        (Leads-looking_at {P = λ z. z ≡ s} (λ z. z) _
          (λ x.
            Leads-if (is_previous_backend_empty x.eventing.status)
              (λ yes. record {
                at = λ z q.
                    not_both there
                      (ap (λ y. is_previous_backend_empty y.eventing.status) (sym q.0 ∙ q.1) ∙ yes);
              })
              (λ no.
                Leads-with_backend_at _ backend
                  (λ z q. ap (λ y. y.eventing.backend) q.0 ∙ specified)
                  (Leads-when (is_spec_backend_type_changed backend.type x.eventing.status)
                    (λ yes.
                      Leads-mono
                        (λ z q. (
                          record { holds = subst (λ y. IsConsistent (core y)) (sym q.0) p },
                          ap (λ y. y.eventing.status.active_backend) q.0,
                        ))
                        (λ r z q. q) (λ z q. q)
                        (switch_backend-IsSwitched s.eventing.status.active_backend))
                    (λ no' z q. not_both no' (
                      ap (λ y. is_spec_backend_type_changed backend.type y.eventing.status)
                        (sym q.1 ∙ q.0)
                      ∙ changed))))))
        refl e

  -- Where a backend was active and the resource asks for another one, and the switch returns without
  -- error, the manager of the backend that was active, if its flag was set, was stopped by a `Stop` that
  -- returned without error; its flag is not set, the state is processing and no condition is left.
  pub handle_backend_switching_lem :
      (backend : BackendSpec) (s t : Operator C)
      → IsConsistent (core s)
      → s.eventing.backend ≡ some backend
      → is_previous_backend_empty s.eventing.status ≡ false
      → is_spec_backend_type_changed backend.type s.eventing.status ≡ true
      → handle_backend_switching C s ≡ (ok tt, t)
      → Stops s.eventing.status.active_backend s × IsSwitched s.eventing.status.active_backend t
  handle_backend_switching_lem backend s t p specified there changed e = (
    handle_backend_switching-Stops backend s t p specified there changed e,
    handle_backend_switching-IsSwitched backend s t p specified there changed e,
  )
