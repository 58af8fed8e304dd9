-- ===== src/Operator/EventMesh/Managing.antt =====
-- Stopping, making and starting the subscription manager for EventMesh.
pub mod Reconciled
use eventing_manager.Base.{
  not, ◌≡◌, ◌≢◌, refl, sym, ap, subst, ◌∙◌, String, Bool, true, false, Option, none, some, ℤ, ◌!=◌,
  int_eq, arith,
}
use eventing_manager.Exec.{ok, bind-eq-ok, lift-bind-eq-ok, gets-bind-eq-ok}
use eventing_manager.Exec.Leads.{
  Leads, Leads-ok, Leads-pure, Leads-lift, Leads-gets, Leads-modify, Leads-if, Leads-when,
  Leads-bind, Leads-mono,
}
use eventing_manager.Exec.Leads.{Leads-fail, Leads-handle, Leads-given}
use eventing_manager.Operator.{
  Cluster, Operator, BackendSpec, DefaultSubscriptionConfig, Params, Secret, set_status,
}
use eventing_manager.Operator.Core.{
  Core, core, IsCalm, At, Steady, IsConsistent, IsReady, IsReadyFor, IsReadyFor-IsReady, IsRunnable,
  IsRunnable-some, IsRunnable-there, not_both, some-ne-none, eq-of-unchanged, Leads-on_cluster,
  Leads-looking, Leads-looking_at, Leads-with_backend_at, Leads-IsReady,
}
use eventing_manager.Operator.EventMesh.{
  drop_event_mesh_sub_manager, stop_event_mesh, stop_event_mesh_sub_manager, start_event_mesh,
  start_event_mesh_sub_manager, renew_event_mesh_sub_manager, make_event_mesh,
  make_event_mesh_sub_manager, run_event_mesh_sub_manager, stop_for_oauth2,
  sync_oauth2_client_id_and_secret, manage_event_mesh, get_event_mesh_backend_config_hash,
  reconcile_event_mesh_sub_manager,
}
use eventing_manager.Operator.EventMesh.Calling.{IsManaged, managed, renew-Renewed}
use eventing_manager.Operator.Calls.{with_backend-eq}
use eventing_manager.Operator.{looking}
use eventing_manager.Operator.EventMesh.{check_domain, get_event_mesh_sub_manager_params}
use eventing_manager.Operator.Nats.{get_default_subscription_config}
use eventing_manager.Operator.EventMesh.Steady.{
  noting-Steady, sync_publisher_proxy_secret-Steady, set_up_environment_for_event_mesh-Steady,
  get_oauth2_client_credentials-Steady, check_domain-Steady,
}
use eventing_manager.Operator.Status.Steady.{
  sync_status_with_subscription_manager_failed_condition-Steady,
}

module _ {C : Cluster} (calm : IsCalm C) where
  abbrev slot : Operator C → Option C.Manager × Bool
  slot s = (s.event_mesh_sub_manager, s.is_event_mesh_sub_manager_started)

  module _ {K : Core C → Type 0}
      (runnable : (c : Core C)
        → K c
        → IsRunnable c.is_event_mesh_sub_manager_started c.event_mesh_sub_manager)
      (drop : (c : Core C)
        → K c
        → K (record c {
          is_event_mesh_sub_manager_started = false;
          event_mesh_sub_manager = none;
        })) where
    stop_event_mesh-IsStopped :
        (o : Option C.Manager) (b cleanup : Bool)
        → Leads
            (λ s. At K s × (slot s ≡ (o, b)))
            (stop_event_mesh C o b cleanup)
            (λ _ s. At K s × (s.is_event_mesh_sub_manager_started ≡ false))
            (At K)
    unfolding stop_event_mesh drop_event_mesh_sub_manager
    stop_event_mesh-IsStopped (some m) true cleanup =
        Leads-bind _ (λ _. At K) _
          (Leads-on_cluster _ (calm.stop_manager m cleanup) (λ s t p. record { holds = p.0.holds })
            (λ s t p. record { holds = p.0.holds }))
          (λ _. Leads-modify _ (λ s p. (record { holds = drop _ p.holds }, refl)))
    stop_event_mesh-IsStopped none true cleanup =
        Leads-pure _ (λ s p. elim (subst (λ v. IsRunnable v.1 v.0) p.1 (runnable _ p.0.holds)) [ ])
    stop_event_mesh-IsStopped none false cleanup = Leads-pure _ (λ s p. (p.0, ap (λ v. v.1) p.1))
    stop_event_mesh-IsStopped (some m) false cleanup =
        Leads-pure _ (λ s p. (p.0, ap (λ v. v.1) p.1))

    pub stop_event_mesh_sub_manager-IsStopped :
        (cleanup : Bool)
        → Leads
            (At K)
            (stop_event_mesh_sub_manager C cleanup)
            (λ _ s. At K s × (s.is_event_mesh_sub_manager_started ≡ false))
            (At K)
    unfolding stop_event_mesh_sub_manager
    stop_event_mesh_sub_manager-IsStopped cleanup =
        Leads-looking_at slot (λ v. stop_event_mesh C v.0 v.1 cleanup)
          (λ (o, b). stop_event_mesh-IsStopped o b cleanup)

  -- A manager that still runs was started with the configuration of the hash.
  abbrev IsCurrent : BackendSpec → ℤ → Operator C → Type 0
  IsCurrent backend h s =
      At (IsReadyFor backend) s
      × (s.is_event_mesh_sub_manager_started ≡ true → s.eventing.status.backend_config_hash ≡ h)

  abbrev IsMade : BackendSpec → ℤ → Operator C → Type 0
  IsMade backend h s = IsCurrent backend h s × (s.event_mesh_sub_manager ≢ none)

  abbrev IsRunning : BackendSpec → ℤ → Operator C → Type 0
  IsRunning backend h s =
      At (IsReadyFor backend) s
      × (s.is_event_mesh_sub_manager_started ≡ true)
      × (s.eventing.status.backend_config_hash ≡ h)

  module _ (backend : BackendSpec) where
    renew-IsCurrent :
        (h : ℤ)
        → Leads
            (At (IsReadyFor backend))
            (renew_event_mesh_sub_manager C h)
            (λ _ s. IsCurrent backend h s)
            (At (IsReadyFor backend))
    unfolding renew_event_mesh_sub_manager
    renew-IsCurrent h =
        Leads-looking_at (λ s. s) _
          (λ x.
            Leads-when (x.eventing.status.backend_config_hash != h)
              (λ changed.
                Leads-mono (λ s p. p.0) (λ _ s p. (p.0, λ e. not_both p.1 e)) (λ s p. p)
                  (stop_event_mesh_sub_manager-IsStopped (λ c p. p.0.1) (λ c p. ((p.0.0, tt), p.1))
                    false))
              (λ same s p. (
                p.0,
                λ e.
                    ap (λ z. z.eventing.status.backend_config_hash) p.1
                    ∙ eq-of-unchanged x.eventing.status.backend_config_hash h same,
              )))

    make_event_mesh-IsMade :
        (h : ℤ) (domain : String) (o : Option C.Manager)
        → Leads
            (λ s. IsCurrent backend h s × (s.event_mesh_sub_manager ≡ o))
            (make_event_mesh C o domain)
            (λ _ s. IsMade backend h s)
            (At (IsReadyFor backend))
    unfolding make_event_mesh
    make_event_mesh-IsMade h domain (some m) =
        Leads-pure _ (λ s p. (p.0, λ e. some-ne-none m (sym p.1 ∙ e)))
    make_event_mesh-IsMade h domain none =
        Leads-bind _ (λ _ s. IsCurrent backend h s) _
          (Leads-on_cluster _ (calm.new_event_mesh_manager domain)
            (λ s t p. (record { holds = p.0.0.holds }, p.0.1))
            (λ s t p. record { holds = p.0.0.holds }))
          (λ m.
            Leads-bind _ (λ _ s. IsCurrent backend h s) _
              (Leads-on_cluster _ (calm.init_manager m)
                (λ s t p. (record { holds = p.0.holds }, p.1))
                (λ s t p. record { holds = p.0.holds }))
              (λ _. Leads-modify _ (λ s p. (
                (
                  record {
                    holds = (
                      (p.0.holds.0.0, IsRunnable-some s.is_event_mesh_sub_manager_started m),
                      p.0.holds.1,
                    );
                  },
                  p.1,
                ),
                some-ne-none m,
              ))))

    make-IsMade :
        (h : ℤ) (domain : String)
        → Leads
            (λ s. IsCurrent backend h s)
            (make_event_mesh_sub_manager C domain)
            (λ _ s. IsMade backend h s)
            (At (IsReadyFor backend))
    unfolding make_event_mesh_sub_manager
    make-IsMade h domain =
        Leads-looking_at (λ s. s.event_mesh_sub_manager) (λ o. make_event_mesh C o domain)
          (make_event_mesh-IsMade h domain)

    -- A manager that is there is started.
    start_event_mesh-IsStarted :
        (subs : DefaultSubscriptionConfig) (params : Params) (o : Option C.Manager)
        → Leads
            (λ s.
              (At (IsReadyFor backend) s × (s.event_mesh_sub_manager ≢ none))
              × (s.event_mesh_sub_manager ≡ o))
            (start_event_mesh C o subs params)
            (λ _ s. At (IsReadyFor backend) s × (s.is_event_mesh_sub_manager_started ≡ true))
            (At (IsReadyFor backend))
    unfolding start_event_mesh
    start_event_mesh-IsStarted subs params none = record { at = λ s p. elim (p.0.1 p.1) [ ] }
    start_event_mesh-IsStarted subs params (some m) =
        Leads-bind _ (λ _ s. At (IsReadyFor backend) s × (s.event_mesh_sub_manager ≡ some m)) _
          (Leads-on_cluster _ (calm.start_manager m subs params)
            (λ s t p. (record { holds = p.0.0.holds }, p.1))
            (λ s t p. record { holds = p.0.0.holds }))
          (λ _. Leads-modify _ (λ s p. (
            record {
              holds = (
                (p.0.holds.0.0, subst (IsRunnable {M = C.Manager} true) (sym p.1) tt),
                p.0.holds.1,
              );
            },
            refl,
          )))

    start_event_mesh_sub_manager-IsStarted :
        (subs : DefaultSubscriptionConfig) (params : Params)
        → Leads
            (λ s. At (IsReadyFor backend) s × (s.event_mesh_sub_manager ≢ none))
            (start_event_mesh_sub_manager C subs params)
            (λ _ s. At (IsReadyFor backend) s × (s.is_event_mesh_sub_manager_started ≡ true))
            (At (IsReadyFor backend))
    unfolding start_event_mesh_sub_manager
    start_event_mesh_sub_manager-IsStarted subs params =
        Leads-looking_at (λ s. s.event_mesh_sub_manager) (λ o. start_event_mesh C o subs params)
          (start_event_mesh-IsStarted subs params)

    run-IsRunning :
        (subs : DefaultSubscriptionConfig) (params : Params) (h : ℤ)
        → Leads
            (λ s. IsMade backend h s)
            (run_event_mesh_sub_manager C subs params h)
            (λ _ s. IsRunning backend h s)
            (At (IsReadyFor backend))
    unfolding run_event_mesh_sub_manager set_status
    run-IsRunning subs params h =
        Leads-looking_at (λ s. s.is_event_mesh_sub_manager_started) _
          (λ b.
            Leads-when (not b)
              (λ e.
                Leads-mono (λ s p. (p.0.0.0, p.0.1)) (λ _ s p. p) (λ s p. p)
                  (Leads-bind _ _ _ (start_event_mesh_sub_manager-IsStarted subs params)
                    (λ _. Leads-modify _ (λ s p. (record { holds = p.0.holds }, p.1, refl)))))
              (λ e s p. let on = p.1 ∙ is_true b e in (p.0.0.0, on, p.0.0.1 on)))
      where
        is_true : (b : Bool) → not b ≡ false → b ≡ true
        is_true b e = ground arith

    -- The manager runs, and the hash of the status is that of the secret, the prefix and the domain.
    abbrev pub IsConfigured : Operator C → Type 0
    IsConfigured s =
        At (IsReadyFor backend) s
        × (s.is_event_mesh_sub_manager_started ≡ true)
        × (domain : String) × (get_event_mesh_backend_config_hash C backend.event_mesh_secret
              backend.event_type_prefix domain
            ≡ ok s.eventing.status.backend_config_hash)

    manage_event_mesh-IsConfigured :
        Leads
          (At (IsReadyFor backend))
          (manage_event_mesh C)
          (λ _. IsConfigured)
          (At (IsReadyFor backend))
    unfolding manage_event_mesh get_event_mesh_backend_config_hash
    manage_event_mesh-IsConfigured =
        Leads-with_backend_at _ backend (λ s p. p.holds.1)
          (Leads-bind _ _ _ (check_domain-Steady calm _) (λ domain.
            Leads-bind _ (λ _. At (IsReadyFor backend)) _ (Leads-gets _ (λ s p. p))
              (λ subs.
                Leads-bind _ (λ _. At (IsReadyFor backend)) _ (Leads-gets _ (λ s p. p))
                  (λ params.
                    Leads-bind _
                      (λ h s.
                        At (IsReadyFor backend) s
                        × (get_event_mesh_backend_config_hash C backend.event_mesh_secret
                              backend.event_type_prefix domain
                            ≡ ok h))
                      _ (Leads-lift _ (calm.hash_text _) (λ h s e p. (p, e)) (λ s p. p))
                      (λ h. Leads-given (λ e.
                        Leads-mono (λ s p. p) (λ _ s p. (p.0, p.1, domain, e ∙ ap ok (sym p.2)))
                          (λ s p. p)
                          (Leads-bind _ _ _ (renew-IsCurrent h) (λ _.
                            Leads-bind _ _ _ (make-IsMade h domain)
                              (λ _. run-IsRunning subs params h)))))))))

    stop_for_oauth2-Steady : Steady (IsReadyFor backend) (stop_for_oauth2 C)
    unfolding stop_for_oauth2
    stop_for_oauth2-Steady =
        Leads-bind _ _ _
          (stop_event_mesh_sub_manager-IsStopped (λ c p. p.0.1) (λ c p. ((p.0.0, tt), p.1)) true)
          (λ _.
            Leads-mono (λ s p. p.0) (λ _ s p. p) (λ s p. p)
              (sync_status_with_subscription_manager_failed_condition-Steady calm _))

    sync_oauth2_client_id_and_secret-Steady :
        Steady (IsReadyFor backend) (sync_oauth2_client_id_and_secret C)
    unfolding sync_oauth2_client_id_and_secret
    sync_oauth2_client_id_and_secret-Steady = Leads-looking _ (λ x p.
        Leads-handle _ _ _ _ _ (get_oauth2_client_credentials-Steady calm _)
          (λ e.
            Leads-if (C.is_not_found e)
              (λ _. Leads-bind _ _ _ stop_for_oauth2-Steady (λ _. Leads-fail _ (λ s q. q)))
              (λ _. Leads-fail _ (λ s q. q)))
          (λ credentials. Leads-looking _ (λ y q.
            Leads-bind _ (λ _. At (IsReadyFor backend)) _
              (Leads-when _ (λ _. stop_for_oauth2-Steady) (λ _ s r. r))
              (λ _.
                Leads-when _ (λ _. Leads-modify _ (λ s r. record { holds = r.holds }))
                  (λ _ s r. r)))))

    reconcile-IsConfigured :
        (secret : Secret)
        → Leads
            (At (IsReadyFor backend))
            (reconcile_event_mesh_sub_manager C secret)
            (λ _. IsConfigured)
            (At (IsReadyFor backend))
    unfolding reconcile_event_mesh_sub_manager
    reconcile-IsConfigured secret = Leads-looking _ (λ x p.
        Leads-bind _ _ _ (noting-Steady _ _ sync_oauth2_client_id_and_secret-Steady) (λ _.
          Leads-bind _ _ _ (noting-Steady _ _ (sync_publisher_proxy_secret-Steady calm _ _))
            (λ desired.
              Leads-bind _ _ _
                (noting-Steady _ _ (
                  set_up_environment_for_event_mesh-Steady calm
                    (λ c q. (IsReadyFor-IsReady backend c q).1) desired))
                (λ _. manage_event_mesh-IsConfigured))))

  pub reconcile_event_mesh_sub_manager-Steady :
      (secret : Secret) → Steady IsReady (reconcile_event_mesh_sub_manager C secret)
  reconcile_event_mesh_sub_manager-Steady secret = Leads-IsReady _ (λ backend.
      Leads-mono (λ s p. p)
        (λ _ s p. record { holds = IsReadyFor-IsReady backend (core s) p.0.holds })
        (λ s p. record { holds = IsReadyFor-IsReady backend (core s) p.holds })
        (reconcile-IsConfigured backend secret))
