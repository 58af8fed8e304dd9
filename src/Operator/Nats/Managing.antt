-- ===== src/Operator/Nats/Managing.antt =====
-- Stopping, making and starting the subscription manager for NATS.
use eventing_manager.Base.{
  not, [], ◌≡◌, ◌≢◌, refl, sym, ap, subst, ◌∙◌, Bool, true, false, Option, none, some, ℤ, ◌!=◌,
  int_eq, arith,
}
use eventing_manager.Exec.{ok, ◌>>=◌, bind-eq-ok, lift-bind-eq-ok, gets-bind}
use eventing_manager.Exec.Leads.{
  Leads, Leads-ok, Leads-pure, Leads-lift, Leads-gets, Leads-modify, Leads-if, Leads-when,
  Leads-bind, Leads-mono,
}
use eventing_manager.JetStream.{NatsConfig}
use eventing_manager.Operator.{Cluster, Operator, set_status, DefaultSubscriptionConfig}
use eventing_manager.Operator.Core.{
  Core, core, IsCalm, At, IsReady, IsRunnable, IsRunnable-some, not_both, some-ne-none,
  IsRunnable-there, eq-of-unchanged, Leads-on_cluster, Leads-looking, Leads-looking_at,
  Leads-produce,
}
use eventing_manager.Operator.Nats.Calling.{IsManaged, managed, renew-Renewed}
use eventing_manager.Operator.Nats.Steady.{get_nats_config-Steady}
use eventing_manager.Operator.Nats.{
  get_nats_config, get_default_subscription_config, drop_nats_sub_manager, stop_nats,
  stop_nats_sub_manager, start_nats, start_nats_sub_manager, renew_nats_sub_manager, make_nats,
  make_nats_sub_manager, run_nats_sub_manager, reconcile_nats_sub_manager,
}

module _ {C : Cluster} (calm : IsCalm C) where
  abbrev slot : Operator C → Option C.Manager × Bool
  slot s = (s.nats_sub_manager, s.is_nats_sub_manager_started)

  module _ {K : Core C → Type 0}
      (runnable : (c : Core C) → K c → IsRunnable c.is_nats_sub_manager_started c.nats_sub_manager)
      (drop : (c : Core C)
        → K c
        → K (record c { is_nats_sub_manager_started = false; nats_sub_manager = none })) where
    stop_nats-IsStopped :
        (o : Option C.Manager) (b cleanup : Bool)
        → Leads
            (λ s. At K s × (slot s ≡ (o, b)))
            (stop_nats C o b cleanup)
            (λ _ s. At K s × (s.is_nats_sub_manager_started ≡ false))
            (At K)
    unfolding stop_nats drop_nats_sub_manager
    stop_nats-IsStopped (some m) true cleanup =
        Leads-bind _ (λ _. At K) _
          (Leads-on_cluster _ (calm.stop_manager m cleanup) (λ s t p. record { holds = p.0.holds })
            (λ s t p. record { holds = p.0.holds }))
          (λ _. Leads-modify _ (λ s p. (record { holds = drop _ p.holds }, refl)))
    stop_nats-IsStopped none true cleanup =
        Leads-pure _ (λ s p. elim (subst (λ v. IsRunnable v.1 v.0) p.1 (runnable _ p.0.holds)) [ ])
    stop_nats-IsStopped none false cleanup = Leads-pure _ (λ s p. (p.0, ap (λ v. v.1) p.1))
    stop_nats-IsStopped (some m) false cleanup = Leads-pure _ (λ s p. (p.0, ap (λ v. v.1) p.1))

    pub stop_nats_sub_manager-IsStopped :
        (cleanup : Bool)
        → Leads
            (At K)
            (stop_nats_sub_manager C cleanup)
            (λ _ s. At K s × (s.is_nats_sub_manager_started ≡ false))
            (At K)
    unfolding stop_nats_sub_manager
    stop_nats_sub_manager-IsStopped cleanup =
        Leads-looking_at slot (λ v. stop_nats C v.0 v.1 cleanup)
          (λ (o, b). stop_nats-IsStopped o b cleanup)

  -- A manager that still runs was started with the configuration of the hash.
  abbrev IsCurrent : ℤ → Operator C → Type 0
  IsCurrent h s =
      At IsReady s
      × (s.is_nats_sub_manager_started ≡ true → s.eventing.status.backend_config_hash ≡ h)

  abbrev IsMade : ℤ → Operator C → Type 0
  IsMade h s = IsCurrent h s × (s.nats_sub_manager ≢ none)

  abbrev pub IsRunning : ℤ → Operator C → Type 0
  IsRunning h s =
      At IsReady s
      × (s.is_nats_sub_manager_started ≡ true)
      × (s.eventing.status.backend_config_hash ≡ h)

  renew-IsCurrent :
      (h : ℤ) → Leads (At IsReady) (renew_nats_sub_manager C h) (λ _ s. IsCurrent h s) (At IsReady)
  unfolding renew_nats_sub_manager
  renew-IsCurrent h =
      Leads-looking_at (λ s. s) _
        (λ x.
          Leads-if (x.eventing.status.backend_config_hash != h)
            (λ changed.
              Leads-if x.is_nats_sub_manager_started
                (λ started.
                  Leads-mono (λ s p. p.0) (λ _ s p. (p.0, λ e. not_both p.1 e)) (λ s p. p)
                    (stop_nats_sub_manager-IsStopped (λ c p. p.0.0) (λ c p. ((tt, p.0.1), p.1))
                      false))
                (λ stopped. Leads-modify _ (λ s p.
                  let off = ap (λ z. z.is_nats_sub_manager_started) p.1 ∙ stopped in
                  (
                    record {
                      holds = (
                        (
                          subst (λ b. IsRunnable {M = C.Manager} b none) (sym off) tt,
                          p.0.holds.0.1,
                        ),
                        p.0.holds.1,
                      );
                    },
                    λ e. not_both off e,
                  ))))
            (λ same. Leads-pure _ (λ s p. (
              p.0,
              λ e.
                  ap (λ z. z.eventing.status.backend_config_hash) p.1
                  ∙ eq-of-unchanged x.eventing.status.backend_config_hash h same,
            ))))

  make_nats-IsMade :
      (h : ℤ) (config : NatsConfig) (o : Option C.Manager)
      → Leads
          (λ s. IsCurrent h s × (s.nats_sub_manager ≡ o))
          (make_nats C o config)
          (λ _ s. IsMade h s)
          (At IsReady)
  unfolding make_nats
  make_nats-IsMade h config (some m) =
      Leads-pure _ (λ s p. (p.0, λ e. some-ne-none m (sym p.1 ∙ e)))
  make_nats-IsMade h config none =
      Leads-mono (λ s p. p.0) (λ _ s p. p) (λ s p. p)
        (Leads-looking _ (λ x q.
          Leads-bind _ (λ _ s. IsCurrent h s) _
            (Leads-produce _ (λ s t p. (record { holds = p.0.holds }, p.1)))
            (λ m.
              Leads-bind _ (λ _ s. IsCurrent h s) _
                (Leads-on_cluster _ (calm.init_manager m)
                  (λ s t p. (record { holds = p.0.holds }, p.1))
                  (λ s t p. record { holds = p.0.holds }))
                (λ _. Leads-modify _ (λ s p. (
                  (
                    record {
                      holds = (
                        (IsRunnable-some s.is_nats_sub_manager_started m, p.0.holds.0.1),
                        p.0.holds.1,
                      );
                    },
                    p.1,
                  ),
                  some-ne-none m,
                ))))))

  make-IsMade :
      (h : ℤ) (config : NatsConfig)
      → Leads (λ s. IsCurrent h s) (make_nats_sub_manager C config) (λ _ s. IsMade h s) (At IsReady)
  unfolding make_nats_sub_manager
  make-IsMade h config =
      Leads-looking_at (λ s. s.nats_sub_manager) (λ o. make_nats C o config)
        (make_nats-IsMade h config)

  -- A manager that is there is started.
  start_nats-IsStarted :
      (subs : DefaultSubscriptionConfig) (o : Option C.Manager)
      → Leads
          (λ s. (At IsReady s × (s.nats_sub_manager ≢ none)) × (s.nats_sub_manager ≡ o))
          (start_nats C o subs)
          (λ _ s. At IsReady s × (s.is_nats_sub_manager_started ≡ true))
          (At IsReady)
  unfolding start_nats
  start_nats-IsStarted subs none = record { at = λ s p. elim (p.0.1 p.1) [ ] }
  start_nats-IsStarted subs (some m) =
      Leads-bind _ (λ _ s. At IsReady s × (s.nats_sub_manager ≡ some m)) _
        (Leads-on_cluster _ (calm.start_manager m subs [])
          (λ s t p. (record { holds = p.0.0.holds }, p.1))
          (λ s t p. record { holds = p.0.0.holds }))
        (λ _. Leads-modify _ (λ s p. (
          record {
            holds = (
              (subst (IsRunnable {M = C.Manager} true) (sym p.1) tt, p.0.holds.0.1),
              p.0.holds.1,
            );
          },
          refl,
        )))

  start_nats_sub_manager-IsStarted :
      (subs : DefaultSubscriptionConfig)
      → Leads
          (λ s. At IsReady s × (s.nats_sub_manager ≢ none))
          (start_nats_sub_manager C subs)
          (λ _ s. At IsReady s × (s.is_nats_sub_manager_started ≡ true))
          (At IsReady)
  unfolding start_nats_sub_manager
  start_nats_sub_manager-IsStarted subs =
      Leads-looking_at (λ s. s.nats_sub_manager) (λ o. start_nats C o subs)
        (start_nats-IsStarted subs)

  run-IsRunning :
      (subs : DefaultSubscriptionConfig) (h : ℤ)
      → Leads (λ s. IsMade h s) (run_nats_sub_manager C subs h) (λ _ s. IsRunning h s) (At IsReady)
  unfolding run_nats_sub_manager set_status
  run-IsRunning subs h =
      Leads-looking_at (λ s. s.is_nats_sub_manager_started) _
        (λ b.
          Leads-when (not b)
            (λ e.
              Leads-mono (λ s p. (p.0.0.0, p.0.1)) (λ _ s p. p) (λ s p. p)
                (Leads-bind _ _ _ (start_nats_sub_manager-IsStarted subs)
                  (λ _. Leads-modify _ (λ s p. (record { holds = p.0.holds }, p.1, refl)))))
            (λ e s p. let on = p.1 ∙ is_true b e in (p.0.0.0, on, p.0.0.1 on)))
    where
      is_true : (b : Bool) → not b ≡ false → b ≡ true
      is_true b e = ground arith

  renew_make_run :
      (subs : DefaultSubscriptionConfig) (config : NatsConfig) (h : ℤ)
      → Leads
          (At IsReady)
          (renew_nats_sub_manager C h >>= λ _.
            make_nats_sub_manager C config >>= λ _. run_nats_sub_manager C subs h)
          (λ _ s. IsRunning h s)
          (At IsReady)
  renew_make_run subs config h =
      Leads-bind _ _ _ (renew-IsCurrent h)
        (λ _. Leads-bind _ _ _ (make-IsMade h config) (λ _. run-IsRunning subs h))

  pub reconcile_nats_sub_manager-Steady :
      Leads
        (At IsReady)
        (reconcile_nats_sub_manager C)
        (λ _ s. At IsReady s × (s.is_nats_sub_manager_started ≡ true))
        (At IsReady)
  unfolding reconcile_nats_sub_manager
  reconcile_nats_sub_manager-Steady =
      Leads-bind _ (λ _. At IsReady) _ (Leads-gets _ (λ s p. p))
        (λ subs.
          Leads-bind _ (λ _. At IsReady) _ (get_nats_config-Steady calm (λ c p. p.1))
            (λ config.
              Leads-bind _ (λ _. At IsReady) _
                (Leads-lift _ (calm.hash_nats subs config) (λ a s e p. p) (λ s p. p))
                (λ h.
                  Leads-mono (λ s p. p) (λ _ s p. (p.0, p.1)) (λ s p. p)
                    (renew_make_run subs config h))))

  -- From a consistent state, a reconciliation of the manager that returns without error has read the
  -- configuration, and the hash of the status is the hash of it and of the default subscription
  -- configuration. Either the manager ran before with this hash, and nothing has changed since the
  -- reading; or the last call was a `Start` of the manager that returned without error, and a manager
  -- that ran before, with another hash, was stopped by a `Stop` that returned without error. The manager
  -- is there and its flag is set.
  pub reconcile_nats_sub_manager_lem :
      (s t : Operator C)
      → IsReady (core s)
      → reconcile_nats_sub_manager C s ≡ (ok tt, t)
      → (config : NatsConfig) × (s' : Operator C) × (get_nats_config C s ≡ (ok config, s'))
        × (C.hash_nats (get_default_subscription_config C s) config
            ≡ ok t.eventing.status.backend_config_hash)
        × (t.is_nats_sub_manager_started ≡ true)
        × (t.nats_sub_manager ≢ none)
        × IsManaged (get_default_subscription_config C s) t.eventing.status.backend_config_hash s' t
  unfolding reconcile_nats_sub_manager
  reconcile_nats_sub_manager_lem s t p e =
      let subs = get_default_subscription_config C s in
      let (config, s', b, k) = bind-eq-ok (get_nats_config C) _ s (sym (gets-bind _ _ s) ∙ e) in
      let (h, c, l) = lift-bind-eq-ok (C.hash_nats subs config) _ s' k in
      let ready = Leads-ok (get_nats_config-Steady calm (λ c p. p.1)) (record { holds = p }) b in
      let r = Leads-ok (renew_make_run subs config h) ready l in
      let (_, s₁, e₁, k₁) = bind-eq-ok (renew_nats_sub_manager C h) _ s' l in
      let (_, s₂, e₂, k₂) = bind-eq-ok (make_nats_sub_manager C config) _ s₁ k₁ in
      (
        config,
        s',
        b,
        c ∙ ap ok (sym r.2),
        r.1,
        IsRunnable-there _ _ r.1 r.0.holds.0.0,
        subst (λ x. IsManaged subs x s' t) (sym r.2)
            (managed subs config h s' s₁ s₂ t (renew-Renewed h s' s₁ e₁ ready.holds.0.0) e₂ k₂
              ready.holds.0.0),
      )
