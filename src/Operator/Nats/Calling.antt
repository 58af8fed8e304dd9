-- ===== src/Operator/Nats/Calling.antt =====
-- The calls of `Start` and `Stop` that managing the subscription manager for NATS makes.
use eventing_manager.Base.{
  ◌≡◌, ◌≢◌, refl, sym, ap, subst, ◌∙◌, Bool, true, false, not, Option, none, some, ℤ, ◌!=◌, int_eq,
  inl, inr, if◌then◌else◌, [],
}
use eventing_manager.Exec.{ok, pure, modify, when, bind-eq-ok, ◌>>=◌}
use eventing_manager.JetStream.{NatsConfig}
use eventing_manager.Operator.{
  Cluster, Operator, DefaultSubscriptionConfig, set_status, looking, produce,
}
use eventing_manager.Operator.Calls.{
  produce-eq-ok, changed-ne, on_cluster-eq-ok, modify-eq-ok, IsStoppedBy, IsStartedBy,
}
use eventing_manager.Operator.Core.{IsRunnable, IsRunnable-there, eq-of-unchanged, not_both}
use eventing_manager.Operator.Nats.{
  drop_nats_sub_manager, stop_nats, stop_nats_sub_manager, start_nats, start_nats_sub_manager,
  renew_nats_sub_manager, make_nats, make_nats_sub_manager, run_nats_sub_manager,
}
use eventing_manager.Base.{◌⊎◌}
use eventing_manager.Exec.{lift}

module _ {C : Cluster} where
  stop_nats-calls :
      (o : Option C.Manager) (b cleanup : Bool) (s t : Operator C)
      → stop_nats C o b cleanup s ≡ (ok tt, t)
      → b ≡ true
      → o ≢ none
      → IsStoppedBy C o cleanup s.cluster × (t.is_nats_sub_manager_started ≡ false)
  unfolding stop_nats drop_nats_sub_manager
  stop_nats-calls none b cleanup s t h on there = elim (there refl) [ ]
  stop_nats-calls (some m) false cleanup s t h on there = cc
  stop_nats-calls (some m) true cleanup s t h on there =
      let (_, s₁, e, k) = bind-eq-ok _ _ s h in
      let (v, call, _) = on_cluster-eq-ok _ s e in
      ((m, refl, v, call), ap (λ z. z.is_nats_sub_manager_started) (modify-eq-ok _ s₁ k))

  -- A manager that runs is stopped by a call on the cluster as it was.
  pub stop_nats_sub_manager-calls :
      (cleanup : Bool) (s t : Operator C)
      → stop_nats_sub_manager C cleanup s ≡ (ok tt, t)
      → IsRunnable s.is_nats_sub_manager_started s.nats_sub_manager
      → s.is_nats_sub_manager_started ≡ true
      → IsStoppedBy C s.nats_sub_manager cleanup s.cluster × (t.is_nats_sub_manager_started ≡ false)
  unfolding stop_nats_sub_manager looking
  stop_nats_sub_manager-calls cleanup s t h r on =
      stop_nats-calls s.nats_sub_manager s.is_nats_sub_manager_started cleanup s t h on
        (IsRunnable-there _ _ on r)

  -- What `renew` left: everything as it was for the same hash, else a manager that does not run.
  abbrev Renewed : Bool → Operator C → Operator C → Type 0
  Renewed changed s t =
      ((changed ≡ false) × (t ≡ s))
      ⊎ ((changed ≡ true)
          × (t.is_nats_sub_manager_started ≡ false)
          × (s.is_nats_sub_manager_started ≡ true
              → IsStoppedBy C s.nats_sub_manager false s.cluster))

  renewed :
      (changed started : Bool) (s t : Operator C)
      → (if changed
            then (if started
                then stop_nats_sub_manager C false
                else modify (λ z. record z { nats_sub_manager = none }))
            else pure tt)
          s
        ≡ (ok tt, t)
      → s.is_nats_sub_manager_started ≡ started
      → IsRunnable s.is_nats_sub_manager_started s.nats_sub_manager
      → Renewed changed s t
  unfolding pure
  renewed false started s t h e r = inl (refl, sym (ap (λ o. o.1) h))
  renewed true true s t h e r =
      let p = stop_nats_sub_manager-calls false s t h r e in inr (refl, p.1, λ on. p.0)
  renewed true false s t h e r =
      inr (
        refl,
        ap (λ z. z.is_nats_sub_manager_started) (modify-eq-ok _ s h) ∙ e,
        λ on. not_both e on,
      )

  pub renew-Renewed :
      (h : ℤ) (s t : Operator C)
      → renew_nats_sub_manager C h s ≡ (ok tt, t)
      → IsRunnable s.is_nats_sub_manager_started s.nats_sub_manager
      → Renewed (s.eventing.status.backend_config_hash != h) s t
  unfolding renew_nats_sub_manager looking
  renew-Renewed h s t e r = renewed _ s.is_nats_sub_manager_started s t e refl r

  make_nats-keeps :
      (o : Option C.Manager) (config : NatsConfig) (s t : Operator C)
      → make_nats C o config s ≡ (ok tt, t)
      → (o ≢ none → t ≡ s) × (t.is_nats_sub_manager_started ≡ s.is_nats_sub_manager_started)
  unfolding make_nats looking pure produce
  make_nats-keeps (some m) config s t h =
      let e : t ≡ s = sym (ap (λ o. o.1) h) in
      (λ there. e, ap (λ z. z.is_nats_sub_manager_started) e)
  make_nats-keeps none config s t h =
      let (m, s₁, e₁, k₁) = bind-eq-ok _ _ s h in
      let (_, s₂, e₂, k₂) = bind-eq-ok _ _ s₁ k₁ in
      let f₁ = produce-eq-ok (C.new_jetstream_manager s.eventing config) s e₁ in
      let (_, _, f₂) = on_cluster-eq-ok (C.init_manager m) s₁ e₂ in
      (
        λ there. elim (there refl) [ ],
        ap (λ z. z.is_nats_sub_manager_started) (modify-eq-ok _ s₂ k₂)
            ∙ ap (λ z. z.is_nats_sub_manager_started) f₂
            ∙ ap (λ z. z.is_nats_sub_manager_started) f₁,
      )

  start_nats-calls :
      (o : Option C.Manager) (subs : DefaultSubscriptionConfig) (s t : Operator C)
      → start_nats C o subs s ≡ (ok tt, t)
      → IsStartedBy C o subs [] t.cluster × (t.nats_sub_manager ≡ s.nats_sub_manager)
  unfolding start_nats lift
  start_nats-calls none subs s t h = cc
  start_nats-calls (some m) subs s t h =
      let (_, s₁, e, k) = bind-eq-ok _ _ s h in
      let (v, call, f) = on_cluster-eq-ok _ s e in
      let g = modify-eq-ok _ s₁ k in
      (
        (
          m,
          refl,
          s.cluster,
          call ∙ ap (λ u. (ok tt, u)) (sym (ap (λ z. z.cluster) g ∙ ap (λ z. z.cluster) f)),
        ),
        ap (λ z. z.nats_sub_manager) g ∙ ap (λ z. z.nats_sub_manager) f,
      )

  run-calls :
      (b : Bool) (subs : DefaultSubscriptionConfig) (h : ℤ) (s t : Operator C)
      → when
          (not b)
          (start_nats_sub_manager C subs >>= λ _.
            set_status (λ es. record es { backend_config_hash = h }))
          s
        ≡ (ok tt, t)
      → s.is_nats_sub_manager_started ≡ b
      → ((t ≡ s) × (s.is_nats_sub_manager_started ≡ true))
        ⊎ (IsStartedBy C t.nats_sub_manager subs [] t.cluster
            × (s.is_nats_sub_manager_started ≡ false))
  unfolding when pure start_nats_sub_manager looking set_status
  run-calls true subs h s t e on = inl (sym (ap (λ o. o.1) e), on)
  run-calls false subs h s t e on =
      let (_, s₁, e₁, k₁) = bind-eq-ok _ _ s e in
      let (call, same) = start_nats-calls s.nats_sub_manager subs s s₁ e₁ in
      let g = modify-eq-ok _ s₁ k₁ in
      inr (
        subst (λ (o : Option C.Manager × C.State). IsStartedBy C o.0 subs [] o.1)
            (λ i. (sym (ap (λ z. z.nats_sub_manager) g ∙ same) i, sym (ap (λ z. z.cluster) g) i))
            call,
        on,
      )

  -- The manager runs since before with the same hash, and nothing has changed; or it was started by the
  -- last call, and one that ran before was stopped.
  abbrev pub IsManaged : DefaultSubscriptionConfig → ℤ → Operator C → Operator C → Type 0
  IsManaged subs h s t =
      ((t ≡ s)
        × (s.is_nats_sub_manager_started ≡ true)
        × (s.eventing.status.backend_config_hash ≡ h))
      ⊎ (IsStartedBy C t.nats_sub_manager subs [] t.cluster
          × (s.is_nats_sub_manager_started ≡ true
              → (s.eventing.status.backend_config_hash ≢ h)
                × IsStoppedBy C s.nats_sub_manager false s.cluster))

  pub managed :
      (subs : DefaultSubscriptionConfig) (config : NatsConfig) (h : ℤ) (s s₁ s₂ t : Operator C)
      → Renewed (s.eventing.status.backend_config_hash != h) s s₁
      → make_nats_sub_manager C config s₁ ≡ (ok tt, s₂)
      → run_nats_sub_manager C subs h s₂ ≡ (ok tt, t)
      → IsRunnable s.is_nats_sub_manager_started s.nats_sub_manager
      → IsManaged subs h s t
  unfolding make_nats_sub_manager run_nats_sub_manager looking
  managed subs config h s s₁ s₂ t p e₂ e₃ r =
      let (keeps, flag) = make_nats-keeps s₁.nats_sub_manager config s₁ s₂ e₂ in
      elim (run-calls s₂.is_nats_sub_manager_started subs h s₂ t e₃ refl) [
        | inl (same, on) ↦ elim p [
          | inl (unchanged, f) ↦
              let on' = sym (ap (λ z. z.is_nats_sub_manager_started) f) ∙ sym flag ∙ on in
              inl (
                same
                    ∙ keeps (
                        subst (λ z. z.nats_sub_manager ≢ none) (sym f) (IsRunnable-there _ _ on' r))
                    ∙ f,
                on',
                eq-of-unchanged s.eventing.status.backend_config_hash h unchanged,
              )
          | inr (changed, off, stops) ↦ not_both (flag ∙ off) on
        ]
        | inr (call, idle) ↦ elim p [
          | inl (unchanged, f) ↦ inr (
            call,
            λ on. not_both (sym flag ∙ idle) (ap (λ z. z.is_nats_sub_manager_started) f ∙ on),
          )
          | inr (changed, off, stops) ↦
              inr
                (call, λ on. (changed-ne s.eventing.status.backend_config_hash h changed, stops on))
        ]
      ]
