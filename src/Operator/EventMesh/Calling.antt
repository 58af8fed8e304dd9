-- ===== src/Operator/EventMesh/Calling.antt =====
-- The calls of `Start` and `Stop` that managing the subscription manager for EventMesh makes.
use eventing_manager.Base.{
  ◌≡◌, ◌≢◌, refl, sym, ap, subst, ◌∙◌, Bool, true, false, not, Option, none, some, String, ℤ, ◌!=◌,
  int_eq, inl, inr,
}
use eventing_manager.Exec.{ok, pure, when, bind-eq-ok, ◌>>=◌}
use eventing_manager.Operator.{
  Cluster, Operator, Params, DefaultSubscriptionConfig, set_status, looking, produce,
}
use eventing_manager.Operator.Calls.{
  changed-ne, on_cluster-eq-ok, modify-eq-ok, IsStoppedBy, IsStartedBy,
}
use eventing_manager.Operator.Core.{IsRunnable, IsRunnable-there, eq-of-unchanged, not_both}
use eventing_manager.Operator.EventMesh.{
  drop_event_mesh_sub_manager, stop_event_mesh, stop_event_mesh_sub_manager, start_event_mesh,
  start_event_mesh_sub_manager, renew_event_mesh_sub_manager, make_event_mesh,
  make_event_mesh_sub_manager, run_event_mesh_sub_manager,
}
use eventing_manager.Base.{◌⊎◌}
use eventing_manager.Exec.{lift}

module _ {C : Cluster} where
  stop_event_mesh-calls :
      (o : Option C.Manager) (b cleanup : Bool) (s t : Operator C)
      → stop_event_mesh C o b cleanup s ≡ (ok tt, t)
      → b ≡ true
      → o ≢ none
      → IsStoppedBy C o cleanup s.cluster × (t.is_event_mesh_sub_manager_started ≡ false)
  unfolding stop_event_mesh drop_event_mesh_sub_manager
  stop_event_mesh-calls none b cleanup s t h on there = elim (there refl) [ ]
  stop_event_mesh-calls (some m) false cleanup s t h on there = cc
  stop_event_mesh-calls (some m) true cleanup s t h on there =
      let (_, s₁, e, k) = bind-eq-ok _ _ s h in
      let (v, call, _) = on_cluster-eq-ok _ s e in
      ((m, refl, v, call), ap (λ z. z.is_event_mesh_sub_manager_started) (modify-eq-ok _ s₁ k))

  -- A manager that runs is stopped by a call on the cluster as it was.
  pub stop_event_mesh_sub_manager-calls :
      (cleanup : Bool) (s t : Operator C)
      → stop_event_mesh_sub_manager C cleanup s ≡ (ok tt, t)
      → IsRunnable s.is_event_mesh_sub_manager_started s.event_mesh_sub_manager
      → s.is_event_mesh_sub_manager_started ≡ true
      → IsStoppedBy C s.event_mesh_sub_manager cleanup s.cluster
        × (t.is_event_mesh_sub_manager_started ≡ false)
  unfolding stop_event_mesh_sub_manager looking
  stop_event_mesh_sub_manager-calls cleanup s t h r on =
      stop_event_mesh-calls s.event_mesh_sub_manager s.is_event_mesh_sub_manager_started cleanup s t
        h on (IsRunnable-there _ _ on r)

  -- What `renew` left: everything as it was for the same hash, else a manager that does not run.
  abbrev Renewed : Bool → Operator C → Operator C → Type 0
  Renewed changed s t =
      ((changed ≡ false) × (t ≡ s))
      ⊎ ((changed ≡ true)
          × (t.is_event_mesh_sub_manager_started ≡ false)
          × (s.is_event_mesh_sub_manager_started ≡ true
              → IsStoppedBy C s.event_mesh_sub_manager false s.cluster))

  stop_event_mesh-idle :
      (o : Option C.Manager) (b cleanup : Bool) (s t : Operator C)
      → stop_event_mesh C o b cleanup s ≡ (ok tt, t)
      → b ≡ false
      → t ≡ s
  unfolding stop_event_mesh pure
  stop_event_mesh-idle o true cleanup s t h e = cc
  stop_event_mesh-idle none false cleanup s t h e = sym (ap (λ o. o.1) h)
  stop_event_mesh-idle (some m) false cleanup s t h e = sym (ap (λ o. o.1) h)

  renewed :
      (changed started : Bool) (s t : Operator C)
      → when changed (stop_event_mesh_sub_manager C false) s ≡ (ok tt, t)
      → s.is_event_mesh_sub_manager_started ≡ started
      → IsRunnable s.is_event_mesh_sub_manager_started s.event_mesh_sub_manager
      → Renewed changed s t
  unfolding pure when stop_event_mesh_sub_manager looking
  renewed false started s t h e r = inl (refl, sym (ap (λ o. o.1) h))
  renewed true true s t h e r =
      let p = stop_event_mesh_sub_manager-calls false s t h r e in inr (refl, p.1, λ on. p.0)
  renewed true false s t h e r = inr (
    refl,
    ap (λ z. z.is_event_mesh_sub_manager_started)
          (stop_event_mesh-idle s.event_mesh_sub_manager s.is_event_mesh_sub_manager_started false s
            t h e)
        ∙ e,
    λ on. not_both e on,
  )

  pub renew-Renewed :
      (h : ℤ) (s t : Operator C)
      → renew_event_mesh_sub_manager C h s ≡ (ok tt, t)
      → IsRunnable s.is_event_mesh_sub_manager_started s.event_mesh_sub_manager
      → Renewed (s.eventing.status.backend_config_hash != h) s t
  unfolding renew_event_mesh_sub_manager looking
  renew-Renewed h s t e r = renewed _ s.is_event_mesh_sub_manager_started s t e refl r

  make_event_mesh-keeps :
      (o : Option C.Manager) (domain : String) (s t : Operator C)
      → make_event_mesh C o domain s ≡ (ok tt, t)
      → (o ≢ none → t ≡ s)
        × (t.is_event_mesh_sub_manager_started ≡ s.is_event_mesh_sub_manager_started)
  unfolding make_event_mesh looking pure produce
  make_event_mesh-keeps (some m) domain s t h =
      let e : t ≡ s = sym (ap (λ o. o.1) h) in
      (λ there. e, ap (λ z. z.is_event_mesh_sub_manager_started) e)
  make_event_mesh-keeps none domain s t h =
      let (m, s₁, e₁, k₁) = bind-eq-ok _ _ s h in
      let (_, s₂, e₂, k₂) = bind-eq-ok _ _ s₁ k₁ in
      let (_, _, f₁) = on_cluster-eq-ok (C.new_event_mesh_manager domain) s e₁ in
      let (_, _, f₂) = on_cluster-eq-ok (C.init_manager m) s₁ e₂ in
      (
        λ there. elim (there refl) [ ],
        ap (λ z. z.is_event_mesh_sub_manager_started) (modify-eq-ok _ s₂ k₂)
            ∙ ap (λ z. z.is_event_mesh_sub_manager_started) f₂
            ∙ ap (λ z. z.is_event_mesh_sub_manager_started) f₁,
      )

  start_event_mesh-calls :
      (o : Option C.Manager) (subs : DefaultSubscriptionConfig) (params : Params) (s t : Operator C)
      → start_event_mesh C o subs params s ≡ (ok tt, t)
      → IsStartedBy C o subs params t.cluster
        × (t.event_mesh_sub_manager ≡ s.event_mesh_sub_manager)
  unfolding start_event_mesh lift
  start_event_mesh-calls none subs params s t h = cc
  start_event_mesh-calls (some m) subs params s t h =
      let (_, s₁, e, k) = bind-eq-ok _ _ s h in
      let (v, call, f) = on_cluster-eq-ok _ s e in
      let g = modify-eq-ok _ s₁ k in
      (
        (
          m,
          refl,
          s.cluster,
          call ∙ ap (λ u. (ok tt, u)) (sym (ap (λ z. z.cluster) g ∙ ap (λ z. z.cluster) f)),
        ),
        ap (λ z. z.event_mesh_sub_manager) g ∙ ap (λ z. z.event_mesh_sub_manager) f,
      )

  run-calls :
      (b : Bool) (subs : DefaultSubscriptionConfig) (params : Params) (h : ℤ) (s t : Operator C)
      → when
          (not b)
          (start_event_mesh_sub_manager C subs params >>= λ _.
            set_status (λ es. record es { backend_config_hash = h }))
          s
        ≡ (ok tt, t)
      → s.is_event_mesh_sub_manager_started ≡ b
      → ((t ≡ s) × (s.is_event_mesh_sub_manager_started ≡ true))
        ⊎ (IsStartedBy C t.event_mesh_sub_manager subs params t.cluster
            × (s.is_event_mesh_sub_manager_started ≡ false))
  unfolding when pure start_event_mesh_sub_manager looking set_status
  run-calls true subs params h s t e on = inl (sym (ap (λ o. o.1) e), on)
  run-calls false subs params h s t e on =
      let (_, s₁, e₁, k₁) = bind-eq-ok _ _ s e in
      let (call, same) = start_event_mesh-calls s.event_mesh_sub_manager subs params s s₁ e₁ in
      let g = modify-eq-ok _ s₁ k₁ in
      inr (
        subst (λ (o : Option C.Manager × C.State). IsStartedBy C o.0 subs params o.1)
            (λ i.
              (sym (ap (λ z. z.event_mesh_sub_manager) g ∙ same) i, sym (ap (λ z. z.cluster) g) i))
            call,
        on,
      )

  -- The manager runs since before with the same hash, and nothing has changed; or it was started by the
  -- last call, and one that ran before was stopped.
  abbrev pub IsManaged : DefaultSubscriptionConfig → Params → ℤ → Operator C → Operator C → Type 0
  IsManaged subs params h s t =
      ((t ≡ s)
        × (s.is_event_mesh_sub_manager_started ≡ true)
        × (s.eventing.status.backend_config_hash ≡ h))
      ⊎ (IsStartedBy C t.event_mesh_sub_manager subs params t.cluster
          × (s.is_event_mesh_sub_manager_started ≡ true
              → (s.eventing.status.backend_config_hash ≢ h)
                × IsStoppedBy C s.event_mesh_sub_manager false s.cluster))

  pub managed :
      (subs : DefaultSubscriptionConfig) (params : Params) (domain : String) (h : ℤ)
      (s s₁ s₂ t : Operator C)
      → Renewed (s.eventing.status.backend_config_hash != h) s s₁
      → make_event_mesh_sub_manager C domain s₁ ≡ (ok tt, s₂)
      → run_event_mesh_sub_manager C subs params h s₂ ≡ (ok tt, t)
      → IsRunnable s.is_event_mesh_sub_manager_started s.event_mesh_sub_manager
      → IsManaged subs params h s t
  unfolding make_event_mesh_sub_manager run_event_mesh_sub_manager looking
  managed subs params domain h s s₁ s₂ t p e₂ e₃ r =
      let (keeps, flag) = make_event_mesh-keeps s₁.event_mesh_sub_manager domain s₁ s₂ e₂ in
      elim (run-calls s₂.is_event_mesh_sub_manager_started subs params h s₂ t e₃ refl) [
        | inl (same, on) ↦ elim p [
          | inl (unchanged, f) ↦
              let on' = sym (ap (λ z. z.is_event_mesh_sub_manager_started) f) ∙ sym flag ∙ on in
              inl (
                same
                    ∙ keeps (
                        subst (λ z. z.event_mesh_sub_manager ≢ none) (sym f)
                          (IsRunnable-there _ _ on' r))
                    ∙ f,
                on',
                eq-of-unchanged s.eventing.status.backend_config_hash h unchanged,
              )
          | inr (changed, off, stops) ↦ not_both (flag ∙ off) on
        ]
        | inr (call, idle) ↦ elim p [
          | inl (unchanged, f) ↦ inr (
            call,
            λ on. not_both (sym flag ∙ idle) (ap (λ z. z.is_event_mesh_sub_manager_started) f ∙ on),
          )
          | inr (changed, off, stops) ↦
              inr
                (call, λ on. (changed-ne s.eventing.status.backend_config_hash h changed, stops on))
        ]
      ]
