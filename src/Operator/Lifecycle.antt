-- ===== src/Operator/Lifecycle.antt =====
-- The life of a reconciler: reconciliations and resets, with anything happening to the cluster between
-- them.
use eventing_manager.Base.{inl, inr, ◌≡◌, ◌≢◌, sym, subst, true, Option, none, String}
use eventing_manager.Exec.{Outcome, ok, err, panic}
use eventing_manager.Exec.Leads.{Post, Leads-replies}
use eventing_manager.Operator.{Cluster, Operator, BackendConfig, Eventing}
use eventing_manager.Operator.Core.{IsCalm, At, IsConsistent, IsRunnable-there}
use eventing_manager.Operator.Nats.{reset_nats_connection}
use eventing_manager.Operator.Nats.Steady.{reset_nats_connection-Steady}
use eventing_manager.Operator.Reconcile.{reconcile, new_reconciler}
use eventing_manager.Operator.Reconcile.Steady.{reconcile-Steady}

module _ (C : Cluster) where
  -- One call of the controller runtime, or a change of the cluster, its managers and its watchers that
  -- the reconciler has no part in.
  pub data Step : Operator C → Operator C → Type 0 where
    reconciled :
        (namespace name : String) (s : Operator C) → Step s (reconcile C namespace name s).1
    reset : (s : Operator C) → Step s (reset_nats_connection C s).1
    changed : (s : Operator C) (t : C.State) → Step s (record s { cluster = t })

  pub data Reachable : Operator C → Type 0 where
    start :
        (config : BackendConfig) (allowed : Option (String × String)) (cr : Eventing) (t : C.State)
        → Reachable (new_reconciler C config allowed cr t)
    step : {s t : Operator C} → Reachable s → Step s t → Reachable t

module _ {C : Cluster} {A : Type 0} where
  ends : (Q : Operator C → Type 0) (r : Outcome A) (s : Operator C) → Post (λ _. Q) Q r s → Q s
  ends Q (ok a) s p = p
  ends Q (err e) s p = p
  ends Q panic s p = elim p [ ]

module _ {C : Cluster} (calm : IsCalm C) where
  Step-IsConsistent : {s t : Operator C} → Step C s t → At IsConsistent s → At IsConsistent t
  Step-IsConsistent (reconciled namespace name s) p =
      elim (Leads-replies _ s p (reconcile-Steady calm namespace name)) [
        | inl (reply, t, e, q) ↦ subst (λ o. At IsConsistent o.1) (sym e) q
        | inr (t, e, q) ↦ subst (λ o. At IsConsistent o.1) (sym e) q.0
      ]
  Step-IsConsistent (reset s) p =
      ends (At IsConsistent) (reset_nats_connection C s).0 (reset_nats_connection C s).1
        ((reset_nats_connection-Steady calm).at s p)
  Step-IsConsistent (changed s t) p = record { holds = p.holds }

  reachable-At : {s : Operator C} → Reachable C s → At IsConsistent s
  unfolding new_reconciler
  reachable-At (start config allowed cr t) = record { holds = (tt, tt) }
  reachable-At (step r e) = Step-IsConsistent e (reachable-At r)

  -- On calm interfaces, a reconciler that any sequence of reconciliations, resets and changes of the
  -- cluster leads to has a manager wherever the flag says that it is started.
  pub reachable-IsConsistent :
      {s : Operator C}
      → Reachable C s
      → (s.is_nats_sub_manager_started ≡ true → s.nats_sub_manager ≢ none)
        × (s.is_event_mesh_sub_manager_started ≡ true → s.event_mesh_sub_manager ≢ none)
  reachable-IsConsistent r =
      let p = reachable-At r in
      (λ e. IsRunnable-there _ _ e p.holds.0, λ e. IsRunnable-there _ _ e p.holds.1)
