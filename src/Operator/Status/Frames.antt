-- ===== src/Operator/Status/Frames.antt =====
-- Syncing the status changes nothing but the cluster, and the errors that it returns.
use eventing_manager.Base.{◌≡◌, refl, true, none, some}
use eventing_manager.Errors.{Error, is_error, is_error-join_errors}
use eventing_manager.Exec.{Exec}
use eventing_manager.Exec.Leads.{Leads, Leads-pure, Leads-when, Leads-bind, Leads-handle}
use eventing_manager.Operator.{Cluster, Operator, Reply, Result, reply_error}
use eventing_manager.Operator.Core.{IsCalm, Leads-on_cluster, Leads-looking}
use eventing_manager.Operator.Status.{update_status, sync_eventing_status, sync_with}

module _ {C : Cluster} (calm : IsCalm C) {P : Operator C → Type 0}
    (frame : (s : Operator C) (t : C.State) → P s → P (record s { cluster = t })) where
  pub sync_eventing_status-Frame : Leads P (sync_eventing_status C) (λ _. P) P
  unfolding sync_eventing_status update_status
  sync_eventing_status-Frame = Leads-looking _ (λ x p.
      Leads-bind _ (λ _. P) _ (Leads-on_cluster _ (calm.get _ _) frame frame)
        (λ actual.
          Leads-when _ (λ _. Leads-on_cluster _ (calm.update_status _) frame frame) (λ _ s q. q)))

  pub sync_with-Frame : (e : Error) → Leads P (sync_with C e) (λ _. P) P
  unfolding sync_with
  sync_with-Frame e =
      Leads-handle _ _ _ _ _ sync_eventing_status-Frame (λ f. Leads-pure _ (λ s p. p))
        (λ _. Leads-pure _ (λ s p. p))

  -- The error that is returned is what the given error is.
  pub sync_with-is_error :
      (e target : Error)
      → is_error e target ≡ true
      → Leads P (sync_with C e) (λ r s. P s × (is_error r target ≡ true)) (λ s. ⊥)
  unfolding sync_with
  sync_with-is_error e target h =
      Leads-handle _ _ _ _ _ sync_eventing_status-Frame
        (λ f. Leads-pure _ (λ s p. (p, is_error-join_errors e target (some f) h)))
        (λ _. Leads-pure _ (λ s p. (p, is_error-join_errors e target none h)))

-- A reply with an error of the given kind.
abbrev pub IsErrorReply : Result → Error → Reply → Type 0
IsErrorReply result target reply =
    (reply.0 ≡ result) × (e : Error) × (reply.1 ≡ some e) × (is_error e target ≡ true)

module _ {C : Cluster} {P E : Operator C → Type 0} where
  pub reply_error-IsErrorReply :
      (result : Result) (target : Error) (m : Exec (Operator C) Error)
      → Leads P m (λ r s. P s × (is_error r target ≡ true)) (λ s. ⊥)
      → Leads P (reply_error result m) (λ reply s. P s × IsErrorReply result target reply) E
  unfolding reply_error
  reply_error-IsErrorReply result target m h =
      Leads-handle _ _ _ _ _ h (λ e. Leads-pure _ (λ s p. elim p [ ]))
        (λ e. Leads-pure _ (λ s p. (p.0, (refl, e, refl, p.1))))
