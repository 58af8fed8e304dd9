-- ===== src/SubscriptionReconciler/Deletion/Releasing.antt =====
-- What the deletion of a subscription leaves (handleSubscriptionDeletion in internal/controller/
-- eventing/subscription/jetstream/reconciler.go).
use eventing_manager.Base.{
  ◌≡◌, ◌≢◌, refl, ap, sym, subst, if◌then◌else◌, ◌∙◌, String, true, Option, none, some, List, [],
  ◌∷◌,
}
use eventing_manager.Errors.{Error, make_error}
use eventing_manager.Exec.{pure, Outcome, ok, err, panic, branch, handle, looking}
use eventing_manager.Exec.Leads.{
  Leads, Leads-returns, Leads-pure, Leads-modify, Leads-bind, Leads-handle, Leads-looking,
}
use eventing_manager.JetStream.{JetStream}
use eventing_manager.JetStream.Backend.{delete_subscription}
use eventing_manager.JetStream.Backend.Outcomes.{IsDeleted, delete_subscription_lem}
use eventing_manager.JetStream.NatsClient.{Nats, ConsumerConfig, IsLawful}
use eventing_manager.Runtime.{Reply, done}
use eventing_manager.Subscription.{Subscription, JetStreamTypes, finalizer}
use eventing_manager.Subscription.Types.{contains_string}
use eventing_manager.SubscriptionReconciler.{Kube, S, on_backend}
use eventing_manager.SubscriptionReconciler.Deletion.{
  remove_metrics, release, report_deletion_error, err_failed_to_delete_sub,
  handle_subscription_deletion,
}
use eventing_manager.SubscriptionReconciler.Status.Frames.{
  IsCalm, Leads-on_cluster, sync_subscription_status-Frame,
}
use eventing_manager.Base.{subst}
use eventing_manager.Base.{sym}

module _ {K : Kube} {N : Nats} (digest : String → String) where
  remove_metrics-backend :
      (sub : Subscription) (ts : List JetStreamTypes) (s : S K N)
      → (remove_metrics K N digest sub ts s).backend ≡ s.backend
  unfolding remove_metrics
  remove_metrics-backend sub [] s = refl
  remove_metrics-backend sub (t ∷ ts) s = remove_metrics-backend sub ts _

module _ {K : Kube} {N : Nats} (digest : String → String) (calm : IsCalm K) (b : JetStream N) where
  release-backend :
      {E : S K N → Type 0}
      → Leads (λ s. s.backend ≡ b) (release K N digest) (λ reply s. s.backend ≡ b) E
  unfolding release
  release-backend = Leads-looking _ (λ x p.
      Leads-bind _ (λ _ s. s.backend ≡ b) _ (Leads-modify _ (λ s q. q))
        (λ _.
          Leads-handle _ (λ _ s. s.backend ≡ b) (λ s. s.backend ≡ b) _ _
            (Leads-on_cluster _ (calm.update_subscription _) (λ s t q. q))
            (λ e. Leads-pure _ (λ s q. q))
            (λ answer.
              Leads-bind _ (λ _ s. s.backend ≡ b) _ (Leads-modify _ (λ s q. q))
                (λ _.
                  Leads-bind _ (λ _ s. s.backend ≡ b) _
                    (Leads-modify _ (λ s q.
                      remove_metrics-backend digest answer x.subscription.status.backend.types s
                      ∙ q))
                    (λ _. Leads-pure _ (λ s q. q))))))

module _ {K : Kube} {N : Nats} (digest : String → String) (calm : IsCalm K) (b : JetStream N)
    (held : List String) where
  abbrev IsHeld : S K N → Type 0
  IsHeld s = (s.backend ≡ b) × (s.subscription.finalizers ≡ held)

  report_deletion_error-IsHeld :
      {E : S K N → Type 0} (e : Error)
      → Leads IsHeld (report_deletion_error K N digest e) (λ reply s. IsHeld s × (reply.1 ≢ none)) E
  unfolding report_deletion_error
  report_deletion_error-IsHeld e =
      Leads-handle _ _ _ _ _
        (sync_subscription_status-Frame calm (λ s t p. p) (λ s f p. p) (some e))
        (λ f. Leads-pure _ (λ s p. (p, some-ne-none f)))
        (λ _. Leads-pure _ (λ s p. (p, some-ne-none e)))
    where
      some-ne-none : (f : Error) → some f ≢ none
      some-ne-none f h = cc

module _ {K : Kube} {N : Nats} (digest : String → String)
    (consumer : N.State → String → String → Option ConsumerConfig) (lawful : IsLawful N consumer)
    (calm : IsCalm K) (s : S K N) where
  -- After a deletion by the backend the subscription is gone from it; after a failure the reply has an
  -- error, and the finalizers are as they were.
  abbrev pub Frees : Outcome (Unit {0}) → Reply → S K N → Type 0
  Frees (ok u) reply t = IsDeleted N digest consumer lawful s.subscription s.backend t.backend
  Frees (err e) reply t = (reply.1 ≢ none) × (t.subscription.finalizers ≡ s.subscription.finalizers)
  Frees panic reply t = ⊥

  branch-Frees :
      (r : Outcome (Unit {0})) (b : JetStream N)
      → delete_subscription N digest s.subscription s.backend ≡ (r, b)
      → r ≢ panic
      → (reply : Reply) × (t : S K N) × (branch r
            (λ e. report_deletion_error K N digest (make_error err_failed_to_delete_sub e))
            (λ _. release K N digest)
            (record s { backend = b })
          ≡ (ok reply, t))
        × ((t.backend ≡ b) × Frees r reply t)
  branch-Frees (ok u) b h d =
      let (reply, t, e, p) =
        Leads-returns _ (record s { backend = b }) refl (release-backend digest calm b) in
      (
        reply,
        t,
        e,
        (
          p,
          subst (IsDeleted N digest consumer lawful s.subscription s.backend) (sym p)
              (delete_subscription_lem N digest consumer lawful s.subscription s.backend b h),
        ),
      )
  branch-Frees (err x) b h d =
      let (reply, t, e, p) =
        Leads-returns _ (record s { backend = b }) (refl, refl)
          (report_deletion_error-IsHeld digest calm b s.subscription.finalizers
            (make_error err_failed_to_delete_sub x)) in
      (reply, t, e, (p.0.0, (p.1, p.0.1)))
  branch-Frees panic b h d = elim (d refl) [ ]

  -- On calls that do not panic, whatever the backend answers without a panic, the deletion of a
  -- subscription with the finalizer returns a reply and keeps what the backend has written. After a
  -- success the backend has no entry whose key has the namespace and the name of the subscription in
  -- front of the last slash, no sink of it and, on a lawful server, no consumer of the types in its
  -- status; after a failure the reply has an error and the finalizers are as they were.
  pub handle_subscription_deletion_lem :
      (r : Outcome (Unit {0})) (b : JetStream N)
      → contains_string s.subscription.finalizers finalizer ≡ true
      → delete_subscription N digest s.subscription s.backend ≡ (r, b)
      → r ≢ panic
      → (reply : Reply) × (t : S K N) × (handle_subscription_deletion K N digest s ≡ (ok reply, t))
        × ((t.backend ≡ b) × Frees r reply t)
  unfolding handle_subscription_deletion on_backend handle looking
  handle_subscription_deletion_lem r b held h d =
      let (reply, t, e, p) = branch-Frees r b h d in
      (
        reply,
        t,
        ap
              (λ c.
                (if c
                    then handle (on_backend K N (delete_subscription N digest s.subscription))
                        (λ x.
                          report_deletion_error K N digest (make_error err_failed_to_delete_sub x))
                        (λ _. release K N digest)
                    else pure (done, none))
                  s)
              held
            ∙ ap
                (λ o.
                  branch o.0
                    (λ x. report_deletion_error K N digest (make_error err_failed_to_delete_sub x))
                    (λ _. release K N digest) (record s { backend = o.1 }))
                h
            ∙ e,
        p,
      )
