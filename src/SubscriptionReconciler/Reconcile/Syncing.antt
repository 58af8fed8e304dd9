-- ===== src/SubscriptionReconciler/Reconcile/Syncing.antt =====
-- What the reconciliation reports of the synchronisation with the backend.
use eventing_manager.Base.{◌≡◌, ◌≢◌, refl, ap, ◌∙◌, String, true, Option, none, some}
use eventing_manager.Errors.{Error, is_error}
use eventing_manager.Exec.{Outcome, ok, err, panic, branch, handle, looking}
use eventing_manager.Exec.Leads.{Leads, Leads-returns, Leads-pure, Leads-if, Leads-handle}
use eventing_manager.JetStream.{JetStream}
use eventing_manager.JetStream.Backend.{sync_subscription}
use eventing_manager.JetStream.Consumers.{err_missing_subscription}
use eventing_manager.JetStream.NatsClient.{Nats}
use eventing_manager.Runtime.{Reply, done}
use eventing_manager.SubscriptionReconciler.{Kube, S, on_backend}
use eventing_manager.SubscriptionReconciler.Reconcile.{
  report_sync_error, report_synced, sync_backend,
}
use eventing_manager.SubscriptionReconciler.Status.Frames.{
  IsCalm, IsReported, sync_subscription_status-IsReported,
}

-- The error of an outcome
abbrev pub error_of : {A : Type 0} → Outcome A → Option Error
error_of (ok a) = none
error_of (err e) = some e
error_of panic = none

-- A reply without an error follows a success or a missing subscription, which is tried again.
abbrev pub Answers : Outcome (Unit {0}) → Reply → Type 0
Answers (ok u) reply = reply.0 ≡ done
Answers (err e) reply =
    reply.1 ≡ none → (is_error e err_missing_subscription ≡ true) × (reply.0.requeue_after ≡ 10)
Answers panic reply = ⊥

module _ {K : Kube} {N : Nats} (digest : String → String) (calm : IsCalm K) (b : JetStream N) where
  report_sync_error-IsReported :
      {E : S K N → Type 0} (e : Error)
      → Leads
          (λ s. s.backend ≡ b)
          (report_sync_error K N digest e)
          (λ reply s. IsReported calm b (some e) s × Answers (err e) reply)
          E
  unfolding report_sync_error
  report_sync_error-IsReported e =
      Leads-handle _ _ _ _ _ (sync_subscription_status-IsReported calm b (some e))
        (λ f. Leads-pure _ (λ s p. (p, λ h. not_none f h)))
        (λ _.
          Leads-if (is_error e err_missing_subscription)
            (λ yes. Leads-pure _ (λ s p. (p, λ h. (yes, refl))))
            (λ no. Leads-pure _ (λ s p. (p, λ h. not_none e h))))
    where
      not_none : {B : Type 0} (f : Error) → some f ≡ none → B
      not_none f h = cc

  report_synced-IsReported :
      {E : S K N → Type 0}
      → Leads
          (λ s. s.backend ≡ b)
          (report_synced K N digest)
          (λ reply s. IsReported calm b none s × (reply.0 ≡ done))
          E
  unfolding report_synced
  report_synced-IsReported =
      Leads-handle _ _ _ _ _ (sync_subscription_status-IsReported calm b none)
        (λ f. Leads-pure _ (λ s p. (p, refl))) (λ _. Leads-pure _ (λ s p. (p, refl)))

  branch-IsReported :
      (s : S K N) (r : Outcome (Unit {0}))
      → r ≢ panic
      → (reply : Reply) × (t : S K N) × (branch r
            (report_sync_error K N digest)
            (λ u. report_synced K N digest)
            (record s { backend = b })
          ≡ (ok reply, t))
        × (IsReported calm b (error_of r) t × Answers r reply)
  branch-IsReported s (ok u) d =
      Leads-returns _ (record s { backend = b }) refl report_synced-IsReported
  branch-IsReported s (err e) d =
      Leads-returns _ (record s { backend = b }) refl (report_sync_error-IsReported e)
  branch-IsReported s panic d = elim (d refl) [ ]

-- On calls that do not panic, whatever the backend answers without a panic, the synchronisation of a subscription
-- returns a reply; the subscription then is ready, and its condition active true, exactly if the
-- backend has synced it. A reply without an error follows a success, or a missing subscription, and
-- then asks for another reconciliation in ten seconds.
pub sync_backend_lem :
    {K : Kube} {N : Nats} (digest : String → String) (calm : IsCalm K) (s : S K N)
    (r : Outcome (Unit {0})) (b : JetStream N)
    → sync_subscription N digest s.subscription s.backend ≡ (r, b)
    → r ≢ panic
    → (reply : Reply) × (t : S K N) × (sync_backend K N digest s ≡ (ok reply, t))
      × (IsReported calm b (error_of r) t × Answers r reply)
unfolding sync_backend on_backend handle looking
sync_backend_lem {K} {N} digest calm s r b h d =
    let (reply, t, e, p) = branch-IsReported digest calm b s r d in
    (
      reply,
      t,
      ap
            (λ o.
              branch o.0 (report_sync_error K N digest) (λ u. report_synced K N digest)
                (record s { backend = o.1 }))
            h
          ∙ e,
      p,
    )
