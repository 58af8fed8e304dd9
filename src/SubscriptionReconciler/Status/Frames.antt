-- ===== src/SubscriptionReconciler/Status/Frames.antt =====
-- Syncing the status of a subscription: what it writes, and that it changes nothing else.
use eventing_manager.Base.{◌≡◌, ◌≢◌, refl, ap, ◌∙◌, String, true, Option, none, some, ℕ}
use eventing_manager.Errors.{Error}
use eventing_manager.Exec.{Outcome, ok, err, panic, Exec}
use eventing_manager.Exec.Leads.{
  Post, Leads, Leads-pure, Leads-fail, Leads-modify, Leads-when, Leads-bind, Leads-handle,
  Leads-looking,
}
use eventing_manager.JetStream.{JetStream}
use eventing_manager.JetStream.NatsClient.{Nats}
use eventing_manager.Subscription.{Subscription, SubscriptionStatus, Condition}
use eventing_manager.Subscription.Conditions.{make_condition, condition_equals}
use eventing_manager.Base.{List, eq_iff, arith}
use eventing_manager.Subscription.Conditions.{
  find_condition, condition_subscription_active, set_subscription_active_condition,
  make_subscription_active_condition, set_condition,
}
use eventing_manager.Subscription.Conditions.Setting.{find_condition-set_condition}
use eventing_manager.SubscriptionReconciler.{Kube, S, on_cluster, set_status, text_of_error}
use eventing_manager.SubscriptionReconciler.Status.{
  update_status, update_subscription_status, is_none, report, sync_subscription_status,
}

-- The calls return or fail, and do not panic.
pub record IsCalm (K : Kube) : Type 0 where
  pub get_subscription :
      (namespace name : String) (t : K.State) → (K.get_subscription namespace name t).0 ≢ panic
  pub update_subscription :
      (sub : Subscription) (t : K.State) → (K.update_subscription sub t).0 ≢ panic
  pub update_status : (sub : Subscription) (t : K.State) → (K.update_status sub t).0 ≢ panic

module _ {K : Kube} {N : Nats} {A : Type 0} where
  Post-frame :
      (P : S K N → Type 0) (s : S K N) (r : Outcome A) (t : K.State)
      → r ≢ panic
      → P (record s { cluster = t })
      → Post (λ a. P) P r (record s { cluster = t })
  Post-frame P s (ok a) t d p = p
  Post-frame P s (err e) t d p = p
  Post-frame P s panic t d p = d refl

  pub Leads-on_cluster :
      {P : S K N → Type 0} (m : Exec K.State A)
      → ((t : K.State) → (m t).0 ≢ panic)
      → ((s : S K N) (t : K.State) → P s → P (record s { cluster = t }))
      → Leads P (on_cluster K N m) (λ a. P) P
  unfolding on_cluster
  Leads-on_cluster {P} m d frame = record {
    at = λ s p. Post-frame P s (m s.cluster).0 (m s.cluster).1 (d s.cluster) (frame s _ p);
  }

module _ {K : Kube} {N : Nats} (calm : IsCalm K) {P : S K N → Type 0}
    (frame : (s : S K N) (t : K.State) → P s → P (record s { cluster = t })) where
  pub update_subscription_status-Frame : Leads P (update_subscription_status K N) (λ _. P) P
  unfolding update_subscription_status update_status
  update_subscription_status-Frame = Leads-looking _ (λ x p.
      Leads-bind _ (λ _. P) _ (Leads-on_cluster _ (calm.get_subscription _ _) frame)
        (λ actual.
          Leads-handle _ (λ _. P) P _ _
            (Leads-when _
              (λ _.
                Leads-handle _ (λ _. P) P _ _ (Leads-on_cluster _ (calm.update_status _) frame)
                  (λ e. Leads-fail _ (λ s q. q)) (λ _. Leads-pure _ (λ s q. q)))
              (λ _ s q. q))
            (λ e. Leads-fail _ (λ s q. q)) (λ _. Leads-pure _ (λ s q. q))))

  report-Frame :
      {E : S K N → Type 0}
      → ((s : S K N) (st : SubscriptionStatus)
          → P s
          → P (record s { subscription = record s.subscription { status = st } }))
      → (e : Option Error) → Leads P (report K N e) (λ _. P) E
  unfolding report set_status
  report-Frame keeps e = Leads-looking _ (λ x p.
      Leads-bind _ (λ _. P) _ (Leads-modify _ (λ s q. keeps s _ q))
        (λ _. Leads-modify _ (λ s q. keeps s _ q)))

  pub sync_subscription_status-Frame :
      ((s : S K N) (st : SubscriptionStatus)
        → P s
        → P (record s { subscription = record s.subscription { status = st } }))
      → (e : Option Error) → Leads P (sync_subscription_status K N e) (λ _. P) P
  unfolding sync_subscription_status
  sync_subscription_status-Frame keeps e =
      Leads-bind _ (λ _. P) _ (report-Frame keeps e) (λ _. update_subscription_status-Frame)

-- The status of the condition that the subscription is active
abbrev pub active_status : {K : Kube} {N : Nats} → S K N → Option String
active_status s =
    elim (find_condition s.subscription.status.conditions condition_subscription_active) [
      | none ↦ none
      | some c ↦ some c.status
    ]

condition_equals-status : (d c : Condition) → condition_equals d c ≡ true → d.status ≡ c.status
unfolding condition_equals
condition_equals-status d c h = ground (arith, eq_iff d.status c.status)

found-status :
    (c : Condition) (cs : List Condition)
    → elim (find_condition (set_condition c cs) c.type) [ none ↦ none | some d ↦ some d.status ]
      ≡ some c.status
found-status c cs =
    let (d, f, q) = find_condition-set_condition c cs in
    ap (λ o. elim o [ none ↦ none | some x ↦ some x.status ]) f
    ∙ ap some (condition_equals-status d c q)

abbrev pub status_for : Option Error → String
status_for none = "True"
status_for (some e) = "False"

module _ {K : Kube} {N : Nats} (calm : IsCalm K) (b : JetStream N) where
  -- The subscription is ready and active exactly if there is no error, and the backend is as given.
  abbrev pub IsReported : Option Error → S K N → Type 0
  IsReported e s =
      (s.backend ≡ b)
      × (s.subscription.status.ready ≡ is_none K N e)
      × (active_status s ≡ some (status_for e))

  set_active :
      (e : Option Error) (now : ℕ) (st : SubscriptionStatus)
      → elim (find_condition
          (set_subscription_active_condition now (text_of_error K N e) st).conditions
          condition_subscription_active) [ none ↦ none | some c ↦ some c.status ]
        ≡ some (status_for e)
  unfolding set_subscription_active_condition make_subscription_active_condition make_condition
      text_of_error
  set_active none now st = found-status (make_subscription_active_condition now none) st.conditions
  set_active (some e) now st =
      found-status (make_subscription_active_condition now (some (K.text_of e))) st.conditions

  report-IsReported :
      {E : S K N → Type 0} (e : Option Error)
      → Leads (λ s. s.backend ≡ b) (report K N e) (λ _ s. IsReported e s) E
  unfolding report set_status set_subscription_active_condition
  report-IsReported e = Leads-looking _ (λ x p.
      Leads-bind _ (λ _ s. (s.backend ≡ b) × (s.subscription.status.ready ≡ is_none K N e)) _
        (Leads-modify _ (λ s q. (q, refl)))
        (λ _.
          Leads-modify _ (λ s q. (q.0, q.1, set_active e (K.now x.cluster) s.subscription.status))))

  pub sync_subscription_status-IsReported :
      (e : Option Error)
      → Leads
          (λ s. s.backend ≡ b)
          (sync_subscription_status K N e)
          (λ _ s. IsReported e s)
          (IsReported e)
  unfolding sync_subscription_status
  sync_subscription_status-IsReported e =
      Leads-bind _ (λ _ s. IsReported e s) _ (report-IsReported e)
        (λ _. update_subscription_status-Frame calm (λ s t p. p))
