-- ===== src/JetStream/Consumers/Growing.antt =====
-- What a round of `syncConsumerAndSubscription` leaves when it returns without error.
use eventing_manager.Base.{
  ◌≡◌, refl, sym, ap, ◌∙◌, subst, Bool, true, false, not, Option, none, some, String, Bool-cases,
  ◌==◌, inl, inr, if◌then◌else◌,
}
use eventing_manager.Base.Dict.{Dict, lookup, insert, lookup-insert}
use eventing_manager.Errors.{Error}
use eventing_manager.Exec.{
  Outcome, ok, err, panic, Exec, gets, modify, when, ◌>>=◌, ◌>>◌, bind-eq-ok,
}
use eventing_manager.Exec.Keeps.{
  Keeps, Keeps-pure, Keeps-fail, Keeps-lift, Keeps-gets, Keeps-when, Keeps-if, Keeps-bind,
  Keeps-attempt,
}
use eventing_manager.Exec.Rules.{Ensures, Ensures-bind, Ensures-fail, Ensures-gets, Ensures-when}
use eventing_manager.JetStream.{JetStream, SubscriptionSubjectIdentifier, key_eq}
use eventing_manager.JetStream.Connection.Frames.{
  Memory, memory, Keeps-with_context, Keeps-on_server,
}
use eventing_manager.JetStream.Consumers.{
  store_subscription, wrap_error, key_of, add_consumer, found_or_added, get_or_create_consumer,
  create_nats_subscription, bind_invalid_subscriptions, sync_consumer_max_in_flight,
  sync_event_type, present,
}
use eventing_manager.JetStream.NatsClient.{Nats, ConsumerInfo}
use eventing_manager.Subscription.{Subscription, EventType}
use eventing_manager.JetStream.Consumers.{is_invalid}

module _ (N : Nats) where
  unfoldable pub IsStored : SubscriptionSubjectIdentifier → JetStream N → Type 0
  IsStored key s = (x : N.Sub) × (lookup key s.subscriptions ≡ some x)

  -- The settings stay and no entry is lost.
  pub record Grows (s t : JetStream N) : Type 0 where
    pub config : t.config ≡ s.config
    pub cleaner : t.cleaner ≡ s.cleaner
    pub sinks : t.sinks ≡ s.sinks
    pub stored : (key : SubscriptionSubjectIdentifier) → IsStored key s → IsStored key t

  pub record Growing {A : Type 0} (m : Exec (JetStream N) A) : Type 0 where
    pub at : (s : JetStream N) (a : A) (t : JetStream N) → m s ≡ (ok a, t) → Grows s t

  Grows-trans : {s t u : JetStream N} → Grows s t → Grows t u → Grows s u
  Grows-trans g h = record {
    config = h.config ∙ g.config;
    cleaner = h.cleaner ∙ g.cleaner;
    sinks = h.sinks ∙ g.sinks;
    stored = λ key x. h.stored key (g.stored key x);
  }

  Growing-bind :
      {A B : Type 0} (m : Exec (JetStream N) A) (f : A → Exec (JetStream N) B)
      → Growing m
      → ((a : A) → Growing (f a))
      → Growing (m >>= f)
  Growing-bind m f hm hf = record {
    at = λ s b t e.
        let (a, u, e₁, e₂) = bind-eq-ok m f s e in
        Grows-trans (hm.at s a u e₁) ((hf a).at u b t e₂);
  }

  memory-Grows : (s t : JetStream N) → memory t ≡ memory s → Grows s t
  unfolding IsStored
  memory-Grows s t e = record {
    config = ap (λ (k : Memory N). k.config) e;
    cleaner = ap (λ (k : Memory N). k.cleaner) e;
    sinks = ap (λ (k : Memory N). k.sinks) e;
    stored = λ key (x, p). (x, ap (λ (k : Memory N). lookup key k.subscriptions) e ∙ p);
  }

  Growing-Keeps : {A : Type 0} (m : Exec (JetStream N) A) → Keeps memory m → Growing m
  Growing-Keeps m k = record {
    at = λ s a t e. memory-Grows s t (sym (ap (λ o. memory o.1) e) ∙ k.at s);
  }

  Growing-when : (b : Bool) (m : Exec (JetStream N) (Unit {0})) → Growing m → Growing (when b m)
  unfolding when
  Growing-when true m g = g
  Growing-when false m g = Growing-Keeps _ (Keeps-pure tt)

  stored-insert :
      (key k : SubscriptionSubjectIdentifier) (x y : N.Sub)
      (d : Dict SubscriptionSubjectIdentifier N.Sub)
      → lookup k d ≡ some y
      → (z : N.Sub) × (lookup k (insert key x d) ≡ some z)
  stored-insert key k x y d p = elim (Bool-cases (key == k)) [
    | inl same ↦ (x, lookup-insert key k x d ∙ ap (λ b. if b then some x else lookup k d) same)
    | inr other ↦
        (y, lookup-insert key k x d ∙ ap (λ b. if b then some x else lookup k d) other ∙ p)
  ]

  Growing-store_subscription :
      (key : SubscriptionSubjectIdentifier) (x : N.Sub) → Growing (store_subscription key x)
  unfolding store_subscription modify IsStored
  Growing-store_subscription key x = record {
    at = λ s a t e.
        subst (Grows s) (λ i. (e i).1)
          (record {
            config = refl;
            cleaner = refl;
            sinks = refl;
            stored = λ k (y, p). stored-insert key k x y s.subscriptions p;
          });
  }

  wrap_error-Keeps :
      {A : Type 0} (e : Error) (r : Outcome A) → Keeps (memory {N = N}) (wrap_error N e r)
  unfolding wrap_error
  wrap_error-Keeps e (ok a) = Keeps-pure a
  wrap_error-Keeps e (err x) = Keeps-fail _
  wrap_error-Keeps e panic = Keeps-lift _

  module _ (digest : String → String) (sub : Subscription) where
    create-Growing : (x : EventType) → Growing (create_nats_subscription N digest sub x)
    unfolding create_nats_subscription
    create-Growing x = Growing-bind _ _ (Growing-Keeps _ (Keeps-gets _)) (λ s.
        Growing-bind _ _
          (Growing-Keeps _ (Keeps-attempt _ (Keeps-with_context (λ k t. k) _ (λ c k t. refl))))
          (λ r.
            Growing-bind _ _ (Growing-Keeps _ (wrap_error-Keeps _ r))
              (λ y. Growing-store_subscription _ y)))

    bind-Growing : (x : EventType) → Growing (bind_invalid_subscriptions N digest sub x)
    unfolding bind_invalid_subscriptions
    bind-Growing x = Growing-bind _ _ (Growing-Keeps _ (Keeps-gets _)) (λ s.
        Growing-bind _ _
          (Growing-Keeps _ (Keeps-attempt _ (Keeps-with_context (λ k t. k) _ (λ c k t. refl))))
          (λ r.
            Growing-bind _ _ (Growing-Keeps _ (wrap_error-Keeps _ r))
              (λ y. Growing-store_subscription _ y)))

    max_in_flight-Keeps :
        (info : ConsumerInfo)
        → Keeps (memory {N = N}) (sync_consumer_max_in_flight N digest sub info)
    unfolding sync_consumer_max_in_flight
    max_in_flight-Keeps info = Keeps-bind _ _ (Keeps-gets _) (λ s. Keeps-when _ _ (
        Keeps-bind _ _ (Keeps-attempt _ (Keeps-with_context (λ k t. k) _ (λ c k t. refl)))
          (λ r. wrap_error-Keeps _ r)))

    add_consumer-Keeps : (x : EventType) → Keeps (memory {N = N}) (add_consumer N digest sub x)
    unfolding add_consumer
    add_consumer-Keeps x = Keeps-bind _ _ (Keeps-gets _) (λ s.
        Keeps-bind _ _ (Keeps-on_server (λ k t. k) _ (λ k t. refl)) (λ inbox.
          Keeps-bind _ _ (Keeps-attempt _ (Keeps-with_context (λ k t. k) _ (λ c k t. refl)))
            (λ r. wrap_error-Keeps _ r)))

    found_or_added-Keeps :
        (x : EventType) (r : Outcome ConsumerInfo)
        → Keeps (memory {N = N}) (found_or_added N digest sub x r)
    unfolding found_or_added
    found_or_added-Keeps x (ok info) = Keeps-pure info
    found_or_added-Keeps x (err e) = Keeps-if _ _ _ (add_consumer-Keeps x) (Keeps-fail _)
    found_or_added-Keeps x panic = Keeps-lift _

    get_or_create-Keeps :
        (x : EventType) → Keeps (memory {N = N}) (get_or_create_consumer N digest sub x)
    unfolding get_or_create_consumer
    get_or_create-Keeps x = Keeps-bind _ _ (Keeps-gets _) (λ s.
        Keeps-bind _ _ (Keeps-attempt _ (Keeps-with_context (λ k t. k) _ (λ c k t. refl)))
          (λ r. found_or_added-Keeps x r))

    -- The part of a round after the check that the subscription is there.
    finish-Growing :
        (x : EventType) (info : ConsumerInfo) (old : Option N.Sub)
        → Growing (do
          invalid ← gets (λ s'. is_invalid N digest old s'.server)
          when invalid (bind_invalid_subscriptions N digest sub x)
          sync_consumer_max_in_flight N digest sub info)
    finish-Growing x info old = Growing-bind _ _ (Growing-Keeps _ (Keeps-gets _)) (λ invalid.
        Growing-bind _ _ (Growing-when invalid _ (bind-Growing x))
          (λ _. Growing-Keeps _ (max_in_flight-Keeps info)))

    pub sync_event_type-Growing : (x : EventType) → Growing (sync_event_type N digest sub x)
    unfolding sync_event_type
    sync_event_type-Growing x = Growing-bind _ _ (Growing-Keeps _ (Keeps-gets _)) (λ s.
        Growing-bind _ _ (Growing-Keeps _ (get_or_create-Keeps x)) (λ info.
          Growing-bind _ _ (Growing-Keeps _ (Keeps-gets _)) (λ old.
            Growing-bind _ _ (Growing-when _ _ (create-Growing x)) (λ _.
              Growing-bind _ _ (Growing-Keeps _ (Keeps-gets _)) (λ now.
                Growing-bind _ _ (Growing-when _ _ (Growing-Keeps _ (Keeps-fail _)))
                  (λ _. finish-Growing x info old))))))

    present-some :
        (o : Option N.Sub) → not (present N digest o) ≡ false → (y : N.Sub) × (o ≡ some y)
    unfolding present
    present-some none e = cc
    present-some (some y) e = (y, refl)

    IsStored-now :
        (x : EventType) (s start u : JetStream N) {now : Option N.Sub}
        → s ≡ start
        → (y : N.Sub) × (now ≡ some y)
        → lookup (key_of N digest s sub x) u.subscriptions ≡ now
        → IsStored (key_of N digest start sub x) u
    unfolding IsStored
    IsStored-now x s start u e (y, p) q =
        subst
          (λ (v : JetStream N).
            (z : N.Sub) × (lookup (key_of N digest v sub x) u.subscriptions ≡ some z))
          e (y, q ∙ p)

    -- A round that returns has stored a subscription for its type.
    pub sync_event_type-Ensures :
        (x : EventType) (start : JetStream N)
        → Ensures
            (λ s. s ≡ start)
            (sync_event_type N digest sub x)
            (λ _ s. IsStored (key_of N digest start sub x) s)
    unfolding sync_event_type IsStored
    sync_event_type-Ensures x start =
        Ensures-bind _ _ (λ s _. s ≡ start) _ _ (Ensures-gets _ _ _ (λ s e. e))
          (λ s.
            Ensures-bind _ _ (λ _ _. s ≡ start) _ _ (record { at = λ u e a t q. e })
              (λ info.
                Ensures-bind _ _ (λ _ _. s ≡ start) _ _ (record { at = λ u e a t q. e })
                  (λ old.
                    Ensures-bind _ _ (λ _ _. s ≡ start) _ _ (record { at = λ u e a t q. e })
                      (λ _.
                        Ensures-bind _ _
                          (λ now u.
                            (s ≡ start) × (lookup (key_of N digest s sub x) u.subscriptions ≡ now))
                          _ _ (Ensures-gets _ _ _ (λ u e. (e, refl)))
                          (λ now.
                            Ensures-bind _ _ (λ _ u. IsStored (key_of N digest start sub x) u) _ _
                              (Ensures-when _ _ _ _ (λ _. Ensures-fail _ _ _)
                                (λ h u (e, q). IsStored-now x s start u e (present-some now h) q))
                              (λ _. record {
                                at = λ u p a t e.
                                    ((finish-Growing x info old).at u a t e).stored _ p;
                              }))))))
