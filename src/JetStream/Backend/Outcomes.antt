-- ===== src/JetStream/Backend/Outcomes.antt =====
-- What `DeleteSubscription` and `DeleteSubscriptionsOnly` guarantee when they return without error.
use eventing_manager.JetStream.Backend.Deleting.{
  IsAssociated, Forgets, delete-Forgets, delete_only-Forgets, IsTrimmed, for_own_entries-IsTrimmed,
  for_own_entries-lookup, IsGoneIfOwn,
}
use eventing_manager.Base.{
  string_eq, ◌≡◌, refl, sym, ap, ◌∙◌, subst, false, Option, none, String, List, All, arith, eq_iff,
  Bool-cases, ◌==◌, inl, inr,
}
use eventing_manager.Base.Dict.{Dict, lookup, erase}
use eventing_manager.Exec.{ok, Exec, for_each, gets, ◌>>=◌}
use eventing_manager.Exec.Keeps.{
  Keeps, Keeps-bind, Keeps-gets, Keeps-lift, Keeps-when, Keeps-for_each, Keeps-modify,
  Ensures-Keeps,
}
use eventing_manager.Exec.Rules.{Ensures, Ensures-bind, Ensures-for_each_all, Ensures-modify}
use eventing_manager.JetStream.{JetStream, SubscriptionSubjectIdentifier, key_eq}
use eventing_manager.JetStream.Backend.{
  for_own_entry, for_own_entries, delete_subscription, delete_subscriptions_only,
  delete_type_consumer,
}
use eventing_manager.JetStream.Connection.{check_jetstream_connection}
use eventing_manager.JetStream.Connection.Frames.{
  Memory, memory, view, check_jetstream_connection-Keeps, memory-IsBlind, consumer-IsBlind,
}
use eventing_manager.JetStream.Consumers.{
  subject_of-memory, delete_subscription_from_jetstream_only, delete_consumer_from_jetstream,
  forget_subscription, key_of,
}
use eventing_manager.JetStream.Consumers.Frames.{
  delete_consumer-Keeps, unsubscribe-Keeps, delete_consumer-Ensures,
}
use eventing_manager.JetStream.NatsClient.{Nats, IsLawful, ConsumerConfig}
use eventing_manager.JetStream.Subjects.{new_subscription_subject_identifier, create_key_prefix}
use eventing_manager.JetStream.Subjects.Laws.{associated-owner}
use eventing_manager.Base.Text.{has_char}
use eventing_manager.Base.{◌<>◌, ◌≢◌, Bool, true}
use eventing_manager.Subscription.{Subscription, EventType}
use eventing_manager.Base.{Bool-cases}

ok-true : (b : Bool) → ok b ≡ ok true → b ≡ true
ok-true b h = cc

module _ (N : Nats) (digest : String → String) (sub : Subscription) where
  -- A key is of the owner in front of the last slash of its subject. Every key of the namespace and the
  -- name of the subscription is gone from the map, and every key of another owner reads as before.
  abbrev pub IsWithoutOwn :
      Dict SubscriptionSubjectIdentifier N.Sub → Dict SubscriptionSubjectIdentifier N.Sub → Type 0
  IsWithoutOwn old new =
      (key : SubscriptionSubjectIdentifier) (owner subject : String)
      → has_char b'/' subject ≡ false
      → key.namespaced_subject_name ≡ owner <> ("/" <> subject)
      → (owner ≡ sub.namespace <> ("/" <> sub.name) → lookup key new ≡ none)
        × (owner ≢ sub.namespace <> ("/" <> sub.name) → lookup key new ≡ lookup key old)

  IsAssociated-iff :
      (key : SubscriptionSubjectIdentifier) (owner subject : String)
      → has_char b'/' subject ≡ false
      → key.namespaced_subject_name ≡ owner <> ("/" <> subject)
      → (owner ≡ sub.namespace <> ("/" <> sub.name) → IsAssociated N digest sub key)
        × (IsAssociated N digest sub key → owner ≡ sub.namespace <> ("/" <> sub.name))
  IsAssociated-iff key owner subject h e =
      let a = associated-owner sub key owner subject h e in
      let (there, back) = eq_iff (sub.namespace <> ("/" <> sub.name)) owner in
      (λ p. a ∙ ap ok (back (sym p)), λ p. sym (there (ok-true _ (sym a ∙ p))))

  abbrev Trimmed : Memory N → JetStream N → Type 0
  Trimmed m s =
      IsTrimmed N digest sub m s × All (λ entry. IsGoneIfOwn N digest sub entry s) m.subscriptions

  -- The connection check leaves the memory alone.
  check-Ensures :
      (m : Memory N)
      → Ensures (λ s. memory s ≡ m) (check_jetstream_connection N) (λ _ s. memory s ≡ m)
  check-Ensures m =
      Ensures-Keeps _ m (check_jetstream_connection-Keeps (λ k t. k) (memory-IsBlind N))

  Trimmed-IsWithoutOwn :
      (body : SubscriptionSubjectIdentifier → N.Sub → Exec (JetStream N) (Unit {0}))
      → Forgets N digest sub body
      → (s t : JetStream N) → Trimmed (memory s) t
      → IsWithoutOwn s.subscriptions t.subscriptions
  Trimmed-IsWithoutOwn body forgets s t h = λ key owner subject slash e.
      let r = for_own_entries-lookup N digest sub body forgets (memory s) t h key in
      let (there, back) = IsAssociated-iff key owner subject slash e in
      (λ p. r.0 (there p), λ p. r.1 (λ q. p (back q)))

  -- A `DeleteSubscriptionsOnly` that returns without error leaves no entry whose key has the namespace
  -- and the name of the subscription in front of the last slash, and every entry with another owner
  -- there, the sinks and the configuration as they were.
  pub delete_subscriptions_only_lem :
      (s t : JetStream N)
      → delete_subscriptions_only N digest sub s ≡ (ok tt, t)
      → IsWithoutOwn s.subscriptions t.subscriptions × (t.sinks ≡ s.sinks) × (t.config ≡ s.config)
  unfolding delete_subscriptions_only
  delete_subscriptions_only_lem s t e =
      let forgets = delete_only-Forgets N digest sub in
      let h : Trimmed (memory s) t =
        (Ensures-bind _ _ _ _ _ (check-Ensures (memory s))
            (λ _. for_own_entries-IsTrimmed N digest sub _ forgets (memory s))).at
          s refl tt t e in
      (Trimmed-IsWithoutOwn _ forgets s t h, h.0.sinks, h.0.config)

module _ (N : Nats) (digest : String → String)
    (consumer : N.State → String → String → Option ConsumerConfig)
    (lawful : IsLawful N consumer) where
  -- Whatever its outcome, `DeleteSubscriptionsOnly` leaves the consumers on a lawful server.
  pub delete_subscriptions_only-consumers :
      (sub : Subscription) (s : JetStream N)
      → consumer (delete_subscriptions_only N digest sub s).1.server ≡ consumer s.server
  unfolding delete_subscriptions_only for_own_entries for_own_entry
      delete_subscription_from_jetstream_only forget_subscription
  delete_subscriptions_only-consumers sub s =
      (Keeps-bind _ _
          (check_jetstream_connection-Keeps (λ k t. consumer t)
            (consumer-IsBlind N consumer lawful))
          (λ _. Keeps-bind _ _ (Keeps-gets _) (λ entries. Keeps-for_each entries _ (λ (key, x).
            Keeps-bind _ _ (Keeps-lift _) (λ own. Keeps-when own _ (
              Keeps-bind _ _ (unsubscribe-Keeps N _ x (λ k t. lawful.unsubscribe-Keeps x t))
                (λ _. Keeps-modify _ (λ s. refl)))))))).at
        s

  module _ (sub : Subscription) (start : JetStream N) where
    abbrev name_of : EventType → String
    name_of x = (key_of N digest start sub x).consumer_name

    -- The consumer of a type is gone from the stream.
    abbrev pub HasNoConsumer : EventType → JetStream N → Type 0
    HasNoConsumer x s = consumer s.server start.config.js_stream_name (name_of x) ≡ none

    module _ (k : Memory N) (config : k.config ≡ start.config)
        (cleaner : k.cleaner ≡ start.cleaner) where
      name-memory :
          (x : EventType) (s : JetStream N)
          → memory s ≡ k
          → (key_of N digest s sub x).consumer_name ≡ name_of x
      unfolding key_of
      name-memory x s e =
          ap (λ subject. (new_subscription_subject_identifier digest sub subject).consumer_name)
            (subject_of-memory s start sub x (ap (λ (k : Memory N). k.cleaner) e ∙ cleaner)
              (ap (λ (k : Memory N). k.config) e ∙ config))

      delete_type_consumer-Ensures :
          (P : JetStream N → Type 0) (Q : JetStream N → Type 0) (x : EventType)
          → ((s : JetStream N) → P s → memory s ≡ k)
          → Ensures P (delete_consumer_from_jetstream N (name_of x)) (λ _. Q)
          → Ensures P (delete_type_consumer N digest sub x) (λ _. Q)
      unfolding delete_type_consumer gets ◌>>=◌
      delete_type_consumer-Ensures P Q x m h = record {
        at = λ s p a t e. h.at s p a t (
            subst (λ n. delete_consumer_from_jetstream N n s ≡ (ok a, t)) (name-memory x s (m s p))
              e);
      }

      keeps_memory :
          (name : String)
          → Ensures
              (λ s. memory s ≡ k)
              (delete_consumer_from_jetstream N name)
              (λ _ s. memory s ≡ k)
      keeps_memory name =
          Ensures-Keeps _ k (delete_consumer-Keeps N (λ k t. k) name (λ c n k t. refl))

      makes_gone_named :
          (x : EventType)
          → Ensures
              (λ s. memory s ≡ k)
              (delete_consumer_from_jetstream N (name_of x))
              (λ _ s. HasNoConsumer x s)
      makes_gone_named x = record {
        at = λ s p a t e.
            let q : t.config ≡ start.config =
              ap (λ (k : Memory N). k.config) ((keeps_memory (name_of x)).at s p a t e) ∙ config in
            subst (λ c. consumer t.server c.js_stream_name (name_of x) ≡ none) q
              ((delete_consumer-Ensures N consumer lawful (name_of x)).at s tt a t e);
      }

      makes_gone :
          (x : EventType)
          → Ensures
              (λ s. memory s ≡ k)
              (delete_type_consumer N digest sub x)
              (λ _ s. (memory s ≡ k) × HasNoConsumer x s)
      makes_gone x =
          delete_type_consumer-Ensures _ _ x (λ s p. p)
            (record {
              at = λ s p a t e.
                  ((keeps_memory (name_of x)).at s p a t e, (makes_gone_named x).at s p a t e);
            })

      -- Deleting a consumer of one name leaves the others of the stream.
      stays_gone :
          (deleted name : String)
          → (deleted == name) ≡ false
          → Keeps
              (view (λ (k : Memory N) t. consumer t start.config.js_stream_name name))
              (delete_consumer_from_jetstream N deleted)
      stays_gone deleted name other =
          delete_consumer-Keeps N (λ k t. consumer t start.config.js_stream_name name) deleted
            (λ c n k t.
              lawful.delete_consumer-Keeps c n deleted t start.config.js_stream_name name
                (λ (_, same). ground (arith, eq_iff deleted name)))

      keeps_gone :
          (x y : EventType)
          → Ensures
              (λ s. (memory s ≡ k) × HasNoConsumer y s)
              (delete_type_consumer N digest sub x)
              (λ _ s. (memory s ≡ k) × HasNoConsumer y s)
      keeps_gone x y =
          delete_type_consumer-Ensures _ _ x (λ s p. p.0)
            (record {
              at = λ s (m, g) a t e. (
                (keeps_memory (name_of x)).at s m a t e,
                elim (Bool-cases (name_of x == name_of y)) [
                  | inl same ↦
                      subst (λ n. consumer t.server start.config.js_stream_name n ≡ none)
                        ((eq_iff (name_of x) (name_of y)).0 same)
                        ((makes_gone_named x).at s m a t e)
                  | inr other ↦
                      (Ensures-Keeps _ none (stays_gone (name_of x) (name_of y) other)).at s g a t e
                ],
              );
            })

      all_gone :
          (xs : List EventType)
          → Ensures
              (λ s. memory s ≡ k)
              (for_each xs (delete_type_consumer N digest sub))
              (λ _ s. (memory s ≡ k) × All (λ x. HasNoConsumer x s) xs)
      all_gone = Ensures-for_each_all _ HasNoConsumer _ makes_gone keeps_gone

    -- What is left after a deletion that returns.
    -- What is left before the sink is removed.
    pub record HasDeleted (t : JetStream N) : Type 0 where
      pub subscriptions : IsWithoutOwn N digest sub start.subscriptions t.subscriptions
      pub sinks : t.sinks ≡ start.sinks
      pub config : t.config ≡ start.config
      pub consumers : All (λ x. HasNoConsumer x t) sub.status.types

    pub record IsDeleted (t : JetStream N) : Type 0 where
      pub subscriptions : IsWithoutOwn N digest sub start.subscriptions t.subscriptions
      pub sinks : t.sinks ≡ erase (create_key_prefix sub) start.sinks
      pub config : t.config ≡ start.config
      pub consumers : All (λ x. HasNoConsumer x t) sub.status.types

  deletes_types :
      (sub : Subscription) (s u v : JetStream N)
      → IsTrimmed N digest sub (memory s) u
      → All (λ entry. IsGoneIfOwn N digest sub entry u) s.subscriptions
      → for_each sub.status.types (delete_type_consumer N digest sub) u ≡ (ok tt, v)
      → HasDeleted sub s v
  deletes_types sub s u v h g e =
      let (m, gone) =
        (all_gone sub s (memory u) h.config h.cleaner sub.status.types).at u refl tt v e in
      let without = Trimmed-IsWithoutOwn N digest sub _ (delete-Forgets N digest sub) s u (h, g) in
      record {
        subscriptions =
            subst (λ (k : Memory N). IsWithoutOwn N digest sub s.subscriptions k.subscriptions)
              (sym m) without;
        sinks = ap (λ (k : Memory N). k.sinks) m ∙ h.sinks;
        config = ap (λ (k : Memory N). k.config) m ∙ h.config;
        consumers = gone;
      }

  forgets_sink :
      (sub : Subscription) (s u : JetStream N)
      → HasDeleted sub s u
      → IsDeleted sub s (record u { sinks = erase (create_key_prefix sub) u.sinks })
  forgets_sink sub s u h = record {
    subscriptions = h.subscriptions;
    sinks = ap (erase (create_key_prefix sub)) h.sinks;
    config = h.config;
    consumers = h.consumers;
  }

  -- A `DeleteSubscription` that returns without error leaves no entry whose key has the namespace and the
  -- name of the subscription in front of the last slash, every entry with another owner there as it was,
  -- the sinks without the one of the subscription, the configuration as it was and, on a lawful server,
  -- no consumer of the types in the status of the subscription.
  pub delete_subscription_lem :
      (sub : Subscription) (s t : JetStream N)
      → delete_subscription N digest sub s ≡ (ok tt, t)
      → IsDeleted sub s t
  unfolding delete_subscription
  delete_subscription_lem sub s t e =
      let forgets = delete-Forgets N digest sub in
      (Ensures-bind _ _ _ _ _ (check-Ensures N digest sub (memory s)) (λ _.
          Ensures-bind _ _ _ _ _ (for_own_entries-IsTrimmed N digest sub _ forgets (memory s)) (λ _.
            Ensures-bind _ _ (λ _ t. HasDeleted sub s t) _ (λ _ t. IsDeleted sub s t)
              (record { at = λ u (h, g) a v e'. deletes_types sub s u v h g e' })
              (λ _. Ensures-modify _ _ _ (λ u h. forgets_sink sub s u h))))).at
        s refl tt t e
