-- ===== src/JetStream/Backend/Syncing.antt =====
-- What `SyncSubscription` guarantees when it returns without error.
use eventing_manager.Base.{
  ◌≡◌, refl, ap, ◌∙◌, subst, true, false, Option, none, some, String, All, arith, ◌!=◌,
  if◌then◌else◌, string_eq, eq_iff,
}
use eventing_manager.Base.Dict.{Dict, lookup, insert, lookup-insert}
use eventing_manager.Cleaner.{Cleaner}
use eventing_manager.Exec.{Outcome, ok, err, panic}
use eventing_manager.Exec.Keeps.{
  Keeps, Keeps-fail, Keeps-lift, Keeps-gets, Keeps-modify, Keeps-when, Keeps-if, Keeps-bind,
  Keeps-attempt, Keeps-for_each, Ensures-Keeps,
}
use eventing_manager.Exec.Rules.{
  Ensures, Ensures-bind, Ensures-gets, Ensures-when, Ensures-for_each_all, Ensures-modify,
}
use eventing_manager.JetStream.{JetStream, NatsConfig, SubscriptionSubjectIdentifier}
use eventing_manager.JetStream.Backend.{
  for_own_entry, for_own_entries, sync_subscription, sync_subscription_event_type,
  sync_subscription_event_types, store_sink, cleanup_found,
  cleanup_unnecessary_jetstream_subscribers,
}
use eventing_manager.JetStream.Connection.Frames.{
  Memory, view, Keeps-with_context, check_jetstream_connection-Keeps, IsBlind,
}
use eventing_manager.JetStream.Consumers.{
  subject_of-memory, key_of, sync_consumer_and_subscription, forget_subscription,
  delete_subscription_from_jetstream,
}
use eventing_manager.JetStream.Consumers.Frames.{delete_consumer-Keeps, unsubscribe-Keeps}
use eventing_manager.JetStream.Consumers.Growing.{
  IsStored, Grows, sync_event_type-Growing, sync_event_type-Ensures,
}
use eventing_manager.JetStream.NatsClient.{Nats, ConsumerInfo}
use eventing_manager.JetStream.Subjects.{create_key_prefix, new_subscription_subject_identifier}
use eventing_manager.Subscription.{Subscription, EventType}

module _ (N : Nats) (digest : String → String) (sub : Subscription) where
  abbrev Key : Type 0
  Key = SubscriptionSubjectIdentifier

  -- What the keys depend on.
  abbrev settings : Memory N → N.State → NatsConfig × Cleaner
  settings k t = (k.config, k.cleaner)

  delete-Keeps :
      (x : N.Sub) (key : Key) → Keeps (view settings) (delete_subscription_from_jetstream N x key)
  unfolding delete_subscription_from_jetstream forget_subscription
  delete-Keeps x key = Keeps-bind _ _ (unsubscribe-Keeps N settings x (λ k t. refl)) (λ _.
      Keeps-bind _ _ (delete_consumer-Keeps N settings key.consumer_name (λ c n k t. refl))
        (λ _. Keeps-modify _ (λ s. refl)))

  cleanup_found-Keeps :
      (x : N.Sub) (key : Key) (r : Outcome ConsumerInfo)
      → Keeps (view settings) (cleanup_found N digest x sub key r)
  unfolding cleanup_found forget_subscription
  cleanup_found-Keeps x key (err e) =
      Keeps-if _ _ _
        (Keeps-bind _ _ (delete_consumer-Keeps N settings key.consumer_name (λ c n k t. refl))
          (λ _. Keeps-modify _ (λ s. refl)))
        (Keeps-fail e)
  cleanup_found-Keeps x key (ok info) =
      Keeps-bind _ _ (Keeps-gets _) (λ s. Keeps-when _ _ (delete-Keeps x key))
  cleanup_found-Keeps x key panic = Keeps-lift panic

  cleanup-Keeps :
      (x : N.Sub) (key : Key)
      → Keeps (view settings) (cleanup_unnecessary_jetstream_subscribers N digest x sub key)
  unfolding cleanup_unnecessary_jetstream_subscribers
  cleanup-Keeps x key = Keeps-bind _ _ (Keeps-gets _) (λ s.
      Keeps-bind _ _ (Keeps-attempt _ (Keeps-with_context settings _ (λ c k t. refl)))
        (cleanup_found-Keeps x key))

  event_types-Keeps : Keeps (view settings) (sync_subscription_event_types N digest sub)
  unfolding sync_subscription_event_types for_own_entries for_own_entry sync_subscription_event_type
  event_types-Keeps = Keeps-bind _ _ (Keeps-gets _) (λ entries.
      Keeps-for_each entries _ (λ (key, x). Keeps-bind _ _ (Keeps-lift _) (λ own.
        Keeps-when own _
          (Keeps-bind _ _ (Keeps-gets _) (λ s. Keeps-when _ _ (cleanup-Keeps x key))))))

  store_sink-Keeps : Keeps (view settings) (store_sink N digest sub)
  unfolding store_sink
  store_sink-Keeps =
      Keeps-bind _ _ (Keeps-gets _) (λ old. Keeps-when _ _ (Keeps-modify _ (λ s. refl)))

  stored_already :
      (old : Option String)
      → (elim old [ none ↦ true | some url ↦ url != sub.spec.sink ]) ≡ false
      → old ≡ some sub.spec.sink
  stored_already none h = cc
  stored_already (some url) h = ap some (ground (arith, eq_iff url sub.spec.sink))

  -- The sink is stored after `Store` and was stored where it is skipped.
  store_sink-Ensures :
      Ensures
        (λ _. Unit {0})
        (store_sink N digest sub)
        (λ _ s. lookup (create_key_prefix sub) s.sinks ≡ some sub.spec.sink)
  unfolding store_sink
  store_sink-Ensures =
      Ensures-bind _ _ (λ old s. lookup (create_key_prefix sub) s.sinks ≡ old) _ _
        (Ensures-gets _ _ _ (λ s p. refl))
        (λ old.
          Ensures-when _ _ _ _ (λ _. Ensures-modify _ _ _ (λ s p. inserted s.sinks))
            (λ h s p. p ∙ stored_already old h))
    where
      inserted :
          (d : Dict String String)
          → lookup (create_key_prefix sub) (insert (create_key_prefix sub) sub.spec.sink d)
            ≡ some sub.spec.sink
      inserted d =
          lookup-insert (create_key_prefix sub) (create_key_prefix sub) sub.spec.sink d
          ∙ ap (λ b. if b then some sub.spec.sink else lookup (create_key_prefix sub) d)
              ((eq_iff (create_key_prefix sub) (create_key_prefix sub)).1 refl)

  module _ (start : JetStream N) where
    abbrev Ready : JetStream N → Type 0
    Ready s =
        (s.config ≡ start.config)
        × (s.cleaner ≡ start.cleaner)
        × (lookup (create_key_prefix sub) s.sinks ≡ some sub.spec.sink)

    key_of-settings :
        (x : EventType) (s : JetStream N)
        → s.config ≡ start.config
        → s.cleaner ≡ start.cleaner
        → key_of N digest s sub x ≡ key_of N digest start sub x
    unfolding key_of
    key_of-settings x s c g =
        ap (new_subscription_subject_identifier digest sub) (subject_of-memory s start sub x g c)

    grown : (s t : JetStream N) → Grows N s t → Ready s → Ready t
    grown s t h (c, g, k) =
        (h.config ∙ c, h.cleaner ∙ g, ap (lookup (create_key_prefix sub)) h.sinks ∙ k)

    types_synced :
        Ensures Ready
          (sync_consumer_and_subscription N digest sub)
          (λ _ s. Ready s × All (λ x. IsStored N (key_of N digest start sub x) s) sub.status.types)
    unfolding sync_consumer_and_subscription
    types_synced =
        Ensures-for_each_all Ready (λ x s. IsStored N (key_of N digest start sub x) s) _
          (λ x. record {
            at = λ s p a t e. (
              grown s t ((sync_event_type-Growing N digest sub x).at s a t e) p,
              subst (λ key. IsStored N key t) (key_of-settings x s p.0 p.1)
                  ((sync_event_type-Ensures N digest sub x s).at s refl a t e),
            );
          })
          (λ x y. record {
            at = λ s (p, q) a t e.
                let h = (sync_event_type-Growing N digest sub x).at s a t e in
                (grown s t h p, h.stored _ q);
          })
          sub.status.types

  -- A `SyncSubscription` that returns without error has a subscription in the map for every type of the
  -- status, has stored the sink, and left the configuration and the cleaner as they were.
  pub sync_subscription_lem :
      (s t : JetStream N)
      → sync_subscription N digest sub s ≡ (ok tt, t)
      → All (λ x. IsStored N (key_of N digest s sub x) t) sub.status.types
        × (lookup (create_key_prefix sub) t.sinks ≡ some sub.spec.sink)
        × (t.config ≡ s.config)
        × (t.cleaner ≡ s.cleaner)
  unfolding sync_subscription
  sync_subscription_lem s t e =
      let v : NatsConfig × Cleaner = (s.config, s.cleaner) in
      let (r, stored) =
        (Ensures-bind _ _ _ _ _
            (Ensures-Keeps _ v (check_jetstream_connection-Keeps settings settings-IsBlind))
            (λ _. Ensures-bind _ _ _ _ _ (Ensures-Keeps _ v event_types-Keeps) (λ _.
              Ensures-bind _ _ (λ _ u. Ready s u) _ _
                (record {
                  at = λ u p a w q.
                      let k = (Ensures-Keeps _ v store_sink-Keeps).at u p a w q in
                      (ap (λ z. z.0) k, ap (λ z. z.1) k, store_sink-Ensures.at u tt a w q);
                })
                (λ _. types_synced s)))).at
          s refl tt t e in
      (stored, r.2, r.0, r.1)
    where
      settings-IsBlind : IsBlind settings
      settings-IsBlind = record {
        connect = λ url max wait k t. refl;
        set_closed_handler = λ c k t. refl;
        set_reconnect_handler = λ c k t. refl;
        jet_stream = λ c k t. refl;
        stream_info = λ c n k t. refl;
        add_stream = λ c n k t. refl;
        update_stream = λ c n k t. refl;
        new_http_client = λ k t. refl;
      }
