-- ===== src/JetStream/Backend.antt =====
-- The operations of the interface `Backend` (jetstream.go): syncing and deleting a subscription.
pub mod Deleting
pub mod Outcomes
pub mod Syncing
use eventing_manager.Base.{
  ℕ, ℤ, String, Bool, true, false, ◌&&◌, ◌||◌, not, Option, none, some, List, [], ◌∷◌, ◌==◌, ◌!=◌,
  string_eq, if◌then◌else◌, contains, any,
}
use eventing_manager.Base.Dict.{Dict, lookup, insert, erase}
use eventing_manager.Errors.{Error, is_error}
use eventing_manager.Exec.{
  Outcome, ok, err, panic, Exec, pure, fail, lift, gets, modify, attempt, when, for_each, ◌>>=◌,
  ◌>>◌,
}
use eventing_manager.Subscription.{Subscription, EventType}
use eventing_manager.Subscription.Types.{contains_string}
use eventing_manager.JetStream.{JetStream, SubscriptionSubjectIdentifier, key_eq}
use eventing_manager.JetStream.Connection.{with_context, check_jetstream_connection}
use eventing_manager.JetStream.Consumers.{
  subject_of, key_of, forget_subscription, delete_consumer_from_jetstream,
  delete_subscription_from_jetstream, delete_subscription_from_jetstream_only,
  sync_consumer_and_subscription,
}
use eventing_manager.JetStream.NatsClient.{Nats, ConsumerInfo}
use eventing_manager.JetStream.Subjects.{
  create_key_prefix, get_jetstream_subjects, get_clean_event_types, compute_consumer_name,
  get_clean_event_types_from_event_types, is_js_sub_associated_with_kyma_sub,
}

module _ (N : Nats) (digest : String → String) where
  -- `runtimeSubscriptionExistsInKymaSub`
  unfoldable pub runtime_subscription_exists_in_kyma_sub :
      JetStream N → SubscriptionSubjectIdentifier → Subscription → List EventType → Bool
  runtime_subscription_exists_in_kyma_sub s key sub [] = false
  runtime_subscription_exists_in_kyma_sub s key sub (t ∷ ts) =
      if key.consumer_name == (key_of N digest s sub t).consumer_name
      then true
      else runtime_subscription_exists_in_kyma_sub s key sub ts

  -- `consumerSubjectExistsInKymaSub`
  unfoldable pub consumer_subject_exists_in_kyma_sub :
      JetStream N → ConsumerInfo → Subscription → Bool
  consumer_subject_exists_in_kyma_sub s info sub =
      contains_string
        (get_jetstream_subjects s.cleaner s.config sub.spec.source
          (get_clean_event_types_from_event_types sub.status.types) sub.spec.type_matching)
        info.config.filter_subject

  cleanup_found :
      N.Sub
      → Subscription
      → SubscriptionSubjectIdentifier
      → Outcome ConsumerInfo
      → Exec (JetStream N) (Unit {0})
  cleanup_found x sub key (err e) =
      if is_error e N.consumer_not_found
      then (do delete_consumer_from_jetstream N key.consumer_name; forget_subscription key)
      else fail e
  cleanup_found x sub key (ok info) = do
    s ← gets (λ s. s)
    when (not (consumer_subject_exists_in_kyma_sub s info sub))
        (delete_subscription_from_jetstream N x key)
  cleanup_found x sub key panic = lift panic

  unfoldable pub cleanup_unnecessary_jetstream_subscribers :
      N.Sub → Subscription → SubscriptionSubjectIdentifier → Exec (JetStream N) (Unit {0})
  unfolding cleanup_found
  cleanup_unnecessary_jetstream_subscribers x sub key = do
    s ← gets (λ s. s)
    r ← attempt (with_context (λ c. N.consumer_info c s.config.js_stream_name key.consumer_name))
    cleanup_found x sub key r

  unfoldable pub sync_subscription_event_type :
      SubscriptionSubjectIdentifier → Subscription → N.Sub → Exec (JetStream N) (Unit {0})
  sync_subscription_event_type key sub x = do
    s ← gets (λ s. s)
    when
        (not (
          not (N.is_valid x s.server)
          && runtime_subscription_exists_in_kyma_sub s key sub sub.status.types))
        (cleanup_unnecessary_jetstream_subscribers x sub key)

  -- The round for one entry of `js.subscriptions`, skipped for the keys of other subscriptions.
  for_own_entry :
      Subscription
      → (SubscriptionSubjectIdentifier → N.Sub → Exec (JetStream N) (Unit {0}))
      → SubscriptionSubjectIdentifier × N.Sub
      → Exec (JetStream N) (Unit {0})
  for_own_entry sub body (key, x) = do
    own ← lift (is_js_sub_associated_with_kyma_sub key sub)
    when own (body key x)

  -- `for key, jsSub := range js.subscriptions { if isJsSubAssociatedWithKymaSub(key, sub) { … } }`: the
  -- body deletes the entry of the round at most, so the entries are those at the start.
  unfoldable pub for_own_entries :
      Subscription
      → (SubscriptionSubjectIdentifier → N.Sub → Exec (JetStream N) (Unit {0}))
      → Exec (JetStream N) (Unit {0})
  unfolding for_own_entry
  for_own_entries sub body = do
    entries ← gets (λ s. s.subscriptions)
    for_each entries (for_own_entry sub body)

  unfoldable pub sync_subscription_event_types : Subscription → Exec (JetStream N) (Unit {0})
  sync_subscription_event_types sub =
      for_own_entries sub (λ key x. sync_subscription_event_type key sub x)

  -- `if currentSink, ok := js.sinks.Load(key); !ok || currentSink != sub.Spec.Sink { js.sinks.Store(…) }`
  unfoldable pub store_sink : Subscription → Exec (JetStream N) (Unit {0})
  store_sink sub = do
    old ← gets (λ s. lookup (create_key_prefix sub) s.sinks)
    when (elim old [ none ↦ true | some url ↦ url != sub.spec.sink ])
        (modify (λ s. record s { sinks = insert (create_key_prefix sub) sub.spec.sink s.sinks }))

  unfoldable pub sync_subscription : Subscription → Exec (JetStream N) (Unit {0})
  sync_subscription sub = do
    check_jetstream_connection N
    sync_subscription_event_types sub
    store_sink sub
    sync_consumer_and_subscription N digest sub

  unfoldable pub delete_type_consumer : Subscription → EventType → Exec (JetStream N) (Unit {0})
  delete_type_consumer sub t = do
    s ← gets (λ s. s)
    delete_consumer_from_jetstream N (key_of N digest s sub t).consumer_name

  unfoldable pub delete_subscription : Subscription → Exec (JetStream N) (Unit {0})
  delete_subscription sub = do
    check_jetstream_connection N
    for_own_entries sub (λ key x. delete_subscription_from_jetstream N x key)
    for_each sub.status.types (delete_type_consumer sub)
    modify (λ s. record s { sinks = erase (create_key_prefix sub) s.sinks })

  unfoldable pub delete_subscriptions_only : Subscription → Exec (JetStream N) (Unit {0})
  delete_subscriptions_only sub = do
    check_jetstream_connection N
    for_own_entries sub (λ key x. delete_subscription_from_jetstream_only N x key)

  -- The names of the consumers of a subscription: one for each clean type.
  consumer_names : JetStream N → Subscription → List String → List String
  consumer_names s sub [] = []
  consumer_names s sub (subject ∷ subjects) =
      compute_consumer_name digest sub subject ∷ consumer_names s sub subjects

  unfoldable pub is_consumer_used_by_kyma_sub : JetStream N → String → List Subscription → Bool
  unfolding consumer_names
  is_consumer_used_by_kyma_sub s name [] = false
  is_consumer_used_by_kyma_sub s name (sub ∷ subs) =
      contains name (
        consumer_names s sub (
          get_jetstream_subjects s.cleaner s.config sub.spec.source
            (get_clean_event_types_from_event_types (get_clean_event_types sub s.cleaner))
            sub.spec.type_matching))
      || is_consumer_used_by_kyma_sub s name subs

  unfoldable pub delete_invalid_consumer :
      List Subscription → ConsumerInfo → Exec (JetStream N) (Unit {0})
  delete_invalid_consumer subs con = do
    s ← gets (λ s. s)
    when (not con.push_bound && not (is_consumer_used_by_kyma_sub s con.name subs))
        (delete_consumer_from_jetstream N con.name)

  unfoldable pub delete_invalid_consumers : List Subscription → Exec (JetStream N) (Unit {0})
  delete_invalid_consumers subs = do
    s ← gets (λ s. s)
    cons ← with_context (λ c. N.consumers c s.config.js_stream_name)
    for_each cons (delete_invalid_consumer subs)
