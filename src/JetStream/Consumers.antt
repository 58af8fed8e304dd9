-- ===== src/JetStream/Consumers.antt =====
-- One subject at a time: its consumer on the server and its subscription in memory (jetstream.go).
pub mod Frames
pub mod Growing
use eventing_manager.Base.{
  ◌≡◌, ℕ, ℤ, String, ◌<>◌, Bool, true, false, ◌&&◌, ◌||◌, not, Option, none, some, List, [], ◌∷◌,
  ◌==◌, ◌!=◌, string_eq, int_eq, if◌then◌else◌,
}
use eventing_manager.Base.Dict.{Dict, lookup, insert, erase}
use eventing_manager.Errors.{
  Error, sentinel, note, make_error, make_subscription_error, make_consumer_error, is_error,
}
use eventing_manager.Exec.{
  Outcome, ok, err, panic, Exec, pure, fail, lift, gets, modify, attempt, when, for_each, ◌>>=◌,
  ◌>>◌,
}
use eventing_manager.Subscription.{Subscription, EventType}
use eventing_manager.Subscription.Types.{contains_string}
use eventing_manager.JetStream.{JetStream, SubscriptionSubjectIdentifier, key_eq}
use eventing_manager.JetStream.Config.{get_consumer_config, get_default_subscription_options}
use eventing_manager.JetStream.Connection.{on_server, with_context}
use eventing_manager.JetStream.NatsClient.{Nats, ConsumerInfo, ConsumerConfig, SubOpts, bind}
use eventing_manager.JetStream.Subjects.{
  get_jetstream_subject, get_jetstream_subjects, new_subscription_subject_identifier,
  get_max_in_flight_messages, get_clean_event_types_from_event_types,
}

abbrev pub err_missing_subscription : Error
err_missing_subscription = sentinel "failed to find a NATS subscription for a subject"

abbrev pub err_add_consumer : Error
err_add_consumer = sentinel "failed to add a consumer"

abbrev pub err_get_consumer : Error
err_get_consumer = sentinel "failed to get consumer info"

abbrev pub err_update_consumer : Error
err_update_consumer = sentinel "failed to update consumer"

abbrev pub err_delete_consumer : Error
err_delete_consumer = sentinel "failed to delete consumer"

abbrev pub err_failed_subscribe : Error
err_failed_subscribe = sentinel "failed to create NATS JetStream subscription"

abbrev pub err_failed_unsubscribe : Error
err_failed_unsubscribe = sentinel "failed to unsubscribe from NATS JetStream"

module _ {N : Nats} where
  -- `GetJetStreamSubject` of a clean type of the subscription
  unfoldable pub subject_of : JetStream N → Subscription → EventType → String
  subject_of s sub t =
      get_jetstream_subject s.cleaner s.config sub.spec.source t.clean_type sub.spec.type_matching

  pub subject_of-memory :
      (s t : JetStream N) (sub : Subscription) (x : EventType)
      → s.cleaner ≡ t.cleaner
      → s.config ≡ t.config
      → subject_of s sub x ≡ subject_of t sub x
  unfolding subject_of
  subject_of-memory s t sub x c g i =
      get_jetstream_subject (c i) (g i) sub.spec.source x.clean_type sub.spec.type_matching

  unfoldable pub store_subscription :
      SubscriptionSubjectIdentifier → N.Sub → Exec (JetStream N) (Unit {0})
  store_subscription key x = modify (λ s. record s { subscriptions = insert key x s.subscriptions })

  -- `delete(js.subscriptions, key)`
  unfoldable pub forget_subscription : SubscriptionSubjectIdentifier → Exec (JetStream N) (Unit {0})
  forget_subscription key = modify (λ s. record s { subscriptions = erase key s.subscriptions })

module _ (N : Nats) where
  -- An error that says the consumer is gone is no error.
  accept_missing : String → Outcome (Unit {0}) → Exec (JetStream N) (Unit {0})
  accept_missing name (ok _) = pure tt
  accept_missing name (err e) =
      if is_error e N.consumer_not_found
      then pure tt
      else fail (make_consumer_error err_delete_consumer e name)
  accept_missing name panic = lift panic

  unfoldable pub delete_consumer_from_jetstream : String → Exec (JetStream N) (Unit {0})
  unfolding accept_missing
  delete_consumer_from_jetstream name = do
    config ← gets (λ s. s.config)
    r ← attempt (with_context (λ c. N.delete_consumer c config.js_stream_name name))
    accept_missing name r

  -- `if jsSub.IsValid() { if err := jsSub.Unsubscribe(); err != nil { … } }`
  report_unsubscribe : N.Sub → Outcome (Unit {0}) → Exec (JetStream N) (Unit {0})
  report_unsubscribe x (ok _) = pure tt
  report_unsubscribe x (err e) =
      fail (make_subscription_error err_failed_unsubscribe e (N.describe x))
  report_unsubscribe x panic = lift panic

  unfoldable pub unsubscribe_if_valid : N.Sub → Exec (JetStream N) (Unit {0})
  unfolding report_unsubscribe
  unsubscribe_if_valid x = do
    valid ← gets (λ s. N.is_valid x s.server)
    when valid (do r ← attempt (on_server (N.unsubscribe x)); report_unsubscribe x r)

  unfoldable pub delete_subscription_from_jetstream :
      N.Sub → SubscriptionSubjectIdentifier → Exec (JetStream N) (Unit {0})
  delete_subscription_from_jetstream x key = do
    unsubscribe_if_valid x
    delete_consumer_from_jetstream key.consumer_name
    forget_subscription key

  unfoldable pub delete_subscription_from_jetstream_only :
      N.Sub → SubscriptionSubjectIdentifier → Exec (JetStream N) (Unit {0})
  delete_subscription_from_jetstream_only x key = do unsubscribe_if_valid x; forget_subscription key

  -- Wraps the error of a library call in a sentinel of the package.
  wrap_error : {A : Type 0} → Error → Outcome A → Exec (JetStream N) A
  wrap_error e (ok a) = pure a
  wrap_error e (err e') = fail (make_error e e')
  wrap_error e panic = lift panic

  module _ (digest : String → String) where
    unfoldable pub key_of : JetStream N → Subscription → EventType → SubscriptionSubjectIdentifier
    key_of s sub t = new_subscription_subject_identifier digest sub (subject_of s sub t)

    add_consumer : Subscription → EventType → Exec (JetStream N) ConsumerInfo
    unfolding wrap_error
    add_consumer sub t = do
      s ← gets (λ s. s)
      inbox ← on_server N.new_inbox
      r ← attempt (
          with_context (λ c. N.add_consumer c s.config.js_stream_name (
            get_consumer_config s.config (key_of s sub t) (subject_of s sub t)
              (get_max_in_flight_messages sub s.default_max_in_flight_messages) inbox)))
      wrap_error err_add_consumer r

    found_or_added :
        Subscription → EventType → Outcome ConsumerInfo → Exec (JetStream N) ConsumerInfo
    unfolding add_consumer
    found_or_added sub t (ok info) = pure info
    found_or_added sub t (err e) =
        if is_error e N.consumer_not_found
        then add_consumer sub t
        else fail (make_error err_get_consumer e)
    found_or_added sub t panic = lift panic

    unfoldable pub get_or_create_consumer :
        Subscription → EventType → Exec (JetStream N) ConsumerInfo
    unfolding found_or_added
    get_or_create_consumer sub t = do
      s ← gets (λ s. s)
      r ← attempt (
          with_context
            (λ c. N.consumer_info c s.config.js_stream_name (key_of s sub t).consumer_name))
      found_or_added sub t r

    unfoldable pub create_nats_subscription :
        Subscription → EventType → Exec (JetStream N) (Unit {0})
    unfolding wrap_error
    create_nats_subscription sub t = do
      s ← gets (λ s. s)
      r ← attempt (
          with_context (λ c. N.subscribe c (subject_of s sub t) (
            get_default_subscription_options s.config (key_of s sub t)
              (get_max_in_flight_messages sub s.default_max_in_flight_messages))))
      x ← wrap_error err_failed_subscribe r
      store_subscription (key_of s sub t) x

    unfoldable pub bind_invalid_subscriptions :
        Subscription → EventType → Exec (JetStream N) (Unit {0})
    unfolding wrap_error
    bind_invalid_subscriptions sub t = do
      s ← gets (λ s. s)
      r ← attempt (
          with_context (λ c.
            N.subscribe c (subject_of s sub t)
              (bind s.config.js_stream_name (key_of s sub t).consumer_name)))
      x ← wrap_error err_failed_subscribe r
      store_subscription (key_of s sub t) x

    unfoldable pub sync_consumer_max_in_flight :
        Subscription → ConsumerInfo → Exec (JetStream N) (Unit {0})
    unfolding wrap_error
    sync_consumer_max_in_flight sub info = do
      s ← gets (λ s. s)
      let m = get_max_in_flight_messages sub s.default_max_in_flight_messages
      when (info.config.max_ack_pending != m) (do
        r ← attempt (
            with_context (λ c.
              N.update_consumer c s.config.js_stream_name
                (record (info.config) { max_ack_pending = m })))
        wrap_error err_update_consumer r)

    present : {A : Type 0} → Option A → Bool
    present none = false
    present (some a) = true

    is_invalid : Option N.Sub → N.State → Bool
    is_invalid none t = false
    is_invalid (some x) t = not (N.is_valid x t)

    -- One round of the loop of `syncConsumerAndSubscription`. The error of `getOrCreateConsumer` is nil
    -- where the missing subscription is reported.
    unfoldable pub sync_event_type : Subscription → EventType → Exec (JetStream N) (Unit {0})
    unfolding present is_invalid
    sync_event_type sub t = do
      s ← gets (λ s. s)
      info ← get_or_create_consumer sub t
      old ← gets (λ s'. lookup (key_of s sub t) s'.subscriptions)
      when (not (present old) && not info.push_bound) (create_nats_subscription sub t)
      now ← gets (λ s'. lookup (key_of s sub t) s'.subscriptions)
      when (not (present now)) (fail (note err_missing_subscription ": %!w(<nil>)"))
      invalid ← gets (λ s'. is_invalid old s'.server)
      when invalid (bind_invalid_subscriptions sub t)
      sync_consumer_max_in_flight sub info

    unfoldable pub sync_consumer_and_subscription : Subscription → Exec (JetStream N) (Unit {0})
    sync_consumer_and_subscription sub = for_each sub.status.types (sync_event_type sub)
