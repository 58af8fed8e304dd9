-- ===== src/JetStream/Config.antt =====
-- Policies, `validateConfig` and the configurations built for the server (utils.go, jetstream.go).
use Prim.Native.String.{len}
use eventing_manager.Base.{
  ℕ, ℤ, String, ◌<>◌, Bool, true, false, ◌&&◌, ◌||◌, not, List, [], ◌∷◌, ◌==◌, ◌!=◌, string_eq,
  int_eq, ltb, if◌then◌else◌,
}
use eventing_manager.Errors.{Error, sentinel, with_arg}
use eventing_manager.Exec.{Outcome, ok, err, panic}
use eventing_manager.JetStream.{NatsConfig, SubscriptionSubjectIdentifier}
use eventing_manager.JetStream.NatsClient.{
  StorageType, memory_storage, file_storage, RetentionPolicy, limits_policy, interest_policy,
  DiscardPolicy, discard_old, discard_new, DeliverPolicy, deliver_all, deliver_last,
  deliver_last_per_subject, deliver_new, ack_explicit, replay_instant, StreamConfig, ConsumerConfig,
  SubOpts, defaults,
}

abbrev pub js_max_stream_name_length : ℕ
js_max_stream_name_length = 32

abbrev pub js_consumer_max_redeliver : ℕ
js_consumer_max_redeliver = 100

abbrev pub js_consumer_ack_wait : ℕ
js_consumer_ack_wait = 30

abbrev pub idle_heart_beat_duration : ℕ
idle_heart_beat_duration = 60

infixl 10 ◌>>=◌ ◌>>◌
abbrev ◌>>=◌ : {A B : Type 0} → Outcome A → (A → Outcome B) → Outcome B
ok a >>= f = f a
err e >>= f = err e
panic >>= f = panic

abbrev ◌>>◌ : {A B : Type 0} → Outcome A → Outcome B → Outcome B
m >> k = m >>= λ _. k

unfoldable pub to_jetstream_storage_type : String → Outcome StorageType
to_jetstream_storage_type t =
    if t == "memory"
    then ok memory_storage
    else if t == "file"
    then ok file_storage
    else err (with_arg "invalid stream storage type: %q" t)

unfoldable pub to_jetstream_retention_policy : String → Outcome RetentionPolicy
to_jetstream_retention_policy t =
    if t == "limits"
    then ok limits_policy
    else if t == "interest"
    then ok interest_policy
    else err (with_arg "invalid stream retention policy: %q" t)

unfoldable pub to_jetstream_discard_policy : String → Outcome DiscardPolicy
to_jetstream_discard_policy t =
    if t == "old"
    then ok discard_old
    else if t == "new"
    then ok discard_new
    else err (with_arg "invalid stream discard policy: %q" t)

-- `toJetStreamConsumerDeliverPolicy`
unfoldable pub to_jetstream_consumer_deliver_policy : String → DeliverPolicy
to_jetstream_consumer_deliver_policy t =
    if t == "all"
    then deliver_all
    else if t == "last"
    then deliver_last
    else if t == "last_per_subject"
    then deliver_last_per_subject
    else if t == "new"
    then deliver_new
    else deliver_new

-- `toJetStreamConsumerDeliverPolicyOptOrDefault`, by the policy that the option sets
unfoldable pub to_jetstream_consumer_deliver_policy_opt_or_default : String → DeliverPolicy
to_jetstream_consumer_deliver_policy_opt_or_default t =
    if t == "all"
    then deliver_all
    else if t == "last"
    then deliver_last
    else if t == "last_per_subject"
    then deliver_last_per_subject
    else if t == "new"
    then deliver_new
    else deliver_new

abbrev pub err_stream_name_too_long : Error
err_stream_name_too_long = sentinel "stream name should be max 32 characters long"

unfoldable pub validate_config : NatsConfig → Outcome (Unit {0})
unfolding to_jetstream_storage_type to_jetstream_retention_policy to_jetstream_discard_policy
validate_config config =
    if config.js_stream_name == ""
    then err (sentinel "Stream name cannot be empty")
    else if ltb js_max_stream_name_length (len config.js_stream_name)
    then err err_stream_name_too_long
    else do
      to_jetstream_storage_type config.js_stream_storage_type
      to_jetstream_retention_policy config.js_stream_retention_policy
      to_jetstream_discard_policy config.js_stream_discard_policy
      ok tt

-- `getStreamConfig`, with `resource.ParseQuantity` and `Value` as an argument.
unfoldable pub get_stream_config : (String → Outcome ℤ) → NatsConfig → Outcome StreamConfig
unfolding to_jetstream_storage_type to_jetstream_retention_policy to_jetstream_discard_policy
get_stream_config parse_quantity config = do
  storage ← to_jetstream_storage_type config.js_stream_storage_type
  retention ← to_jetstream_retention_policy config.js_stream_retention_policy
  max_bytes ←
      parse_quantity (if config.js_stream_max_bytes == "" then "-1" else config.js_stream_max_bytes)
  discard ← to_jetstream_discard_policy config.js_stream_discard_policy
  ok (record {
    name = config.js_stream_name;
    storage = storage;
    replicas = config.js_stream_replicas;
    retention = retention;
    max_msgs = config.js_stream_max_messages;
    max_bytes = max_bytes;
    discard = discard;
    max_msgs_per_subject = config.js_stream_max_msgs_per_topic;
    subjects = (config.js_subject_prefix <> ".>") ∷ [];
  })

-- `nats.StorageType` and the like are integers in Go, compared by `!=`.
storage_beq : StorageType → StorageType → Bool
storage_beq memory_storage memory_storage = true
storage_beq file_storage file_storage = true
storage_beq _ _ = false

retention_beq : RetentionPolicy → RetentionPolicy → Bool
retention_beq limits_policy limits_policy = true
retention_beq interest_policy interest_policy = true
retention_beq _ _ = false

discard_beq : DiscardPolicy → DiscardPolicy → Bool
discard_beq discard_old discard_old = true
discard_beq discard_new discard_new = true
discard_beq _ _ = false

-- `reflect.DeepEqual` on slices of texts that are not nil
subjects_beq : List String → List String → Bool
subjects_beq [] [] = true
subjects_beq (x ∷ xs) (y ∷ ys) = x == y && subjects_beq xs ys
subjects_beq _ _ = false

unfoldable pub stream_is_configured_correctly : StreamConfig → StreamConfig → Bool
unfolding storage_beq retention_beq discard_beq subjects_beq
stream_is_configured_correctly got want =
    if got.name != want.name
      || not (storage_beq got.storage want.storage)
      || got.replicas != want.replicas
      || not (retention_beq got.retention want.retention)
      || got.max_msgs != want.max_msgs
      || got.max_bytes != want.max_bytes
      || not (discard_beq got.discard want.discard)
    then false
    else subjects_beq got.subjects want.subjects

-- `getConsumerConfig`, with the value of `nats.NewInbox()`
unfoldable pub get_consumer_config :
    NatsConfig → SubscriptionSubjectIdentifier → String → ℤ → String → ConsumerConfig
unfolding to_jetstream_consumer_deliver_policy
get_consumer_config config key subject max_in_flight inbox = record {
  durable = key.consumer_name;
  description = key.namespaced_subject_name;
  deliver_policy = to_jetstream_consumer_deliver_policy config.js_consumer_deliver_policy;
  flow_control = true;
  max_ack_pending = max_in_flight;
  ack_policy = ack_explicit;
  ack_wait = js_consumer_ack_wait;
  max_deliver = js_consumer_max_redeliver;
  filter_subject = subject;
  replay_policy = replay_instant;
  deliver_subject = inbox;
  heartbeat = idle_heart_beat_duration;
}

unfoldable pub get_default_subscription_options :
    NatsConfig → SubscriptionSubjectIdentifier → ℤ → SubOpts
unfolding to_jetstream_consumer_deliver_policy_opt_or_default
get_default_subscription_options config key max_in_flight =
    defaults key.consumer_name key.namespaced_subject_name idle_heart_beat_duration
      (to_jetstream_consumer_deliver_policy_opt_or_default config.js_consumer_deliver_policy)
      max_in_flight js_consumer_max_redeliver js_consumer_ack_wait config.js_stream_name
      key.consumer_name
