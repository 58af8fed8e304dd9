-- ===== src/Tests/Backend.antt =====
-- Deletions by the JetStream backend on the server in memory.
use eventing_manager.Base.{◌≡◌, refl, String, true, false, some, [], ◌∷◌, pos, string_eq}
use eventing_manager.Base.Dict.{erase}
use eventing_manager.Cleaner.{jetstream_cleaner, clean_jetstream_source}
use eventing_manager.Errors.{is_error}
use eventing_manager.Exec.{ok, pure, lift, gets, modify, attempt, when, for_each, ◌>>=◌}
use eventing_manager.JetStream.{JetStream, NatsConfig, SubscriptionSubjectIdentifier, key_eq}
use eventing_manager.JetStream.Backend.{
  for_own_entries, delete_subscription, delete_subscriptions_only, delete_type_consumer,
}
use eventing_manager.Base.{All}
use eventing_manager.Base.Dict.{insert}
use eventing_manager.Base.Int.{atoi}
use eventing_manager.JetStream.Backend.{
  sync_subscription, sync_subscription_event_types, store_sink,
}
use eventing_manager.JetStream.Backend.Syncing.{sync_subscription_lem}
use eventing_manager.JetStream.Consumers.{
  sync_consumer_and_subscription, sync_event_type, get_or_create_consumer, create_nats_subscription,
  store_subscription, sync_consumer_max_in_flight,
}
use eventing_manager.JetStream.Consumers.Growing.{IsStored}
use eventing_manager.JetStream.Subjects.{get_max_in_flight_messages}
use eventing_manager.JetStream.Config.{get_default_subscription_options}
use eventing_manager.JetStream.Backend.Outcomes.{
  delete_subscription_lem, delete_subscriptions_only_lem, delete_subscriptions_only-consumers,
  IsDeleted, IsWithoutOwn,
}
use eventing_manager.JetStream.Connection.{on_server, with_context, check_jetstream_connection}
use eventing_manager.JetStream.Consumers.{
  forget_subscription, delete_consumer_from_jetstream, delete_subscription_from_jetstream,
  delete_subscription_from_jetstream_only, key_of, subject_of, unsubscribe_if_valid,
}
use eventing_manager.JetStream.NatsClient.{deliver_new, ack_explicit, replay_instant}
use eventing_manager.JetStream.Subjects.{
  create_key_prefix, is_js_sub_associated_with_kyma_sub, namespaced_name, get_jetstream_subject,
  new_subscription_subject_identifier,
}
use eventing_manager.Subscription.{Subscription}
use eventing_manager.Tests.Server.{Consumers, consumer_at, in_memory, in_memory-IsLawful}
use eventing_manager.Base.Dict.{lookup}
use eventing_manager.JetStream.Subjects.{compute_consumer_name}
use eventing_manager.JetStream.Subjects.{compute_namespaced_subject_name}
use eventing_manager.Base.{ℕ, none}
use eventing_manager.Exec.{ok-ne-panic}
use eventing_manager.Runtime.{Reply}
use eventing_manager.SubscriptionReconciler.{Kube, SubscriptionReconciler, S}
use eventing_manager.SubscriptionReconciler.Reconcile.{sync_backend}
use eventing_manager.SubscriptionReconciler.Reconcile.Syncing.{Answers, sync_backend_lem}
use eventing_manager.SubscriptionReconciler.Status.Frames.{IsCalm, IsReported}
use eventing_manager.Base.{◌+◌}
use eventing_manager.Subscription.{finalizer}
use eventing_manager.Subscription.Types.{contains_string}
use eventing_manager.SubscriptionReconciler.Deletion.{handle_subscription_deletion}
use eventing_manager.SubscriptionReconciler.Deletion.Releasing.{
  Frees, handle_subscription_deletion_lem,
}

abbrev config : NatsConfig
config = record {
  url = "nats://eventing-nats";
  max_reconnects = pos 10;
  reconnect_wait = 3;
  event_type_prefix = "prefix";
  js_stream_name = "sap";
  js_subject_prefix = "kyma";
  js_stream_storage_type = "memory";
  js_stream_replicas = pos 1;
  js_stream_retention_policy = "interest";
  js_stream_max_messages = pos 10;
  js_stream_max_bytes = "700Mi";
  js_stream_max_msgs_per_topic = pos 5;
  js_stream_discard_policy = "new";
  js_consumer_deliver_policy = "new";
}

abbrev orders : Subscription
orders = record {
  namespace = "shop";
  name = "orders";
  finalizers = finalizer ∷ [];
  in_deletion = false;
  spec = record {
    sink = "http://orders.shop.svc.cluster.local";
    type_matching = "standard";
    source = "store";
    types = "order.created.v1" ∷ [];
    config = [];
  };
  status = record {
    conditions = [];
    ready = true;
    types = record { original_type = "order.created.v1"; clean_type = "order.created.v1" } ∷ [];
    backend = record { types = [] };
  };
}

abbrev digest : String → String
digest text = text

abbrev own_key : SubscriptionSubjectIdentifier
own_key = record {
  consumer_name = "shop/orders/kyma.store.order.cre";
  namespaced_subject_name = "shop/orders/kyma.store.order.created.v1";
}

abbrev other_key : SubscriptionSubjectIdentifier
other_key = record {
  consumer_name = "other";
  namespaced_subject_name = "shop/returns/kyma.store.order.returned.v1";
}

-- Every name has a consumer.
abbrev consumers : Consumers
consumers stream name = some (record {
  durable = name;
  description = "";
  deliver_policy = deliver_new;
  flow_control = true;
  max_ack_pending = pos 10;
  ack_policy = ack_explicit;
  ack_wait = 30;
  max_deliver = 100;
  filter_subject = "";
  replay_policy = replay_instant;
  deliver_subject = "_INBOX";
  heartbeat = 1;
})

abbrev start : JetStream in_memory
start = record {
  config = config;
  conn = some tt;
  js_ctx = some tt;
  has_conn_closed_handler = true;
  has_client = true;
  subscriptions = (own_key, "orders") ∷ (other_key, "returns") ∷ [];
  sinks = ("shop/orders", "http://orders.shop.svc.cluster.local") ∷ [];
  cleaner = jetstream_cleaner;
  default_max_in_flight_messages = pos 10;
  server = consumers;
}

delete_subscription-ok : (delete_subscription in_memory digest orders start).0 ≡ ok tt
unfolding delete_subscription check_jetstream_connection for_own_entries for_each when attempt lift
    modify gets pure is_js_sub_associated_with_kyma_sub namespaced_name create_key_prefix
    unsubscribe_if_valid on_server delete_subscription_from_jetstream delete_consumer_from_jetstream
    with_context forget_subscription ◌>>=◌ delete_type_consumer key_of subject_of erase
    get_jetstream_subject new_subscription_subject_identifier clean_jetstream_source is_error
delete_subscription-ok = refl

delete_subscriptions_only-ok : (delete_subscriptions_only in_memory digest orders start).0 ≡ ok tt
unfolding delete_subscriptions_only check_jetstream_connection for_own_entries for_each when attempt
    lift modify gets pure is_js_sub_associated_with_kyma_sub namespaced_name create_key_prefix
    unsubscribe_if_valid on_server delete_subscription_from_jetstream_only forget_subscription ◌>>=◌
delete_subscriptions_only-ok = refl

-- Deleting `orders` forgets its entry and removes its sink and its consumer.
delete_subscription_lem_example :
    IsDeleted in_memory digest consumer_at in_memory-IsLawful orders start
      (delete_subscription in_memory digest orders start).1
delete_subscription_lem_example =
    delete_subscription_lem in_memory digest consumer_at in_memory-IsLawful orders start
      (delete_subscription in_memory digest orders start).1
      (λ i. (delete_subscription-ok i, (delete_subscription in_memory digest orders start).1))

delete_subscriptions_only_lem_example :
    let end : JetStream in_memory = (delete_subscriptions_only in_memory digest orders start).1 in
    IsWithoutOwn in_memory digest orders start.subscriptions end.subscriptions
    × (end.sinks ≡ start.sinks)
    × (end.config ≡ start.config)
delete_subscriptions_only_lem_example =
    delete_subscriptions_only_lem in_memory digest orders start
      (delete_subscriptions_only in_memory digest orders start).1
      (λ i. (
        delete_subscriptions_only-ok i,
        (delete_subscriptions_only in_memory digest orders start).1,
      ))

delete_subscriptions_only-consumers_example :
    consumer_at (delete_subscriptions_only in_memory digest orders start).1.server
    ≡ consumer_at consumers
delete_subscriptions_only-consumers_example =
    delete_subscriptions_only-consumers in_memory digest consumer_at in_memory-IsLawful orders start

-- Nothing is stored yet, and the consumer on the server has another number of messages in flight.
abbrev fresh : JetStream in_memory
fresh = record start { subscriptions = []; sinks = []; default_max_in_flight_messages = pos 20 }

sync_subscription-ok : (sync_subscription in_memory digest orders fresh).0 ≡ ok tt
unfolding sync_subscription check_jetstream_connection sync_subscription_event_types for_own_entries
    for_each when attempt lift modify gets pure store_sink lookup insert create_key_prefix
    sync_consumer_and_subscription sync_event_type key_of subject_of get_jetstream_subject
    new_subscription_subject_identifier clean_jetstream_source get_or_create_consumer with_context
    on_server create_nats_subscription store_subscription sync_consumer_max_in_flight ◌>>=◌
    get_max_in_flight_messages atoi compute_consumer_name compute_namespaced_subject_name
    get_default_subscription_options
sync_subscription-ok = refl

sync_subscription_lem_example :
    let end : JetStream in_memory = (sync_subscription in_memory digest orders fresh).1 in
    All (λ x. IsStored in_memory (key_of in_memory digest fresh orders x) end) orders.status.types
    × (lookup (create_key_prefix orders) end.sinks ≡ some "http://orders.shop.svc.cluster.local")
    × (end.config ≡ config)
    × (end.cleaner ≡ jetstream_cleaner)
sync_subscription_lem_example =
    sync_subscription_lem in_memory digest orders fresh
      (sync_subscription in_memory digest orders fresh).1
      (λ i. (sync_subscription-ok i, (sync_subscription in_memory digest orders fresh).1))

-- A cluster whose calls succeed, and which counts the updates of a status.
abbrev kube : Kube
kube = record {
  State = ℕ;
  text_of = λ e. "error";
  is_not_found = λ e. false;
  now = λ t. t;
  get_subscription = λ namespace name t. (ok orders, t);
  update_subscription = λ sub t. (ok sub, t);
  update_status = λ sub t. (ok tt, 1 + t);
  validate_spec_of = λ sub t. none;
  remove_subscription_status = λ sub consumer stream t. t;
  record_subscription_status = λ sub consumer stream t. t;
}

kube-IsCalm : IsCalm kube
kube-IsCalm = record {
  get_subscription = λ namespace name t. ok-ne-panic _;
  update_subscription = λ sub t. ok-ne-panic _;
  update_status = λ sub t. ok-ne-panic _;
}

abbrev reconciler : SubscriptionReconciler kube in_memory
reconciler = record {
  backend = fresh;
  cleaner = jetstream_cleaner;
  subscription = orders;
  cluster = 0;
}

abbrev synced : JetStream in_memory
synced = (sync_subscription in_memory digest orders fresh).1

-- The backend syncs `orders`, which then is ready.
sync_backend_lem_example :
    (reply : Reply) × (t : S kube in_memory) × (sync_backend kube in_memory digest reconciler
      ≡ (ok reply, t))
    × (IsReported kube-IsCalm synced none t × Answers (ok tt) reply)
sync_backend_lem_example =
    sync_backend_lem digest kube-IsCalm reconciler (ok tt) synced
      (λ i. (sync_subscription-ok i, synced)) (ok-ne-panic tt)

orders-holds : contains_string orders.finalizers finalizer ≡ true
unfolding contains_string
orders-holds = refl

abbrev deleted : JetStream in_memory
deleted = (delete_subscription in_memory digest orders start).1

abbrev leaving : SubscriptionReconciler kube in_memory
leaving = record reconciler { backend = start }

-- The backend deletes `orders`, and the finalizer is removed.
handle_subscription_deletion_lem_example :
    (reply : Reply) × (t : S kube in_memory) × (handle_subscription_deletion kube in_memory digest
        leaving
      ≡ (ok reply, t))
    × ((t.backend ≡ deleted)
        × Frees digest consumer_at in_memory-IsLawful kube-IsCalm leaving (ok tt) reply t)
handle_subscription_deletion_lem_example =
    handle_subscription_deletion_lem digest consumer_at in_memory-IsLawful kube-IsCalm leaving
      (ok tt) deleted orders-holds (λ i. (delete_subscription-ok i, deleted)) (ok-ne-panic tt)
