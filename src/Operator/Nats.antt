-- ===== src/Operator/Nats.antt =====
-- The NATS backend of the reconciler (internal/controller/operator/eventing: nats.go, and the watch and
-- the connection in controller.go).
pub mod Steady
pub mod Managing
pub mod Calling
use eventing_manager.Base.{
  ℤ, String, ◌<>◌, Bool, true, false, not, Option, none, some, List, [], ◌∷◌, ◌!=◌, string_eq,
  int_eq, if◌then◌else◌,
}
use eventing_manager.Base.Dict.{lookup, insert, erase}
use eventing_manager.Errors.{Error, sentinel}
use eventing_manager.Exec.{
  Outcome, ok, err, panic, Exec, pure, lift, gets, modify, when, ◌>>=◌, ◌>>◌,
}
use eventing_manager.JetStream.{NatsConfig}
use eventing_manager.Operator.{
  Cluster, Operator, DefaultSubscriptionConfig, on_cluster, produce, looking, with_backend,
  advance_cluster, set_status,
}

abbrev pub err_cannot_build_nats_url : Error
err_cannot_build_nats_url = sentinel "NATS CR is not found to build NATS server URL"

module _ (C : Cluster) where
  -- `getNATSUrl`: the loop returns at the first resource.
  url_of : List (String × String) → Outcome String
  url_of [] = err err_cannot_build_nats_url
  url_of ((name, namespace) ∷ rest) =
      ok ("nats://" <> (name <> ("." <> (namespace <> ".svc.cluster.local:4222"))))

  unfoldable pub get_nats_url : String → Exec (Operator C) String
  unfolding url_of
  get_nats_url namespace = do
    resources ← on_cluster (C.get_nats_resources namespace)
    lift (url_of resources)

  -- `GetNatsConfig`, which reads the resource of the call
  unfoldable pub get_nats_config : Exec (Operator C) NatsConfig
  get_nats_config = looking (λ s. do
    config ← lift (C.env_nats_config s.cluster)
    url ← get_nats_url s.eventing.namespace
    with_backend (λ backend. pure (record config {
      url = url;
      js_stream_storage_type = backend.nats_stream_storage_type;
      js_stream_replicas = backend.nats_stream_replicas;
      js_stream_max_bytes = backend.nats_stream_max_size;
      js_stream_max_msgs_per_topic = backend.nats_max_msgs_per_topic;
      event_type_prefix = backend.event_type_prefix;
    })))

  unfoldable pub get_default_subscription_config : Operator C → DefaultSubscriptionConfig
  get_default_subscription_config s = (C.get_backend_config s.cluster).default_subscription_config

  -- The flags after `Stop` returned.
  drop_nats_sub_manager : Operator C → Operator C
  drop_nats_sub_manager s = record s {
    is_nats_sub_manager_started = false;
    nats_sub_manager = none;
  }

  stop_nats : Option C.Manager → Bool → Bool → Exec (Operator C) (Unit {0})
  unfolding drop_nats_sub_manager
  stop_nats (some m) true cleanup = do
    on_cluster (C.stop_manager m cleanup)
    modify drop_nats_sub_manager
  stop_nats _ _ cleanup = pure tt

  unfoldable pub stop_nats_sub_manager : Bool → Exec (Operator C) (Unit {0})
  unfolding stop_nats
  stop_nats_sub_manager cleanup =
      looking (λ s. stop_nats s.nats_sub_manager s.is_nats_sub_manager_started cleanup)

  start_nats : Option C.Manager → DefaultSubscriptionConfig → Exec (Operator C) (Unit {0})
  start_nats none config = lift panic
  start_nats (some m) config = do
    on_cluster (C.start_manager m config [])
    modify (λ s. record s { is_nats_sub_manager_started = true })

  unfoldable pub start_nats_sub_manager : DefaultSubscriptionConfig → Exec (Operator C) (Unit {0})
  unfolding start_nats
  start_nats_sub_manager config = looking (λ s. start_nats s.nats_sub_manager config)

  -- `reconcileNATSSubManager`, up to the manager being stopped or forgotten for a changed configuration
  pub renew_nats_sub_manager : ℤ → Exec (Operator C) (Unit {0})
  renew_nats_sub_manager spec_hash = looking (λ s.
      if s.eventing.status.backend_config_hash != spec_hash
      then (if s.is_nats_sub_manager_started
          then stop_nats_sub_manager false
          else modify (λ t. record t { nats_sub_manager = none }))
      else pure tt)

  -- `if r.natsSubManager == nil { … }`
  make_nats : Option C.Manager → NatsConfig → Exec (Operator C) (Unit {0})
  make_nats (some m) config = pure tt
  make_nats none config = looking (λ s. do
    m ← produce (C.new_jetstream_manager s.eventing config)
    on_cluster (C.init_manager m)
    modify (λ t. record t { nats_sub_manager = some m }))

  pub make_nats_sub_manager : NatsConfig → Exec (Operator C) (Unit {0})
  unfolding make_nats
  make_nats_sub_manager config = looking (λ s. make_nats s.nats_sub_manager config)

  -- From `if r.isNATSSubManagerStarted` on.
  pub run_nats_sub_manager : DefaultSubscriptionConfig → ℤ → Exec (Operator C) (Unit {0})
  run_nats_sub_manager subs_config spec_hash = looking (λ s.
      when (not s.is_nats_sub_manager_started) (do
        start_nats_sub_manager subs_config
        set_status (λ es. record es { backend_config_hash = spec_hash })))

  unfoldable pub reconcile_nats_sub_manager : Exec (Operator C) (Unit {0})
  unfolding renew_nats_sub_manager make_nats_sub_manager run_nats_sub_manager
  reconcile_nats_sub_manager = do
    subs_config ← gets get_default_subscription_config
    config ← get_nats_config
    spec_hash ← lift (C.hash_nats subs_config config)
    renew_nats_sub_manager spec_hash
    make_nats_sub_manager config
    run_nats_sub_manager subs_config spec_hash

  -- The rest of `startNATSCRWatch`, for a watcher that is there.
  watch_with : C.Watcher → Exec (Operator C) (Unit {0})
  watch_with w =
      looking
        (λ s. do on_cluster (C.watch_events w s.eventing); advance_cluster (C.start_watcher w))

  start_watch : Option C.Watcher → Exec (Operator C) (Unit {0})
  unfolding watch_with
  start_watch (some w) = looking (λ s. when (not (C.is_watcher_started w s.cluster)) (watch_with w))
  start_watch none = looking (λ s. do
    w ← produce (C.new_watcher s.eventing.namespace)
    modify (λ t. record t { nats_watchers = insert s.eventing.namespace w t.nats_watchers })
    watch_with w)

  unfoldable pub start_nats_cr_watch : Exec (Operator C) (Unit {0})
  unfolding start_watch
  start_nats_cr_watch = looking (λ s. start_watch (lookup s.eventing.namespace s.nats_watchers))

  stop_watch : Option C.Watcher → String → Exec (Operator C) (Unit {0})
  stop_watch none namespace = pure tt
  stop_watch (some w) namespace = do
    advance_cluster (C.stop_watcher w)
    modify (λ t. record t { nats_watchers = erase namespace t.nats_watchers })

  unfoldable pub stop_nats_cr_watch : Exec (Operator C) (Unit {0})
  unfolding stop_watch
  stop_nats_cr_watch =
      looking (λ s. stop_watch (lookup s.eventing.namespace s.nats_watchers) s.eventing.namespace)

  connection_of : Option C.Connection → Exec (Operator C) C.Connection
  connection_of (some c) = pure c
  connection_of none = do
    c ← produce C.build_connection
    modify (λ s. record s { nats_connection = some c })
    pure c

  -- The handlers send the resource of the call as an event.
  unfoldable pub connect_to_nats : Exec (Operator C) (Unit {0})
  unfolding connection_of
  connect_to_nats =
      looking
        (λ s. do c ← connection_of s.nats_connection; on_cluster (C.connect_nats c s.eventing))

  disconnect_from : Option C.Connection → Exec (Operator C) (Unit {0})
  disconnect_from none = pure tt
  disconnect_from (some c) = advance_cluster (C.disconnect_nats c)

  -- `if r.natsConnection != nil { r.natsConnection.Disconnect() }`
  unfoldable pub disconnect_from_nats : Exec (Operator C) (Unit {0})
  unfolding disconnect_from
  disconnect_from_nats = looking (λ s. disconnect_from s.nats_connection)

  unfoldable pub reset_nats_connection : Exec (Operator C) (Unit {0})
  reset_nats_connection = do disconnect_from_nats; modify (λ s. record s { nats_connection = none })
