-- ===== src/JetStream/NatsClient.antt =====
-- What the JetStream backend uses of the NATS client library and of its server, which are not in
-- this repository: a record of operations over an unknown state, and what the backend relies on.
use eventing_manager.Base.{◌≡◌, ℕ, String, Bool, true, Option, none, some, List, ℤ}
use eventing_manager.Errors.{Error, is_error}
use eventing_manager.Exec.{Exec, Outcome, ok, err}

pub data StorageType : Type 0 where
  memory_storage file_storage : StorageType

pub data RetentionPolicy : Type 0 where
  limits_policy interest_policy : RetentionPolicy

pub data DiscardPolicy : Type 0 where
  discard_old discard_new : DiscardPolicy

pub data DeliverPolicy : Type 0 where
  deliver_all deliver_last deliver_last_per_subject deliver_new : DeliverPolicy

pub data AckPolicy : Type 0 where
  ack_explicit : AckPolicy

pub data ReplayPolicy : Type 0 where
  replay_instant : ReplayPolicy

-- The fields of `nats.StreamConfig` that the backend sets.
pub record StreamConfig : Type 0 where
  pub name : String
  pub storage : StorageType
  pub replicas : ℤ
  pub retention : RetentionPolicy
  pub max_msgs : ℤ
  pub max_bytes : ℤ
  pub discard : DiscardPolicy
  pub max_msgs_per_subject : ℤ
  pub subjects : List String

-- Durations are in seconds.
pub record ConsumerConfig : Type 0 where
  pub durable : String
  pub description : String
  pub deliver_policy : DeliverPolicy
  pub flow_control : Bool
  pub max_ack_pending : ℤ
  pub ack_policy : AckPolicy
  pub ack_wait : ℕ
  pub max_deliver : ℕ
  pub filter_subject : String
  pub replay_policy : ReplayPolicy
  pub deliver_subject : String
  pub heartbeat : ℕ

pub record ConsumerInfo : Type 0 where
  pub name : String
  pub config : ConsumerConfig
  pub push_bound : Bool

-- The options of `Subscribe`: the full list of `getDefaultSubscriptionOptions`, or `nats.Bind` alone.
pub data SubOpts : Type 0 where
  defaults :
      (durable description : String) (idle_heartbeat : ℕ) (deliver_policy : DeliverPolicy)
      (max_ack_pending : ℤ) (max_deliver ack_wait : ℕ) (stream consumer : String)
      → SubOpts
  bind : (stream consumer : String) → SubOpts

pub record Nats : Type 1 where
  pub State : Type 0
  pub Conn : Type 0
  -- `nats.JetStreamContext`
  pub Context : Type 0
  -- `*nats.Subscription`
  pub Sub : Type 0
  -- `nats.Connect(url, opts…)`, by the URL, the reconnects and the wait
  pub connect : String → ℤ → ℕ → Exec State Conn
  -- `conn.Status() == nats.CONNECTED`, `conn.IsConnected()`
  pub is_connected : Conn → State → Bool
  pub is_closed : Conn → State → Bool
  pub close : Conn → State → State
  pub set_closed_handler : Conn → State → State
  pub set_reconnect_handler : Conn → State → State
  pub jet_stream : Conn → Exec State Context
  pub stream_info : Context → String → Exec State StreamConfig
  pub add_stream : Context → StreamConfig → Exec State (Unit {0})
  pub update_stream : Context → StreamConfig → Exec State (Unit {0})
  pub consumer_info : Context → String → String → Exec State ConsumerInfo
  pub add_consumer : Context → String → ConsumerConfig → Exec State ConsumerInfo
  pub update_consumer : Context → String → ConsumerConfig → Exec State (Unit {0})
  pub delete_consumer : Context → String → String → Exec State (Unit {0})
  -- what `Consumers` sends on its channel
  pub consumers : Context → String → Exec State (List ConsumerInfo)
  pub subscribe : Context → String → SubOpts → Exec State Sub
  pub unsubscribe : Sub → Exec State (Unit {0})
  pub is_valid : Sub → State → Bool
  -- `%v` of a subscription
  pub describe : Sub → String
  pub new_inbox : Exec State String
  pub stream_not_found : Error
  pub consumer_not_found : Error
  -- `resource.ParseQuantity(s)` and `Value()`, of the Kubernetes library
  pub parse_quantity : String → Outcome ℤ
  -- `cloudevents.NewClientHTTP(…)`
  pub new_http_client : Exec State (Unit {0})

-- How the configuration of consumer `name` of `stream` reads on the server: the documented effect of
-- each operation on it.
pub record IsLawful (N : Nats) (consumer : N.State → String → String → Option ConsumerConfig)
    : Type 0 where
  pub consumer-durable :
      (s : N.State) (stream name : String) (config : ConsumerConfig)
      → consumer s stream name ≡ some config
      → config.durable ≡ name
  pub consumer_info-ok :
      (c : N.Context) (stream name : String) (s t : N.State) (info : ConsumerInfo)
      → N.consumer_info c stream name s ≡ (ok info, t)
      → consumer t stream name ≡ some info.config
  pub consumer_info-not_found :
      (c : N.Context) (stream name : String) (s t : N.State) (e : Error)
      → N.consumer_info c stream name s ≡ (err e, t)
      → is_error e N.consumer_not_found ≡ true
      → consumer t stream name ≡ none
  pub consumer_info-Keeps :
      (c : N.Context) (stream name : String) (s : N.State)
      → consumer (N.consumer_info c stream name s).1 ≡ consumer s
  pub add_consumer-ok :
      (c : N.Context) (stream : String) (config : ConsumerConfig) (s t : N.State)
      (info : ConsumerInfo)
      → N.add_consumer c stream config s ≡ (ok info, t)
      → (info.config ≡ config) × (consumer t stream config.durable ≡ some config)
  pub add_consumer-Keeps :
      (c : N.Context) (stream : String) (config : ConsumerConfig) (s : N.State)
      (stream' name : String)
      → ((stream' ≡ stream) × (name ≡ config.durable) → ⊥)
      → consumer (N.add_consumer c stream config s).1 stream' name ≡ consumer s stream' name
  pub update_consumer-ok :
      (c : N.Context) (stream : String) (config : ConsumerConfig) (s t : N.State)
      → N.update_consumer c stream config s ≡ (ok tt, t)
      → consumer t stream config.durable ≡ some config
  pub update_consumer-Keeps :
      (c : N.Context) (stream : String) (config : ConsumerConfig) (s : N.State)
      (stream' name : String)
      → ((stream' ≡ stream) × (name ≡ config.durable) → ⊥)
      → consumer (N.update_consumer c stream config s).1 stream' name ≡ consumer s stream' name
  pub delete_consumer-ok :
      (c : N.Context) (stream name : String) (s t : N.State)
      → N.delete_consumer c stream name s ≡ (ok tt, t)
      → consumer t stream name ≡ none
  pub delete_consumer-not_found :
      (c : N.Context) (stream name : String) (s t : N.State) (e : Error)
      → N.delete_consumer c stream name s ≡ (err e, t)
      → is_error e N.consumer_not_found ≡ true
      → consumer t stream name ≡ none
  pub delete_consumer-Keeps :
      (c : N.Context) (stream name : String) (s : N.State) (stream' name' : String)
      → ((stream' ≡ stream) × (name' ≡ name) → ⊥)
      → consumer (N.delete_consumer c stream name s).1 stream' name' ≡ consumer s stream' name'
  -- a subscription that is bound to a consumer made by hand never deletes it
  pub subscribe-Keeps :
      (c : N.Context) (subject : String) (o : SubOpts) (s : N.State)
      → consumer (N.subscribe c subject o s).1 ≡ consumer s
  pub unsubscribe-Keeps :
      (sub : N.Sub) (s : N.State) → consumer (N.unsubscribe sub s).1 ≡ consumer s
  pub consumers-Keeps :
      (c : N.Context) (stream : String) (s : N.State)
      → consumer (N.consumers c stream s).1 ≡ consumer s
  pub new_inbox-Keeps : (s : N.State) → consumer (N.new_inbox s).1 ≡ consumer s
  -- connecting and looking after the stream leave its consumers
  pub connect-Keeps :
      (url : String) (max : ℤ) (wait : ℕ) (s : N.State)
      → consumer (N.connect url max wait s).1 ≡ consumer s
  pub set_closed_handler-Keeps :
      (c : N.Conn) (s : N.State) → consumer (N.set_closed_handler c s) ≡ consumer s
  pub set_reconnect_handler-Keeps :
      (c : N.Conn) (s : N.State) → consumer (N.set_reconnect_handler c s) ≡ consumer s
  pub jet_stream-Keeps : (c : N.Conn) (s : N.State) → consumer (N.jet_stream c s).1 ≡ consumer s
  pub stream_info-Keeps :
      (c : N.Context) (stream : String) (s : N.State)
      → consumer (N.stream_info c stream s).1 ≡ consumer s
  pub add_stream-Keeps :
      (c : N.Context) (config : StreamConfig) (s : N.State)
      → consumer (N.add_stream c config s).1 ≡ consumer s
  pub update_stream-Keeps :
      (c : N.Context) (config : StreamConfig) (s : N.State)
      → consumer (N.update_stream c config s).1 ≡ consumer s
  pub new_http_client-Keeps : (s : N.State) → consumer (N.new_http_client s).1 ≡ consumer s
