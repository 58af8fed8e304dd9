-- ===== src/JetStream/Connection.antt =====
-- `Initialize`, `Shutdown` and what they call (jetstream.go).
pub mod Frames
use eventing_manager.Base.{
  Bool, true, false, ◌&&◌, ◌||◌, not, Option, none, some, ◌==◌, string_eq, if◌then◌else◌,
}
use eventing_manager.Errors.{Error, sentinel, note, wrap, is_error}
use eventing_manager.Exec.{
  Outcome, ok, err, panic, Exec, pure, fail, lift, gets, modify, attempt, when, ◌>>=◌, ◌>>◌,
}
use eventing_manager.JetStream.{JetStream, NatsConfig}
use eventing_manager.Cleaner.{Cleaner}
use eventing_manager.Base.{ℤ, []}
use eventing_manager.JetStream.Config.{
  validate_config, get_stream_config, stream_is_configured_correctly,
}
use eventing_manager.JetStream.NatsClient.{Nats, StreamConfig}

module _ {N : Nats} where
  -- An action of the library, on the state that it owns.
  unfoldable pub on_server : {A : Type 0} → Exec N.State A → Exec (JetStream N) A
  on_server m s = let (r, t) = m s.server in (r, record s { server = t })

  -- `js.jsCtx.…`: a call on a nil interface panics.
  unfoldable pub with_context : {A : Type 0} → (N.Context → Exec N.State A) → Exec (JetStream N) A
  with_context call s = elim s.js_ctx [ none ↦ (panic, s) | some c ↦ on_server (call c) s ]

module _ (N : Nats) where
  is_conn_ready : Option N.Conn → N.State → Bool
  is_conn_ready none t = false
  is_conn_ready (some c) t = N.is_connected c t

  -- What `initNATSConn` does with the outcome of `nats.Connect`.
  adopt_conn : Bool → Outcome N.Conn → Exec (JetStream N) (Unit {0})
  adopt_conn handler (err e) s = (err (note e "failed to connect to NATS JetStream: "), s)
  adopt_conn handler panic s = (panic, s)
  adopt_conn handler (ok c) s =
      if not (N.is_connected c s.server)
      then (err (sentinel "failed to connect to NATS JetStream: %!w(<nil>)"), s)
      else (
        ok tt,
        record s {
          conn = some c;
          has_conn_closed_handler = handler;
          server =
              N.set_reconnect_handler c
                (if handler then N.set_closed_handler c s.server else s.server);
        },
      )

  unfoldable pub init_nats_conn : Bool → Exec (JetStream N) (Unit {0})
  unfolding is_conn_ready adopt_conn
  init_nats_conn handler = do
    s ← gets (λ s. s)
    when (not (is_conn_ready s.conn s.server)) (do
      r ←
          attempt
            (on_server (N.connect s.config.url s.config.max_reconnects s.config.reconnect_wait))
      adopt_conn handler r)

  -- A nil connection panics here.
  jet_stream_context : Option N.Conn → Exec N.State N.Context
  jet_stream_context none = lift panic
  jet_stream_context (some c) = N.jet_stream c

  adopt_context : Outcome N.Context → Exec (JetStream N) (Unit {0})
  adopt_context (ok c) = modify (λ s. record s { js_ctx = some c })
  adopt_context (err e) = fail (note e "failed to create the JetStream context: ")
  adopt_context panic = lift panic

  unfoldable pub init_js_context : Exec (JetStream N) (Unit {0})
  unfolding jet_stream_context adopt_context
  init_js_context = do
    c ← gets (λ s. s.conn)
    r ← attempt (on_server (jet_stream_context c))
    adopt_context r

  unfoldable pub init_cloud_event_client : Exec (JetStream N) (Unit {0})
  init_cloud_event_client = do
    has ← gets (λ s. s.has_client)
    when (not has) (do on_server N.new_http_client; modify (λ s. record s { has_client = true }))

  -- The answer of `StreamInfo` decides between `AddStream`, `UpdateStream` and leaving the stream.
  repair_stream : StreamConfig → Outcome StreamConfig → Exec (JetStream N) (Unit {0})
  repair_stream want (err e) =
      if is_error e N.stream_not_found then with_context (λ c. N.add_stream c want) else fail e
  repair_stream want (ok got) =
      when (not (stream_is_configured_correctly got want))
        (with_context (λ c. N.update_stream c want))
  repair_stream want panic = lift panic

  unfoldable pub ensure_stream_exists_and_is_configured_correctly : Exec (JetStream N) (Unit {0})
  unfolding repair_stream
  ensure_stream_exists_and_is_configured_correctly = do
    config ← gets (λ s. s.config)
    want ← lift (get_stream_config N.parse_quantity config)
    r ← attempt (with_context (λ c. N.stream_info c config.js_stream_name))
    repair_stream want r

  unfoldable pub initialize : Bool → Exec (JetStream N) (Unit {0})
  initialize handler = do
    config ← gets (λ s. s.config)
    lift (validate_config config)
    init_nats_conn handler
    init_js_context
    init_cloud_event_client
    ensure_stream_exists_and_is_configured_correctly

  -- `handleReconnect`, which logs an error and goes on
  unfoldable pub handle_reconnect : Exec (JetStream N) (Unit {0})
  handle_reconnect = do attempt ensure_stream_exists_and_is_configured_correctly; pure tt

  -- `NewJetStream`, over the state of the library at the start
  unfoldable pub new_jetstream : NatsConfig → Cleaner → ℤ → N.State → JetStream N
  new_jetstream config cleaner default server = record {
    config = config;
    conn = none;
    js_ctx = none;
    has_conn_closed_handler = false;
    has_client = false;
    subscriptions = [];
    sinks = [];
    cleaner = cleaner;
    default_max_in_flight_messages = default;
    server = server;
  }

  unfoldable pub shutdown : JetStream N → JetStream N
  shutdown s = elim s.conn [
    | none ↦ s
    | some c ↦ if not (N.is_closed c s.server) then record s { server = N.close c s.server } else s
  ]

  -- The error text calls `js.Conn.Status()`, a panic on a nil connection.
  report_failure : Outcome (Unit {0}) → Exec (JetStream N) (Unit {0})
  report_failure (ok _) s = (ok tt, s)
  report_failure (err e) s = elim s.conn [
    | none ↦ (panic, s)
    | some _ ↦ (err (note e "failed to connect to JetStream with status"), s)
  ]
  report_failure panic s = (panic, s)

  unfoldable pub check_jetstream_connection : Exec (JetStream N) (Unit {0})
  unfolding is_conn_ready report_failure
  check_jetstream_connection = do
    s ← gets (λ s. s)
    when (not (is_conn_ready s.conn s.server))
        (do r ← attempt (initialize s.has_conn_closed_handler); report_failure r)
