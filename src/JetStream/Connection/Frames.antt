-- ===== src/JetStream/Connection/Frames.antt =====
-- What connecting leaves alone: the backend's memory, and the consumers on a lawful server.
use eventing_manager.Base.{◌≡◌, refl, Bool, Option, none, some, ℤ, String, arith}
use eventing_manager.Base.Dict.{Dict}
use eventing_manager.Cleaner.{Cleaner}
use eventing_manager.Exec.{Outcome, ok, err, panic, Exec, lift}
use eventing_manager.Exec.Keeps.{
  Keeps, Keeps-fail, Keeps-lift, Keeps-gets, Keeps-modify, Keeps-when, Keeps-bind, Keeps-attempt,
}
use eventing_manager.JetStream.{JetStream, NatsConfig, SubscriptionSubjectIdentifier}
use eventing_manager.JetStream.Connection.{
  on_server, with_context, adopt_conn, init_nats_conn, jet_stream_context, adopt_context,
  init_js_context, init_cloud_event_client, repair_stream,
  ensure_stream_exists_and_is_configured_correctly, initialize, report_failure,
  check_jetstream_connection,
}
use eventing_manager.JetStream.NatsClient.{Nats, IsLawful, StreamConfig, ConsumerConfig}
use eventing_manager.Exec.Keeps.{Keeps-if}
use eventing_manager.Base.{ℕ}

-- The part of the state that the library does not own.
pub record Memory (N : Nats) : Type 0 where
  pub config : NatsConfig
  pub subscriptions : Dict SubscriptionSubjectIdentifier N.Sub
  pub sinks : Dict String String
  pub cleaner : Cleaner
  pub default_max_in_flight_messages : ℤ

module _ {N : Nats} where
  abbrev pub memory : JetStream N → Memory N
  memory s = record {
    config = s.config;
    subscriptions = s.subscriptions;
    sinks = s.sinks;
    cleaner = s.cleaner;
    default_max_in_flight_messages = s.default_max_in_flight_messages;
  }

  -- A view of the memory and of the library's state.
  module _ {V : Type 0} (f : Memory N → N.State → V) where
    abbrev pub view : JetStream N → V
    view s = f (memory s) s.server

    module _ {A : Type 0} where
      pub Keeps-on_server :
          (m : Exec N.State A)
          → ((k : Memory N) (t : N.State) → f k (m t).1 ≡ f k t)
          → Keeps view (on_server m)
      unfolding on_server
      Keeps-on_server m h = record { at = λ s. h (memory s) s.server }

      pub Keeps-with_context :
          (call : N.Context → Exec N.State A)
          → ((c : N.Context) (k : Memory N) (t : N.State) → f k (call c t).1 ≡ f k t)
          → Keeps view (with_context call)
      unfolding with_context on_server
      Keeps-with_context call h = record { at = λ s. go s s.js_ctx }
        where
          go :
              (s : JetStream N) (o : Option N.Context)
              → view
                  (elim o as (λ _. Outcome A × JetStream N) [
                    | none ↦ (panic, s)
                    | some c ↦ on_server (call c) s
                  ]).1
                ≡ view s
          go s none = refl
          go s (some c) = h c (memory s) s.server

    -- The view is blind to what connecting does to the library.
    pub record IsBlind : Type 0 where
      pub connect :
          (url : String) (max : ℤ) (wait : ℕ) (k : Memory N) (t : N.State)
          → f k (N.connect url max wait t).1 ≡ f k t
      pub set_closed_handler :
          (c : N.Conn) (k : Memory N) (t : N.State) → f k (N.set_closed_handler c t) ≡ f k t
      pub set_reconnect_handler :
          (c : N.Conn) (k : Memory N) (t : N.State) → f k (N.set_reconnect_handler c t) ≡ f k t
      pub jet_stream : (c : N.Conn) (k : Memory N) (t : N.State) → f k (N.jet_stream c t).1 ≡ f k t
      pub stream_info :
          (c : N.Context) (n : String) (k : Memory N) (t : N.State)
          → f k (N.stream_info c n t).1 ≡ f k t
      pub add_stream :
          (c : N.Context) (n : StreamConfig) (k : Memory N) (t : N.State)
          → f k (N.add_stream c n t).1 ≡ f k t
      pub update_stream :
          (c : N.Context) (n : StreamConfig) (k : Memory N) (t : N.State)
          → f k (N.update_stream c n t).1 ≡ f k t
      pub new_http_client : (k : Memory N) (t : N.State) → f k (N.new_http_client t).1 ≡ f k t

    module _ (b : IsBlind) where
      adopt_conn-Keeps : (handler : Bool) (r : Outcome N.Conn) → Keeps view (adopt_conn N handler r)
      unfolding adopt_conn
      adopt_conn-Keeps handler (err e) = record { at = λ s. refl }
      adopt_conn-Keeps handler panic = record { at = λ s. refl }
      adopt_conn-Keeps handler (ok c) = record {
        at = λ s. ground (
          arith,
          b.set_reconnect_handler c (memory s) s.server,
          b.set_reconnect_handler c (memory s) (N.set_closed_handler c s.server),
          b.set_closed_handler c (memory s) s.server,
        );
      }

      init_nats_conn-Keeps : (handler : Bool) → Keeps view (init_nats_conn N handler)
      unfolding init_nats_conn
      init_nats_conn-Keeps handler = Keeps-bind _ _ (Keeps-gets _) (λ s. Keeps-when _ _ (
          Keeps-bind _ _ (Keeps-attempt _ (Keeps-on_server _ (λ k t. b.connect _ _ _ k t)))
            (adopt_conn-Keeps handler)))

      jet_stream_context-Keeps :
          (c : Option N.Conn) → Keeps view (on_server (jet_stream_context N c))
      unfolding jet_stream_context lift
      jet_stream_context-Keeps none = Keeps-on_server (lift panic) (λ k t. refl)
      jet_stream_context-Keeps (some c) = Keeps-on_server _ (b.jet_stream c)

      adopt_context-Keeps : (r : Outcome N.Context) → Keeps view (adopt_context N r)
      unfolding adopt_context
      adopt_context-Keeps (ok c) = Keeps-modify _ (λ s. refl)
      adopt_context-Keeps (err e) = Keeps-fail _
      adopt_context-Keeps panic = Keeps-lift _

      init_js_context-Keeps : Keeps view (init_js_context N)
      unfolding init_js_context
      init_js_context-Keeps =
          Keeps-bind _ _ (Keeps-gets _)
            (λ c. Keeps-bind _ _ (Keeps-attempt _ (jet_stream_context-Keeps c)) adopt_context-Keeps)

      init_cloud_event_client-Keeps : Keeps view (init_cloud_event_client N)
      unfolding init_cloud_event_client
      init_cloud_event_client-Keeps = Keeps-bind _ _ (Keeps-gets _) (λ has.
          Keeps-when _ _ (
            Keeps-bind _ _ (Keeps-on_server _ b.new_http_client) (λ _. Keeps-modify _ (λ s. refl))))

      repair_stream-Keeps :
          (want : StreamConfig) (r : Outcome StreamConfig) → Keeps view (repair_stream N want r)
      unfolding repair_stream
      repair_stream-Keeps want (ok got) =
          Keeps-when _ _ (Keeps-with_context _ (λ c. b.update_stream c want))
      repair_stream-Keeps want (err e) =
          Keeps-if _ _ _ (Keeps-with_context _ (λ c. b.add_stream c want)) (Keeps-fail e)
      repair_stream-Keeps want panic = Keeps-lift _

      ensure_stream-Keeps : Keeps view (ensure_stream_exists_and_is_configured_correctly N)
      unfolding ensure_stream_exists_and_is_configured_correctly
      ensure_stream-Keeps = Keeps-bind _ _ (Keeps-gets _) (λ config.
          Keeps-bind _ _ (Keeps-lift _) (λ want.
            Keeps-bind _ _
              (Keeps-attempt _ (Keeps-with_context _ (λ c. b.stream_info c config.js_stream_name)))
              (repair_stream-Keeps want)))

      pub initialize-Keeps : (handler : Bool) → Keeps view (initialize N handler)
      unfolding initialize
      initialize-Keeps handler = Keeps-bind _ _ (Keeps-gets _) (λ config.
          Keeps-bind _ _ (Keeps-lift _) (λ _. Keeps-bind _ _ (init_nats_conn-Keeps handler) (λ _.
            Keeps-bind _ _ init_js_context-Keeps
              (λ _. Keeps-bind _ _ init_cloud_event_client-Keeps (λ _. ensure_stream-Keeps)))))

      report_failure-Keeps : (r : Outcome (Unit {0})) → Keeps view (report_failure N r)
      unfolding report_failure
      report_failure-Keeps (ok _) = record { at = λ s. refl }
      report_failure-Keeps (err e) = record { at = λ s. ground arith }
      report_failure-Keeps panic = record { at = λ s. refl }

      pub check_jetstream_connection-Keeps : Keeps view (check_jetstream_connection N)
      unfolding check_jetstream_connection
      check_jetstream_connection-Keeps = Keeps-bind _ _ (Keeps-gets _) (λ s. Keeps-when _ _ (
          Keeps-bind _ _ (Keeps-attempt _ (initialize-Keeps s.has_conn_closed_handler))
            report_failure-Keeps))

module _ (N : Nats) where
  -- A view of the memory alone is blind.
  pub memory-IsBlind : IsBlind {N = N} (λ k t. k)
  memory-IsBlind = record {
    connect = λ url max wait k t. refl;
    set_closed_handler = λ c k t. refl;
    set_reconnect_handler = λ c k t. refl;
    jet_stream = λ c k t. refl;
    stream_info = λ c n k t. refl;
    add_stream = λ c n k t. refl;
    update_stream = λ c n k t. refl;
    new_http_client = λ k t. refl;
  }

  -- So is the view of the consumers on a lawful server.
  pub consumer-IsBlind :
      (consumer : N.State → String → String → Option ConsumerConfig)
      → IsLawful N consumer
      → IsBlind {N = N} (λ k t. consumer t)
  consumer-IsBlind consumer l = record {
    connect = λ url max wait k t. l.connect-Keeps url max wait t;
    set_closed_handler = λ c k t. l.set_closed_handler-Keeps c t;
    set_reconnect_handler = λ c k t. l.set_reconnect_handler-Keeps c t;
    jet_stream = λ c k t. l.jet_stream-Keeps c t;
    stream_info = λ c n k t. l.stream_info-Keeps c n t;
    add_stream = λ c n k t. l.add_stream-Keeps c n t;
    update_stream = λ c n k t. l.update_stream-Keeps c n t;
    new_http_client = λ k t. l.new_http_client-Keeps t;
  }
