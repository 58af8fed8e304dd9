-- ===== src/Tests/Names.antt =====
-- Keys, cleaned texts, errors, and the connection that watches NATS.
use eventing_manager.Base.{
  ◌≡◌, refl, ℕ, ◌≤◌, String, Bool, true, false, ◌||◌, not, nat_beq, some, [], ◌∷◌, inl, inr,
  contains, string_eq,
}
use eventing_manager.Base.Text.{has_char, all_chars, count_char, is_alphanumeric}
use eventing_manager.Cleaner.{
  clean_jetstream_source, clean_event_mesh_event_type, invalid_event_mesh_type_character,
}
use eventing_manager.Cleaner.Laws.{
  clean_jetstream_source-no_separator, clean_event_mesh_event_type_lem,
}
use eventing_manager.EventTypeName.{
  clean, parse, parse_parts, parse_event, build, get_clean_name, clean_event_type,
  err_invalid_format,
}
use eventing_manager.EventTypeName.Laws.{clean-all_chars, parse_parts-length}
use eventing_manager.Exec.{ok, pure, gets, modify, when, ◌>>=◌}
use eventing_manager.JetStream.Subjects.{
  namespaced_name, is_js_sub_associated_with_kyma_sub, new_subscription_subject_identifier,
  create_key_prefix, get_unique_event_types,
}
use eventing_manager.JetStream.Subjects.Laws.{
  namespaced_name_lem, associated-slash, get_unique_event_types_lem, get_unique_types-eq,
  IsDistinct,
}
use eventing_manager.NatsConnection.{
  Natsio, Connection, ConnectionBuilder, is_connected, connect, build as build_connection,
  open_connection, register_reconnect_handler, register_disconnect_err_handler, reconnect,
}
use eventing_manager.NatsConnection.Laws.{connect-is_connected, connect-replaced, connect-build}
use eventing_manager.Subscription.{Subscription}
use eventing_manager.Subscription.Types.{get_unique_types}
use eventing_manager.Base.{suc}

abbrev orders : Subscription
orders = record {
  namespace = "shop";
  name = "orders";
  finalizers = [];
  in_deletion = false;
  spec = record {
    sink = "http://orders.shop.svc.cluster.local";
    type_matching = "exact";
    source = "store";
    types = "order.created.v1" ∷ "order.paid.v1" ∷ "order.created.v1" ∷ [];
    config = [];
  };
  status = record { conditions = []; ready = false; types = []; backend = record { types = [] } };
}

abbrev digest : String → String
digest text = text

namespaced_name_lem_example :
    namespaced_name (new_subscription_subject_identifier digest orders "kyma.order.created.v1")
    ≡ ok (create_key_prefix orders)
namespaced_name_lem_example = namespaced_name_lem digest orders "kyma.order.created.v1" refl

associated-slash_example :
    is_js_sub_associated_with_kyma_sub
      (new_subscription_subject_identifier digest orders "kyma.order/created.v1")
      orders
    ≡ ok false
associated-slash_example = associated-slash digest orders "kyma.order/created.v1" refl

get_unique_event_types_lem_example :
    IsDistinct (get_unique_event_types orders.spec.types)
    × ((t : String)
        → contains t (get_unique_event_types orders.spec.types) ≡ contains t orders.spec.types)
get_unique_event_types_lem_example = get_unique_event_types_lem orders.spec.types

get_unique_types-eq_example : get_unique_types orders ≡ get_unique_event_types orders.spec.types
get_unique_types-eq_example = get_unique_types-eq orders

clean_jetstream_source-no_separator_example :
    (has_char b'.' (clean_jetstream_source "my.shop/eu") ≡ false)
    × (has_char b'/' (clean_jetstream_source "my.shop/eu") ≡ false)
clean_jetstream_source-no_separator_example = clean_jetstream_source-no_separator "my.shop/eu"

clean_event_mesh_event_type_lem_example :
    (all_chars
        (λ n. not (invalid_event_mesh_type_character n))
        (clean_event_mesh_event_type "a.b.c.d-e.v1")
      ≡ true)
    × (count_char b'.' (clean_event_mesh_event_type "a.b.c.d-e.v1") ≤ 2)
clean_event_mesh_event_type_lem_example = clean_event_mesh_event_type_lem "a.b.c.d-e.v1"

cleaned-example :
    clean "sap" "sap.my-shop.order.line.created.v1" ≡ inr "sap.myshop.orderline.created.v1"
unfolding clean parse parse_parts parse_event build get_clean_name clean_event_type
cleaned-example = refl

clean-all_chars_example :
    all_chars (λ n. is_alphanumeric n || nat_beq n b'.') "sap.myshop.orderline.created.v1" ≡ true
clean-all_chars_example =
    clean-all_chars "sap" "sap.my-shop.order.line.created.v1" "sap.myshop.orderline.created.v1"
      cleaned-example

parse_parts-length_example :
    (parse_parts ("shop" ∷ "order" ∷ "v1" ∷ []) ≡ inl err_invalid_format → 3 ≤ 3)
    × (3 ≤ 3 → parse_parts ("shop" ∷ "order" ∷ "v1" ∷ []) ≡ inl err_invalid_format)
parse_parts-length_example = parse_parts-length ("shop" ∷ "order" ∷ "v1" ∷ [])

-- The state counts the connections made and holds the handlers of the last.
record Broker : Type 0 where
  connections : ℕ
  reconnect : Bool
  disconnect : Bool

abbrev library : Natsio
library = record {
  State = Broker;
  Conn = ℕ;
  connect = λ url name s. (
    ok (suc s.connections),
    record { connections = suc s.connections; reconnect = false; disconnect = false },
  );
  is_connected = λ c s. nat_beq c s.connections;
  is_closed = λ c s. false;
  close = λ c s. record s { connections = 0 };
  set_reconnect_handler = λ c s. record s { reconnect = true };
  set_disconnect_err_handler = λ c s. record s { disconnect = true };
}

abbrev no_connections : Broker
no_connections = record { connections = 0; reconnect = false; disconnect = false }

abbrev builder : ConnectionBuilder
builder = record { url = "nats://eventing-nats"; name = "eventing" }

-- A connection whose first `*nats.Conn` was lost.
abbrev lost : Connection library
lost = record {
  url = "nats://eventing-nats";
  name = "eventing";
  conn = some 1;
  reconnect_handler_registered = true;
  disconnect_err_handler_registered = true;
  server = record { connections = 4; reconnect = true; disconnect = true };
}

connect-lost : (connect lost).0 ≡ ok tt
unfolding connect is_connected reconnect open_connection register_reconnect_handler
    register_disconnect_err_handler ◌>>=◌ gets modify when pure
connect-lost = refl

is_connected-lost : is_connected lost ≡ false
unfolding is_connected
is_connected-lost = refl

connect-is_connected_example : is_connected (connect lost).1 ≡ true
connect-is_connected_example =
    connect-is_connected lost (connect lost).1 (λ i. (connect-lost i, (connect lost).1))

connect-replaced_example :
    ((connect lost).1.server ≡ record { connections = 5; reconnect = false; disconnect = false })
    × ((connect lost).1.conn ≡ some 5)
connect-replaced_example =
    connect-replaced lost 5 (record { connections = 5; reconnect = false; disconnect = false })
      is_connected-lost refl refl refl

connect-build_example :
    (connect (build_connection {L = library} builder no_connections)).1.server
    ≡ record { connections = 1; reconnect = true; disconnect = true }
connect-build_example =
    connect-build library builder no_connections
      (record { connections = 1; reconnect = false; disconnect = false }) 1 refl
