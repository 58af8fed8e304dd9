-- ===== src/NatsConnection.antt =====
-- The connection that watches NATS (internal/connection/nats: connection.go, builder.go).
pub mod Laws
use eventing_manager.Base.{
  String, Bool, true, false, ◌||◌, not, Option, none, some, ◌==◌, string_eq, if◌then◌else◌,
}
use eventing_manager.Base.Text.{is_all_space}
use eventing_manager.Errors.{Error, sentinel}
use eventing_manager.Exec.{
  Outcome, ok, err, panic, Exec, pure, fail, lift, gets, modify, attempt, when, ◌>>=◌, ◌>>◌,
}

abbrev pub err_cannot_connect : Error
err_cannot_connect = sentinel "cannot connect to NATS"

abbrev pub err_empty_connection_url : Error
err_empty_connection_url = sentinel "empty NATS connection URL"

abbrev pub err_empty_connection_name : Error
err_empty_connection_name = sentinel "empty NATS connection name"

-- What the connection uses of `nats.go`: operations over its unknown state.
pub record Natsio : Type 1 where
  pub State : Type 0
  pub Conn : Type 0
  -- the options with which `Connect` is called, by the connection name
  pub connect : String → String → Exec State Conn
  pub is_connected : Conn → State → Bool
  pub is_closed : Conn → State → Bool
  pub close : Conn → State → State
  pub set_reconnect_handler : Conn → State → State
  pub set_disconnect_err_handler : Conn → State → State

-- `type connection struct`, with the library's state
pub record Connection (L : Natsio) : Type 0 where
  pub url : String
  pub name : String
  pub conn : Option L.Conn
  pub reconnect_handler_registered : Bool
  pub disconnect_err_handler_registered : Bool
  pub server : L.State

pub record ConnectionBuilder : Type 0 where
  pub url : String
  pub name : String

unfoldable pub new_builder : String → String → Outcome ConnectionBuilder
new_builder url name =
    if is_all_space url
    then err err_empty_connection_url
    else (if is_all_space name
        then err err_empty_connection_name
        else ok (record { url = url; name = name }))

module _ {L : Natsio} where
  unfoldable pub build : ConnectionBuilder → L.State → Connection L
  build b t = record {
    url = b.url;
    name = b.name;
    conn = none;
    reconnect_handler_registered = false;
    disconnect_err_handler_registered = false;
    server = t;
  }

  unfoldable pub is_connected : Connection L → Bool
  is_connected c = elim c.conn [ none ↦ false | some conn ↦ L.is_connected conn c.server ]

  -- `c.conn, err = natsio.Connect(…)`: an error comes with a nil connection.
  adopt : Connection L → Outcome L.Conn × L.State → Outcome (Unit {0}) × Connection L
  adopt c (ok conn, t) = (ok tt, record c { conn = some conn; server = t })
  adopt c (err e, t) = (err e, record c { conn = none; server = t })
  adopt c (panic, t) = (panic, record c { server = t })

  unfoldable pub open_connection : Exec (Connection L) (Unit {0})
  unfolding adopt
  open_connection c = adopt c (L.connect c.url c.name c.server)

  unfoldable pub register_reconnect_handler : Connection L → Connection L
  register_reconnect_handler c = elim c.conn [
    | none ↦ c
    | some conn ↦ if c.reconnect_handler_registered then c else record c {
      server = L.set_reconnect_handler conn c.server;
      reconnect_handler_registered = true;
    }
  ]

  unfoldable pub register_disconnect_err_handler : Connection L → Connection L
  register_disconnect_err_handler c = elim c.conn [
    | none ↦ c
    | some conn ↦ if c.disconnect_err_handler_registered then c else record c {
      server = L.set_disconnect_err_handler conn c.server;
      disconnect_err_handler_registered = true;
    }
  ]

  -- From `c.conn, err = natsio.Connect(…)` on.
  unfoldable pub reconnect : Exec (Connection L) (Unit {0})
  reconnect = do
    open_connection
    modify register_reconnect_handler
    modify register_disconnect_err_handler
    connected ← gets is_connected
    when (not connected) (fail err_cannot_connect)

  unfoldable pub connect : Exec (Connection L) (Unit {0})
  connect = do connected ← gets is_connected; when (not connected) reconnect

  unfoldable pub disconnect : Connection L → Connection L
  disconnect c = elim c.conn [
    | none ↦ c
    | some conn ↦
        if L.is_closed conn c.server then c else record c { server = L.close conn c.server }
  ]
