-- ===== src/NatsConnection/Laws.antt =====
-- What `Connect` guarantees, and which connections get the handlers.
use eventing_manager.Base.{
  ◌≡◌, refl, sym, ap, ◌∙◌, Bool, true, false, not, Option, none, some, if◌then◌else◌, arith,
}
use eventing_manager.Exec.{ok, Exec, pure, fail, gets, modify, when, ◌>>=◌, ◌>>◌, ◌>>◌}
use eventing_manager.Exec.Rules.{
  Ensures, Ensures-bind, Ensures-gets, Ensures-when, Ensures-fail, Ensures-modify,
}
use eventing_manager.NatsConnection.{
  Natsio, Connection, adopt, ConnectionBuilder, is_connected, open_connection,
  register_reconnect_handler, register_disconnect_err_handler, reconnect, connect, build,
  err_cannot_connect,
}

module _ {L : Natsio} where
  -- A `reconnect` that returns leaves a connected connection.
  reconnect-Ensures :
      Ensures (λ (_ : Connection L). Unit {0}) reconnect (λ _ c. is_connected c ≡ true)
  unfolding reconnect
  reconnect-Ensures =
      Ensures-bind _ _ (λ _ _. Unit {0}) _ _ (record { at = λ s p a t e. tt })
        (λ _.
          Ensures-bind _ _ (λ _ _. Unit {0}) _ _ (Ensures-modify _ _ _ (λ s p. tt))
            (λ _.
              Ensures-bind _ _ (λ _ _. Unit {0}) _ _ (Ensures-modify _ _ _ (λ s p. tt))
                (λ _.
                  Ensures-bind _ _ (λ b c. b ≡ is_connected c) _ _
                    (Ensures-gets _ _ _ (λ s p. refl))
                    (λ b.
                      Ensures-when _ _ (not b) _ (λ h. Ensures-fail _ _ _)
                        (λ h s p. sym p ∙ ground arith)))))

  -- `Connect` returns nil for a connected connection only.
  pub connect-is_connected : (c d : Connection L) → connect c ≡ (ok tt, d) → is_connected d ≡ true
  unfolding connect
  connect-is_connected c d e =
      (Ensures-bind (λ _. Unit {0}) _ (λ b c. b ≡ is_connected c) _ (λ _ c. is_connected c ≡ true)
          (Ensures-gets _ _ _ (λ s p. refl))
          (λ b.
            Ensures-when _ _ (not b) _
              (λ h. record { at = λ s p a t e. reconnect-Ensures.at s tt a t e })
              (λ h s p. sym p ∙ ground arith))).at
        c tt tt d e

  when-fail_state : (b : Bool) (c : Connection L) → (when b (fail err_cannot_connect) c).1 ≡ c
  unfolding when fail pure
  when-fail_state true c = refl
  when-fail_state false c = refl

  registering : Exec (Connection L) (Unit {0})
  registering = do
    modify register_reconnect_handler
    modify register_disconnect_err_handler
    connected ← gets is_connected
    when (not connected) (fail err_cannot_connect)

  -- What `reconnect` leaves once the library has connected.
  reconnect-state :
      (c d : Connection L)
      → open_connection c ≡ (ok tt, d)
      → (reconnect c).1 ≡ register_disconnect_err_handler (register_reconnect_handler d)
  unfolding reconnect registering ◌>>=◌ modify gets
  reconnect-state c d e =
      let registered = register_disconnect_err_handler (register_reconnect_handler d) in
      ap (λ o. (((λ (_ : Connection L). o) >>= λ (_ : Unit {0}). registering) c).1) e
      ∙ when-fail_state (not (is_connected registered)) registered

  opened :
      (c : Connection L) (conn : L.Conn) (t : L.State)
      → L.connect c.url c.name c.server ≡ (ok conn, t)
      → open_connection c ≡ (ok tt, record c { conn = some conn; server = t })
  unfolding open_connection
  opened c conn t e = ap (adopt c) e

  connect-reconnect : (c : Connection L) → is_connected c ≡ false → connect c ≡ reconnect c
  unfolding connect ◌>>=◌ gets when
  connect-reconnect c n = ap (λ b. when (not b) reconnect c) n

  kept :
      (o : Option L.Conn) (b : Bool) (c : Connection L) (f : L.Conn → Connection L)
      → b ≡ true
      → (elim o [ none ↦ c | some conn ↦ if b then c else f conn ]) ≡ c
  kept none b c f h = refl
  kept (some conn) b c f h = ap (λ b. if b then c else f conn) h

  registered_already :
      (c : Connection L)
      → c.reconnect_handler_registered ≡ true
      → c.disconnect_err_handler_registered ≡ true
      → register_disconnect_err_handler (register_reconnect_handler c) ≡ c
  unfolding register_reconnect_handler register_disconnect_err_handler
  registered_already c r d =
      ap register_disconnect_err_handler (kept c.conn c.reconnect_handler_registered c _ r)
      ∙ kept c.conn c.disconnect_err_handler_registered c _ d

  -- Where both handlers were registered before, the connection is lost and the library connects again,
  -- the new connection gets no handler: the library's state is the one that its own `Connect` left.
  pub connect-replaced :
      (c : Connection L) (conn : L.Conn) (t : L.State)
      → is_connected c ≡ false
      → c.reconnect_handler_registered ≡ true
      → c.disconnect_err_handler_registered ≡ true
      → L.connect c.url c.name c.server ≡ (ok conn, t)
      → ((connect c).1.server ≡ t) × ((connect c).1.conn ≡ some conn)
  connect-replaced c conn t n r d e =
      let q =
        ap (λ o. o.1) (connect-reconnect c n)
        ∙ reconnect-state c _ (opened c conn t e)
        ∙ registered_already _ r d in
      (ap (λ (x : Connection L). x.server) q, ap (λ (x : Connection L). x.conn) q)

module _ (L : Natsio) where
  -- Where the library connects, the first `Connect` of a built connection registers both handlers on
  -- the new connection.
  pub connect-build :
      (b : ConnectionBuilder) (s t : L.State) (conn : L.Conn)
      → L.connect b.url b.name s ≡ (ok conn, t)
      → (connect (build {L = L} b s)).1.server
        ≡ L.set_disconnect_err_handler conn (L.set_reconnect_handler conn t)
  unfolding build is_connected register_reconnect_handler register_disconnect_err_handler
  connect-build b s t conn e =
      ap (λ o. o.1.server) (connect-reconnect (build {L = L} b s) refl)
      ∙ ap (λ (x : Connection L). x.server)
          (reconnect-state (build {L = L} b s) _ (opened (build {L = L} b s) conn t e))
