-- ===== src/Operator/Nats/Steady.antt =====
-- The NATS backend keeps every core in which the managers that are started are there.
use eventing_manager.Base.{◌≢◌, String, Option, none, some, List, [], ◌∷◌}
use eventing_manager.Exec.{panic}
use eventing_manager.Exec.Leads.{Leads-pure, Leads-lift, Leads-modify, Leads-when, Leads-bind}
use eventing_manager.Operator.{Cluster}
use eventing_manager.Operator.Core.{
  Core, IsCalm, At, Steady, Steady-on_cluster, Leads-looking, Leads-with_backend, Leads-produce,
  Leads-advance_cluster,
}
use eventing_manager.Operator.Nats.{
  url_of, get_nats_url, get_nats_config, watch_with, start_watch, start_nats_cr_watch, stop_watch,
  stop_nats_cr_watch, connection_of, connect_to_nats, disconnect_from, disconnect_from_nats,
  reset_nats_connection,
}

url_of-total : (C : Cluster) (resources : List (String × String)) → url_of C resources ≢ panic
unfolding url_of
url_of-total C [] = λ e. cc
url_of-total C ((name, namespace) ∷ rest) = λ e. cc

module _ {C : Cluster} (calm : IsCalm C) {K : Core C → Type 0} where
  watch_with-Steady : (w : C.Watcher) → Steady K (watch_with C w)
  unfolding watch_with
  watch_with-Steady w = Leads-looking _ (λ x p.
      Leads-bind _ _ _ (Steady-on_cluster _ (calm.watch_events _ _)) (λ _. Leads-advance_cluster _))

  start_watch-Steady : (o : Option C.Watcher) → Steady K (start_watch C o)
  unfolding start_watch
  start_watch-Steady (some w) =
      Leads-looking _ (λ x p. Leads-when _ (λ _. watch_with-Steady w) (λ _ s q. q))
  start_watch-Steady none = Leads-looking _ (λ x p.
      Leads-bind _ (λ _. At K) _ (Leads-produce _ (λ s t q. record { holds = q.holds }))
        (λ w.
          Leads-bind _ _ _ (Leads-modify _ (λ s q. record { holds = q.holds }))
            (λ _. watch_with-Steady w)))

  pub start_nats_cr_watch-Steady : Steady K (start_nats_cr_watch C)
  unfolding start_nats_cr_watch
  start_nats_cr_watch-Steady = Leads-looking _ (λ x p. start_watch-Steady _)

  stop_watch-Steady :
      (o : Option C.Watcher) (namespace : String) → Steady K (stop_watch C o namespace)
  unfolding stop_watch
  stop_watch-Steady none namespace = Leads-pure _ (λ s p. p)
  stop_watch-Steady (some w) namespace =
      Leads-bind _ _ _ (Leads-advance_cluster _)
        (λ _. Leads-modify _ (λ s q. record { holds = q.holds }))

  pub stop_nats_cr_watch-Steady : Steady K (stop_nats_cr_watch C)
  unfolding stop_nats_cr_watch
  stop_nats_cr_watch-Steady = Leads-looking _ (λ x p. stop_watch-Steady _ _)

  connection_of-Steady : (o : Option C.Connection) → Steady K (connection_of C o)
  unfolding connection_of
  connection_of-Steady (some c) = Leads-pure _ (λ s p. p)
  connection_of-Steady none =
      Leads-bind _ (λ _. At K) _ (Leads-produce _ (λ s t q. record { holds = q.holds }))
        (λ c.
          Leads-bind _ _ _ (Leads-modify _ (λ s q. record { holds = q.holds }))
            (λ _. Leads-pure _ (λ s p. p)))

  pub connect_to_nats-Steady : Steady K (connect_to_nats C)
  unfolding connect_to_nats
  connect_to_nats-Steady = Leads-looking _ (λ x p.
      Leads-bind _ _ _ (connection_of-Steady _) (λ c. Steady-on_cluster _ (calm.connect_nats _ _)))

  disconnect_from-Steady : (o : Option C.Connection) → Steady K (disconnect_from C o)
  unfolding disconnect_from
  disconnect_from-Steady none = Leads-pure _ (λ s p. p)
  disconnect_from-Steady (some c) = Leads-advance_cluster _

  pub disconnect_from_nats-Steady : Steady K (disconnect_from_nats C)
  unfolding disconnect_from_nats
  disconnect_from_nats-Steady = Leads-looking _ (λ x p. disconnect_from-Steady _)

  pub reset_nats_connection-Steady : Steady K (reset_nats_connection C)
  unfolding reset_nats_connection
  reset_nats_connection-Steady =
      Leads-bind _ _ _ disconnect_from_nats-Steady
        (λ _. Leads-modify _ (λ s q. record { holds = q.holds }))

  get_nats_url-Steady : (namespace : String) → Steady K (get_nats_url C namespace)
  unfolding get_nats_url
  get_nats_url-Steady namespace =
      Leads-bind _ _ _ (Steady-on_cluster _ (calm.get_nats_resources _))
        (λ resources. Leads-lift _ (url_of-total C resources) (λ a s e p. p) (λ s p. p))

  pub get_nats_config-Steady :
      ((c : Core C) → K c → c.backend ≢ none) → Steady K (get_nats_config C)
  unfolding get_nats_config
  get_nats_config-Steady has = Leads-looking _ (λ x p.
      Leads-bind _ _ _ (Leads-lift _ (calm.env_nats_config _) (λ a s e q. q) (λ s q. q)) (λ config.
        Leads-bind _ _ _ (get_nats_url-Steady _)
          (λ url. Leads-with_backend _ (λ s q. has _ q.holds) (λ b. Leads-pure _ (λ s q. q)))))
