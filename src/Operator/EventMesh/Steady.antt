-- ===== src/Operator/EventMesh/Steady.antt =====
-- The EventMesh backend keeps every core in which the managers that are started are there.
use eventing_manager.Base.{◌≢◌, String, none, string_eq}
use eventing_manager.Base.Dict.{Dict}
use eventing_manager.Base.Text.{is_all_space}
use eventing_manager.Exec.{ok-ne-panic, Exec, lift}
use eventing_manager.Exec.Leads.{
  Leads-pure, Leads-fail, Leads-lift, Leads-if, Leads-bind, Leads-handle,
}
use eventing_manager.Operator.{Cluster, Operator, Secret}
use eventing_manager.Operator.Core.{
  Core, IsCalm, At, Steady, Steady-on_cluster, Leads-looking, Leads-with_backend,
}
use eventing_manager.Operator.EventMesh.{
  noting, sync_publisher_proxy_secret, set_env, set_up_environment_for_event_mesh, secret_value,
  get_oauth2_client_credentials, read_domain_from_config_map, check_domain,
}
use eventing_manager.Operator.Secrets.Total.{with_value-total, get_secret_for_publisher-total}

module _ {C : Cluster} {K : Core C → Type 0} where
  pub noting-Steady :
      {A : Type 0} (text : String) (m : Exec (Operator C) A)
      → Steady K m
      → Steady K (noting C text m)
  unfolding noting
  noting-Steady text m h =
      Leads-handle _ _ _ _ _ h (λ e. Leads-fail _ (λ s p. p)) (λ a. Leads-pure _ (λ s p. p))

  secret_value-Steady :
      (secret_name key : String) (data_of : Dict String String)
      → Steady K (lift (secret_value C secret_name key data_of))
  unfolding secret_value
  secret_value-Steady secret_name key data_of =
      Leads-lift _ (with_value-total _ _ _ (λ v. ok-ne-panic v)) (λ a s e p. p) (λ s p. p)

  module _ (calm : IsCalm C) where
    pub sync_publisher_proxy_secret-Steady :
        (ns : String) (secret : Secret) → Steady K (sync_publisher_proxy_secret C ns secret)
    unfolding sync_publisher_proxy_secret
    sync_publisher_proxy_secret-Steady ns secret =
        Leads-bind _ (λ _. At K) _
          (noting-Steady _ _ (
            Leads-lift _ (get_secret_for_publisher-total C calm.unmarshal_messages secret ns)
              (λ a s e p. p) (λ s p. p)))
          (λ desired. Steady-on_cluster _ (calm.patch_apply desired))

    set_env-Steady : (name value : String) → Steady K (set_env C name value)
    unfolding set_env
    set_env-Steady name value = noting-Steady _ _ (Steady-on_cluster _ (calm.set_env name value))

    pub set_up_environment_for_event_mesh-Steady :
        ((c : Core C) → K c → c.backend ≢ none)
        → (secret : Secret) → Steady K (set_up_environment_for_event_mesh C secret)
    unfolding set_up_environment_for_event_mesh
    set_up_environment_for_event_mesh-Steady has secret =
        Leads-bind _ _ _ (set_env-Steady _ _) (λ _. Leads-bind _ _ _ (set_env-Steady _ _) (λ _.
          Leads-bind _ _ _ (set_env-Steady _ _) (λ _. Leads-bind _ _ _ (set_env-Steady _ _) (λ _.
            Leads-bind _ _ _ (set_env-Steady _ _)
              (λ _. Leads-with_backend _ (λ s p. has _ p.holds) (λ b. set_env-Steady _ _))))))

    pub get_oauth2_client_credentials-Steady :
        (namespace : String) → Steady K (get_oauth2_client_credentials C namespace)
    unfolding get_oauth2_client_credentials
    get_oauth2_client_credentials-Steady namespace = Leads-looking _ (λ x p.
        Leads-bind _ _ _ (Steady-on_cluster _ (calm.get_secret _)) (λ secret.
          Leads-bind _ _ _ (secret_value-Steady _ _ _) (λ a.
            Leads-bind _ _ _ (secret_value-Steady _ _ _) (λ b.
              Leads-bind _ _ _ (secret_value-Steady _ _ _) (λ c.
                Leads-bind _ _ _ (secret_value-Steady _ _ _) (λ d. Leads-pure _ (λ s q. q)))))))

    read_domain_from_config_map-Steady : Steady K (read_domain_from_config_map C)
    unfolding read_domain_from_config_map
    read_domain_from_config_map-Steady =
        Leads-bind _ _ _ (Steady-on_cluster _ (calm.get_config_map _ _))
          (λ d. Leads-pure _ (λ s p. p))

    pub check_domain-Steady : (domain : String) → Steady K (check_domain C domain)
    unfolding check_domain
    check_domain-Steady domain =
        Leads-if (is_all_space domain)
          (λ _.
            Leads-handle _ _ _ _ _ read_domain_from_config_map-Steady (λ e. Leads-fail _ (λ s p. p))
              (λ d.
                Leads-if (is_all_space d) (λ _. Leads-fail _ (λ s p. p))
                  (λ _. Leads-pure _ (λ s p. p))))
          (λ _. Leads-pure _ (λ s p. p))
