-- ===== src/Operator/EventMesh.antt =====
-- The EventMesh backend of the reconciler (internal/controller/operator/eventing: eventmesh.go,
-- domain.go).
pub mod Steady
pub mod Managing
pub mod Calling
use eventing_manager.Base.{
  ℤ, String, ◌<>◌, Bool, true, false, ◌&&◌, ◌||◌, not, Option, none, some, [], ◌∷◌, ◌!=◌, string_eq,
  int_eq, if◌then◌else◌,
}
use eventing_manager.Base.Dict.{Dict, lookup}
use eventing_manager.Base.Text.{is_all_space}
use eventing_manager.Errors.{Error, sentinel, note, wrap}
use eventing_manager.Exec.{
  Outcome, ok, err, panic, Exec, pure, fail, lift, gets, modify, when, handle, ◌>>=◌, ◌>>◌,
}
use eventing_manager.Operator.{
  Cluster, Operator, DefaultSubscriptionConfig, Oauth2Credentials, Secret, Params, on_cluster,
  looking, with_backend, set_status,
}
use eventing_manager.Operator.Secrets.{
  with_value, get_secret_for_publisher, is_oauth2_credentials_initialized, credentials_differ,
}
use eventing_manager.Operator.Nats.{get_default_subscription_config}
use eventing_manager.Operator.Status.{sync_status_with_subscription_manager_failed_condition}

abbrev pub err_event_mesh_secret_missing : Error
err_event_mesh_secret_missing =
    sentinel "The specified EventMesh secret is not found. Please provide an existing secret."

abbrev pub err_domain_config_missing : Error
err_domain_config_missing = sentinel "domain configuration missing"

abbrev domain_missing_message : String
domain_missing_message =
    ". domain must be configured in either the Eventing CustomResource under \"Spec.Backend.Config.Domain\" or in the ConfigMap \"kube-system/shoot-info\" under \"data.domain\""

unfoldable pub domain_missing_error : Option Error → Error
domain_missing_error none = note err_domain_config_missing domain_missing_message
domain_missing_error (some e) = note (wrap err_domain_config_missing e) domain_missing_message

-- `data[key]` of a map that may not have the key
value_of : String → Dict String String → String
value_of key data_of = elim (lookup key data_of) [ none ↦ "" | some v ↦ v ]

module _ (C : Cluster) where
  -- `fmt.Errorf("…: %w", err)` for the error of a call
  unfoldable pub noting : {A : Type 0} → String → Exec (Operator C) A → Exec (Operator C) A
  noting text m = handle m (λ e. fail (note e text)) (λ a. pure a)

  -- The secret that the cluster answers with is the one that is returned.
  unfoldable pub sync_publisher_proxy_secret : String → Secret → Exec (Operator C) Secret
  unfolding noting
  sync_publisher_proxy_secret ns secret = do
    desired ←
        noting "invalid secret for Event Publisher" (lift (get_secret_for_publisher C secret ns))
    on_cluster (C.patch_apply desired)

  set_env : String → String → Exec (Operator C) (Unit {0})
  unfolding noting
  set_env name value =
      noting ("set " <> (name <> " env var failed")) (on_cluster (C.set_env name value))

  unfoldable pub set_up_environment_for_event_mesh : Secret → Exec (Operator C) (Unit {0})
  unfolding set_env value_of
  set_up_environment_for_event_mesh secret = do
    set_env "BEB_API_URL" (value_of "ems-publish-host" secret.data_of <> "/sap/ems/v1")
    set_env "CLIENT_ID" (value_of "client-id" secret.data_of)
    set_env "CLIENT_SECRET" (value_of "client-secret" secret.data_of)
    set_env "TOKEN_ENDPOINT" (value_of "token-endpoint" secret.data_of)
    set_env "BEB_NAMESPACE" ("/" <> value_of "beb-namespace" secret.data_of)
    with_backend (λ backend. set_env "EVENT_TYPE_PREFIX" backend.event_type_prefix)

  -- The missing key of the secret, as an error
  secret_value : String → String → Dict String String → Outcome String
  secret_value secret_name key data_of =
      with_value (sentinel ("key '" <> (key <> ("' not found in secret " <> secret_name))))
        (lookup key data_of) (λ v. ok v)

  unfoldable pub get_oauth2_client_credentials : String → Exec (Operator C) Oauth2Credentials
  unfolding secret_value
  get_oauth2_client_credentials namespace = looking (λ s. do
    let secret_name = namespace <> ("/" <> s.backend_config.eventing_webhook_auth_secret_name)
    secret ← on_cluster (C.get_secret secret_name)
    client_id ← lift (secret_value secret_name "client_id" secret.data_of)
    client_secret ← lift (secret_value secret_name "client_secret" secret.data_of)
    token_url ← lift (secret_value secret_name "token_url" secret.data_of)
    certs_url ← lift (secret_value secret_name "certs_url" secret.data_of)
    pure (record {
      client_id = client_id;
      client_secret = client_secret;
      token_url = token_url;
      certs_url = certs_url;
    }))

  -- The flags after `Stop` returned.
  drop_event_mesh_sub_manager : Operator C → Operator C
  drop_event_mesh_sub_manager s = record s {
    is_event_mesh_sub_manager_started = false;
    event_mesh_sub_manager = none;
  }

  stop_event_mesh : Option C.Manager → Bool → Bool → Exec (Operator C) (Unit {0})
  unfolding drop_event_mesh_sub_manager
  stop_event_mesh (some m) true cleanup = do
    on_cluster (C.stop_manager m cleanup)
    modify drop_event_mesh_sub_manager
  stop_event_mesh _ _ cleanup = pure tt

  unfoldable pub stop_event_mesh_sub_manager : Bool → Exec (Operator C) (Unit {0})
  unfolding stop_event_mesh
  stop_event_mesh_sub_manager cleanup =
      looking
        (λ s. stop_event_mesh s.event_mesh_sub_manager s.is_event_mesh_sub_manager_started cleanup)

  start_event_mesh :
      Option C.Manager → DefaultSubscriptionConfig → Params → Exec (Operator C) (Unit {0})
  start_event_mesh none config params = lift panic
  start_event_mesh (some m) config params = do
    on_cluster (C.start_manager m config params)
    modify (λ s. record s { is_event_mesh_sub_manager_started = true })

  unfoldable pub start_event_mesh_sub_manager :
      DefaultSubscriptionConfig → Params → Exec (Operator C) (Unit {0})
  unfolding start_event_mesh
  start_event_mesh_sub_manager config params =
      looking (λ s. start_event_mesh s.event_mesh_sub_manager config params)

  abbrev oauth2_changed_message : String
  oauth2_changed_message =
      "Stopping the EventMesh subscription manager due to change in OAuth2 oauth2credentials"

  -- `if oauth2CredentialsNotFound || oauth2CredentialsChanged { … }`
  stop_for_oauth2 : Exec (Operator C) (Unit {0})
  stop_for_oauth2 = do
    stop_event_mesh_sub_manager true
    sync_status_with_subscription_manager_failed_condition C (sentinel oauth2_changed_message)

  unfoldable pub sync_oauth2_client_id_and_secret : Exec (Operator C) (Unit {0})
  unfolding stop_for_oauth2
  sync_oauth2_client_id_and_secret = looking (λ s.
      handle (get_oauth2_client_credentials s.eventing.namespace)
        (λ e. if C.is_not_found e then (do stop_for_oauth2; fail e) else fail e)
        (λ credentials. looking (λ t. do
          let initialized = is_oauth2_credentials_initialized t.oauth2_credentials
          let changed = initialized && credentials_differ t.oauth2_credentials credentials
          when changed stop_for_oauth2
          when (changed || not initialized)
              (modify (λ u. record u { oauth2_credentials = credentials })))))

  unfoldable pub read_domain_from_config_map : Exec (Operator C) String
  unfolding value_of
  read_domain_from_config_map = do
    data_of ← on_cluster (C.get_config_map "shoot-info" "kube-system")
    pure (value_of "domain" data_of)

  unfoldable pub check_domain : String → Exec (Operator C) String
  check_domain domain =
      if is_all_space domain
      then handle read_domain_from_config_map (λ e. fail (domain_missing_error (some e)))
          (λ cm_domain.
            if is_all_space cm_domain then fail (domain_missing_error none) else pure cm_domain)
      else pure domain

  unfoldable pub get_event_mesh_sub_manager_params : Operator C → Params
  get_event_mesh_sub_manager_params s =
      ("client_id", s.oauth2_credentials.client_id)
      ∷ ("client_secret", s.oauth2_credentials.client_secret)
      ∷ ("token_url", s.oauth2_credentials.token_url)
      ∷ ("certs_url", s.oauth2_credentials.certs_url)
      ∷ []

  unfoldable pub get_event_mesh_backend_config_hash : String → String → String → Outcome ℤ
  get_event_mesh_backend_config_hash event_mesh_secret event_type_prefix domain =
      C.hash_text
        ("[" <> (event_mesh_secret <> ("][" <> (event_type_prefix <> ("][" <> (domain <> "]"))))))

  -- `if eventing.Status.BackendConfigHash != specHash { … }`
  pub renew_event_mesh_sub_manager : ℤ → Exec (Operator C) (Unit {0})
  renew_event_mesh_sub_manager spec_hash = looking (λ s.
      when (s.eventing.status.backend_config_hash != spec_hash) (stop_event_mesh_sub_manager false))

  -- `if r.eventMeshSubManager == nil { … }`
  make_event_mesh : Option C.Manager → String → Exec (Operator C) (Unit {0})
  make_event_mesh (some m) domain = pure tt
  make_event_mesh none domain = do
    m ← on_cluster (C.new_event_mesh_manager domain)
    on_cluster (C.init_manager m)
    modify (λ t. record t { event_mesh_sub_manager = some m })

  pub make_event_mesh_sub_manager : String → Exec (Operator C) (Unit {0})
  unfolding make_event_mesh
  make_event_mesh_sub_manager domain =
      looking (λ s. make_event_mesh s.event_mesh_sub_manager domain)

  -- From `if r.isEventMeshSubManagerStarted` on.
  pub run_event_mesh_sub_manager :
      DefaultSubscriptionConfig → Params → ℤ → Exec (Operator C) (Unit {0})
  run_event_mesh_sub_manager subs_config params spec_hash = looking (λ s.
      when (not s.is_event_mesh_sub_manager_started) (do
        start_event_mesh_sub_manager subs_config params
        set_status (λ es. record es { backend_config_hash = spec_hash })))

  -- `reconcileEventMeshSubManager`, from the domain on
  manage_event_mesh : Exec (Operator C) (Unit {0})
  unfolding renew_event_mesh_sub_manager make_event_mesh_sub_manager run_event_mesh_sub_manager
  manage_event_mesh = with_backend (λ backend. do
    domain ← check_domain backend.domain
    subs_config ← gets (get_default_subscription_config C)
    params ← gets get_event_mesh_sub_manager_params
    spec_hash ← lift (
        get_event_mesh_backend_config_hash backend.event_mesh_secret backend.event_type_prefix
          domain)
    renew_event_mesh_sub_manager spec_hash
    make_event_mesh_sub_manager domain
    run_event_mesh_sub_manager subs_config params spec_hash)

  unfoldable pub reconcile_event_mesh_sub_manager : Secret → Exec (Operator C) (Unit {0})
  unfolding noting manage_event_mesh
  reconcile_event_mesh_sub_manager event_mesh_secret = looking (λ s. do
    noting "failed to sync OAuth secret" sync_oauth2_client_id_and_secret
    secret ←
        noting "failed to sync Publisher Proxy secret"
          (sync_publisher_proxy_secret s.eventing.namespace event_mesh_secret)
    noting "failed to setup environment variables for EventMesh controller"
        (set_up_environment_for_event_mesh secret)
    manage_event_mesh)
