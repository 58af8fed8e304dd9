-- ===== src/Operator/Core.antt =====
-- What the reconciler decides its lifecycle by, and the rules for methods over it. The interfaces are
-- calm: their calls return or fail, and do not panic.
use eventing_manager.Base.Int.{int_beq_iff}
use eventing_manager.Base.{
  arith, int_eq, ◌!=◌, ◌≡◌, ◌≢◌, refl, sym, subst, ℕ, ℤ, String, Bool, true, false, Option, none,
  some, List,
}
use eventing_manager.Errors.{Error}
use eventing_manager.Exec.{Outcome, ok, err, panic, Exec}
use eventing_manager.Exec.Leads.{
  PostOr, LeadsOr, Leads-total, Post, Leads, Leads-pure, Leads-modify, Leads-handle, Leads-mono,
}
use eventing_manager.JetStream.{NatsConfig}
use eventing_manager.Operator.{
  Cluster, Operator, Eventing, BackendSpec, DefaultSubscriptionConfig, Deployment, Secret, Params,
  Result, on_cluster, produce, looking, with_backend, give_backend, advance_cluster, set_status,
  stamp_status, reply_error, reply_of,
}
use eventing_manager.OperatorStatus.{Condition, EventingStatus}

pub record Core (C : Cluster) : Type 0 where
  pub nats_sub_manager : Option C.Manager
  pub event_mesh_sub_manager : Option C.Manager
  pub is_nats_sub_manager_started : Bool
  pub is_event_mesh_sub_manager_started : Bool
  pub backend : Option BackendSpec
  pub finalizers : List String

abbrev pub core : {C : Cluster} → Operator C → Core C
core s = record {
  nats_sub_manager = s.nats_sub_manager;
  event_mesh_sub_manager = s.event_mesh_sub_manager;
  is_nats_sub_manager_started = s.is_nats_sub_manager_started;
  is_event_mesh_sub_manager_started = s.is_event_mesh_sub_manager_started;
  backend = s.eventing.backend;
  finalizers = s.eventing.finalizers;
}

abbrev pub IsTotal : {S A : Type 0} → Exec S A → Type 0
IsTotal m = (t : _) → (m t).0 ≢ panic

-- No call panics.
pub record IsCalm (C : Cluster) : Type 0 where
  pub get : (namespace name : String) → IsTotal (C.get namespace name)
  pub update : (cr : Eventing) → IsTotal (C.update cr)
  pub update_status : (cr : Eventing) → IsTotal (C.update_status cr)
  pub watch_kind : (kind : String) (cr : Eventing) → IsTotal (C.watch_kind kind cr)
  pub watch_events : (w : C.Watcher) (cr : Eventing) → IsTotal (C.watch_events w cr)
  pub application_crd_exists : IsTotal C.application_crd_exists
  pub api_rule_crd_exists : IsTotal C.api_rule_crd_exists
  pub get_crd : (name : String) → IsTotal (C.get_crd name)
  pub get_secret : (name : String) → IsTotal (C.get_secret name)
  pub patch_apply : (secret : Secret) → IsTotal (C.patch_apply secret)
  pub get_config_map : (name namespace : String) → IsTotal (C.get_config_map name namespace)
  pub delete_cluster_role :
      (name namespace : String) → IsTotal (C.delete_cluster_role name namespace)
  pub delete_cluster_role_binding :
      (name namespace : String) → IsTotal (C.delete_cluster_role_binding name namespace)
  pub get_deployment : (name namespace : String) → IsTotal (C.get_deployment name namespace)
  pub get_nats_resources : (namespace : String) → IsTotal (C.get_nats_resources namespace)
  pub subscription_exists : IsTotal C.subscription_exists
  pub deploy_publisher_proxy :
      (cr : Eventing) (config : Option NatsConfig) (type : String)
      → IsTotal (C.deploy_publisher_proxy cr config type)
  pub deploy_publisher_proxy_resources :
      (cr : Eventing) (d : Deployment) → IsTotal (C.deploy_publisher_proxy_resources cr d)
  pub delete_publisher_proxy_resources :
      (cr : Eventing) → IsTotal (C.delete_publisher_proxy_resources cr)
  pub new_event_mesh_manager : (domain : String) → IsTotal (C.new_event_mesh_manager domain)
  pub init_manager : (m : C.Manager) → IsTotal (C.init_manager m)
  pub start_manager :
      (m : C.Manager) (config : DefaultSubscriptionConfig) (params : Params)
      → IsTotal (C.start_manager m config params)
  pub stop_manager : (m : C.Manager) (cleanup : Bool) → IsTotal (C.stop_manager m cleanup)
  pub connect_nats : (c : C.Connection) (cr : Eventing) → IsTotal (C.connect_nats c cr)
  pub env_nats_config : (t : C.State) → C.env_nats_config t ≢ panic
  pub hash_nats :
      (subs : DefaultSubscriptionConfig) (config : NatsConfig) → C.hash_nats subs config ≢ panic
  pub hash_text : (text : String) → C.hash_text text ≢ panic
  pub unmarshal_messages : (text : String) → C.unmarshal_messages text ≢ panic
  pub set_env : (name value : String) → IsTotal (C.set_env name value)

module _ {C : Cluster} where
  pub record At (K : Core C → Type 0) (s : Operator C) : Type 0 where
    pub holds : K (core s)

  module _ {A : Type 0} where
    -- The method keeps what holds of the core, and panics nowhere.
    abbrev pub Steady : (Core C → Type 0) → Exec (Operator C) A → Type 0
    Steady K m = Leads (At K) m (λ _ s. At K s) (At K)

    Post-on_cluster :
        {K : Core C → Type 0} (R : A → Type 0) (s : Operator C) (r : Outcome A) (t : C.State)
        → r ≢ panic
        → ((a : A) → r ≡ ok a → R a)
        → At K s
        → Post (λ a s'. At K s' × R a) (At K) r (record s { cluster = t })
    Post-on_cluster R s (ok a) t d h p = (record { holds = p.holds }, h a refl)
    Post-on_cluster R s (err e) t d h p = record { holds = p.holds }
    Post-on_cluster R s panic t d h p = d refl

    -- A call of the cluster, with what is known of its answer.
    pub Leads-on_cluster_answer :
        {K : Core C → Type 0} (m : Exec C.State A) (R : A → Type 0)
        → IsTotal m
        → ((t : C.State) (a : A) → (m t).0 ≡ ok a → R a)
        → Leads (At K) (on_cluster m) (λ a s. At K s × R a) (At K)
    unfolding on_cluster
    Leads-on_cluster_answer m R d h = record {
      at = λ s p. Post-on_cluster R s (m s.cluster).0 (m s.cluster).1 (d s.cluster) (h s.cluster) p;
    }

    Post-seen :
        (m : Exec C.State A) (s : Operator C) (r : Outcome A) (t : C.State)
        → (m s.cluster).0 ≡ r
        → r ≢ panic
        → Post (λ a _. (m s.cluster).0 ≡ ok a) (λ _. Unit {0}) r (record s { cluster = t })
    Post-seen m s (ok a) t e d = e
    Post-seen m s (err x) t e d = tt
    Post-seen m s panic t e d = d refl

    -- A call on a cluster whose state is known.
    pub Leads-on_cluster_seen :
        (m : Exec C.State A) (u : C.State)
        → IsTotal m
        → Leads {S = Operator C}
            (λ s. s.cluster ≡ u)
            (on_cluster m)
            (λ a _. (m u).0 ≡ ok a)
            (λ _. Unit {0})
    unfolding on_cluster
    Leads-on_cluster_seen m u d = record {
      at = λ s p.
          subst
            (λ x.
              Post (λ a _. (m x).0 ≡ ok a) (λ _. Unit {0}) (m s.cluster).0
                (record s { cluster = (m s.cluster).1 }))
            p (Post-seen m s (m s.cluster).0 (m s.cluster).1 refl (d s.cluster));
    }

    pub Steady-on_cluster :
        {K : Core C → Type 0} (m : Exec C.State A) → IsTotal m → Steady K (on_cluster m)
    Steady-on_cluster m d =
        Leads-mono (λ s p. p) (λ a s p. p.0) (λ s p. p)
          (Leads-on_cluster_answer m (λ _. Unit {0}) d (λ t a e. tt))

    Post-frame :
        (P Q E : Operator C → Type 0) (s : Operator C) (r : Outcome A) (t : C.State)
        → r ≢ panic
        → (P s → Q (record s { cluster = t }))
        → (P s → E (record s { cluster = t }))
        → P s
        → Post (λ a. Q) E r (record s { cluster = t })
    Post-frame P Q E s (ok a) t d h k p = h p
    Post-frame P Q E s (err e) t d h k p = k p
    Post-frame P Q E s panic t d h k p = d refl

    -- A call of the cluster, for conditions that do not look at the cluster.
    pub Leads-on_cluster :
        {P Q E : Operator C → Type 0} (m : Exec C.State A)
        → IsTotal m
        → ((s : Operator C) (t : C.State) → P s → Q (record s { cluster = t }))
        → ((s : Operator C) (t : C.State) → P s → E (record s { cluster = t }))
        → Leads P (on_cluster m) (λ a. Q) E
    unfolding on_cluster
    Leads-on_cluster {P} {Q} {E} m d h k = record {
      at = λ s. Post-frame P Q E s (m s.cluster).0 (m s.cluster).1 (d s.cluster) (h s _) (k s _);
    }

    -- A call whose answer is known.
    pub Leads-on_cluster_from :
        (m : Exec C.State A) (s : Operator C) (a : A) (t : C.State) {E : Operator C → Type 0}
        → m s.cluster ≡ (ok a, t)
        → Leads (λ x. x ≡ s) (on_cluster m) (λ b x. (b ≡ a) × (x ≡ record s { cluster = t })) E
    unfolding on_cluster
    Leads-on_cluster_from m s a t {E} e = record {
      at = λ x q.
          subst (λ y. Post Q E (m y.cluster).0 (record y { cluster = (m y.cluster).1 })) (sym q)
            (subst (λ r. Post Q E r.0 (record s { cluster = r.1 })) (sym e) (refl, refl));
    }
      where
        Q : A → Operator C → Type 0
        Q b x = (b ≡ a) × (x ≡ record s { cluster = t })

    pub Leads-looking :
        {X P : Operator C → Type 0} (m : Operator C → Exec (Operator C) A)
        {Q : A → Operator C → Type 0} {E : Operator C → Type 0}
        → ((x : Operator C) → P x → LeadsOr X P (m x) Q E)
        → LeadsOr X P (looking m) Q E
    unfolding looking
    Leads-looking m h = record { at = λ s p. (h s p).at s p }

    -- Looking at one view, which is still what was seen when the method starts.
    pub Leads-looking_at :
        {V : Type 0} {X P : Operator C → Type 0} (v : Operator C → V) (m : V → Exec (Operator C) A)
        {Q : A → Operator C → Type 0} {E : Operator C → Type 0}
        → ((x : V) → LeadsOr X (λ s. P s × (v s ≡ x)) (m x) Q E)
        → LeadsOr X P (looking (λ s. m (v s))) Q E
    unfolding looking
    Leads-looking_at v m h = record { at = λ s p. (h (v s)).at s (p, refl) }

    Post-give_backend :
        {X P : Operator C → Type 0} (o : Option BackendSpec) (m : BackendSpec → Exec (Operator C) A)
        {Q : A → Operator C → Type 0} {E : Operator C → Type 0} (s : Operator C)
        → o ≢ none
        → ((b : BackendSpec) → LeadsOr X P (m b) Q E)
        → P s
        → PostOr X Q E (give_backend o m s).0 (give_backend o m s).1
    Post-give_backend none m s d h p = elim (d refl) [ ]
    Post-give_backend (some b) m s d h p = (h b).at s p

    pub Leads-with_backend :
        {X P : Operator C → Type 0} (m : BackendSpec → Exec (Operator C) A)
        {Q : A → Operator C → Type 0} {E : Operator C → Type 0}
        → ((s : Operator C) → P s → s.eventing.backend ≢ none)
        → ((b : BackendSpec) → LeadsOr X P (m b) Q E)
        → LeadsOr X P (with_backend m) Q E
    unfolding with_backend
    Leads-with_backend m d h = record {
      at = λ s p. Post-give_backend s.eventing.backend m s (d s p) h p;
    }

    Post-give_backend_at :
        (o : Option BackendSpec) (b : BackendSpec) (m : BackendSpec → Exec (Operator C) A)
        (Q : A → Operator C → Type 0) (E : Operator C → Type 0) (s : Operator C)
        → o ≡ some b
        → Post Q E (m b s).0 (m b s).1
        → Post Q E (give_backend o m s).0 (give_backend o m s).1
    Post-give_backend_at o b m Q E s e p =
        subst (λ x. Post Q E (give_backend x m s).0 (give_backend x m s).1) (sym e) p

    -- The backend that the resource is known to have.
    pub Leads-with_backend_at :
        {P : Operator C → Type 0} (m : BackendSpec → Exec (Operator C) A) (b : BackendSpec)
        {Q : A → Operator C → Type 0} {E : Operator C → Type 0}
        → ((s : Operator C) → P s → s.eventing.backend ≡ some b)
        → Leads P (m b) Q E
        → Leads P (with_backend m) Q E
    unfolding with_backend
    Leads-with_backend_at {P} m b {Q} {E} d h = record {
      at = λ s p. Post-give_backend_at s.eventing.backend b m Q E s (d s p) (h.at s p);
    }

    pub Leads-produce :
        {P Q E : Operator C → Type 0} (m : C.State → A × C.State)
        → ((s : Operator C) (t : C.State) → P s → Q (record s { cluster = t }))
        → Leads P (produce m) (λ a. Q) E
    unfolding produce on_cluster
    Leads-produce m h = record { at = λ s. h s (m s.cluster).1 }

  module _ {K : Core C → Type 0} {X E : Operator C → Type 0} where
    pub Leads-advance_cluster :
        (f : C.State → C.State) → LeadsOr X (At K) (advance_cluster f) (λ _ s. At K s) E
    unfolding advance_cluster
    Leads-advance_cluster f = Leads-modify _ (λ s p. record { holds = p.holds })

    pub Leads-set_status :
        (f : EventingStatus → EventingStatus) → LeadsOr X (At K) (set_status f) (λ _ s. At K s) E
    unfolding set_status
    Leads-set_status f = Leads-modify _ (λ s p. record { holds = p.holds })

    pub Leads-stamp_status :
        (f : (Condition → List Condition → List Condition) → ℕ → EventingStatus → EventingStatus)
        → LeadsOr X (At K) (stamp_status f) (λ _ s. At K s) E
    unfolding stamp_status
    Leads-stamp_status f = Leads-modify _ (λ s p. record { holds = p.holds })

    -- A reply is returned whatever the method that makes its error does.
    pub Leads-reply_error :
        (result : Result) (m : Exec (Operator C) Error)
        → Steady K m
        → LeadsOr X (At K) (reply_error result m) (λ _ s. At K s) E
    unfolding reply_error
    Leads-reply_error result m h =
        Leads-handle _ _ _ _ _ (Leads-total h) (λ e. Leads-pure _ (λ s p. p))
          (λ e. Leads-pure _ (λ s p. p))

    pub Leads-reply_of :
        (result : Result) (m : Exec (Operator C) (Unit {0}))
        → Steady K m
        → LeadsOr X (At K) (reply_of result m) (λ _ s. At K s) E
    unfolding reply_of
    Leads-reply_of result m h =
        Leads-handle _ _ _ _ _ (Leads-total h) (λ e. Leads-pure _ (λ s p. p))
          (λ _. Leads-pure _ (λ s p. p))

-- A manager that is started is there.
abbrev pub IsRunnable : {M : Type 0} → Bool → Option M → Type 0
IsRunnable true none = ⊥
IsRunnable true (some m) = Unit {0}
IsRunnable false o = Unit {0}

module _ {C : Cluster} where
  abbrev pub IsConsistent : Core C → Type 0
  IsConsistent c =
      IsRunnable c.is_nats_sub_manager_started c.nats_sub_manager
      × IsRunnable c.is_event_mesh_sub_manager_started c.event_mesh_sub_manager

  -- A consistent core of a resource that specifies a backend.
  abbrev pub IsReady : Core C → Type 0
  IsReady c = IsConsistent c × (c.backend ≢ none)

  abbrev pub IsReadyFor : BackendSpec → Core C → Type 0
  IsReadyFor b c = IsConsistent c × (c.backend ≡ some b)

  pub IsReadyFor-IsReady : (b : BackendSpec) (c : Core C) → IsReadyFor b c → IsReady c
  IsReadyFor-IsReady b c p = (p.0, λ e. cc)

  Post-IsReady :
      {A : Type 0} (m : Exec (Operator C) A) {Q : A → Operator C → Type 0} {E : Operator C → Type 0}
      (s : Operator C) (o : Option BackendSpec)
      → ((b : BackendSpec) → Leads (At (IsReadyFor b)) m Q E)
      → IsConsistent (core s)
      → s.eventing.backend ≡ o
      → o ≢ none
      → Post Q E (m s).0 (m s).1
  Post-IsReady m s none h p e d = elim (d refl) [ ]
  Post-IsReady m s (some b) h p e d = (h b).at s (record { holds = (p, e) })

  -- A ready core is ready for the backend that it has.
  pub Leads-IsReady :
      {A : Type 0} (m : Exec (Operator C) A) {Q : A → Operator C → Type 0} {E : Operator C → Type 0}
      → ((b : BackendSpec) → Leads (At (IsReadyFor b)) m Q E)
      → Leads (At IsReady) m Q E
  Leads-IsReady m h = record {
    at = λ s p. Post-IsReady m s s.eventing.backend h p.holds.0 refl p.holds.1;
  }

pub IsRunnable-some : {M : Type 0} (b : Bool) (m : M) → IsRunnable b (some m)
IsRunnable-some true m = tt
IsRunnable-some false m = tt

pub not_both : {A : Type 0} {b : Bool} → b ≡ false → b ≡ true → A
not_both p q = cc

pub eq-of-unchanged : (a b : ℤ) → (a != b) ≡ false → a ≡ b
eq-of-unchanged a b h = ground (arith, int_beq_iff a b)

pub some-ne-none : {M : Type 0} (m : M) → some m ≢ none
some-ne-none m = λ e. cc

pub IsRunnable-there : {M : Type 0} (b : Bool) (o : Option M) → b ≡ true → IsRunnable b o → o ≢ none
IsRunnable-there true none e r = elim r [ ]
IsRunnable-there true (some m) e r = some-ne-none m
IsRunnable-there false o e r = λ h. cc

-- There is no Deployment, or its spec has no replicas.
abbrev pub IsUnreadable : Option Deployment → Type 0
IsUnreadable none = Unit {0}
IsUnreadable (some d) = d.replicas ≡ none

-- The cluster has answered a call of `GetDeployment` so.
abbrev pub IsUnread : (C : Cluster) (name namespace : String) → Type 0
IsUnread C name namespace =
    (u : C.State) × (o : Option Deployment) × ((C.get_deployment name namespace u).0 ≡ ok o)
    × IsUnreadable o

-- A panic that `IsDeploymentReady` may cause, with what holds of the core then.
abbrev pub Crashed : {C : Cluster} → (Core C → Type 0) → Operator C → Type 0
Crashed {C} K s = At K s × (name : String) × (namespace : String) × IsUnread C name namespace
