-- ===== src/Tests/Server.antt =====
-- A NATS server in memory whose state is its consumers, by stream and name.
use eventing_manager.Base.{
  ◌≡◌, refl, ap, ◌∙◌, String, Bool, true, false, ◌&&◌, Option, none, some, [], ◌∷◌, pos, ◌==◌,
  string_eq, eq_iff, if◌then◌else◌, arith, Bool-cases, inl, inr, sym,
}
use eventing_manager.Errors.{Error, sentinel}
use eventing_manager.Exec.{Outcome, ok, err}
use eventing_manager.JetStream.NatsClient.{
  Nats, IsLawful, ConsumerConfig, ConsumerInfo, StreamConfig, limits_policy, memory_storage,
  discard_old,
}

abbrev pub Consumers : Type 0
Consumers = String → String → Option ConsumerConfig

-- A consumer is filed under its durable name alone.
abbrev filed : String → Option ConsumerConfig → Option ConsumerConfig
filed name none = none
filed name (some config) = if config.durable == name then some config else none

abbrev pub consumer_at : Consumers → String → String → Option ConsumerConfig
consumer_at s stream name = filed name (s stream name)

abbrev file : String → String → Option ConsumerConfig → Consumers → Consumers
file stream name entry s stream' name' =
    if stream' == stream && name' == name then entry else s stream' name'

abbrev info_of : ConsumerConfig → ConsumerInfo
info_of config = record { name = config.durable; config = config; push_bound = false }

abbrev not_found : Error
not_found = sentinel "nats: consumer not found"

abbrev found : Consumers → Option ConsumerConfig → Outcome ConsumerInfo × Consumers
found s none = (err not_found, s)
found s (some config) = (ok (info_of config), s)

abbrev deleted :
    Consumers → String → String → Option ConsumerConfig → Outcome (Unit {0}) × Consumers
deleted s stream name none = (err not_found, s)
deleted s stream name (some config) = (ok tt, file stream name none s)

abbrev sap_stream : StreamConfig
sap_stream = record {
  name = "sap";
  storage = memory_storage;
  replicas = pos 1;
  retention = limits_policy;
  max_msgs = pos 10;
  max_bytes = pos 100;
  discard = discard_old;
  max_msgs_per_subject = pos 0;
  subjects = "kyma.>" ∷ [];
}

abbrev pub in_memory : Nats
in_memory = record {
  State = Consumers;
  Conn = Unit;
  Context = Unit;
  Sub = String;
  connect = λ url max wait s. (ok tt, s);
  is_connected = λ c s. true;
  is_closed = λ c s. false;
  close = λ c s. s;
  set_closed_handler = λ c s. s;
  set_reconnect_handler = λ c s. s;
  jet_stream = λ c s. (ok tt, s);
  stream_info = λ c n s. (ok sap_stream, s);
  add_stream = λ c config s. (ok tt, s);
  update_stream = λ c config s. (ok tt, s);
  consumer_info = λ c stream name s. found s (consumer_at s stream name);
  add_consumer =
      λ c stream config s. (ok (info_of config), file stream config.durable (some config) s);
  update_consumer = λ c stream config s. (ok tt, file stream config.durable (some config) s);
  delete_consumer = λ c stream name s. deleted s stream name (consumer_at s stream name);
  consumers = λ c stream s. (ok [], s);
  subscribe = λ c subject o s. (ok subject, s);
  unsubscribe = λ x s. (ok tt, s);
  is_valid = λ x s. true;
  describe = λ x. x;
  new_inbox = λ s. (ok "_INBOX", s);
  stream_not_found = sentinel "nats: stream not found";
  consumer_not_found = not_found;
  parse_quantity = λ x. ok (pos 100);
  new_http_client = λ s. (ok tt, s);
}

filed-durable :
    (name : String) (o : Option ConsumerConfig) (config : ConsumerConfig)
    → filed name o ≡ some config
    → config.durable ≡ name
filed-durable name none config e = cc
filed-durable name (some c) config e = elim (Bool-cases (c.durable == name)) [
  | inl same ↦
      let q : some c ≡ some config = sym (ap (λ b. if b then some c else none) same) ∙ e in
      let p : c ≡ config = cc in
      ap (λ (x : ConsumerConfig). x.durable) (sym p) ∙ (eq_iff c.durable name).0 same
  | inr other ↦
      let q : none ≡ some config = sym (ap (λ b. if b then some c else none) other) ∙ e in cc
]

consumer_at-file :
    (stream name : String) (entry : Option ConsumerConfig) (s : Consumers) (stream' name' : String)
    → consumer_at (file stream name entry s) stream' name' ≡ (
        if stream' == stream && name' == name
        then filed name' entry
        else consumer_at s stream' name')
consumer_at-file stream name entry s stream' name' = go (stream' == stream && name' == name)
  where
    go :
        (b : Bool)
        → filed name' (if b then entry else s stream' name')
          ≡ (if b then filed name' entry else consumer_at s stream' name')
    go true = refl
    go false = refl

-- A write on one consumer is read back, and leaves the others.
consumer_at-file_same :
    (stream name : String) (entry : Option ConsumerConfig) (s : Consumers)
    → consumer_at (file stream name entry s) stream name ≡ filed name entry
consumer_at-file_same stream name entry s =
    consumer_at-file stream name entry s stream name
    ∙ ap (λ b. if b then filed name entry else consumer_at s stream name) (same stream name)
  where
    same : (a b : String) → (a == a && b == b) ≡ true
    same a b = ground (arith, eq_iff a a, eq_iff b b)

consumer_at-file_other :
    (stream name : String) (entry : Option ConsumerConfig) (s : Consumers) (stream' name' : String)
    → ((stream' ≡ stream) × (name' ≡ name) → ⊥)
    → consumer_at (file stream name entry s) stream' name' ≡ consumer_at s stream' name'
consumer_at-file_other stream name entry s stream' name' h =
    consumer_at-file stream name entry s stream' name'
    ∙ ap (λ b. if b then filed name' entry else consumer_at s stream' name')
        (not_same stream name stream' name' h)
  where
    not_same :
        (stream name stream' name' : String)
        → ((stream' ≡ stream) × (name' ≡ name) → ⊥)
        → (stream' == stream && name' == name) ≡ false
    not_same a b a' b' h = ground (arith, eq_iff a' a, eq_iff b' b)

filed_own : (config : ConsumerConfig) → filed config.durable (some config) ≡ some config
filed_own config =
    ap (λ b. if b then some config else none) ((eq_iff config.durable config.durable).1 refl)

found-ok :
    (s t : Consumers) (o : Option ConsumerConfig) (info : ConsumerInfo)
    → found s o ≡ (ok info, t)
    → (o ≡ some info.config) × (s ≡ t)
found-ok s t none info e = cc
found-ok s t (some config) info e =
    let p : info_of config ≡ info = cc in (ap (λ (i : ConsumerInfo). some i.config) p, λ i. (e i).1)

found-err :
    (s t : Consumers) (o : Option ConsumerConfig) (x : Error)
    → found s o ≡ (err x, t)
    → (o ≡ none) × (s ≡ t)
found-err s t none x e = (refl, λ i. (e i).1)
found-err s t (some config) x e = cc

found-state : (s : Consumers) (o : Option ConsumerConfig) → (found s o).1 ≡ s
found-state s none = refl
found-state s (some config) = refl

deleted-ok :
    (s t : Consumers) (stream name : String) (o : Option ConsumerConfig)
    → deleted s stream name o ≡ (ok tt, t)
    → file stream name none s ≡ t
deleted-ok s t stream name none e = cc
deleted-ok s t stream name (some config) e = λ i. (e i).1

deleted-err :
    (s t : Consumers) (stream name : String) (o : Option ConsumerConfig) (x : Error)
    → deleted s stream name o ≡ (err x, t)
    → (o ≡ none) × (s ≡ t)
deleted-err s t stream name none x e = (refl, λ i. (e i).1)
deleted-err s t stream name (some config) x e = cc

deleted_other :
    (s : Consumers) (stream name : String) (o : Option ConsumerConfig) (stream' name' : String)
    → ((stream' ≡ stream) × (name' ≡ name) → ⊥)
    → consumer_at (deleted s stream name o).1 stream' name' ≡ consumer_at s stream' name'
deleted_other s stream name none stream' name' h = refl
deleted_other s stream name (some config) stream' name' h =
    consumer_at-file_other stream name none s stream' name' h

info_config :
    (config : ConsumerConfig) (s t : Consumers) (info : ConsumerInfo) (u : Consumers)
    → ◌≡◌ {A = Outcome ConsumerInfo × Consumers} (ok (info_of config), u) (ok info, t)
    → info.config ≡ config
info_config config s t info u e =
    let p : info_of config ≡ info = cc in ap (λ (i : ConsumerInfo). i.config) (sym p)

pub in_memory-IsLawful : IsLawful in_memory consumer_at
in_memory-IsLawful = record {
  consumer-durable = λ s stream name config e. filed-durable name (s stream name) config e;
  consumer_info-ok = λ c stream name s t info e.
      let (p, q) = found-ok s t (consumer_at s stream name) info e in
      ap (λ u. consumer_at u stream name) (sym q) ∙ p;
  consumer_info-not_found = λ c stream name s t e q h.
      let (p, r) = found-err s t (consumer_at s stream name) e q in
      ap (λ u. consumer_at u stream name) (sym r) ∙ p;
  consumer_info-Keeps =
      λ c stream name s. ap consumer_at (found-state s (consumer_at s stream name));
  add_consumer-ok = λ c stream config s t info e. (
    info_config config s t info _ e,
    ap (λ u. consumer_at u stream config.durable) (λ i. (sym e i).1)
        ∙ consumer_at-file_same stream config.durable (some config) s
        ∙ filed_own config,
  );
  add_consumer-Keeps = λ c stream config s stream' name h.
      consumer_at-file_other stream config.durable (some config) s stream' name h;
  update_consumer-ok = λ c stream config s t e.
      ap (λ u. consumer_at u stream config.durable) (λ i. (sym e i).1)
      ∙ consumer_at-file_same stream config.durable (some config) s
      ∙ filed_own config;
  update_consumer-Keeps = λ c stream config s stream' name h.
      consumer_at-file_other stream config.durable (some config) s stream' name h;
  delete_consumer-ok = λ c stream name s t e.
      ap (λ u. consumer_at u stream name)
        (sym (deleted-ok s t stream name (consumer_at s stream name) e))
      ∙ consumer_at-file_same stream name none s;
  delete_consumer-not_found = λ c stream name s t e q h.
      let (p, r) = deleted-err s t stream name (consumer_at s stream name) e q in
      ap (λ u. consumer_at u stream name) (sym r) ∙ p;
  delete_consumer-Keeps = λ c stream name s stream' name' h.
      deleted_other s stream name (consumer_at s stream name) stream' name' h;
  subscribe-Keeps = λ c subject o s. refl;
  unsubscribe-Keeps = λ x s. refl;
  consumers-Keeps = λ c stream s. refl;
  new_inbox-Keeps = λ s. refl;
  connect-Keeps = λ url max wait s. refl;
  set_closed_handler-Keeps = λ c s. refl;
  set_reconnect_handler-Keeps = λ c s. refl;
  jet_stream-Keeps = λ c s. refl;
  stream_info-Keeps = λ c stream s. refl;
  add_stream-Keeps = λ c config s. refl;
  update_stream-Keeps = λ c config s. refl;
  new_http_client-Keeps = λ s. refl;
}
