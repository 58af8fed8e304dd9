-- ===== src/JetStream/Consumers/Frames.antt =====
-- What the steps on one consumer leave alone, and what deleting it does on a lawful server.
use eventing_manager.Base.{subst, ◌≡◌, refl, sym, ap, true, Option, none, some, String}
use eventing_manager.Errors.{is_error}
use eventing_manager.Exec.{Outcome, ok, err, panic, Exec}
use eventing_manager.Exec.Keeps.{
  Keeps, Keeps-pure, Keeps-fail, Keeps-lift, Keeps-gets, Keeps-when, Keeps-if, Keeps-bind,
  Keeps-attempt,
}
use eventing_manager.Exec.Rules.{
  Ensures, Ensures-bind, Ensures-pure, Ensures-fail, Ensures-attempt, Ensures-gets, Ensures-lift,
}
use eventing_manager.JetStream.{JetStream}
use eventing_manager.JetStream.Connection.{on_server, with_context}
use eventing_manager.JetStream.Connection.Frames.{
  Memory, memory, view, Keeps-on_server, Keeps-with_context,
}
use eventing_manager.JetStream.Consumers.{
  accept_missing, delete_consumer_from_jetstream, report_unsubscribe, unsubscribe_if_valid,
}
use eventing_manager.JetStream.NatsClient.{Nats, IsLawful, ConsumerConfig}
use eventing_manager.Base.{◌⊎◌}
use eventing_manager.Base.{inl}
use eventing_manager.Base.{inr}
use eventing_manager.Exec.Rules.{Ensures-if}
use eventing_manager.JetStream.{NatsConfig}

module _ {N : Nats} where
  -- A context that was reached, with what the call on it did.
  abbrev pub Reached :
      {A : Type 0} → (N.Context → Exec N.State A) → JetStream N → Outcome A → JetStream N → Type 0
  Reached call s r t =
      (r ≡ panic) ⊎ ((c : N.Context) × (call c s.server ≡ (r, t.server)) × (memory t ≡ memory s))

  pub with_context-eq :
      {A : Type 0} (call : N.Context → Exec N.State A) (s t : JetStream N) (r : Outcome A)
      → with_context call s ≡ (r, t)
      → Reached call s r t
  unfolding with_context on_server
  with_context-eq {A} call s t r e = go s.js_ctx e
    where
      go :
          (o : Option N.Context)
          → (elim o as (λ _. Outcome A × JetStream N) [
            | none ↦ (panic, s)
            | some c ↦ on_server (call c) s
          ])
            ≡ (r, t)
          → (r ≡ panic)
            ⊎ ((c : N.Context) × (call c s.server ≡ (r, t.server)) × (memory t ≡ memory s))
      go none e' = inl (sym (λ i. (e' i).0))
      go (some c) e' = inr (c, λ i. ((e' i).0, (e' i).1.server), sym (λ i. memory ((e' i).1)))

module _ (N : Nats) {V : Type 0} (f : Memory N → N.State → V) where
  accept_missing-Keeps :
      (name : String) (r : Outcome (Unit {0})) → Keeps (view f) (accept_missing N name r)
  unfolding accept_missing
  accept_missing-Keeps name (ok _) = Keeps-pure tt
  accept_missing-Keeps name (err e) = Keeps-if _ _ _ (Keeps-pure tt) (Keeps-fail _)
  accept_missing-Keeps name panic = Keeps-lift _

  pub delete_consumer-Keeps :
      (name : String)
      → ((c : N.Context) (stream : String) (k : Memory N) (t : N.State)
          → f k (N.delete_consumer c stream name t).1 ≡ f k t)
      → Keeps (view f) (delete_consumer_from_jetstream N name)
  unfolding delete_consumer_from_jetstream
  delete_consumer-Keeps name h = Keeps-bind _ _ (Keeps-gets _) (λ config.
      Keeps-bind _ _ (Keeps-attempt _ (Keeps-with_context f _ (λ c. h c config.js_stream_name)))
        (accept_missing-Keeps name))

  report_unsubscribe-Keeps :
      (x : N.Sub) (r : Outcome (Unit {0})) → Keeps (view f) (report_unsubscribe N x r)
  unfolding report_unsubscribe
  report_unsubscribe-Keeps x (ok _) = Keeps-pure tt
  report_unsubscribe-Keeps x (err e) = Keeps-fail _
  report_unsubscribe-Keeps x panic = Keeps-lift _

  pub unsubscribe-Keeps :
      (x : N.Sub)
      → ((k : Memory N) (t : N.State) → f k (N.unsubscribe x t).1 ≡ f k t)
      → Keeps (view f) (unsubscribe_if_valid N x)
  unfolding unsubscribe_if_valid
  unsubscribe-Keeps x h = Keeps-bind _ _ (Keeps-gets _) (λ valid.
      Keeps-when _ _
        (Keeps-bind _ _ (Keeps-attempt _ (Keeps-on_server f _ h)) (report_unsubscribe-Keeps x)))

module _ (N : Nats) (consumer : N.State → String → String → Option ConsumerConfig)
    (lawful : IsLawful N consumer) where
  -- The consumers of the backend's stream.
  abbrev pub consumer_of : JetStream N → String → Option ConsumerConfig
  consumer_of s = consumer s.server s.config.js_stream_name

  IsGone : String → Outcome (Unit {0}) → JetStream N → Type 0
  IsGone name (ok _) s = consumer_of s name ≡ none
  IsGone name (err e) s = is_error e N.consumer_not_found ≡ true → consumer_of s name ≡ none
  IsGone name panic s = Unit

  delete_call-IsGone :
      (name : String) (s : JetStream N) (r : Outcome (Unit {0})) (t : JetStream N)
      → Reached (λ c. N.delete_consumer c s.config.js_stream_name name) s r t
      → IsGone name r t
  unfolding IsGone
  delete_call-IsGone name s (ok _) t (inl e) = cc
  delete_call-IsGone name s (err x) t (inl e) = cc
  delete_call-IsGone name s panic t h = tt
  delete_call-IsGone name s (ok _) t (inr (c, e, m)) =
      let q : t.config ≡ s.config = ap (λ (k : Memory N). k.config) m in
      rw q (lawful.delete_consumer-ok c s.config.js_stream_name name s.server t.server e)
  delete_call-IsGone name s (err x) t (inr (c, e, m)) = λ h.
      let q : t.config ≡ s.config = ap (λ (k : Memory N). k.config) m in
      rw q (lawful.delete_consumer-not_found c s.config.js_stream_name name s.server t.server x e h)

  accept_missing-IsGone :
      (name : String) (r : Outcome (Unit {0}))
      → Ensures (IsGone name r) (accept_missing N name r) (λ _ s. consumer_of s name ≡ none)
  unfolding accept_missing IsGone
  accept_missing-IsGone name (ok _) = Ensures-pure _ _ _ (λ s h. h)
  accept_missing-IsGone name (err e) =
      Ensures-if _ _ _ _ _ (λ gone. Ensures-pure _ _ _ (λ s h. h gone)) (λ _. Ensures-fail _ _ _)
  accept_missing-IsGone name panic = Ensures-lift _ _ _ (λ a s e. cc)

  -- A deletion that returns without error leaves no consumer of that name.
  pub delete_consumer-Ensures :
      (name : String)
      → Ensures
          (λ _. Unit {0})
          (delete_consumer_from_jetstream N name)
          (λ _ s. consumer_of s name ≡ none)
  unfolding delete_consumer_from_jetstream
  delete_consumer-Ensures name =
      Ensures-bind _ _ (λ config s. config ≡ s.config) _ _ (Ensures-gets _ _ _ (λ s _. refl))
        (λ config.
          Ensures-bind _ _ (IsGone name) _ _
            (Ensures-attempt _ _ _ (λ s p r t e. delete_call-IsGone name s r t (
              with_context-eq _ s t r (
                subst
                  (λ (k : NatsConfig).
                    with_context (λ c. N.delete_consumer c k.js_stream_name name) s ≡ (r, t))
                  p e))))
            (accept_missing-IsGone name))
