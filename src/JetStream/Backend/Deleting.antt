-- ===== src/JetStream/Backend/Deleting.antt =====
-- What a deletion that returns without error has removed, and what it has left.
use eventing_manager.Base.{
  ◌≡◌, refl, sym, ap, ◌∙◌, subst, Bool, true, false, Option, none, some, String, [], ◌∷◌,
  if◌then◌else◌, All, ◌⊎◌, inl, inr, ◌==◌, Bool-cases,
}
use eventing_manager.Base.Dict.{Dict, lookup, erase, lookup-erase, lookup-nil, lookup-cons}
use eventing_manager.Exec.{ok, Exec}
use eventing_manager.Exec.Keeps.{Ensures-Keeps}
use eventing_manager.Exec.Rules.{
  Ensures, Ensures-bind, Ensures-gets, Ensures-lift, Ensures-when, Ensures-for_each_all,
  Ensures-modify,
}
use eventing_manager.JetStream.{JetStream, SubscriptionSubjectIdentifier, key_eq, key_beq_iff}
use eventing_manager.JetStream.Backend.{for_own_entry, for_own_entries}
use eventing_manager.JetStream.Connection.Frames.{Memory, memory}
use eventing_manager.JetStream.Consumers.{
  forget_subscription, delete_subscription_from_jetstream, delete_subscription_from_jetstream_only,
}
use eventing_manager.JetStream.Consumers.Frames.{delete_consumer-Keeps, unsubscribe-Keeps}
use eventing_manager.JetStream.NatsClient.{Nats}
use eventing_manager.JetStream.Subjects.{is_js_sub_associated_with_kyma_sub}
use eventing_manager.Subscription.{Subscription}

module _ (N : Nats) (digest : String → String) (sub : Subscription) where
  abbrev pub Key : Type 0
  Key = SubscriptionSubjectIdentifier

  abbrev pub IsAssociated : Key → Type 0
  IsAssociated key = is_js_sub_associated_with_kyma_sub key sub ≡ ok true

  -- A body that, from any state, forgets the key of its entry and keeps the rest of the memory.
  abbrev pub Forgets : (Key → N.Sub → Exec (JetStream N) (Unit {0})) → Type 0
  Forgets body =
      (key : Key) (x : N.Sub) (m : Memory N)
      → Ensures (λ s. memory s ≡ m) (body key x)
          (λ _ s. memory s ≡ record m { subscriptions = erase key m.subscriptions })

  forget-Ensures :
      (key : Key) (m : Memory N)
      → Ensures
          (λ (s : JetStream N). memory s ≡ m)
          (forget_subscription key)
          (λ _ s. memory s ≡ record m { subscriptions = erase key m.subscriptions })
  unfolding forget_subscription
  forget-Ensures key m = Ensures-modify _ _ _ (λ s p.
      ap
        (λ (k : Memory N).
          let r : Memory N = record k { subscriptions = erase key k.subscriptions } in r)
        p)

  pub delete-Forgets : Forgets (λ key x. delete_subscription_from_jetstream N x key)
  unfolding delete_subscription_from_jetstream
  delete-Forgets key x m =
      Ensures-bind _ _ _ _ _ (Ensures-Keeps _ m (unsubscribe-Keeps N (λ k t. k) x (λ k t. refl)))
        (λ _.
          Ensures-bind _ _ _ _ _
            (Ensures-Keeps _ m
              (delete_consumer-Keeps N (λ k t. k) key.consumer_name (λ c n k t. refl)))
            (λ _. forget-Ensures key m))

  pub delete_only-Forgets : Forgets (λ key x. delete_subscription_from_jetstream_only N x key)
  unfolding delete_subscription_from_jetstream_only
  delete_only-Forgets key x m =
      Ensures-bind _ _ _ _ _ (Ensures-Keeps _ m (unsubscribe-Keeps N (λ k t. k) x (λ k t. refl)))
        (λ _. forget-Ensures key m)

  -- Against the entries at the start: a key is as it was, or it is an own key and gone.
  pub record IsTrimmed (m : Memory N) (s : JetStream N) : Type 0 where
    pub config : s.config ≡ m.config
    pub sinks : s.sinks ≡ m.sinks
    pub cleaner : s.cleaner ≡ m.cleaner
    pub entry :
        (k : Key)
        → (lookup k s.subscriptions ≡ lookup k m.subscriptions)
          ⊎ (IsAssociated k × (lookup k s.subscriptions ≡ none))

  lookup-trimmed :
      (key k : Key) (s t : JetStream N)
      → memory t ≡ record (memory s) { subscriptions = erase key s.subscriptions }
      → lookup k t.subscriptions ≡ (if key == k then none else lookup k s.subscriptions)
  lookup-trimmed key k s t e =
      ap (λ (r : Memory N). lookup k r.subscriptions) e ∙ lookup-erase key k s.subscriptions

  trim_entry :
      (m : Memory N) (key k : Key) (s t : JetStream N)
      → IsAssociated key
      → memory t ≡ record (memory s) { subscriptions = erase key s.subscriptions }
      → IsTrimmed m s
      → (lookup k t.subscriptions ≡ lookup k m.subscriptions)
        ⊎ (IsAssociated k × (lookup k t.subscriptions ≡ none))
  trim_entry m key k s t own e h = elim (Bool-cases (key == k)) [
    | inl same ↦ inr (
      subst IsAssociated ((key_beq_iff key k).0 same) own,
      lookup-trimmed key k s t e ∙ ap (λ b. if b then none else lookup k s.subscriptions) same,
    )
    | inr other ↦
        let q : lookup k t.subscriptions ≡ lookup k s.subscriptions =
          lookup-trimmed key k s t e
          ∙ ap (λ b. if b then none else lookup k s.subscriptions) other in
        elim (h.entry k) [ inl p ↦ inl (q ∙ p) | inr (o, p) ↦ inr (o, q ∙ p) ]
  ]

  trim_step :
      (m : Memory N) (key : Key) (s t : JetStream N)
      → IsAssociated key
      → memory t ≡ record (memory s) { subscriptions = erase key s.subscriptions }
      → IsTrimmed m s
      → IsTrimmed m t
  trim_step m key s t own e h = record {
    config = ap (λ (r : Memory N). r.config) e ∙ h.config;
    sinks = ap (λ (r : Memory N). r.sinks) e ∙ h.sinks;
    cleaner = ap (λ (r : Memory N). r.cleaner) e ∙ h.cleaner;
    entry = λ k. trim_entry m key k s t own e h;
  }

  gone_after :
      (key : Key) (s t : JetStream N)
      → memory t ≡ record (memory s) { subscriptions = erase key s.subscriptions }
      → lookup key t.subscriptions ≡ none
  gone_after key s t e =
      lookup-trimmed key key s t e
      ∙ ap (λ b. if b then none else lookup key s.subscriptions) ((key_beq_iff key key).1 refl)

  none_either_way : (b : Bool) → ◌≡◌ {A = Option N.Sub} (if b then none else none) none
  none_either_way true = refl
  none_either_way false = refl

  stays_gone :
      (key k : Key) (s t : JetStream N)
      → memory t ≡ record (memory s) { subscriptions = erase key s.subscriptions }
      → lookup k s.subscriptions ≡ none
      → lookup k t.subscriptions ≡ none
  stays_gone key k s t e p =
      lookup-trimmed key k s t e
      ∙ ap (λ o. if key == k then none else o) p
      ∙ none_either_way (key == k)

  abbrev pub IsGoneIfOwn : Key × N.Sub → JetStream N → Type 0
  IsGoneIfOwn entry s = IsAssociated entry.0 → lookup entry.0 s.subscriptions ≡ none

  not_own :
      (key : Key) → is_js_sub_associated_with_kyma_sub key sub ≡ ok false → ¬ (IsAssociated key)
  not_own key o own = cc

  start_IsTrimmed : (m : Memory N) (s : JetStream N) → memory s ≡ m → IsTrimmed m s
  start_IsTrimmed m s e = record {
    config = ap (λ (k : Memory N). k.config) e;
    sinks = ap (λ (k : Memory N). k.sinks) e;
    cleaner = ap (λ (k : Memory N). k.cleaner) e;
    entry = λ key. inl (ap (λ (k : Memory N). lookup key k.subscriptions) e);
  }

  absent_or_gone :
      (k : Key) (s : JetStream N) (entries : Dict Key N.Sub)
      → IsAssociated k
      → All (λ entry. IsAssociated entry.0 → lookup entry.0 s.subscriptions ≡ none) entries
      → lookup k s.subscriptions ≡ lookup k entries
      → lookup k s.subscriptions ≡ none
  absent_or_gone k s [] own _ e = e ∙ lookup-nil k
  absent_or_gone k s ((key, x) ∷ entries) own (gone, all_gone) e = elim (Bool-cases (key == k)) [
    | inl same ↦
        let q : key ≡ k = (key_beq_iff key k).0 same in
        subst (λ j. lookup j s.subscriptions ≡ none) q (gone (subst IsAssociated (sym q) own))
    | inr other ↦
        absent_or_gone k s entries own all_gone
          (e ∙ lookup-cons k key x entries ∙ ap (λ b. if b then some x else lookup k entries) other)
  ]

  module _ (body : Key → N.Sub → Exec (JetStream N) (Unit {0})) (forgets : Forgets body) where
    -- The round of one entry: its body runs for an own key alone.
    round-Ensures :
        (P Q : JetStream N → Type 0) (key : Key) (x : N.Sub)
        → (IsAssociated key
            → (s t : JetStream N)
            → memory t ≡ record (memory s) { subscriptions = erase key s.subscriptions }
            → P s
            → Q t)
        → (is_js_sub_associated_with_kyma_sub key sub ≡ ok false → (s : JetStream N) → P s → Q s)
        → Ensures P (for_own_entry N digest sub body (key, x)) (λ _. Q)
    unfolding for_own_entry
    round-Ensures P Q key x h k =
        Ensures-bind _ _ (λ own s. (is_js_sub_associated_with_kyma_sub key sub ≡ ok own) × P s) _ _
          (Ensures-lift _ _ _ (λ own s e p. (e, p)))
          (λ own.
            Ensures-when _ _ own _
              (λ b. record {
                at = λ s (o, p) a t e.
                    h (o ∙ ap ok b) s t ((forgets key x (memory s)).at s refl a t e) p;
              })
              (λ b s (o, p). k (o ∙ ap ok b) s p))

    makes :
        (m : Memory N) (entry : Key × N.Sub)
        → Ensures
            (IsTrimmed m)
            (for_own_entry N digest sub body entry)
            (λ _ s. IsTrimmed m s × IsGoneIfOwn entry s)
    makes m (key, x) =
        round-Ensures _ _ key x
          (λ own s t e h. (trim_step m key s t own e h, λ _. gone_after key s t e))
          (λ o s h. (h, λ own. absurd (not_own key o own)))

    keeps :
        (m : Memory N) (entry other : Key × N.Sub)
        → Ensures
            (λ s. IsTrimmed m s × IsGoneIfOwn other s)
            (for_own_entry N digest sub body entry)
            (λ _ s. IsTrimmed m s × IsGoneIfOwn other s)
    keeps m (key, x) other =
        round-Ensures _ _ key x
          (λ own s t e (h, g).
            (trim_step m key s t own e h, λ o. stays_gone key other.0 s t e (g o)))
          (λ o s h. h)

    pub for_own_entries-IsTrimmed :
        (m : Memory N)
        → Ensures
            (λ s. memory s ≡ m)
            (for_own_entries N digest sub body)
            (λ _ s. IsTrimmed m s × All (λ entry. IsGoneIfOwn entry s) m.subscriptions)
    unfolding for_own_entries
    for_own_entries-IsTrimmed m =
        Ensures-bind _ _ (λ entries s. (entries ≡ m.subscriptions) × IsTrimmed m s) _ _
          (Ensures-gets _ _ _
            (λ s e. (ap (λ (k : Memory N). k.subscriptions) e, start_IsTrimmed m s e)))
          (λ entries. record {
            at = λ s (q, p) a t e.
                subst (λ es. IsTrimmed m t × All (λ entry. IsGoneIfOwn entry t) es) q
                  ((Ensures-for_each_all (IsTrimmed m) IsGoneIfOwn _ (makes m) (keeps m) entries).at
                    s p a t e);
          })

    -- After the loop no own key is left, and every other key reads as before.
    pub for_own_entries-lookup :
        (m : Memory N) (s : JetStream N)
        → IsTrimmed m s × All (λ entry. IsGoneIfOwn entry s) m.subscriptions
        → (k : Key)
        → (IsAssociated k → lookup k s.subscriptions ≡ none)
          × (¬ (IsAssociated k) → lookup k s.subscriptions ≡ lookup k m.subscriptions)
    for_own_entries-lookup m s (h, all_gone) k = (
      λ own. elim (h.entry k) [
        | inl p ↦ absent_or_gone k s m.subscriptions own all_gone p
        | inr (_, p) ↦ p
      ],
      λ other. elim (h.entry k) [ inl p ↦ p | inr (own, _) ↦ absurd (other own) ],
    )
