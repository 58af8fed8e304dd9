-- ===== src/Validator/Spec.antt =====
-- What a subscription that passes the validation looks like.
use eventing_manager.Base.{
  ◌≡◌, ◌≢◌, refl, ap, subst, ◌∙◌, String, Bool, true, false, not, Option, none, some, List, [], ◌∷◌,
  ◌++◌, ◌==◌, string_eq, eq_iff, if◌then◌else◌, arith, All, inl, inr, length, ◌⊎◌, ◌≤◌,
}
use eventing_manager.Base.Dict.{Dict, lookup}
use eventing_manager.Base.Int.{atoi}
use eventing_manager.Base.Text.{has_suffix, has_prefix, split, is_some, join}
use eventing_manager.Subscription.{
  Subscription, type_matching_exact, type_matching_standard, max_in_flight_messages,
}
use eventing_manager.Errors.{Error, wrap}
use eventing_manager.Validator.{
  err_subscription_validation_failed, find_service, config_error, FieldError,
  make_invalid_field_error, Libraries, validate, validate_spec, validate_type_matching,
  validate_source, validate_types, validate_each_type, validate_type, validate_config,
  validate_sink, validate_host, get_sink_data, get_duplicates, as_list, validate_sink_service,
  is_valid_scheme, is_invalid_ce, valid_prefix, cluster_local_url_suffix, is_not_int,
}
use eventing_manager.Validator.Types.{IsDistinct, get_duplicates-IsDistinct}

module _ (L : Libraries) where
  -- A type that the spec may name: not empty, of two segments, and valid in a cloud event; only an
  -- exact matching may use the prefix of the broker.
  pub record IsValidType (m t : String) : Type 0 where
    segments : 2 ≤ length (split b'.' t)
    prefix : (m ≡ type_matching_exact) ⊎ (has_prefix t valid_prefix ≡ false)
    event : is_invalid_ce L "source" t ≡ false

  validate_type-none : (m t : String) → validate_type L m t ≡ none → IsValidType m t
  unfolding validate_type
  validate_type-none m t e = record {
    segments = ground arith;
    prefix = ground (arith, eq_iff m type_matching_exact);
    event = ground arith;
  }

  each_none :
      (o r : Option FieldError)
      → (elim o [ some e ↦ some e | none ↦ r ]) ≡ none
      → (o ≡ none) × (r ≡ none)
  each_none none r e = (refl, e)
  each_none (some x) r e = cc

  validate_each_type-none :
      (m : String) (ts : List String) → validate_each_type L m ts ≡ none → All (IsValidType m) ts
  unfolding validate_each_type
  validate_each_type-none m [] e = tt
  validate_each_type-none m (t ∷ ts) e =
      let (q, r) = each_none (validate_type L m t) (validate_each_type L m ts) e in
      (validate_type-none m t q, validate_each_type-none m ts r)

  no_duplicates :
      (d : List String) (r : Option FieldError) (f : List String → FieldError)
      → (elim d [ [] ↦ r | x ∷ xs ↦ some (f (x ∷ xs)) ]) ≡ none
      → (d ≡ []) × (r ≡ none)
  no_duplicates [] r f e = (refl, e)
  no_duplicates (x ∷ xs) r f e = cc

  -- The types that pass are distinct and each is valid.
  validate_types-none :
      (ts : List String) (m : String)
      → validate_types L ts m ≡ none
      → (ts ≢ []) × IsDistinct ts × All (IsValidType m) ts
  unfolding validate_types
  validate_types-none [] m e = cc
  validate_types-none (t ∷ ts) m e =
      let (d, h) =
        no_duplicates (get_duplicates (t ∷ ts)) _
          (λ d. make_invalid_field_error "spec.types" (join "," d) "must not have duplicate types")
          e in
      (λ q. cc, (get_duplicates-IsDistinct (t ∷ ts)).0 d, validate_each_type-none m (t ∷ ts) h)

  -- The host of a sink that passes.
  abbrev HasLocalHost : String → String → Type 0
  HasLocalHost sink namespace =
      (host : String) × (name : String) × (a b c : String) × (get_sink_data L sink
        ≡ inr (host, name ∷ namespace ∷ a ∷ b ∷ c ∷ []))
      × (has_suffix host cluster_local_url_suffix ≡ true)

  host-none :
      (sink namespace host : String) (parts : List String)
      → validate_host L sink namespace host parts ≡ none
      → (name : String) × (a b c : String) × (parts ≡ name ∷ namespace ∷ a ∷ b ∷ c ∷ [])
        × (has_suffix host cluster_local_url_suffix ≡ true)
  unfolding validate_host
  host-none sink namespace host (name ∷ ns ∷ a ∷ b ∷ c ∷ []) e = (
    name,
    a,
    b,
    c,
    ap (λ n. name ∷ n ∷ a ∷ b ∷ c ∷ []) (ground (arith, eq_iff namespace ns)),
    ground arith,
  )
  host-none sink namespace host [] e = ground arith
  host-none sink namespace host (n ∷ []) e = ground arith
  host-none sink namespace host (n ∷ m ∷ []) e = ground arith
  host-none sink namespace host (n ∷ m ∷ a ∷ []) e = ground arith
  host-none sink namespace host (n ∷ m ∷ a ∷ b ∷ []) e = ground arith
  host-none sink namespace host (n ∷ m ∷ a ∷ b ∷ c ∷ d ∷ ds) e = ground arith

  sink_data-none :
      (sink namespace : String) (d : Error ⊎ (String × List String))
      → (elim d [
        | inl e ↦ some (make_invalid_field_error "spec.sink" sink (L.text_of e))
        | inr (host, parts) ↦ validate_host L sink namespace host parts
      ])
        ≡ none
      → (host : String) × (parts : List String) × (d ≡ inr (host, parts))
        × (validate_host L sink namespace host parts ≡ none)
  sink_data-none sink namespace (inl e) h = cc
  sink_data-none sink namespace (inr (host, parts)) h = (host, parts, refl, h)

  guarded :
      (a b : Bool) (x y : FieldError) (r : Option FieldError)
      → (if a then some x else (if not b then some y else r)) ≡ none
      → r ≡ none
  guarded a b x y r e = ground arith

  validate_sink-none :
      (sink namespace : String)
      → validate_sink L sink namespace ≡ none
      → HasLocalHost sink namespace
  unfolding validate_sink
  validate_sink-none sink namespace e =
      let (host, parts, q, h) =
        sink_data-none sink namespace (get_sink_data L sink)
          (guarded (sink == "") (is_valid_scheme sink) _ _ _ e) in
      let (name, a, b, c, p, suffix) = host-none sink namespace host parts h in
      (host, name, a, b, c, q ∙ ap (λ ps. inr (host, ps)) p, suffix)

  -- What the cluster and the spec hold for a subscription that passes.
  pub record IsValid (sub : Subscription) : Type 0 where
    pub matching :
        (sub.spec.type_matching ≡ type_matching_exact)
        ⊎ (sub.spec.type_matching ≡ type_matching_standard)
    pub source : (sub.spec.source ≢ "") ⊎ (sub.spec.type_matching ≡ type_matching_exact)
    pub types :
        (sub.spec.types ≢ [])
        × IsDistinct sub.spec.types
        × All (IsValidType sub.spec.type_matching) sub.spec.types
    pub in_flight :
        (value : String)
        → lookup max_in_flight_messages sub.spec.config ≡ some value
        → is_some (atoi value) ≡ true
    pub host : HasLocalHost sub.spec.sink sub.namespace
    pub service : L.service_exists sub.namespace host.1 ≡ true

  both_empty : {A : Type 0} (xs ys : List A) → xs ++ ys ≡ [] → (xs ≡ []) × (ys ≡ [])
  both_empty [] ys e = (refl, e)
  both_empty (x ∷ xs) ys e = cc

  as_list-none : (o : Option FieldError) → as_list L o ≡ [] → o ≡ none
  as_list-none none e = refl
  as_list-none (some x) e = cc

  validate-parts :
      (es : List FieldError) (o : Option Error) (f : List FieldError → Error) (g : Error → Error)
      → (elim es [ x ∷ xs ↦ some (f (x ∷ xs)) | [] ↦ elim o [ none ↦ none | some e ↦ some (g e) ] ])
        ≡ none
      → (es ≡ []) × (o ≡ none)
  validate-parts [] none f g e = (refl, refl)
  validate-parts [] (some x) f g e = cc
  validate-parts (x ∷ xs) o f g e = cc

  entry-none :
      (value : String) (o : Option String) (f : String → FieldError)
      → (elim o [ none ↦ [] | some v ↦ if not (is_some (atoi v)) then f v ∷ [] else [] ]) ≡ []
      → o ≡ some value
      → is_some (atoi value) ≡ true
  entry-none value none f e q = cc
  entry-none value (some v) f e q =
      let p : v ≡ value = cc in subst (λ w. is_some (atoi w) ≡ true) p (ground arith)

  -- A config that passes has a number under the key of the messages in flight.
  in_flight-none :
      (config : Dict String String)
      → validate_config config ≡ []
      → (value : String) → lookup max_in_flight_messages config ≡ some value
      → is_some (atoi value) ≡ true
  unfolding validate_config config_error is_not_int
  in_flight-none config e value q =
      entry-none value (lookup max_in_flight_messages config) _ (both_empty _ _ e).0 q

  found :
      (host name namespace : String) (rest : List String)
      → find_service L (inr (host, name ∷ namespace ∷ rest)) ≡ none
      → L.service_exists namespace name ≡ true
  unfolding find_service
  found host name namespace rest e = ground arith

  matching-none :
      (m : String)
      → validate_type_matching m ≡ none
      → (m ≡ type_matching_exact) ⊎ (m ≡ type_matching_standard)
  unfolding validate_type_matching
  matching-none m e = ground (arith, eq_iff m type_matching_exact, eq_iff m type_matching_standard)

  source-none :
      (source m : String)
      → validate_source L source m ≡ none
      → (source ≢ "") ⊎ (m ≡ type_matching_exact)
  unfolding validate_source
  source-none source m e = ground (arith, eq_iff source "", eq_iff m type_matching_exact)

  service-none :
      (sink namespace : String) (h : HasLocalHost sink namespace)
      → validate_sink_service L sink ≡ none
      → L.service_exists namespace h.1 ≡ true
  unfolding validate_sink_service
  service-none sink namespace (host, name, a, b, c, q, h) e =
      found host name namespace (a ∷ b ∷ c ∷ []) (subst (λ d. find_service L d ≡ none) q e)

  -- A subscription that `Validate` accepts has a known type matching, a source unless the matching is
  -- exact, distinct types that are valid, a number of messages in flight where its config has that key,
  -- and a cluster-local sink of five sub-domains in its own namespace, whose service exists.
  pub validate_sound : (sub : Subscription) → validate L sub ≡ none → IsValid sub
  unfolding validate validate_spec
  validate_sound sub e =
      let (es, service) =
        validate-parts _ (validate_sink_service L sub.spec.sink)
          (λ es. wrap err_subscription_validation_failed (L.to_aggregate es))
          (wrap err_subscription_validation_failed) e in
      let (m, es) = both_empty _ _ es in
      let (s, es) = both_empty _ _ es in
      let (t, es) = both_empty _ _ es in
      let (c, k) = both_empty _ _ es in
      let host = validate_sink-none sub.spec.sink sub.namespace (as_list-none _ k) in
      record {
        matching = matching-none sub.spec.type_matching (as_list-none _ m);
        source = source-none sub.spec.source sub.spec.type_matching (as_list-none _ s);
        types = validate_types-none sub.spec.types sub.spec.type_matching (as_list-none _ t);
        in_flight = in_flight-none sub.spec.config c;
        host = host;
        service = service-none sub.spec.sink sub.namespace host service;
      }
