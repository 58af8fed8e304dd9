-- ===== src/Validator.antt =====
-- The validation of subscriptions (internal/controller/eventing/subscription/validator, with
-- pkg/utils/utils.go and pkg/ems/api/events/types).
pub mod Types
pub mod Spec
use eventing_manager.Base.{
  ℕ, ◌+◌, String, ◌<>◌, Bool, true, false, ◌&&◌, ◌||◌, not, Option, none, some, List, [], ◌∷◌, ◌++◌,
  ◌==◌, ◌!=◌, string_eq, nat_eq, if◌then◌else◌, length, ltb, ◌⊎◌, inl, inr,
}
use eventing_manager.Base.Dict.{Dict, lookup, insert}
use eventing_manager.Base.Int.{atoi}
use eventing_manager.Base.Text.{has_prefix, has_suffix, split, join, is_some}
use eventing_manager.Errors.{Error, sentinel, wrap, note, make_error}
use eventing_manager.Subscription.{
  Subscription, type_matching_exact, type_matching_standard, max_in_flight_messages,
  protocol_settings_qos, webhook_auth_type, webhook_auth_grant_type,
}

-- `field.Error` as `field.Invalid(path, value, detail)` makes it
pub record FieldError : Type 0 where
  pub path : String
  pub value : String
  pub detail : String

abbrev pub make_invalid_field_error : String → String → String → FieldError
make_invalid_field_error path value detail = record { path = path; value = value; detail = detail }

abbrev pub valid_prefix : String
valid_prefix = "sap.kyma.custom"

abbrev pub cluster_local_url_suffix : String
cluster_local_url_suffix = "svc.cluster.local"

-- `isNotInt`
unfoldable pub is_not_int : String → Bool
is_not_int value = not (is_some (atoi value))

-- `if err != nil { allErrs = append(allErrs, err) }`
abbrev pub if_invalid : Bool → FieldError → Option FieldError
if_invalid true e = some e
if_invalid false e = none

unfoldable pub validate_type_matching : String → Option FieldError
validate_type_matching m = if_invalid (m != type_matching_exact && m != type_matching_standard) (
    make_invalid_field_error "spec.typeMatching" m
      "must be a valid TypeMatching value exact or standard")

-- `strings.ReplaceAll(value, "-", "_")`
abbrev pub underscored : String → String
underscored value = join "_" (split b'-' value)

unfoldable pub is_invalid_qos : String → Bool
is_invalid_qos value = underscored value != "AT_LEAST_ONCE" && underscored value != "AT_MOST_ONCE"

unfoldable pub is_invalid_auth_type : String → Bool
is_invalid_auth_type value = value != "oauth2"

unfoldable pub is_invalid_grant_type : String → Bool
is_invalid_grant_type value = value != "client_credentials"

-- `if ifKeyExistsInConfig(config, key) && invalid(config[key]) { … }`
config_error : Dict String String → String → (String → Bool) → String → List FieldError
config_error config key invalid detail = elim (lookup key config) [
  | none ↦ []
  | some value ↦
      if invalid value then make_invalid_field_error "spec.config" value detail ∷ [] else []
]

unfoldable pub validate_config : Dict String String → List FieldError
unfolding config_error
validate_config config =
    config_error config max_in_flight_messages is_not_int
      "maxInFlightMessages must be a stringified int value"
    ++ (config_error config protocol_settings_qos is_invalid_qos
          "must be a valid QoS value AT_LEAST_ONCE or AT_MOST_ONCE"
        ++ (config_error config webhook_auth_type is_invalid_auth_type
              "must be a valid Auth Type value oauth2"
            ++ config_error config webhook_auth_grant_type is_invalid_grant_type
                "must be a valid Grant Type value client_credentials"))

-- `itemsMap[t]`, with 0 for a missing key
abbrev pub count_of : String → Dict String ℕ → ℕ
count_of t counts = elim (lookup t counts) [ none ↦ 0 | some n ↦ n ]

-- The loop of `getDuplicates`, from the counts so far.
unfoldable pub duplicates_from : Dict String ℕ → List String → List String
duplicates_from counts [] = []
duplicates_from counts (t ∷ ts) =
    let rest = duplicates_from (insert t (1 + count_of t counts) counts) ts in
    if 1 + count_of t counts == 2 then t ∷ rest else rest

unfoldable pub get_duplicates : List String → List String
get_duplicates items = duplicates_from [] items

unfoldable pub is_valid_scheme : String → Bool
is_valid_scheme sink = has_prefix sink "http://" || has_prefix sink "https://"

-- `strings.Split(s, ":")[0]`
abbrev pub first_part : List String → String
first_part [] = ""
first_part (part ∷ parts) = part

abbrev pub err_parse_sink : Error
err_parse_sink = sentinel "failed to parse subscription sink URL"

abbrev pub err_sink_validation_failed : Error
err_sink_validation_failed = sentinel "Sink validation failed"

abbrev pub err_subscription_validation_failed : Error
err_subscription_validation_failed = sentinel "Subscription validation failed"

-- The code that is not in this repository.
pub record Libraries : Type 0 where
  -- the `Host` of `url.ParseRequestURI(sink)`
  pub parse_request_host : String → Error ⊎ String
  -- whether `Validate` of a cloud event of that source and type reports an error
  pub is_invalid_event : String → String → Bool
  -- `GetRandString(10)`
  pub random_type : String
  -- the text of an error
  pub text_of : Error → String
  -- `errs.ToAggregate()`
  pub to_aggregate : List FieldError → Error
  -- whether the client finds the service of that namespace and name
  pub service_exists : String → String → Bool

module _ (L : Libraries) where
  -- The type that `GetCloudEvent` gives its event.
  abbrev pub cloud_event_type : String → String
  cloud_event_type event_type = if event_type == "" then L.random_type else event_type

  unfoldable pub is_invalid_ce : String → String → Bool
  is_invalid_ce source event_type =
      if source == "" then false else L.is_invalid_event source (cloud_event_type event_type)

  unfoldable pub validate_source : String → String → Option FieldError
  validate_source source m =
      if source == "" && m != type_matching_exact
      then some (make_invalid_field_error "spec.source" source "must not be empty")
      else if_invalid (is_invalid_ce source "")
          (make_invalid_field_error "spec.source" source "must be valid as per RFC 3986")

  -- One round of the loop of `validateTypes`.
  unfoldable pub validate_type : String → String → Option FieldError
  validate_type m t =
      if t == ""
      then some (make_invalid_field_error "spec.types" t "must not be of length zero")
      else (if ltb (length (split b'.' t)) 2
          then some (make_invalid_field_error "spec.types" t "must have minimum 2 segments")
          else (if m != type_matching_exact && has_prefix t valid_prefix
              then some (
                  make_invalid_field_error "spec.types" t
                    "must not have sap.kyma.custom as type prefix")
              else if_invalid (is_invalid_ce "source" t)
                  (make_invalid_field_error "spec.types" t "must be valid as per RFC 3986")))

  unfoldable pub validate_each_type : String → List String → Option FieldError
  validate_each_type m [] = none
  validate_each_type m (t ∷ ts) = elim (validate_type m t) [
    | some e ↦ some e
    | none ↦ validate_each_type m ts
  ]

  unfoldable pub validate_types : List String → String → Option FieldError
  validate_types [] m = some (make_invalid_field_error "spec.types" "" "must not be empty")
  validate_types (t ∷ ts) m = elim (get_duplicates (t ∷ ts)) [
    | [] ↦ validate_each_type m (t ∷ ts)
    | d ∷ ds ↦
        some (
          make_invalid_field_error "spec.types" (join "," (d ∷ ds)) "must not have duplicate types")
  ]

  unfoldable pub get_sink_data : String → Error ⊎ (String × List String)
  get_sink_data sink = elim (L.parse_request_host sink) [
    | inl e ↦ inl (make_error err_parse_sink e)
    | inr host ↦ inr (first_part (split b':' host), split b'.' (first_part (split b':' host)))
  ]

  -- From the parts of the host on.
  unfoldable pub validate_host : String → String → String → List String → Option FieldError
  validate_host sink namespace host (name ∷ svc_ns ∷ a ∷ b ∷ c ∷ []) =
      if not (has_suffix host cluster_local_url_suffix)
      then some (
          make_invalid_field_error "spec.sink" sink
            "must have valid sink URL suffix svc.cluster.local")
      else if_invalid (namespace != svc_ns) (
          make_invalid_field_error "metadata.namespace" sink
            ("must have the same namespace as the subscriber: " <> svc_ns))
  validate_host sink namespace host parts =
      if not (has_suffix host cluster_local_url_suffix)
      then some (
          make_invalid_field_error "spec.sink" sink
            "must have valid sink URL suffix svc.cluster.local")
      else some (
          make_invalid_field_error "spec.sink" sink
            ("must have sink URL with 5 sub-domains: " <> host))

  unfoldable pub validate_sink : String → String → Option FieldError
  validate_sink sink namespace =
      if sink == ""
      then some (make_invalid_field_error "spec.sink" sink "must not be empty")
      else (if not (is_valid_scheme sink)
          then some
              (make_invalid_field_error "spec.sink" sink "must have URL scheme 'http' or 'https'")
          else elim (get_sink_data sink) [
            | inl e ↦ some (make_invalid_field_error "spec.sink" sink (L.text_of e))
            | inr (host, parts) ↦ validate_host sink namespace host parts
          ])

  abbrev pub as_list : Option FieldError → List FieldError
  as_list none = []
  as_list (some e) = e ∷ []

  unfoldable pub validate_spec : Subscription → List FieldError
  validate_spec sub =
      as_list (validate_type_matching sub.spec.type_matching)
      ++ (as_list (validate_source sub.spec.source sub.spec.type_matching)
          ++ (as_list (validate_types sub.spec.types sub.spec.type_matching)
              ++ (validate_config sub.spec.config
                  ++ as_list (validate_sink sub.spec.sink sub.namespace))))

  -- The service of a sink is named by its first two sub-domains.
  find_service : Error ⊎ (String × List String) → Option Error
  find_service (inl e) = some (wrap err_sink_validation_failed e)
  find_service (inr (host, name ∷ namespace ∷ rest)) =
      if L.service_exists namespace name
      then none
      else some (
          note err_sink_validation_failed
            (": service " <> (name <> ("." <> (namespace <> " not found in the cluster")))))
  find_service (inr (host, _)) =
      some
        (note err_sink_validation_failed ": sink format should contain the service name.namespace")

  unfoldable pub validate_sink_service : String → Option Error
  unfolding find_service
  validate_sink_service sink = find_service (get_sink_data sink)

  -- `(*subscriptionValidator).Validate`; `none` is the nil error.
  unfoldable pub validate : Subscription → Option Error
  validate sub = elim (validate_spec sub) [
    | e ∷ es ↦ some (wrap err_subscription_validation_failed (L.to_aggregate (e ∷ es)))
    | [] ↦ elim (validate_sink_service sub.spec.sink) [
      | none ↦ none
      | some e ↦ some (wrap err_subscription_validation_failed e)
    ]
  ]
