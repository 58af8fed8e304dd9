-- ===== src/JetStream/Subjects.antt =====
-- Subjects, consumer names and keys (utils.go, and GetJetStreamSubject of jetstream.go). `digest` is
-- the hexadecimal text of `sha256.Sum256`, of Go's crypto library.
pub mod Laws
use Prim.Native.Nat.{ℕ, zero, suc}
use eventing_manager.Base.{
  String, ◌<>◌, Bool, true, false, ◌||◌, Option, none, some, List, [], ◌∷◌, ◌++◌, map, ◌==◌, ◌!=◌,
  string_eq, nat_eq, contains, if◌then◌else◌, length, ℤ,
}
use eventing_manager.Base.Dict.{Dict, lookup}
use eventing_manager.Base.Int.{atoi}
use eventing_manager.Base.Text.{before_last}
use eventing_manager.Cleaner.{Cleaner}
use eventing_manager.Errors.{Error, sentinel}
use eventing_manager.Exec.{Outcome, ok, err, panic}
use eventing_manager.Subscription.{
  Subscription, EventType, JetStreamTypes, type_matching_exact, max_in_flight_messages,
}
use eventing_manager.JetStream.{SubscriptionSubjectIdentifier, NatsConfig}

-- The first characters of a text, for the slice `[:32]`.
abbrev pub take_chars : ℕ → String → String
take_chars zero s = ""
take_chars (suc n) String.[] = ""
take_chars (suc n) (String.◌∷◌ c s) = String.◌∷◌ c (take_chars n s)

-- `types.NamespacedName.String()`
unfoldable pub create_key_prefix : Subscription → String
create_key_prefix sub = sub.namespace <> ("/" <> sub.name)

unfoldable pub get_clean_event_types_from_event_types : List EventType → List String
get_clean_event_types_from_event_types types = map (λ t. t.clean_type) types

-- The loop of `getUniqueEventTypes`: the map of types seen, and the types still to come.
unfoldable pub unique_from : List String → List String → List String
unique_from seen [] = []
unique_from seen (t ∷ ts) =
    let old = unique_from seen ts in
    let new = t ∷ unique_from (t ∷ seen) ts in if contains t seen then old else new

unfoldable pub get_unique_event_types : List String → List String
unfolding unique_from
get_unique_event_types types = unique_from [] types

clean_type : Cleaner → String → String → EventType
clean_type cleaner matching t = record {
  original_type = t;
  clean_type = if matching != type_matching_exact then cleaner.clean_event_type t else t;
}

unfoldable pub get_clean_event_types : Subscription → Cleaner → List EventType
unfolding get_unique_event_types clean_type
get_clean_event_types sub cleaner =
    map (clean_type cleaner sub.spec.type_matching) (get_unique_event_types sub.spec.types)

unfoldable pub get_jetstream_subject : Cleaner → NatsConfig → String → String → String → String
get_jetstream_subject cleaner config source subject matching =
    if matching == type_matching_exact
    then config.js_subject_prefix <> ("." <> subject)
    else config.js_subject_prefix <> ("." <> (cleaner.clean_source source <> ("." <> subject)))

unfoldable pub get_jetstream_subjects :
    Cleaner → NatsConfig → String → List String → String → List String
unfolding get_jetstream_subject
get_jetstream_subjects cleaner config source [] matching = []
get_jetstream_subjects cleaner config source (subject ∷ subjects) matching =
    get_jetstream_subject cleaner config source subject matching
    ∷ get_jetstream_subjects cleaner config source subjects matching

-- `s.namespacedSubjectName[:strings.LastIndex(s.namespacedSubjectName, "/")]`, a panic without a "/".
unfoldable pub namespaced_name : SubscriptionSubjectIdentifier → Outcome String
namespaced_name key = elim (before_last b'/' key.namespaced_subject_name) [
  | some name ↦ ok name
  | none ↦ panic
]

associated : Subscription → Outcome String → Outcome Bool
unfolding create_key_prefix
associated sub (ok name) = ok (create_key_prefix sub == name)
associated sub (err e) = err e
associated sub panic = panic

unfoldable pub is_js_sub_associated_with_kyma_sub :
    SubscriptionSubjectIdentifier → Subscription → Outcome Bool
unfolding namespaced_name associated
is_js_sub_associated_with_kyma_sub key sub = associated sub (namespaced_name key)

unfoldable pub compute_namespaced_subject_name : Subscription → String → String
compute_namespaced_subject_name sub subject =
    sub.namespace <> ("/" <> (sub.name <> ("/" <> subject)))

-- `GetMaxInFlightMessages` (subscription_types.go); a missing key of the map reads as "".
unfoldable pub get_max_in_flight_messages : Subscription → ℤ → ℤ
unfolding lookup
get_max_in_flight_messages sub default =
    elim (atoi (elim (lookup max_in_flight_messages sub.spec.config) [ some v ↦ v | none ↦ "" ])) [
      | some value ↦ value
      | none ↦ default
    ]

module _ (digest : String → String) where
  unfoldable pub compute_consumer_name : Subscription → String → String
  compute_consumer_name sub subject =
      take_chars 32 (digest (sub.namespace <> ("/" <> (sub.name <> ("/" <> subject)))))

  unfoldable pub new_subscription_subject_identifier :
      Subscription → String → SubscriptionSubjectIdentifier
  unfolding compute_consumer_name compute_namespaced_subject_name
  new_subscription_subject_identifier sub subject = record {
    consumer_name = compute_consumer_name sub subject;
    namespaced_subject_name = compute_namespaced_subject_name sub subject;
  }

  -- The loop of `GetBackendJetStreamTypes`, whose subjects are as many as the types.
  backend_types : Subscription → List String → List String → List JetStreamTypes
  unfolding compute_consumer_name
  backend_types sub (t ∷ ts) (subject ∷ subjects) =
      record { original_type = t; consumer_name = compute_consumer_name sub subject }
      ∷ backend_types sub ts subjects
  backend_types sub _ _ = []

  unfoldable pub get_backend_jetstream_types :
      Subscription → List String → Outcome (List JetStreamTypes)
  unfolding backend_types
  get_backend_jetstream_types sub subjects =
      if length subjects != length sub.spec.types
      then err (sentinel "length of JetStream subjects do not match with eventTypes from spec")
      else ok (backend_types sub sub.spec.types subjects)
