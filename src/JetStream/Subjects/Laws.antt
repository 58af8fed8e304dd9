-- ===== src/JetStream/Subjects/Laws.antt =====
-- Keys name their subscription, and unique types.
use eventing_manager.Base.{
  ◌≡◌, refl, ◌∙◌, ap, String, ◌<>◌, true, false, not, ◌&&◌, some, List, [], ◌∷◌, ◌++◌, string_eq,
  arith, eq_iff, contains, contains-append,
}
use eventing_manager.Base.Text.{before_last, has_char}
use eventing_manager.Base.Text.Laws.{
  before_last-append, before_last-append_has, before_last_of_has_char,
}
use eventing_manager.Exec.{ok, panic}
use eventing_manager.JetStream.{SubscriptionSubjectIdentifier}
use eventing_manager.JetStream.Subjects.{associated}
use eventing_manager.Base.{◌==◌, none}
use eventing_manager.Subscription.{Subscription}
use eventing_manager.Subscription.Types.{
  contains_string-eq-contains, unique_types_from, get_unique_types,
}
use eventing_manager.JetStream.Subjects.{
  create_key_prefix, unique_from, get_unique_event_types, namespaced_name,
  is_js_sub_associated_with_kyma_sub, new_subscription_subject_identifier,
}
use text.Mathlib.TextLemmas.{append-nil, nil-append, nil≢cons, cons-append, append_cancel_left}
use mathlib.Core.List.{append-nil as append-nil_list, append_assoc as append_assoc_list}

slash-append : (t : String) → "/" <> t ≡ String.◌∷◌ "/" t
slash-append t = cons-append "/" "" t ∙ ap (String.◌∷◌ "/") (nil-append t)

before_last-slash :
    (s t : String) → has_char b'/' t ≡ false → before_last b'/' (s <> ("/" <> t)) ≡ some s
before_last-slash s t h = rw slash-append (before_last-append "/" s t h)

before_last-key :
    (namespace name subject p : String)
    → before_last b'/' (name <> ("/" <> subject)) ≡ some p
    → before_last b'/' (namespace <> ("/" <> (name <> ("/" <> subject))))
      ≡ some (namespace <> ("/" <> p))
before_last-key namespace name subject p h =
    before_last-append_has b'/' namespace ("/" <> (name <> ("/" <> subject))) ("/" <> p)
      (before_last-append_has b'/' "/" (name <> ("/" <> subject)) p h)

-- A slash in the subject leaves more of the key in front of the last one.
before_last-slash_subject :
    (name subject : String)
    → has_char b'/' subject ≡ true
    → (p : String) × (before_last b'/' (name <> ("/" <> subject)) ≡ some (name <> ("/" <> p)))
before_last-slash_subject name subject h =
    let (p, e) = before_last_of_has_char b'/' subject h in
    (
      p,
      before_last-append_has b'/' name ("/" <> subject) ("/" <> p)
          (before_last-append_has b'/' "/" subject p e),
    )

prefix-ne-longer :
    (namespace name p : String)
    → namespace <> ("/" <> name) ≡ namespace <> ("/" <> (name <> ("/" <> p)))
    → ⊥
prefix-ne-longer namespace name p h =
    let e₁ : ("/" <> name) ≡ ("/" <> (name <> ("/" <> p))) = append_cancel_left namespace _ _ h in
    let e₂ : name ≡ name <> ("/" <> p) = append_cancel_left "/" _ _ e₁ in
    let e₃ : "" ≡ "/" <> p = append_cancel_left name _ _ (append-nil name ∙ e₂) in
    nil≢cons (e₃ ∙ slash-append p)

module _ (digest : String → String) (sub : Subscription) (subject : String) where
  -- The namespaced name of a key is the one of its subscription, if the subject has no slash.
  pub namespaced_name_lem :
      has_char b'/' subject ≡ false
      → namespaced_name (new_subscription_subject_identifier digest sub subject)
        ≡ ok (create_key_prefix sub)
  unfolding namespaced_name new_subscription_subject_identifier create_key_prefix
  namespaced_name_lem h = rw (
    before_last-key sub.namespace sub.name subject sub.name (before_last-slash sub.name subject h),
    namespaced_name,
  )

  -- A key whose subject has a slash is not associated with the subscription that it was made for.
  pub associated-slash :
      has_char b'/' subject ≡ true
      → is_js_sub_associated_with_kyma_sub
          (new_subscription_subject_identifier digest sub subject)
          sub
        ≡ ok false
  unfolding is_js_sub_associated_with_kyma_sub new_subscription_subject_identifier
  associated-slash h =
      let (p, e) = before_last-slash_subject sub.name subject h in
      ground (
        arith,
        before_last-key sub.namespace sub.name subject _ e,
        eq_iff (sub.namespace <> ("/" <> sub.name))
            (sub.namespace <> ("/" <> (sub.name <> ("/" <> p)))),
        prefix-ne-longer sub.namespace sub.name p,
      )

-- Which subscription a key is associated with: the text in front of its last slash.
pub associated-owner :
    (sub : Subscription) (key : SubscriptionSubjectIdentifier) (owner subject : String)
    → has_char b'/' subject ≡ false
    → key.namespaced_subject_name ≡ owner <> ("/" <> subject)
    → is_js_sub_associated_with_kyma_sub key sub ≡ ok (sub.namespace <> ("/" <> sub.name) == owner)
unfolding is_js_sub_associated_with_kyma_sub namespaced_name create_key_prefix associated
associated-owner sub key owner subject h e =
    ap (λ o. associated sub (elim o [ some name ↦ ok name | none ↦ panic ]))
      (ap (before_last b'/') e ∙ before_last-slash owner subject h)

contains-unique_from :
    (seen ts : List String) (t : String)
    → contains t (unique_from seen ts) ≡ (contains t ts && not (contains t seen))
unfolding unique_from
contains-unique_from seen [] t = ground arith
contains-unique_from seen (x ∷ ts) t =
    ground (arith, eq_iff x t, contains-unique_from seen ts t, contains-unique_from (x ∷ seen) ts t)

abbrev pub IsDistinct : List String → Type 0
IsDistinct [] = Unit
IsDistinct (x ∷ xs) = (contains x xs ≡ false) × IsDistinct xs

unique_from-IsDistinct : (seen ts : List String) → IsDistinct (unique_from seen ts)
unfolding unique_from
unique_from-IsDistinct seen [] = tt
unique_from-IsDistinct seen (x ∷ ts) = ground (
  arith,
  eq_iff x x,
  contains-unique_from (x ∷ seen) ts x,
  unique_from-IsDistinct seen ts,
  unique_from-IsDistinct (x ∷ seen) ts,
)

-- `getUniqueEventTypes` keeps exactly the types given, each once.
pub get_unique_event_types_lem :
    (ts : List String)
    → IsDistinct (get_unique_event_types ts)
      × ((t : String) → contains t (get_unique_event_types ts) ≡ contains t ts)
unfolding get_unique_event_types
get_unique_event_types_lem ts =
    (unique_from-IsDistinct [] ts, λ t. ground (arith, contains-unique_from [] ts t))

unique_types_from-eq :
    (result seen ts : List String)
    → ((t : String) → contains t seen ≡ contains t result)
    → unique_types_from result ts ≡ result ++ unique_from seen ts
unfolding unique_types_from unique_from
unique_types_from-eq result seen [] h = rw append-nil_list
unique_types_from-eq result seen (x ∷ ts) h = ground (
  arith,
  h x,
  contains_string-eq-contains result x,
  unique_types_from-eq result seen ts h,
  unique_types_from-eq (result ++ x ∷ []) (x ∷ seen) ts
      (λ t. ground (arith, h t, contains-append t result (x ∷ []))),
  append_assoc_list result (x ∷ []) (unique_from (x ∷ seen) ts),
)

-- The two ways in which the code drops duplicates, `GetUniqueTypes` over a slice and
-- `getUniqueEventTypes` over a map, agree.
pub get_unique_types-eq :
    (s : Subscription) → get_unique_types s ≡ get_unique_event_types s.spec.types
unfolding get_unique_types get_unique_event_types
get_unique_types-eq s = unique_types_from-eq [] [] s.spec.types (λ t. refl)
