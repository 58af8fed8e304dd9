-- ===== src/Operator/Secrets/Total.antt =====
-- Making the secret of the publisher proxy does not panic.
use eventing_manager.Base.{
  ◌≢◌, refl, String, Bool, true, false, Option, none, some, List, [], ◌∷◌, if◌then◌else◌, string_eq,
}
use eventing_manager.Base.Dict.{lookup}
use eventing_manager.Errors.{Error}
use eventing_manager.Exec.{Outcome, ok, err, panic, ok-ne-panic, err-ne-panic}
use eventing_manager.Operator.{Cluster, Secret, Message}
use eventing_manager.Operator.Secrets.{
  with_value, is_empty_text, new_secret, new_malformatted_secret_err, get_publisher_message,
  read_messages, read_messaging, get_secret_for_publisher,
}

if-total :
    {A : Type 0} (b : Bool) {x y : Outcome A} → x ≢ panic → y ≢ panic → (if b then x else y) ≢ panic
if-total true h k = h
if-total false h k = k

get_publisher_message-total :
    (namespace : String) (msg : Message) (secret : Secret)
    → get_publisher_message namespace msg secret ≢ panic
unfolding get_publisher_message
get_publisher_message-total namespace msg secret =
    if-total (is_empty_text msg.client_id) (λ e. cc)
      (if-total (is_empty_text msg.client_secret) (λ e. cc)
        (if-total (is_empty_text msg.token_endpoint) (λ e. cc)
          (if-total (is_empty_text msg.grant_type) (λ e. cc)
            (if-total (is_empty_text msg.uri) (λ e. cc) (λ e. cc)))))

read_messages-total :
    (namespace : String) (messages : List Message) (secret : Secret)
    → read_messages namespace messages secret ≢ panic
unfolding read_messages
read_messages-total namespace [] secret = ok-ne-panic _
read_messages-total namespace (msg ∷ messages) secret =
    if-total _ (get_publisher_message-total namespace msg secret)
      (read_messages-total namespace messages secret)

pub with_value-total :
    {A : Type 0} (e : Error) (o : Option String) (f : String → Outcome A)
    → ((v : String) → f v ≢ panic)
    → with_value e o f ≢ panic
unfolding with_value
with_value-total e none f h = err-ne-panic e
with_value-total e (some v) f h = h v

module _ (C : Cluster) where
  read_messaging-total :
      (namespace : String) (r : Outcome (List Message)) (secret : Secret)
      → r ≢ panic
      → read_messaging C namespace r secret ≢ panic
  unfolding read_messaging
  read_messaging-total namespace (ok messages) secret h =
      read_messages-total namespace messages secret
  read_messaging-total namespace (err e) secret h = err-ne-panic _
  read_messaging-total namespace panic secret h = λ x. h refl

  pub get_secret_for_publisher-total :
      ((text : String) → C.unmarshal_messages text ≢ panic)
      → (secret : Secret) (ns : String) → get_secret_for_publisher C secret ns ≢ panic
  unfolding get_secret_for_publisher with_value
  get_secret_for_publisher-total h secret ns =
      go (lookup "namespace" secret.data_of) (lookup "messaging" secret.data_of)
    where
      go :
          (a b : Option String)
          → with_value
              (new_malformatted_secret_err "namespace is missing from EM secret")
              a
              (λ namespace.
                with_value
                  (new_malformatted_secret_err "messaging is missing from EM secret")
                  b
                  (λ messaging.
                    read_messaging C namespace
                      (C.unmarshal_messages messaging)
                      (record (new_secret "eventing-publisher-proxy" ns) {
                        labels = ("app.kubernetes.io/name", "eventing-publisher-proxy") ∷ [];
                      })))
            ≢ panic
      go none b = err-ne-panic _
      go (some namespace) none = err-ne-panic _
      go (some namespace) (some messaging) = read_messaging-total _ _ _ (h messaging)
