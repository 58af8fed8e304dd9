-- ===== src/Operator/Secrets.antt =====
-- The credentials and the secret of the publisher proxy (internal/controller/operator/eventing:
-- eventmesh.go, service_instance_secret.go).
pub mod Total
use eventing_manager.Base.{
  String, ◌<>◌, Bool, ◌&&◌, ◌||◌, not, none, some, List, [], ◌∷◌, ◌==◌, ◌!=◌, string_eq, int_eq,
  if◌then◌else◌,
}
use eventing_manager.Base.Dict.{Dict, lookup}
use eventing_manager.Errors.{Error, sentinel, note, is_error}
use eventing_manager.Exec.{Outcome, ok, err, panic}
use eventing_manager.Operator.{Cluster, Oauth2Credentials, Secret, Message}
use eventing_manager.Base.{Option}

abbrev pub err_event_mesh_secret_malformatted : Error
err_event_mesh_secret_malformatted = sentinel "The EventMesh secret data is not formatted properly."

unfoldable pub new_malformatted_secret_err : String → Error
new_malformatted_secret_err e = note err_event_mesh_secret_malformatted e

unfoldable pub is_malformatted_secret_err : Error → Bool
is_malformatted_secret_err e = is_error e err_event_mesh_secret_malformatted

is_empty_text : String → Bool
is_empty_text s = s == ""

unfoldable pub is_oauth2_credentials_initialized : Oauth2Credentials → Bool
unfolding is_empty_text
is_oauth2_credentials_initialized c =
    not (is_empty_text c.client_id)
    && not (is_empty_text c.client_secret)
    && not (is_empty_text c.token_url)
    && not (is_empty_text c.certs_url)

-- `oauth2CredentialsChanged` where the credentials were initialized
unfoldable pub credentials_differ : Oauth2Credentials → Oauth2Credentials → Bool
credentials_differ old new =
    old.client_id != new.client_id
    || old.client_secret != new.client_secret
    || old.token_url != new.token_url
    || old.certs_url != new.certs_url

unfoldable pub get_secret_string_data :
    String → String → String → String → String → String → Dict String String
get_secret_string_data client_id client_secret token_endpoint grant_type publish_url namespace =
    ("client-id", client_id)
    ∷ ("client-secret", client_secret)
    ∷ (
      "token-endpoint",
      token_endpoint <> ("?grant_type=" <> (grant_type <> "&response_type=token")),
    )
    ∷ ("ems-publish-url", publish_url <> "/sap/ems/v1/events")
    ∷ ("ems-publish-host", publish_url)
    ∷ ("beb-namespace", namespace)
    ∷ []

unfoldable pub new_secret : String → String → Secret
new_secret name namespace = record {
  name = name;
  namespace = namespace;
  labels = [];
  data_of = [];
  string_data = [];
}

unfoldable pub get_publisher_message : String → Message → Secret → Outcome Secret
unfolding is_empty_text
get_publisher_message namespace msg secret =
    if is_empty_text msg.client_id
    then err (new_malformatted_secret_err "client ID is missing")
    else if is_empty_text msg.client_secret
    then err (new_malformatted_secret_err "client secret is missing")
    else if is_empty_text msg.token_endpoint
    then err (new_malformatted_secret_err "tokenendpoint is missing")
    else if is_empty_text msg.grant_type
    then err (new_malformatted_secret_err "granttype is missing")
    else if is_empty_text msg.uri
    then err (new_malformatted_secret_err "publish URL is missing")
    else ok (record secret {
      string_data =
          get_secret_string_data msg.client_id msg.client_secret msg.token_endpoint msg.grant_type
            msg.uri namespace;
    })

-- The loop ends at the first message of the broker `saprestmgw`.
unfoldable pub read_messages : String → List Message → Secret → Outcome Secret
read_messages namespace [] secret = ok secret
read_messages namespace (msg ∷ messages) secret =
    let rest = read_messages namespace messages secret in
    if msg.broker_type == "saprestmgw" then get_publisher_message namespace msg secret else rest

-- `if v, ok := m[key]; !ok { return err }`, and what is done with the value
unfoldable pub with_value : {A : Type 0} → Error → Option String → (String → Outcome A) → Outcome A
with_value e none f = err e
with_value e (some v) f = f v

module _ (C : Cluster) where
  read_messaging : String → Outcome (List Message) → Secret → Outcome Secret
  read_messaging namespace (ok messages) secret = read_messages namespace messages secret
  read_messaging namespace (err e) secret = err (new_malformatted_secret_err (C.text_of e))
  read_messaging namespace panic secret = panic

  unfoldable pub get_secret_for_publisher : Secret → String → Outcome Secret
  unfolding read_messaging with_value
  get_secret_for_publisher event_mesh_secret ns =
      with_value (new_malformatted_secret_err "namespace is missing from EM secret")
        (lookup "namespace" event_mesh_secret.data_of)
        (λ namespace.
          with_value (new_malformatted_secret_err "messaging is missing from EM secret")
            (lookup "messaging" event_mesh_secret.data_of)
            (λ messaging.
              read_messaging namespace (C.unmarshal_messages messaging)
                (record (new_secret "eventing-publisher-proxy" ns) {
                  labels = ("app.kubernetes.io/name", "eventing-publisher-proxy") ∷ [];
                })))
