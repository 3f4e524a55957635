-- ===== src/Clientreg/Client.antt =====
-- pkg/clientreg/client.go and errors.go: the client for the registration of OIDC clients.
use security_operator.Prelude.{
  ℕ, String, Option, none, some, Exec, Error, http, pure, raise, fail, lift, context, ◌>>=◌, ◌>>◌,
  ◌==◌, nat_eq, if◌then◌else◌,
}
use security_operator.Http.{
  method_get, method_post, method_put, method_delete, Request, Response, RoundTripper, bearer,
}
use security_operator.Realm.{ClientMetadata, ClientInformation}
use security_operator.Clientreg.Retry.{with_client_id}
use security_operator.Clientreg.Codec.{Codec, max_error_body_size}

abbrev pub new_http_error_from_response : Codec → Response → String → Error
new_http_error_from_response codec resp operation =
    http resp.status (codec.read_limited max_error_body_size resp.body) operation

module _ {W : Type 0} (codec : Codec) (http_client : RoundTripper W) where
  -- http.NewRequestWithContext and `Do`
  abbrev pub send : Request → Exec W Response
  send req = do
    context "failed to create request" (lift (codec.check_url req.url))
    context "failed to execute request" (http_client req)

  abbrev pub expect : ℕ → String → Response → Exec W (Unit {0})
  expect status operation resp =
      if nat_eq resp.status status
      then pure tt
      else raise (new_http_error_from_response codec resp operation)

  abbrev pub decoded : Response → Exec W ClientInformation
  decoded resp = context "failed to parse response" (lift (codec.decode_information resp.body))

  abbrev marshalled : ClientMetadata → Exec W String
  marshalled metadata =
      context "failed to marshal client metadata" (lift (codec.marshal_metadata metadata))

  abbrev register_request : String → String → String → Request
  register_request registration_endpoint token body = record {
    method = method_post;
    url = registration_endpoint;
    header = record {
      content_type = "application/json";
      accept = "application/json";
      authorization = bearer token;
    };
    body = some body;
    client_id = none;
  }

  unfoldable pub do_register : String → String → ClientMetadata → Exec W ClientInformation
  do_register registration_endpoint token metadata = do
    body ← marshalled metadata
    resp ← send (register_request registration_endpoint token body)
    expect 201 "register" resp
    decoded resp

  -- `none` is a client without a token provider.
  abbrev pub register : Option (Exec W String) → String → ClientMetadata → Exec W ClientInformation
  register none registration_endpoint metadata =
      raise (fail "oidc: token provider is required for this operation")
  register (some token_for_registration) registration_endpoint metadata = do
    token ← context "failed to get registration token" token_for_registration
    do_register registration_endpoint token metadata

  abbrev no_registration_uri : Error
  no_registration_uri = fail "oidc: registration client URI is required"

  abbrev pub read_request : String → String → Request
  read_request uri token = record {
    method = method_get;
    url = uri;
    header = record {
      content_type = "";
      accept = "application/json";
      authorization = bearer token;
    };
    body = none;
    client_id = none;
  }

  unfoldable pub read : String → String → String → Exec W ClientInformation
  read client_id uri token = if uri == "" then raise no_registration_uri else (do
    resp ← send (with_client_id client_id (read_request uri token))
    expect 200 "read" resp
    decoded resp)

  abbrev pub update_request : String → String → String → Request
  update_request uri token body = record {
    method = method_put;
    url = uri;
    header = record {
      content_type = "application/json";
      accept = "application/json";
      authorization = bearer token;
    };
    body = some body;
    client_id = none;
  }

  unfoldable pub update : String → String → ClientMetadata → Exec W ClientInformation
  update uri token metadata = if uri == "" then raise no_registration_uri else (do
    body ← marshalled metadata
    resp ← send (with_client_id metadata.client_id (update_request uri token body))
    expect 200 "update" resp
    decoded resp)

  abbrev pub delete_request : String → String → Request
  delete_request uri token = record {
    method = method_delete;
    url = uri;
    header = record { content_type = ""; accept = ""; authorization = bearer token };
    body = none;
    client_id = none;
  }

  unfoldable pub delete : String → String → String → Exec W (Unit {0})
  delete client_id uri token = if uri == "" then raise no_registration_uri else (do
    resp ← send (with_client_id client_id (delete_request uri token))
    expect 204 "delete" resp)
