-- ===== src/Clientreg/Admin.antt =====
-- pkg/clientreg/keycloak/admin.go: Keycloak's API for administrators.
pub mod Realms
pub mod Create
pub mod Refinement
use security_operator.Prelude.{
  ℕ, String, Bool, List, [], ◌∷◌, Option, none, some, Exec, Result, Error, pure, raise, fail, lift,
  context, ◌>>=◌, ◌>>◌, ◌==◌, ◌||◌, nat_eq, find, if◌then◌else◌, true, false,
}
use security_operator.Prelude.Text.{concat, trim_suffix, split}
use security_operator.Http.{
  Method, method_get, method_post, method_put, method_delete, Header, Request, Response,
  RoundTripper, Content, no_content, json_content,
}
use security_operator.Realm.{RealmConfig}
use security_operator.Clientreg.Codec.{
  Codec, max_error_body_size, ClientInfo, ServiceAccountClientConfig, UserInfo, RoleInfo,
}

pub record AdminClient (W : Type 0) : Type 0 where
  pub http_client : RoundTripper W
  pub base_url : String
  pub realm : String

abbrev pub new_admin_client : {W : Type 0} → RoundTripper W → String → String → AdminClient W
new_admin_client http_client base_url realm = record {
  http_client = http_client;
  base_url = trim_suffix base_url "/";
  realm = realm;
}

module _ {W : Type 0} (codec : Codec) (c : AdminClient W) where
  -- The context of a request is that of a reconciliation. In RefreshToken it has a client ID too, which
  -- the transport below does not look at.
  abbrev pub request : Method → String → Content → Request
  request method url content = record {
    method = method;
    url = url;
    header = content.header;
    body = content.body;
    client_id = none;
  }

  -- http.NewRequestWithContext and `Do`, each with what its error says.
  abbrev pub send : String → String → Method → String → Content → Exec W Response
  send no_request no_answer method url content = do
    context no_request (lift (codec.check_url url))
    context no_answer (c.http_client (request method url content))

  abbrev pub read_error_response : {A : Type 0} → Response → String → Exec W A
  read_error_response resp operation = raise (
      fail (
        concat (
          "failed to "
          ∷ operation
          ∷ ": status "
          ∷ codec.print resp.status
          ∷ " body: "
          ∷ codec.read_limited max_error_body_size resp.body
          ∷ [])))

  abbrev pub expect : (ℕ → Bool) → String → Response → Exec W (Unit {0})
  expect good operation resp =
      if good resp.status then pure tt else read_error_response resp operation

  abbrev ok_status : ℕ → Bool
  ok_status s = nat_eq s 200

  abbrev pub decode : {A : Type 0} → String → (String → Result A) → Response → Exec W A
  decode failed read resp = context failed (lift (read resp.body))

  abbrev pub admin_url : List String → String
  admin_url rest = concat (c.base_url ∷ "/admin/realms" ∷ rest)

  abbrev pub realm_url : List String → String
  realm_url rest = admin_url ("/" ∷ c.realm ∷ rest)

  unfoldable pub list_clients : Exec W (List ClientInfo)
  list_clients = do
    resp ←
        send "failed to create get clients request" "failed to get clients" method_get
          (realm_url ("/clients" ∷ [])) no_content
    expect ok_status "get clients" resp
    decode "failed to parse clients response" codec.decode_clients resp

  unfoldable pub get_client_by_name : String → Exec W (Option ClientInfo)
  unfolding list_clients
  get_client_by_name client_name = do
    clients ← list_clients
    pure (find (λ x. x.name == client_name) clients)

  unfoldable pub resolve_client_uuid : String → Exec W String
  unfolding list_clients
  resolve_client_uuid client_id = do
    clients ← list_clients
    elim (find (λ (x : ClientInfo). x.client_id == client_id) clients) [
      | none ↦ raise (fail "client not found")
      | some x ↦ pure x.id
    ]

  unfoldable pub token_for_registration : Exec W String
  token_for_registration = do
    resp ←
        send "failed to create initial access token request"
          "failed to request initial access token" method_post
          (realm_url ("/clients-initial-access" ∷ [])) (json_content "{}")
    expect ok_status "create initial access token" resp
    decode "failed to parse initial access token response" codec.decode_token resp

  unfoldable pub refresh_token : String → Exec W String
  unfolding resolve_client_uuid
  refresh_token client_id = do
    uuid ← resolve_client_uuid client_id
    resp ←
        send "failed to create token regeneration request" "failed to request token regeneration"
          method_post (realm_url ("/clients/" ∷ uuid ∷ "/registration-access-token" ∷ []))
          no_content
    expect (λ s. nat_eq s 200 || nat_eq s 201) "regenerate registration access token" resp
    decode "failed to parse token regeneration response" codec.decode_registration_access_token resp

  abbrev pub registration_endpoint : String
  registration_endpoint =
      concat (c.base_url ∷ "/realms/" ∷ c.realm ∷ "/clients-registrations/openid-connect" ∷ [])

  unfoldable pub realm_exists : String → Exec W Bool
  realm_exists realm_name = do
    resp ←
        send "failed to create get realm request" "failed to get realm" method_get
          (admin_url ("/" ∷ realm_name ∷ [])) no_content
    if nat_eq resp.status 200
        then pure true
        else if nat_eq resp.status 404
        then pure false
        else read_error_response resp "get realm"

  unfoldable pub update_realm : String → String → Exec W (Unit {0})
  update_realm realm_name body = do
    resp ←
        send "failed to create realm update request" "failed to update realm" method_put
          (admin_url ("/" ∷ realm_name ∷ [])) (json_content body)
    expect (λ s. nat_eq s 204 || nat_eq s 200) "update realm" resp

  -- Whether the realm was created.
  unfoldable pub create_or_update_realm : RealmConfig → Exec W Bool
  unfolding update_realm
  create_or_update_realm config = do
    body ← context "failed to marshal realm config" (lift (codec.marshal_realm config))
    resp ←
        send "failed to create realm request" "failed to create realm" method_post (admin_url [])
          (json_content body)
    if nat_eq resp.status 201
        then pure true
        else if nat_eq resp.status 409
        then (do update_realm config.realm body; pure false)
        else read_error_response resp "create realm"

  unfoldable pub delete_realm : String → Exec W (Unit {0})
  delete_realm realm_name = do
    resp ←
        send "failed to create realm delete request" "failed to delete realm" method_delete
          (admin_url ("/" ∷ realm_name ∷ [])) no_content
    expect (λ s. nat_eq s 204 || nat_eq s 200 || nat_eq s 404) "delete realm" resp

  -- The part of a path after its last slash.
  abbrev last_part : List String → String
  last_part [] = ""
  last_part (p ∷ []) = p
  last_part (p ∷ q ∷ ps) = last_part (q ∷ ps)

  unfoldable pub create_service_account_client : ServiceAccountClientConfig → Exec W ClientInfo
  create_service_account_client config = do
    body ← context "failed to marshal client config" (lift (codec.marshal_client config))
    resp ←
        send "failed to create client request" "failed to create client" method_post
          (realm_url ("/clients" ∷ [])) (json_content body)
    expect (λ s. nat_eq s 201) "create client" resp
    if resp.location == ""
        then raise (fail "no location header in create client response")
        else pure (record {
          id = last_part (split resp.location 47);
          client_id = config.client_id;
          name = config.name;
          secret = "";
        })

  unfoldable pub get_client_secret : String → Exec W String
  get_client_secret uuid = do
    resp ←
        send "failed to create get client secret request" "failed to get client secret" method_get
          (realm_url ("/clients/" ∷ uuid ∷ "/client-secret" ∷ [])) no_content
    expect ok_status "get client secret" resp
    decode "failed to parse client secret response" codec.decode_value resp

  unfoldable pub get_service_account_user : String → Exec W UserInfo
  get_service_account_user uuid = do
    resp ←
        send "failed to create get service account user request"
          "failed to get service account user" method_get
          (realm_url ("/clients/" ∷ uuid ∷ "/service-account-user" ∷ [])) no_content
    expect ok_status "get service account user" resp
    decode "failed to parse service account user response" codec.decode_user resp

  unfoldable pub get_realm_role : String → Exec W (Option RoleInfo)
  get_realm_role role_name = do
    resp ←
        send "failed to create get role request" "failed to get role" method_get
          (realm_url ("/roles/" ∷ role_name ∷ [])) no_content
    if nat_eq resp.status 404 then pure none else (do
      expect ok_status "get role" resp
      role ← decode "failed to parse role response" codec.decode_role resp
      pure (some role))

  unfoldable pub assign_realm_role_to_user : String → RoleInfo → Exec W (Unit {0})
  assign_realm_role_to_user user_id role = do
    body ← context "failed to marshal role" (lift (codec.marshal_roles (role ∷ [])))
    resp ←
        send "failed to create assign role request" "failed to assign role" method_post
          (realm_url ("/users/" ∷ user_id ∷ "/role-mappings/realm" ∷ [])) (json_content body)
    expect (λ s. nat_eq s 204 || nat_eq s 200) "assign role to user" resp
