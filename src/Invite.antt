-- ===== src/Invite.antt =====
-- internal/subroutine/invite/subroutine.go: creating an invited user in Keycloak and sending the
-- mail that asks for a password.
pub mod Mail
pub mod Laws
use security_operator.Prelude.{
  ℕ, String, Bool, List, [], ◌∷◌, Option, none, some, Exec, Result, fail, pure, raise, panic, lift,
  context, ◌>>=◌, ◌>>◌, ◌==◌, find, nat_eq, if◌then◌else◌,
}
use security_operator.Prelude.Text.{concat}
use security_operator.Kube.{AccountInfo, OidcInfo, Outcome, done, requeue, Limiter}
use security_operator.Http.{Response, Transport}
use security_operator.Idp.{lookup, is_empty}

abbrev pub required_action_verify_email : String
required_action_verify_email = "VERIFY_EMAIL"

abbrev pub required_action_update_password : String
required_action_update_password = "UPDATE_PASSWORD"

abbrev pub user_default_password : String
user_default_password = "password"

pub record KeycloakCredential : Type 0 where
  pub credential_type : String
  pub value : String
  pub temporary : Bool

pub record KeycloakUser : Type 0 where
  pub id : String
  pub email : String
  pub required_actions : List String
  pub enabled : Bool
  pub credentials : List KeycloakCredential

-- What is read of a resource Invite.
pub record Invite : Type 0 where
  pub name : String
  pub email : String

-- The libraries for JSON and for query strings. A client is decoded to its ID.
pub record Codec : Type 0 where
  pub decode_users : String → Result (List KeycloakUser)
  pub decode_clients : String → Result (List String)
  pub encode_user : KeycloakUser → Result String
  pub encode_query : List (String × String) → String

pub record Subroutine (W : Type 0) : Type 0 where
  pub keycloak_base_url : String
  pub base_domain : String
  pub set_default_password : Bool
  pub keycloak : Transport W
  pub limiter : Limiter W
  pub codec : Codec

unfoldable pub new_user : Bool → String → KeycloakUser
new_user default_password email =
    if default_password
    then record {
      id = "";
      email = email;
      required_actions = required_action_update_password ∷ [];
      enabled = Bool.true;
      credentials =
          record {
            credential_type = user_default_password;
            value = user_default_password;
            temporary = Bool.true;
          }
          ∷ [];
    }
    else record {
      id = "";
      email = email;
      required_actions = required_action_update_password ∷ required_action_verify_email ∷ [];
      enabled = Bool.true;
      credentials = [];
    }

module _ {W : Type 0} (s : Subroutine W) where
  abbrev realm_url : String → List String → String
  realm_url realm rest = concat (s.keycloak_base_url ∷ "/admin/realms/" ∷ realm ∷ rest)

  unfoldable pub users_url : String → String → String
  users_url realm email = realm_url realm (
      "/users?"
      ∷ s.codec.encode_query
          (("email", email) ∷ ("max", "1") ∷ ("briefRepresentation", "true") ∷ [])
      ∷ [])

  unfoldable pub mail_url : String → String → String → String
  mail_url realm id client_id = realm_url realm (
      "/users/"
      ∷ id
      ∷ "/execute-actions-email?"
      ∷ s.codec.encode_query (
          ("redirect_uri", concat ("https://" ∷ realm ∷ "." ∷ s.base_domain ∷ "/" ∷ []))
          ∷ ("client_id", client_id)
          ∷ [])
      ∷ [])

  -- A call whose answer must have a status.
  abbrev pub expect : ℕ → String → Exec W Response → Exec W String
  expect status what call = do
    res ← call
    if nat_eq res.status status then pure res.body else raise (fail what)

  unfoldable pub query_users : String → String → Exec W (List KeycloakUser)
  query_users realm email = do
    body ← expect 200 "failed to query users" (s.keycloak.get (users_url realm email))
    lift (s.codec.decode_users body)

  unfoldable pub query_clients : String → String → Exec W (List String)
  query_clients realm client_id = do
    body ← expect 200 "failed to verify client exists" (
        s.keycloak.get (
          realm_url realm ("/clients?" ∷ s.codec.encode_query (("clientId", client_id) ∷ []) ∷ [])))
    lift (s.codec.decode_clients body)

  unfoldable pub create_user : String → String → Exec W String
  create_user realm email = do
    body ← lift (s.codec.encode_user (new_user s.set_default_password email))
    expect 201 "keycloak returned non-201 status code" (
        context "posting to Keycloak to create user"
          (s.keycloak.post (realm_url realm ("/users" ∷ [])) body))

  -- `users[0]`
  abbrev pub first : List KeycloakUser → Exec W KeycloakUser
  first [] = panic "index out of range [0] with length 0"
  first (u ∷ us) = pure u

  -- From the creation of the user to the mail.
  unfoldable pub create_and_mail : Invite → String → String → Exec W Outcome
  create_and_mail invite realm client_id = do
    create_user realm invite.email
    users ← query_users realm invite.email
    user ← first users
    expect 204 "failed to send invite email" (s.keycloak.put (mail_url realm user.id client_id) "")
    s.limiter.forget invite.name
    pure done

  unfoldable pub invite_user : Invite → String → Option OidcInfo → Exec W Outcome
  invite_user invite realm none = raise (fail "AccountInfo OIDC is not configured yet")
  invite_user invite realm (some oidc) = elim (lookup realm oidc.clients) [
    | none ↦ raise (fail "failed to get oidc client for organization")
    | some client_id ↦ (do
      clients ← query_clients realm client_id
      if is_empty clients
          then (do
            delay ← s.limiter.when invite.name
            pure (requeue delay "client does not exist yet"))
          else create_and_mail invite realm client_id)
  ]

  abbrev pub cluster_name : Option String → Exec W String
  cluster_name none = raise (fail "failed to get cluster from context")
  cluster_name (some name) = pure name

  abbrev pub mail_or_skip : Invite → AccountInfo → Exec W Outcome
  mail_or_skip invite info =
      let realm : String = (info.organization).name in
      if realm == "" then raise (fail "organization name is empty in AccountInfo") else (do
        users ← query_users realm invite.email
        if is_empty users
            then invite_user invite realm info.oidc
            else (do s.limiter.forget invite.name; pure done))

  -- `cluster` is the cluster of the context, and a client of it is what reads its AccountInfo.
  unfoldable pub process :
      Option String → (String → Exec W (Exec W AccountInfo)) → Invite → Exec W Outcome
  process cluster new_client invite = do
    name ← cluster_name cluster
    get_account_info ← context "failed to get client for cluster" (new_client name)
    info ← get_account_info
    mail_or_skip invite info
