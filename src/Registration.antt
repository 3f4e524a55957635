-- ===== src/Registration.antt =====
-- internal/subroutine/idp/subroutine.go: the realm of an organisation in Keycloak, its OIDC
-- clients, and the secrets of these.
pub mod Secrets
pub mod Status
use security_operator.Prelude.{
  ℕ, String, Bool, List, [], ◌∷◌, ◌++◌, Option, none, some, Exec, Error, fail, wrap, pure, raise,
  catch, context, is_not_found, http, ◌>>=◌, ◌>>◌, ◌==◌, any, nat_eq, if◌then◌else◌, true, false,
}
use security_operator.Prelude.Text.{concat}
use security_operator.Config.{core_provider_name, multi_provider_name, orgs_cluster_path}
use security_operator.Api.{
  IdentityProviderClientConfig, IdentityProviderConfiguration, IdentityProviderClientType,
  confidential, public, ManagedClient, SecretReference,
}
use security_operator.Idp.{lookup}
use security_operator.Realm.{
  SmtpConfig, RealmConfig, AuthMethod, ClientMetadata, ClientInformation, Keycloak, SecretsClient,
  Settings, is_http_not_found, smtp_config, realm_config, client_metadata, managed_of, or_if_empty,
  put, not_empty_field, no_secret, client_secret_basic,
}

module _ {W : Type 0} (settings : Settings) (keycloak : Keycloak W)
    (new_client_for_logical_cluster : String → Exec W (SecretsClient W)) where
  abbrev pub orgs_client : Exec W (SecretsClient W)
  orgs_client =
      new_client_for_logical_cluster (multi_provider_name core_provider_name orgs_cluster_path)

  unfoldable pub read_registration_access_token : SecretReference → Exec W String
  read_registration_access_token ref = do
    orgs ← context "getting orgs client" orgs_client
    orgs.get_registration_access_token ref

  unfoldable pub delete_secret : SecretReference → Exec W (Unit {0})
  delete_secret ref = do
    orgs ← context "getting orgs client" orgs_client
    context "failed to delete client secret" (orgs.delete_secret ref)

  unfoldable pub ensure_realm : String → Bool → Exec W (Unit {0})
  ensure_realm realm_name registration_allowed = do
    context "failed to create or update realm"
        (keycloak.create_or_update_realm (realm_config settings realm_name registration_allowed))
    pure tt

  -- A deletion that finds no client is none that failed.
  abbrev pub delete_client : String → String → String → Exec W (Unit {0})
  delete_client id uri token =
      catch (keycloak.delete id uri token) (λ e.
        if is_http_not_found e then pure tt else raise (wrap "failed to delete oidc client" e))

  -- The token of a secret, none where there is no secret.
  abbrev pub token_if_found : SecretReference → Exec W (Option String)
  token_if_found ref =
      catch (do token ← read_registration_access_token ref; pure (some token))
        (λ e.
          if is_not_found e
          then pure none
          else raise (wrap "failed to get registration access token from secret" e))

  abbrev pub delete_with : ManagedClient → Option String → Exec W (Unit {0})
  delete_with m none = pure tt
  delete_with m (some token) = do
    delete_client m.client_id m.registration_client_uri token
    delete_secret m.secret_ref

  unfoldable pub delete_removed_clients :
      List IdentityProviderClientConfig → List (String × ManagedClient) → Exec W (Unit {0})
  delete_removed_clients spec [] = pure tt
  delete_removed_clients spec (e ∷ es) =
      let rest = delete_removed_clients spec es in
      if any (λ c. c.client_name == e.0) spec
      then rest
      else (do token ← token_if_found (e.1).secret_ref; delete_with e.1 token; rest)

  unfoldable pub register_or_update_client :
      IdentityProviderConfiguration
      → IdentityProviderClientConfig
      → String
      → Exec W ClientInformation
  register_or_update_client idp c realm_name = do
    existing ←
        context "failed to check if client exists" (keycloak.get_client_by_name c.client_name)
    elim existing [
      | none ↦ keycloak.register keycloak.registration_endpoint (client_metadata c)
      | some id ↦ (do
        found ← token_if_found c.secret_ref
        let token : String = elim found [ none ↦ "" | some t ↦ t ]
        let uri : String =
            or_if_empty (managed_of ManagedClient.registration_client_uri c.client_name idp) (
              concat (
                settings.keycloak_base_url ∷ "/realms/" ∷ realm_name
                ∷ "/clients-registrations/openid-connect/" ∷ id ∷ []))
        let client_id : String =
            or_if_empty (managed_of ManagedClient.client_id c.client_name idp) id
        keycloak.update uri token (record (client_metadata c) { client_id = client_id }))
    ]

  unfoldable pub create_or_update_secret :
      IdentityProviderClientConfig → ClientInformation → String → Exec W (Unit {0})
  create_or_update_secret c info idp_name = do
    orgs ← context "getting orgs client" orgs_client
    orgs.create_or_update_secret c.secret_ref
        (("core.platform-mesh.io/idp-name", idp_name)
          ∷ ("core.platform-mesh.io/client-name", c.client_name)
          ∷ [])
        (not_empty_field "client_secret" info.client_secret
          ++ not_empty_field "registration_access_token" info.registration_access_token)

  -- The loop over the clients of the spec, with the map that it fills.
  unfoldable pub manage_clients :
      IdentityProviderConfiguration
      → List IdentityProviderClientConfig
      → List (String × ManagedClient)
      → Exec W (List (String × ManagedClient))
  manage_clients idp [] managed = pure managed
  manage_clients idp (c ∷ cs) managed = do
    info ← context "failed to process client" (register_or_update_client idp c idp.name)
    context "failed to create or update kubernetes secret" (create_or_update_secret c info idp.name)
    manage_clients idp cs (
        put c.client_name
          (record {
            client_id = info.client_id;
            registration_client_uri = info.registration_client_uri;
            secret_ref = c.secret_ref;
          })
          managed)

  -- The configuration is returned with its new status.
  unfoldable pub process :
      Exec W (IdentityProviderConfiguration → Exec W (Unit {0}))
      → IdentityProviderConfiguration
      → Exec W IdentityProviderConfiguration
  process cluster_from_context idp = do
    patch_status ← context "failed to get cluster from context" cluster_from_context
    ensure_realm idp.name idp.registration_allowed
    delete_removed_clients idp.clients idp.managed_clients
    managed ← manage_clients idp idp.clients []
    let finished : IdentityProviderConfiguration = record idp { managed_clients = managed }
    context "failed to patch IDP status" (patch_status finished)
    pure finished

  -- Without a client ID or a registration URI in the status, a client is passed over.
  abbrev finalize_client :
      IdentityProviderConfiguration
      → IdentityProviderClientConfig
      → Option String
      → Exec W (Unit {0})
  finalize_client idp c none = pure tt
  finalize_client idp c (some token) =
      let id = managed_of ManagedClient.client_id c.client_name idp in
      let uri = managed_of ManagedClient.registration_client_uri c.client_name idp in
      if id == ""
      then pure tt
      else if uri == ""
      then pure tt
      else (do delete_client id uri token; delete_secret c.secret_ref)

  unfoldable pub finalize_clients :
      IdentityProviderConfiguration → List IdentityProviderClientConfig → Exec W (Unit {0})
  finalize_clients idp [] = pure tt
  finalize_clients idp (c ∷ cs) = do
    token ← token_if_found c.secret_ref
    finalize_client idp c token
    finalize_clients idp cs

  unfoldable pub finalize : IdentityProviderConfiguration → Exec W (Unit {0})
  finalize idp = do
    finalize_clients idp idp.clients
    context "failed to delete realm" (keycloak.delete_realm idp.name)
