-- ===== src/Registration/Status.antt =====
-- The status that a run leaves.
use security_operator.Prelude.{
  String, Bool, List, [], ◌∷◌, some, Exec, ok, ◌≡◌, refl, ◌==◌, ◌||◌, arith, any, bind-ok, context,
  eq_iff, if◌then◌else◌, ◌>>=◌, ◌>>◌, pure,
}
use security_operator.Prelude.Text.{is_some}
use security_operator.Api.{
  IdentityProviderClientConfig, IdentityProviderConfiguration, ManagedClient,
}
use security_operator.Idp.{lookup}
use security_operator.Realm.{Settings, Keycloak, SecretsClient, ClientInformation, put}
use security_operator.Registration.{
  register_or_update_client, create_or_update_secret, manage_clients, ensure_realm,
  delete_removed_clients, process,
}

pub lookup-put :
    {A : Type 0} (n k : String) (v : A) (es : List (String × A))
    → lookup n (put k v es) ≡ (if k == n then some v else lookup n es)
unfolding put
lookup-put n k v [] = refl
lookup-put n k v (e ∷ es) =
    ground (arith, lookup-put n k v es, eq_iff e.0 k, eq_iff k n, eq_iff e.0 n)

-- A client of the spec is called so.
abbrev pub in_spec : String → List IdentityProviderClientConfig → Bool
in_spec n cs = any (λ c. c.client_name == n) cs

module _ {W : Type 0} (settings : Settings) (keycloak : Keycloak W)
    (new_client : String → Exec W (SecretsClient W)) where
  manage_clients_lem :
      (idp : IdentityProviderConfiguration) (cs : List IdentityProviderClientConfig)
      (managed result : List (String × ManagedClient)) (w : W) (n : String)
      → (manage_clients settings keycloak new_client idp cs managed w).0 ≡ ok result
      → is_some (lookup n result) ≡ (in_spec n cs || is_some (lookup n managed))
  unfolding manage_clients
  manage_clients_lem idp [] managed result w n h = ground arith
  manage_clients_lem idp (c ∷ cs) managed result w n h =
      let register =
        context "failed to process client"
          (register_or_update_client settings keycloak new_client idp c idp.name) in
      let entry : ClientInformation → ManagedClient = λ info. record {
        client_id = info.client_id;
        registration_client_uri = info.registration_client_uri;
        secret_ref = c.secret_ref;
      } in
      let write : ClientInformation → Exec W (Unit {0}) = λ info.
        context "failed to create or update kubernetes secret"
          (create_or_update_secret settings keycloak new_client c info idp.name) in
      let rest : ClientInformation → Exec W (List (String × ManagedClient)) = λ info.
        manage_clients settings keycloak new_client idp cs
          (put c.client_name (entry info) managed) in
      let (info, registered, h₁) = bind-ok register (λ info. write info >> rest info) w h in
      let u = (register w).1 in
      let (x, written, h₂) = bind-ok (write info) (λ x. rest info) u h₁ in
      let v = (write info u).1 in
      ground (
        arith,
        manage_clients_lem idp cs (put c.client_name (entry info) managed) result v n h₂,
        lookup-put n c.client_name (entry info) managed,
      )

  -- When Process succeeds, the managed clients of the status are, by their names, exactly the clients
  -- of the spec: a client that left the spec is out of the status, and none of the spec is missing.
  pub process_status :
      (cluster_from_context : Exec W (IdentityProviderConfiguration → Exec W (Unit {0})))
      (idp result : IdentityProviderConfiguration) (w : W) (n : String)
      → (process settings keycloak new_client cluster_from_context idp w).0 ≡ ok result
      → (is_some (lookup n result.managed_clients) ≡ in_spec n idp.clients)
        × (result.clients ≡ idp.clients)
  unfolding process
  process_status cluster_from_context idp result w n h =
      let m₁ = context "failed to get cluster from context" cluster_from_context in
      let m₂ = ensure_realm settings keycloak new_client idp.name idp.registration_allowed in
      let m₃ =
        delete_removed_clients settings keycloak new_client idp.clients idp.managed_clients in
      let m₄ = manage_clients settings keycloak new_client idp idp.clients [] in
      let end : (IdentityProviderConfiguration → Exec W (Unit {0}))
          → List (String × ManagedClient)
          → Exec W IdentityProviderConfiguration =
        λ patch managed.
          context "failed to patch IDP status" (patch (record idp { managed_clients = managed }))
          >> pure (record idp { managed_clients = managed }) in
      let (patch, found, h₁) = bind-ok m₁ (λ patch. m₂ >> (m₃ >> (m₄ >>= end patch))) w h in
      let (x, realm, h₂) = bind-ok m₂ (λ x. m₃ >> (m₄ >>= end patch)) (m₁ w).1 h₁ in
      let (y, removed, h₃) = bind-ok m₃ (λ x. m₄ >>= end patch) (m₂ (m₁ w).1).1 h₂ in
      let w₃ = (m₃ (m₂ (m₁ w).1).1).1 in
      let (managed, all, h₄) = bind-ok m₄ (end patch) w₃ h₃ in
      ground (arith, h₄, manage_clients_lem idp idp.clients [] managed w₃ n all)
