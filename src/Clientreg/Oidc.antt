-- ===== src/Clientreg/Oidc.antt =====
-- internal/subroutine/idp/subroutine.go: the clients that are made for a realm, one for its
-- administration and one for the registration, which renews its tokens with the first.
use security_operator.Prelude.{String, none, some, pure, ◌>>=◌}
use security_operator.Http.{RoundTripper}
use security_operator.Realm.{Keycloak}
use security_operator.Clientreg.Codec.{Codec}
use security_operator.Clientreg.Retry.{round_trip}
use security_operator.Clientreg.Client.{register, update, delete}
use security_operator.Clientreg.Admin.{
  new_admin_client, create_or_update_realm, delete_realm, get_client_by_name, registration_endpoint,
  refresh_token, token_for_registration,
}

-- The first transport has the credentials of the administrator, the second is http.DefaultTransport.
unfoldable pub new_oidc_client :
    {W : Type 0} → Codec → RoundTripper W → RoundTripper W → String → String → Keycloak W
new_oidc_client codec admin_client default_transport keycloak_base_url realm_name =
    let admin = new_admin_client admin_client keycloak_base_url realm_name in
    let http_client = round_trip default_transport (some (refresh_token codec admin)) in
    record {
      create_or_update_realm = create_or_update_realm codec admin;
      delete_realm = delete_realm codec admin;
      get_client_by_name = λ name. (do
        found ← get_client_by_name codec admin name
        elim found [ none ↦ pure none | some x ↦ pure (some x.client_id) ]);
      registration_endpoint = registration_endpoint codec admin;
      register = register codec http_client (some (token_for_registration codec admin));
      update = update codec http_client;
      delete = delete codec http_client;
    }
