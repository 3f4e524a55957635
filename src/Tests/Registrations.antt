-- ===== src/Tests/Registrations.antt =====
-- Registration against a Keycloak that accepts everything, in worlds that are lists of secrets.
use security_operator.Prelude.{
  String, Bool, List, [], ◌∷◌, none, Result, not_found, ok, err, pure, Exec, ◌≡◌, refl, ◌==◌, not,
  any, filter, arith, if◌then◌else◌, true, false,
}
use security_operator.Prelude.Text.{is_some}
use security_operator.Api.{IdentityProviderConfiguration, confidential, SecretReference}
use security_operator.Idp.{lookup}
use security_operator.Realm.{Settings, Keycloak, SecretsClient, ClientInformation, put}
use security_operator.Registration.{
  read_registration_access_token, delete_secret, delete_removed_clients, ensure_realm,
  manage_clients, register_or_update_client, create_or_update_secret, process,
}
use security_operator.Registration.Status.{in_spec, process_status}
use security_operator.Registration.Secrets.{SecretLaws, left_over, delete_removed_clients_lem}

-- A secret by its name.
abbrev has : List String → SecretReference → Bool
has w r = any (λ x. x == r.name) w

abbrev without : String → List String → List String
without n w = filter (λ x. not (x == n)) w

abbrev token_of : List String → SecretReference → Result String
token_of w r = if has w r then ok "token" else err not_found

abbrev secrets : SecretsClient (List String)
secrets = record {
  get_registration_access_token = λ r w. (token_of w r, w);
  delete_secret = λ r w. (ok tt, without r.name w);
  create_or_update_secret = λ r labels fields w. (ok tt, r.name ∷ w);
}

abbrev information : ClientInformation
information = record {
  client_id = "id";
  client_secret = "s";
  registration_access_token = "t";
  registration_client_uri = "uri";
}

abbrev keycloak : Keycloak (List String)
keycloak = record {
  create_or_update_realm = λ c. pure true;
  delete_realm = λ r. pure tt;
  get_client_by_name = λ n. pure none;
  registration_endpoint = "e";
  register = λ e m. pure information;
  update = λ uri token m. pure information;
  delete = λ id uri token. pure tt;
}

abbrev settings : Settings
settings = record {
  access_token_lifespan = 3600;
  smtp_server = "";
  smtp_port = "0";
  from_address = "";
  ssl = false;
  start_tls = false;
  smtp_user = "";
  smtp_password = "";
  keycloak_base_url = "kc";
}

abbrev ref : String → SecretReference
ref name = record { name = name; namespace = "default" }

abbrev config : IdentityProviderConfiguration
config = record {
  name = "acme";
  registration_allowed = true;
  clients =
      record {
        client_type = confidential;
        client_name = "new";
        redirect_uris = [];
        post_logout_redirect_uris = [];
        secret_ref = ref "n";
      }
      ∷ [];
  ready = true;
  managed_clients =
      ("old", record { client_id = "id0"; registration_client_uri = "uri0"; secret_ref = ref "o" })
      ∷ [];
}

abbrev new_client : String → Exec (List String) (SecretsClient (List String))
new_client path = pure secrets

gone-without :
    (n m : String) (w : List String)
    → any (λ x. x == m) w ≡ false
    → any (λ x. x == m) (without n w) ≡ false
gone-without n m [] h = refl
gone-without n m (x ∷ xs) h = ground (arith, gone-without n m xs)

not-without : (n : String) (w : List String) → any (λ x. x == n) (without n w) ≡ false
not-without n [] = refl
not-without n (x ∷ xs) = ground (arith, not-without n xs)

abbrev laws : SecretLaws settings keycloak new_client
laws = record {
  has = has;
  orgs = secrets;
  orgs_ok = λ path w c called. ground (arith, called);
  orgs_found = λ path w e called. ground (arith, called);
  orgs_quiet = λ path w r. refl;
  get_quiet = λ r w s. refl;
  get_missing = λ r w e called missing. ground (arith, called, missing);
  keycloak_quiet = λ id uri token w r. refl;
  deleted = λ r w called. not-without r.name w;
  kept = λ r w s gone. gone-without r.name s.name w gone;
}

deleted :
    (delete_removed_clients settings keycloak new_client config.clients config.managed_clients
      ("o" ∷ "k" ∷ [])).0
    ≡ ok tt
unfolding delete_removed_clients read_registration_access_token delete_secret
deleted = refl

delete_removed_clients_lem_example :
    any
      (left_over settings keycloak new_client laws config.clients
        (delete_removed_clients settings keycloak new_client config.clients config.managed_clients
          ("o" ∷ "k" ∷ [])).1)
      config.managed_clients
    ≡ false
delete_removed_clients_lem_example =
    delete_removed_clients_lem settings keycloak new_client laws config.clients
      config.managed_clients ("o" ∷ "k" ∷ []) deleted

abbrev finished : IdentityProviderConfiguration
finished = record config {
  managed_clients =
      ("new", record { client_id = "id"; registration_client_uri = "uri"; secret_ref = ref "n" })
      ∷ [];
}

abbrev context_cluster :
    Exec (List String) (IdentityProviderConfiguration → Exec (List String) (Unit {0}))
context_cluster = pure (λ idp. pure tt)

processed : (process settings keycloak new_client context_cluster config ("o" ∷ [])).0 ≡ ok finished
unfolding process ensure_realm delete_removed_clients read_registration_access_token delete_secret
    manage_clients register_or_update_client create_or_update_secret put
processed = refl

process_status_example :
    (is_some (lookup "new" finished.managed_clients) ≡ in_spec "new" config.clients)
    × (finished.clients ≡ config.clients)
process_status_example =
    process_status settings keycloak new_client context_cluster config finished ("o" ∷ []) "new"
      processed
