-- ===== src/Tests/Bootstrap.antt =====
-- cmd/initContainer.go at concrete inputs.
use security_operator.Prelude.{
  Bool, [], ◌∷◌, Option, none, some, ok, ◌≡◌, refl, if◌then◌else◌, inl, true, false,
}
use security_operator.Prelude.Text.{or_else, has_suffix, strip_suffix, split}
use security_operator.Api.{SecretReference}
use security_operator.Http.{
  Request, Response, RoundTripper, method_get, method_post, method_put, method_delete,
}
use security_operator.Clientreg.Codec.{Codec}
use security_operator.Clientreg.Admin.{
  AdminClient, get_realm_role, list_clients, create_service_account_client, get_client_secret,
  get_service_account_user, assign_realm_role_to_user,
}
use security_operator.Command.InitContainer.{
  InitContainerClientConfig, Secret, SecretWriter, client_map, configure_client, configure_clients,
  bootstrap,
}
use security_operator.Command.InitContainer.Quiet.{SecretLaws, same_ref, empty_secret}
use security_operator.Command.InitContainer.Provided.{IsProvided, bootstrap-IsProvided}
use security_operator.Tests.Keycloak.{codec}

-- The world is the secrets.
abbrev World : Type 0
World = SecretReference → Option Secret

abbrev write_secret : SecretWriter World
write_secret ref f w =
    (ok tt, λ r. if same_ref r ref then some (f (or_else (w ref) empty_secret)) else w r)

abbrev post_answer : Bool → Response
post_answer true = record { status = 201; body = ""; location = "k/admin/realms/master/clients/u1" }
post_answer false = record { status = 204; body = ""; location = "" }

-- A server that answers reads with a body, makes clients, and accepts role mappings.
abbrev server : RoundTripper World
server req w = elim req.method [
  | method_get ↦ (ok (record { status = 200; body = "pw"; location = "" }), w)
  | method_post ↦ (ok (post_answer (has_suffix req.url "/clients")), w)
  | method_put ↦ (ok (post_answer false), w)
  | method_delete ↦ (ok (post_answer false), w)
]

abbrev full_codec : Codec
full_codec = record codec {
  decode_user = λ s. ok (record { id = "user1"; username = "service-account" });
  decode_role = λ s. ok (record { id = "role1"; name = "admin" });
}

abbrev admin : AdminClient World
admin = record { http_client = server; base_url = "k"; realm = "master" }

server_untouched : (req : Request) (w : World) (r : SecretReference) → (server req w).1 r ≡ w r
server_untouched req w r =
    elim req.method as (λ m. (server (record req { method = m }) w).1 r ≡ w r) [
      | method_get ↦ refl
      | method_post ↦ refl
      | method_put ↦ refl
      | method_delete ↦ refl
    ]

abbrev laws : SecretLaws admin write_secret
laws = record { secrets = λ w. w; written = λ ref f w r h. refl; untouched = server_untouched }

abbrev operator : InitContainerClientConfig
operator = record {
  name = "security-operator";
  secret_ref = record { name = "operator-secret"; namespace = "system" };
}

abbrev start : World
start r = none

bootstrapped : (bootstrap full_codec admin write_secret (operator ∷ []) start).0 ≡ ok tt
unfolding bootstrap client_map configure_clients configure_client get_realm_role list_clients
    create_service_account_client get_client_secret get_service_account_user
    assign_realm_role_to_user strip_suffix split
bootstrapped = refl

bootstrap-IsProvided_example :
    IsProvided
      (operator ∷ [])
      operator.secret_ref
      ((bootstrap full_codec admin write_secret (operator ∷ []) start).1 operator.secret_ref)
bootstrap-IsProvided_example =
    bootstrap-IsProvided full_codec admin write_secret laws (operator ∷ []) operator start
      (inl refl) bootstrapped
