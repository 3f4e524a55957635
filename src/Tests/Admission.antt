-- ===== src/Tests/Admission.antt =====
-- The webhook with a Keycloak that has the realm acme, and the predicates.
use security_operator.Prelude.{
  String, Bool, List, [], ◌∷◌, some, none, ok, Exec, any, ◌≡◌, ◌≢◌, ◌==◌, true, false,
}
use security_operator.Prelude.Text.{Lacks, join, or_else}
use security_operator.Kube.{LogicalCluster}
use security_operator.Webhook.{validate_create, validate_create_lem}
use security_operator.Predicates.{is_account_type_org, is_account_type_org_lem}

abbrev realms : String → Exec (List String) Bool
realms name w = (ok (any (λ x. x == name) w), w)

abbrev trim : String → String
trim s = s

validate_create_lem_example :
    ((validate_create trim realms ("welcome" ∷ []) "new" ("acme" ∷ [])).0 ≡ ok tt
      → (trim "new" ≢ "")
        × (trim "new" ≢ "master")
        × (any (λ x. x == "new") ("welcome" ∷ []) ≡ false)
        × ((realms "new" ("acme" ∷ [])).0 ≡ ok false))
    × ((trim "new" ≢ "")
          × (trim "new" ≢ "master")
          × (any (λ x. x == "new") ("welcome" ∷ []) ≡ false)
          × ((realms "new" ("acme" ∷ [])).0 ≡ ok false)
        → (validate_create trim realms ("welcome" ∷ []) "new" ("acme" ∷ [])).0 ≡ ok tt)
validate_create_lem_example = validate_create_lem trim realms ("welcome" ∷ []) "new" ("acme" ∷ [])

abbrev cluster : LogicalCluster
cluster = record {
  path = some "root:orgs:acme";
  cluster = none;
  owner_cluster = "";
  owner_name = "";
  initializers = [];
  status_initializers = [];
}

is_account_type_org_lem_example :
    (is_account_type_org cluster ≡ true
      → (name : String) × Lacks 58 name
        × (or_else cluster.path "" ≡ join ("root" ∷ "orgs" ∷ name ∷ []) ":"))
    × ((name : String)
        → Lacks 58 name
        → or_else cluster.path "" ≡ join ("root" ∷ "orgs" ∷ name ∷ []) ":"
        → is_account_type_org cluster ≡ true)
is_account_type_org_lem_example = is_account_type_org_lem cluster
