-- ===== src/Tests/Controllers.antt =====
-- internal/controller/apiexportpolicy_controller.go at concrete inputs.
use security_operator.Prelude.{String, List, [], ◌∷◌, ◌≡◌, ◌↔◌, refl}
use security_operator.Controllers.{Located, Request, requests_for}
use security_operator.Prelude.{Listed}
use security_operator.Prelude.Text.{strip_prefix}
use security_operator.Controllers.Policies.{IsDue, requests_for_iff}

abbrev policy : String → String → Located
policy name expression = record {
  policy = record {
    name = name;
    api_export_ref = record { name = "export"; cluster_path = "root:providers" };
    allow_path_expressions = "root:orgs:a" ∷ expression ∷ [];
    managed_allow_expressions = [];
  };
  cluster = "c1";
}

abbrev policies : List Located
policies = policy "all" ":root:orgs:*" ∷ policy "one" "root:orgs:a:*" ∷ []

abbrev due : Request
due = record { name = "all"; cluster_name = "system#c1" }

enqueued : requests_for policies ≡ due ∷ []
unfolding requests_for strip_prefix
enqueued = refl

requests_for_iff_example : Listed due (requests_for policies) ↔ IsDue due policies
requests_for_iff_example = requests_for_iff due policies
