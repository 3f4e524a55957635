-- ===== src/Tests/Policies.antt =====
-- An APIExportPolicy against the service in memory.
use security_operator.Prelude.{
  String, [], ◌∷◌, none, some, ok, pure, raise, fail, Exec, ◌≡◌, ◌⊎◌, refl, true, false, ◌==◌,
  arith, not, any, ◌&&◌, ◌||◌,
}
use security_operator.Prelude.Text.{strip_prefix, strip_suffix, has_prefix, has_suffix, trim_prefix}
use Prim.Native.String.{◌++◌}
use security_operator.Api.{Tuple, ApiExportPolicy}
use security_operator.Kube.{
  Client, AccountInfo, AccountLocation, AccountType, org, account, KcpClientGetter, Lister,
}
use security_operator.Fga.Manager.{apply, delete}
use security_operator.Subroutine.ApiExportPolicy.{
  parse_allow_expression, orgs_workspace_path, bind_relation, bind_inherited_relation,
  get_cluster_id_from_path, account_info_at, apply_to, apply_to_orgs, apply_expression, delete_from,
  delete_from_all, delete_tuples_for_expression, delete_all, apply_all, delete_removed_expressions,
  removed_expressions, patch_status, process, finalize, is_type_org, policy_tuple,
}
use security_operator.Subroutine.ApiExportPolicy.Parse.{parse_sound}
use security_operator.Subroutine.ApiExportPolicy.Laws.{Stable}
use security_operator.Subroutine.ApiExportPolicy.Effects.{
  grants', revokes', process_effect, finalize_effect,
}
use security_operator.Tests.Memory.{Memory, memory, memory_laws, has}

parsed : parse_allow_expression ":root:orgs:*" ≡ ok (orgs_workspace_path, bind_inherited_relation)
unfolding parse_allow_expression strip_prefix strip_suffix
parsed = refl

parse_sound_example :
    (has_prefix (trim_prefix ":root:orgs:*" ":") "root:orgs:" ≡ true)
    × (((has_suffix (trim_prefix ":root:orgs:*" ":") ":*" ≡ false)
          × (orgs_workspace_path ≡ trim_prefix ":root:orgs:*" ":")
          × (bind_inherited_relation ≡ bind_relation))
        ⊎ ((has_suffix (trim_prefix ":root:orgs:*" ":") ":*" ≡ true)
            × (trim_prefix ":root:orgs:*" ":" ≡ orgs_workspace_path ++ ":*")
            × (bind_inherited_relation ≡ bind_inherited_relation)))
parse_sound_example = parse_sound ":root:orgs:*" orgs_workspace_path bind_inherited_relation parsed

abbrev place : String → AccountType → AccountLocation
place name kind = record {
  name = name;
  account_type = kind;
  origin_cluster_id = "oc";
  generated_cluster_id = "gc";
}

abbrev acme : AccountInfo
acme = record { account = place "acme" org; organization = place "acme" org; oidc = none }

abbrev team : AccountInfo
team = record { account = place "team" account; organization = place "acme" org; oidc = none }

abbrev client : Client Memory
client = record {
  get_logical_cluster = λ name. pure (record {
    path = none;
    cluster = some "pc";
    owner_cluster = "";
    owner_name = "";
    initializers = [];
    status_initializers = [];
  });
  get_account = λ name. raise (fail "no account");
  get_account_info = λ name. pure team;
  get_store = λ name. raise (fail "no store");
  patch_policy_status = λ policy. pure tt;
}

abbrev kcp : KcpClientGetter Memory
kcp = record {
  new_client_for_logical_cluster = λ path. pure client;
  new_client_from_context = pure client;
}

abbrev lister : Lister Memory
lister = record {
  list_authorization_models = pure [];
  list_account_infos = pure (acme ∷ team ∷ []);
}

abbrev store_ids : String → Exec Memory String
store_ids name = pure name

abbrev env : Stable memory kcp lister store_ids memory_laws
unfolding account_info_at get_cluster_id_from_path patch_status
env = record {
  at = λ path. team;
  at_ok = λ path w ai called. ground (arith, called);
  at_quiet = λ path w s t. refl;
  orgs = acme ∷ team ∷ [];
  orgs_ok = λ w ais called. ground (arith, called);
  orgs_quiet = λ w s t. refl;
  store_of = λ name. name;
  store_ok = λ name id w called. ground (arith, called);
  store_quiet = λ name w s t. refl;
  provider_of = λ path. "pc";
  provider_ok = λ path id w called. ground (arith, called);
  provider_quiet = λ path w s t. refl;
  patch_quiet = λ policy w s t. refl;
}

-- The spec gained all organisations, and lost one workspace.
abbrev policy : ApiExportPolicy
policy = record {
  name = "p";
  api_export_ref = record { name = "export"; cluster_path = "root:provider" };
  allow_path_expressions = ":root:orgs:*" ∷ [];
  managed_allow_expressions = ":root:orgs:acme:team" ∷ [];
}

abbrev bound : Tuple
bound = policy_tuple "pc" "export" bind_relation team

abbrev before : Memory
before = record { facts = ("acme", bound) ∷ []; counts = [] }

abbrev after : ApiExportPolicy
after = record policy { managed_allow_expressions = ":root:orgs:*" ∷ [] }

done : (process memory kcp lister store_ids policy before).0 ≡ ok after
unfolding process delete_removed_expressions removed_expressions delete_all
    delete_tuples_for_expression delete_from delete_from_all apply_all apply_expression apply_to
    apply_to_orgs patch_status get_cluster_id_from_path account_info_at parse_allow_expression
    strip_prefix strip_suffix apply delete is_type_org
done = refl

process_effect_example :
    (after.managed_allow_expressions ≡ policy.allow_path_expressions)
    × (has (process memory kcp lister store_ids policy before).1 "acme" bound ≡ (
        any
          (grants' memory kcp lister store_ids memory_laws env "pc" "export" "acme" bound)
          policy.allow_path_expressions
        || (not (
              any
                (λ e.
                  not (any (λ x. x == e) policy.allow_path_expressions)
                  && revokes' memory kcp lister store_ids memory_laws env "pc" "export" "acme" bound
                      e)
                policy.managed_allow_expressions)
            && has before "acme" bound)))
unfolding env
process_effect_example =
    process_effect memory kcp lister store_ids memory_laws env policy after before "acme" bound done

finalized : (finalize memory kcp lister store_ids after before).0 ≡ ok tt
unfolding finalize delete_all delete_tuples_for_expression delete_from delete_from_all
    get_cluster_id_from_path parse_allow_expression strip_prefix strip_suffix delete
finalized = refl

finalize_effect_example : has (finalize memory kcp lister store_ids after before).1 "acme" bound ≡ (
    not (
      any
        (revokes' memory kcp lister store_ids memory_laws env "pc" "export" "acme" bound)
        after.allow_path_expressions)
    && has before "acme" bound)
unfolding env
finalize_effect_example =
    finalize_effect memory kcp lister store_ids memory_laws env after before "acme" bound finalized
