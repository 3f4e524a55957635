-- ===== src/Webhook.antt =====
-- internal/webhook/identityproviderconfiguration_validation_webhook.go: which realms may be
-- created. The updates and deletions that the webhook lets through are not modelled.
pub mod Realms
use security_operator.Prelude.{
  String, Bool, List, Exec, ok, fail, pure, raise, context, ◌>>=◌, ◌≡◌, ◌≢◌, ◌==◌, any, arith,
  eq_iff, false, if◌then◌else◌,
}

module _ {W : Type 0} (trim_space : String → String) (realm_exists : String → Exec W Bool) where
  -- `realm_exists` is RealmExists of Keycloak's client, `trim_space` is strings.TrimSpace.
  unfoldable pub validate_create : List String → String → Exec W (Unit {0})
  validate_create realm_deny_list idp_name =
      let realm_name = trim_space idp_name in
      if realm_name == ""
      then raise (fail "realm name must not be empty")
      else if realm_name == "master"
      then raise
          (fail "creation of IdentityProviderConfiguration for realm 'master' is not allowed")
      else if any (λ x. x == realm_name) realm_deny_list
      then raise (fail "creation of IdentityProviderConfiguration for the realm is not allowed")
      else (do
        exists ← context "failed to check realm existence in keycloak" (realm_exists realm_name)
        if exists then raise (fail "keycloak realm already exists") else pure tt)

  -- A configuration is admitted exactly if its trimmed name is not empty, is not master, is not in
  -- the deny list, and Keycloak answers that it has no realm of that name.
  pub validate_create_lem :
      (realm_deny_list : List String) (idp_name : String) (w : W)
      → ((validate_create realm_deny_list idp_name w).0 ≡ ok tt
          → (trim_space idp_name ≢ "")
            × (trim_space idp_name ≢ "master")
            × (any (λ x. x == trim_space idp_name) realm_deny_list ≡ false)
            × ((realm_exists (trim_space idp_name) w).0 ≡ ok false))
        × ((trim_space idp_name ≢ "")
              × (trim_space idp_name ≢ "master")
              × (any (λ x. x == trim_space idp_name) realm_deny_list ≡ false)
              × ((realm_exists (trim_space idp_name) w).0 ≡ ok false)
            → (validate_create realm_deny_list idp_name w).0 ≡ ok tt)
  unfolding validate_create
  validate_create_lem realm_deny_list idp_name w =
      let realm_name = trim_space idp_name in
      let empty = eq_iff realm_name "" in
      let master = eq_iff realm_name "master" in
      (
        λ h. (λ e. ground (arith, empty), λ e. ground (arith, master), ground arith, ground arith),
        λ h. ground (arith, empty, master),
      )
