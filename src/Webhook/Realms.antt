-- ===== src/Webhook/Realms.antt =====
-- The webhook over Keycloak's client, and the creation of the realm that it lets through.
use security_operator.Prelude.{
  String, Bool, List, none, Exec, ok, ◌≡◌, refl, ap, ◌∙◌, arith, true, false, Bool-cases, inl, inr,
}
use security_operator.Realm.{RealmConfig}
use security_operator.Clientreg.Codec.{Codec}
use security_operator.Clientreg.Admin.{AdminClient, realm_exists, create_or_update_realm}
use security_operator.Clientreg.Admin.Realms.{RealmApi, realm_exists_lem}
use security_operator.Clientreg.Admin.Create.{create_or_update_realm_lem}
use security_operator.Webhook.{validate_create, validate_create_lem}

module _ {W : Type 0} (codec : Codec) (c : AdminClient W) (api : RealmApi codec c)
    (trim_space : String → String) where
  abbrev pub admit : List String → String → Exec W (Unit {0})
  admit = validate_create trim_space (realm_exists codec c)

  admit-world :
      (realm_deny_list : List String) (idp_name : String) (w : W)
      → (admit realm_deny_list idp_name w).0 ≡ ok tt
      → (admit realm_deny_list idp_name w).1 ≡ (realm_exists codec c (trim_space idp_name) w).1
  unfolding validate_create
  admit-world realm_deny_list idp_name w h = ground arith

  -- The realm of a configuration that the webhook admits is new: if creating or updating it from
  -- there succeeds, it is created, and no realm that was there is replaced.
  pub admit-new :
      (realm_deny_list : List String) (idp_name : String) (config : RealmConfig) (new : Bool)
      (w : W)
      → config.realm ≡ trim_space idp_name
      → (admit realm_deny_list idp_name w).0 ≡ ok tt
      → (create_or_update_realm codec c config (admit realm_deny_list idp_name w).1).0 ≡ ok new
      → (new ≡ true) × (api.realms w config.realm ≡ none)
  admit-new realm_deny_list idp_name config new w same admitted made =
      let (given, other, allowed, absent) =
        (validate_create_lem trim_space (realm_exists codec c) realm_deny_list idp_name w).0
          admitted in
      let r = trim_space idp_name in
      let (there, unknown, kept) = realm_exists_lem codec c api r false w absent in
      let free : api.realms w config.realm ≡ none = ap (λ x. api.realms w x) same ∙ unknown refl in
      let v = (admit realm_deny_list idp_name w).1 in
      let still : api.realms v config.realm ≡ none =
        ap (λ x. api.realms x config.realm) (admit-world realm_deny_list idp_name w admitted)
        ∙ ap (λ x. api.realms (realm_exists codec c r w).1 x) same
        ∙ kept r
        ∙ unknown refl in
      let (body, text, (created, replaced, after)) =
        create_or_update_realm_lem codec c api config new v made in
      elim (Bool-cases new) [ inl fresh ↦ (fresh, free) | inr old ↦ absurd (replaced old still) ]
