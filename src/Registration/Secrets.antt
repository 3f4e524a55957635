-- ===== src/Registration/Secrets.antt =====
-- The secrets that are left.
use mathlib.Core.Path.{subst, subst⁻¹}
use security_operator.Prelude.{
  String, Bool, List, [], ◌∷◌, Option, none, some, Exec, Error, ok, err, ◌≡◌, refl, ◌∙◌, ap, ◌&&◌,
  not, arith, any, bind-eq-ok, is_not_found, true, false, Bool-cases, Result-cases, inl, inr, ◌>>=◌,
  ◌>>◌,
}
use security_operator.Api.{IdentityProviderClientConfig, ManagedClient, SecretReference}
use security_operator.Realm.{Settings, Keycloak, SecretsClient}
use security_operator.Registration.{
  read_registration_access_token, delete_secret, delete_client, token_if_found, delete_with,
  delete_removed_clients,
}
use security_operator.Registration.Status.{in_spec}

module _ {W : Type 0} (settings : Settings) (keycloak : Keycloak W)
    (new_client : String → Exec W (SecretsClient W)) where
  -- The secrets of root:orgs. A client of root:orgs is the same whenever it is made, and not finding
  -- is not how making it fails. Reading a secret and deleting a client in Keycloak leave the secrets;
  -- a secret that is not found is not there; deleting one removes it and makes none.
  pub record SecretLaws : Type 0 where
    pub has : W → SecretReference → Bool
    pub orgs : SecretsClient W
    pub orgs_ok :
        (path : String) (w : W) (c : SecretsClient W) → (new_client path w).0 ≡ ok c → c ≡ orgs
    pub orgs_found :
        (path : String) (w : W) (e : Error) → (new_client path w).0 ≡ err e → is_not_found e ≡ false
    pub orgs_quiet :
        (path : String) (w : W) (r : SecretReference) → has (new_client path w).1 r ≡ has w r
    pub get_quiet :
        (ref : SecretReference) (w : W) (r : SecretReference)
        → has (orgs.get_registration_access_token ref w).1 r ≡ has w r
    pub get_missing :
        (ref : SecretReference) (w : W) (e : Error)
        → (orgs.get_registration_access_token ref w).0 ≡ err e
        → is_not_found e ≡ true
        → has w ref ≡ false
    pub keycloak_quiet :
        (id uri token : String) (w : W) (r : SecretReference)
        → has (keycloak.delete id uri token w).1 r ≡ has w r
    pub deleted :
        (ref : SecretReference) (w : W)
        → (orgs.delete_secret ref w).0 ≡ ok tt
        → has (orgs.delete_secret ref w).1 ref ≡ false
    pub kept :
        (ref : SecretReference) (w : W) (r : SecretReference)
        → has w r ≡ false
        → has (orgs.delete_secret ref w).1 r ≡ false

  module _ (laws : SecretLaws) where
    open laws use {has, orgs}

    abbrev path : String
    path = "core#root:orgs"

    connected :
        (w : W) (c : SecretsClient W)
        → (new_client path w).0 ≡ ok c
        → (new_client path w).0 ≡ ok orgs
    connected w c e = e ∙ ap ok (laws.orgs_ok path w c e)

    -- Looking for the token of a secret changes no secret, and finds none only if there is none.
    token_lem :
        (ref : SecretReference) (w : W) (t : Option String) (r : SecretReference)
        → (token_if_found settings keycloak new_client ref w).0 ≡ ok t
        → (has (token_if_found settings keycloak new_client ref w).1 r ≡ has w r)
          × (t ≡ none → has w ref ≡ false)
    unfolding read_registration_access_token
    token_lem ref w t r h = elim (Result-cases (new_client path w).0) [
      | inl (c, e) ↦
          let u = (new_client path w).1 in
          let at = connected w c e in
          elim (Result-cases (orgs.get_registration_access_token ref u).0) [
            | inl (token, f) ↦ (
              ground (arith, at, f, laws.orgs_quiet path w r, laws.get_quiet ref u r),
              λ n. ground (arith, at, f),
            )
            | inr (inl (x, f)) ↦
                let missing = laws.get_missing ref u x f in
                (
                  ground (arith, at, f, laws.orgs_quiet path w r, laws.get_quiet ref u r),
                  λ n. ground (arith, at, f, missing, laws.orgs_quiet path w ref),
                )
            | inr (inr (x, f)) ↦ ground (arith, at, f)
          ]
      | inr (inl (x, e)) ↦ ground (arith, e, laws.orgs_found path w x e)
      | inr (inr (x, e)) ↦ ground (arith, e)
    ]

    delete_secret_lem :
        (ref : SecretReference) (w : W) (r : SecretReference)
        → (delete_secret settings keycloak new_client ref w).0 ≡ ok tt
        → (has (delete_secret settings keycloak new_client ref w).1 ref ≡ false)
          × (has w r ≡ false → has (delete_secret settings keycloak new_client ref w).1 r ≡ false)
    unfolding delete_secret
    delete_secret_lem ref w r h = elim (Result-cases (new_client path w).0) [
      | inl (c, e) ↦
          let u = (new_client path w).1 in
          let at = connected w c e in
          let done : (orgs.delete_secret ref u).0 ≡ ok tt = ground (arith, at) in
          (
            ground (arith, at, done, laws.deleted ref u),
            λ gone. ground (arith, at, done, laws.kept ref u r, laws.orgs_quiet path w r),
          )
      | inr (inl (x, e)) ↦ ground (arith, e)
      | inr (inr (x, e)) ↦ ground (arith, e)
    ]

    delete_client_quiet :
        (id uri token : String) (w : W) (r : SecretReference)
        → has (delete_client settings keycloak new_client id uri token w).1 r ≡ has w r
    delete_client_quiet id uri token w r = ground (arith, laws.keycloak_quiet id uri token w r)

    delete_with_lem :
        (m : ManagedClient) (token : Option String) (w : W) (r : SecretReference)
        → (delete_with settings keycloak new_client m token w).0 ≡ ok tt
        → ((token ≡ none → has w m.secret_ref ≡ false)
            → has (delete_with settings keycloak new_client m token w).1 m.secret_ref ≡ false)
          × (has w r ≡ false → has (delete_with settings keycloak new_client m token w).1 r ≡ false)
    delete_with_lem m none w r h = (λ missing. missing refl, λ gone. gone)
    delete_with_lem m (some token) w r h =
        let remove =
          delete_client settings keycloak new_client m.client_id m.registration_client_uri token in
        let (x, removed, step) =
          bind-eq-ok remove (λ x. delete_secret settings keycloak new_client m.secret_ref) w h in
        let u = (remove w).1 in
        let after = delete_secret_lem m.secret_ref u r (subst (λ s. s.0 ≡ ok tt) step h) in
        (
          λ missing. subst⁻¹ (λ s. has s.1 m.secret_ref ≡ false) step after.0,
          λ gone.
              subst⁻¹ (λ s. has s.1 r ≡ false) step
                (after.1
                  (delete_client_quiet m.client_id m.registration_client_uri token w r ∙ gone)),
        )

    -- A secret of a managed client that the spec does not have.
    abbrev pub left_over : List IdentityProviderClientConfig → W → String × ManagedClient → Bool
    left_over spec w e = not (in_spec e.0 spec) && has w (e.1).secret_ref

    -- One round for a client that left the spec, with the state after it.
    removed_step :
        (spec : List IdentityProviderClientConfig) (e : String × ManagedClient)
        (es : List (String × ManagedClient)) (w : W)
        → in_spec e.0 spec ≡ false
        → (delete_removed_clients settings keycloak new_client spec (e ∷ es) w).0 ≡ ok tt
        → (v : W) × (delete_removed_clients settings keycloak new_client spec (e ∷ es) w
            ≡ delete_removed_clients settings keycloak new_client spec es v)
          × (has v (e.1).secret_ref ≡ false)
          × ((r : SecretReference) → has w r ≡ false → has v r ≡ false)
    unfolding delete_removed_clients
    removed_step spec e es w removed h =
        let rest = delete_removed_clients settings keycloak new_client spec es in
        let find = token_if_found settings keycloak new_client (e.1).secret_ref in
        let delete = delete_with settings keycloak new_client e.1 in
        let start : delete_removed_clients settings keycloak new_client spec (e ∷ es) w
            ≡ (find >>= λ t. delete t >> rest) w =
          rw removed refl in
        let (t, found, s₁) =
          bind-eq-ok find (λ t. delete t >> rest) w {b = tt} (subst (λ s. s.0 ≡ ok tt) start h) in
        let u = (find w).1 in
        let (x, deleted, s₂) =
          bind-eq-ok (delete t) (λ x. rest) u {b = tt} (subst (λ s. s.0 ≡ ok tt) (start ∙ s₁) h) in
        let v = (delete t u).1 in
        let ref = (e.1).secret_ref in
        let token = token_lem ref w t in
        (
          v,
          start ∙ s₁ ∙ s₂,
          (delete_with_lem e.1 t u ref deleted).0
              (λ n. (token ref found).0 ∙ (token ref found).1 n),
          λ r gone. (delete_with_lem e.1 t u r deleted).1 ((token r found).0 ∙ gone),
        )

    delete_removed_kept :
        (spec : List IdentityProviderClientConfig) (managed : List (String × ManagedClient)) (w : W)
        (r : SecretReference)
        → (delete_removed_clients settings keycloak new_client spec managed w).0 ≡ ok tt
        → has w r ≡ false
        → has (delete_removed_clients settings keycloak new_client spec managed w).1 r ≡ false
    unfolding delete_removed_clients
    delete_removed_kept spec [] w r h gone = gone
    delete_removed_kept spec (e ∷ es) w r h gone = elim (Bool-cases (in_spec e.0 spec)) [
      | inl there ↦ ground (arith, there, delete_removed_kept spec es w r)
      | inr removed ↦
          let (v, step, removed_secret, keeps) = removed_step spec e es w removed h in
          let rest_ok = subst (λ s. s.0 ≡ ok tt) step h in
          subst⁻¹ (λ s. has s.1 r ≡ false) step
            (delete_removed_kept spec es v r rest_ok (keeps r gone))
    ]

    pub delete_removed_clients_lem :
        (spec : List IdentityProviderClientConfig) (managed : List (String × ManagedClient)) (w : W)
        → (delete_removed_clients settings keycloak new_client spec managed w).0 ≡ ok tt
        → any
            (left_over spec (delete_removed_clients settings keycloak new_client spec managed w).1)
            managed
          ≡ false
    unfolding delete_removed_clients
    delete_removed_clients_lem spec [] w h = refl
    delete_removed_clients_lem spec (e ∷ es) w h = elim (Bool-cases (in_spec e.0 spec)) [
      | inl there ↦ ground (arith, there, delete_removed_clients_lem spec es w)
      | inr removed ↦
          let (v, step, removed_secret, keeps) = removed_step spec e es w removed h in
          let rest_ok = subst (λ s. s.0 ≡ ok tt) step h in
          let rest = delete_removed_clients_lem spec es v rest_ok in
          let gone = delete_removed_kept spec es v (e.1).secret_ref rest_ok removed_secret in
          subst⁻¹ (λ s. any (left_over spec s.1) (e ∷ es) ≡ false) step (ground (arith, gone, rest))
    ]
