-- ===== src/Command/InitContainer/Provided.antt =====
-- Every configured client has its secret in the end.
use mathlib.Core.Path.{subst⁻¹}
use security_operator.Prelude.{
  String, List, [], ◌∷◌, Option, some, Exec, Result, ok, ◌≡◌, ◌⊎◌, refl, sym, ◌∙◌, ap, arith,
  eq_iff, true, context, ◌>>=◌, bind-eq-ok, carry, Bool-cases, inl, inr, Listed,
}
use security_operator.Prelude.Text.{or_else}
use security_operator.Api.{SecretReference}
use security_operator.Idp.{lookup}
use security_operator.Registration.Status.{lookup-put}
use security_operator.Realm.{put}
use security_operator.Clientreg.Codec.{Codec, ClientInfo, RoleInfo}
use security_operator.Clientreg.Admin.{AdminClient, get_realm_role, list_clients}
use security_operator.Command.InitContainer.{
  InitContainerClientConfig, Secret, SecretWriter, credentials, client_map, configure_client,
  configure_clients, found_role, bootstrap,
}
use security_operator.Command.InitContainer.Quiet.{SecretLaws, same_ref, empty_secret}
use security_operator.Command.InitContainer.Secrets.{after_client, configure_client-Writes}

same_ref_iff : (r s : SecretReference) → same_ref r s ≡ true → r ≡ s
same_ref_iff r s h = ground (arith, h, eq_iff r.name s.name, eq_iff r.namespace s.namespace)

same_ref_refl : (r : SecretReference) → same_ref r r ≡ true
same_ref_refl r = ground (arith, eq_iff r.name r.name, eq_iff r.namespace r.namespace)

-- A secret with the name of a client as its client ID.
abbrev pub IsOf : InitContainerClientConfig → Option Secret → Type 0
IsOf c found = (s : Secret) × (found ≡ some s) × (lookup "client_id" s.entries ≡ some c.name)

credentials-IsOf :
    (c : InitContainerClientConfig) (text : String) (s : Secret)
    → IsOf c (some (credentials c.name text s))
unfolding credentials
credentials-IsOf c text s = (
  credentials c.name text s,
  refl,
  lookup-put "client_id" "client_secret" text (put "client_id" c.name s.entries)
      ∙ lookup-put "client_id" "client_id" c.name s.entries,
)

-- The secret under a reference is that of one of the configured clients with this reference.
abbrev pub IsProvided : List InitContainerClientConfig → SecretReference → Option Secret → Type 0
IsProvided cs r found =
    (d : InitContainerClientConfig) × Listed d cs × (d.secret_ref ≡ r) × IsOf d found

module _ {W : Type 0} (codec : Codec) (admin : AdminClient W) (write_secret : SecretWriter W)
    (laws : SecretLaws admin write_secret) where
  open laws use {secrets}

  module _ (role : RoleInfo) (existing : List (String × ClientInfo)) where
    abbrev run : List InitContainerClientConfig → Exec W (Unit {0})
    run = configure_clients codec admin write_secret role existing

    abbrev one : InitContainerClientConfig → Exec W (Unit {0})
    one = configure_client codec admin write_secret role existing

    -- A secret that was written for a client is that of this client.
    written-IsOf :
        (c : InitContainerClientConfig) (s : String) (w : W) (r : SecretReference)
        (found : Option Secret)
        → same_ref r c.secret_ref ≡ true
        → found ≡ after_client codec admin write_secret laws c s w r
        → IsOf c found
    written-IsOf c s w r found same e =
        subst⁻¹ (λ f. IsOf c f) (e ∙ ground (arith, same))
          (credentials-IsOf c s (or_else (secrets w c.secret_ref) empty_secret))

    abbrev KeptOrProvided : List InitContainerClientConfig → SecretReference → W → W → Type 0
    KeptOrProvided cs r w v = (secrets v r ≡ secrets w r) ⊎ IsProvided cs r (secrets v r)

    kept_or_provided :
        (cs : List InitContainerClientConfig) (r : SecretReference) (w : W)
        → (run cs w).0 ≡ ok tt
        → KeptOrProvided cs r w (run cs w).1
    unfolding configure_clients
    kept_or_provided [] r w h = inl refl
    kept_or_provided (c ∷ cs) r w h =
        let (unit, first, step) = bind-eq-ok (one c) (λ _. run cs) w h in
        let w₁ = (one c w).1 in
        let (s, after) =
          configure_client-Writes codec admin write_secret laws role existing c w first in
        let end = ap (λ (x : Result (Unit {0}) × W). x.1) step in
        subst⁻¹ (λ v. KeptOrProvided (c ∷ cs) r w v) end
          (elim (kept_or_provided cs r w₁ (carry step h)) [
            | inr (d, listed, same, held) ↦ inr (d, inr listed, same, held)
            | inl kept ↦ elim (Bool-cases (same_ref r c.secret_ref)) [
              | inl same ↦ inr (
                c,
                inl refl,
                sym (same_ref_iff r c.secret_ref same),
                written-IsOf c s w r _ same (kept ∙ after r),
              )
              | inr other ↦ inl (kept ∙ after r ∙ ground (arith, other))
            ]
          ])

    first-IsProvided :
        (c : InitContainerClientConfig) (cs : List InitContainerClientConfig) (w : W)
        → (run (c ∷ cs) w).0 ≡ ok tt
        → IsProvided (c ∷ cs) c.secret_ref (secrets (run (c ∷ cs) w).1 c.secret_ref)
    unfolding configure_clients
    first-IsProvided c cs w h =
        let (unit, first, step) = bind-eq-ok (one c) (λ _. run cs) w h in
        let w₁ = (one c w).1 in
        let (s, after) =
          configure_client-Writes codec admin write_secret laws role existing c w first in
        let end = ap (λ (x : Result (Unit {0}) × W). x.1) step in
        subst⁻¹ (λ v. IsProvided (c ∷ cs) c.secret_ref (secrets v c.secret_ref)) end
          (elim (kept_or_provided cs c.secret_ref w₁ (carry step h)) [
            | inr (d, listed, same, held) ↦ (d, inr listed, same, held)
            | inl kept ↦ (
              c,
              inl refl,
              refl,
              written-IsOf c s w c.secret_ref _ (same_ref_refl c.secret_ref)
                  (kept ∙ after c.secret_ref),
            )
          ])

    all-IsProvided :
        (cs : List InitContainerClientConfig) (c : InitContainerClientConfig) (w : W)
        → Listed c cs
        → (run cs w).0 ≡ ok tt
        → IsProvided cs c.secret_ref (secrets (run cs w).1 c.secret_ref)
    unfolding configure_clients
    all-IsProvided [] c w listed h = absurd listed
    all-IsProvided (x ∷ cs) c w (inl here) h =
        subst⁻¹
          (λ (y : InitContainerClientConfig).
            IsProvided (x ∷ cs) y.secret_ref (secrets (run (x ∷ cs) w).1 y.secret_ref))
          here (first-IsProvided x cs w h)
    all-IsProvided (x ∷ cs) c w (inr later) h =
        let (unit, first, step) = bind-eq-ok (one x) (λ _. run cs) w h in
        let end = ap (λ (x : Result (Unit {0}) × W). x.1) step in
        let (d, listed, same, held) = all-IsProvided cs c (one x w).1 later (carry step h) in
        subst⁻¹ (λ v. IsProvided (x ∷ cs) c.secret_ref (secrets v c.secret_ref)) end
          (d, inr listed, same, held)

  -- When the command succeeds, there is a secret under the reference of every configured client,
  -- and its client ID is the name of a configured client with this reference.
  pub bootstrap-IsProvided :
      (clients : List InitContainerClientConfig) (c : InitContainerClientConfig) (w : W)
      → Listed c clients
      → (bootstrap codec admin write_secret clients w).0 ≡ ok tt
      → IsProvided clients c.secret_ref
          (secrets (bootstrap codec admin write_secret clients w).1 c.secret_ref)
  unfolding bootstrap
  bootstrap-IsProvided clients c w listed h =
      let find = context "failed to get admin role" (get_realm_role codec admin "admin") in
      let list = context "failed to list existing clients" (list_clients codec admin) in
      let configure = λ (role : RoleInfo) (existing : List ClientInfo).
        configure_clients codec admin write_secret role (client_map existing []) clients in
      let (found, h₁, s₁) =
        bind-eq-ok find
          (λ found. found_role codec admin write_secret found >>= λ role. list >>= configure role) w
          h in
      let (role, h₂, s₂) =
        bind-eq-ok (found_role codec admin write_secret found) (λ role. list >>= configure role)
          (find w).1 (carry s₁ h) in
      let v = (found_role codec admin write_secret found (find w).1).1 in
      let (existing, h₃, s₃) = bind-eq-ok list (configure role) v (carry (s₁ ∙ s₂) h) in
      let steps = s₁ ∙ s₂ ∙ s₃ in
      subst⁻¹
        (λ (x : Result (Unit {0}) × W). IsProvided clients c.secret_ref (secrets x.1 c.secret_ref))
        steps
        (all-IsProvided role (client_map existing []) clients c (list v).1 listed (carry steps h))
