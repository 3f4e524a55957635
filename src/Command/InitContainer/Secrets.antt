-- ===== src/Command/InitContainer/Secrets.antt =====
-- The secret that is written for a client.
use security_operator.Prelude.{
  String, List, Option, some, Exec, ok, ◌≡◌, arith, ◌==◌, ◌||◌, if◌then◌else◌, context, ◌>>=◌,
  bind-eq-ok, carry, Bool-cases, inl, inr,
}
use security_operator.Prelude.Text.{or_else}
use security_operator.Api.{SecretReference}
use security_operator.Clientreg.Codec.{Codec, ClientInfo, RoleInfo}
use security_operator.Clientreg.Admin.{
  AdminClient, get_client_secret, get_service_account_user, assign_realm_role_to_user,
}
use security_operator.Command.InitContainer.{
  InitContainerClientConfig, Secret, SecretWriter, credentials, client_uuid, configure_client,
}
use security_operator.Command.InitContainer.Quiet.{
  SecretLaws, same_ref, empty_secret, Quiet, context-Quiet, get_client_secret-Quiet,
  get_service_account_user-Quiet, assign_realm_role_to_user-Quiet, client_uuid-Quiet,
}

module _ {W : Type 0} (codec : Codec) (admin : AdminClient W) (write_secret : SecretWriter W)
    (laws : SecretLaws admin write_secret) where
  open laws use {secrets, written, untouched}

  -- The secrets when that of a client was written.
  abbrev pub after_client : InitContainerClientConfig → String → W → SecretReference → Option Secret
  after_client c s w r =
      if same_ref r c.secret_ref
      then some (credentials c.name s (or_else (secrets w c.secret_ref) empty_secret))
      else secrets w r

  abbrev pub Writes : InitContainerClientConfig → Exec W (Unit {0}) → Type 0
  Writes c m =
      (w : W)
      → (m w).0 ≡ ok tt
      → (s : String) × ((r : SecretReference) → secrets (m w).1 r ≡ after_client c s w r)

  bind-Writes :
      {A : Type 0} (c : InitContainerClientConfig) (m : Exec W A) (f : A → Exec W (Unit {0}))
      → Quiet codec admin write_secret laws m
      → ((a : A) → Writes c (f a))
      → Writes c (m >>= f)
  bind-Writes c m f quiet rest w h =
      let (a, called, step) = bind-eq-ok m f w h in
      let (s, after) = rest a (m w).1 (carry step h) in
      (s, λ r. ground (arith, step, after r, quiet w r, quiet w c.secret_ref))

  write-Writes :
      (c : InitContainerClientConfig) (s : String)
      → Writes c
          (context "failed to create secret" (write_secret c.secret_ref (credentials c.name s)))
  write-Writes c s w h =
      let write = write_secret c.secret_ref (credentials c.name s) in
      let sent : (write w).0 ≡ ok tt = ground (arith, h) in
      (s, λ r. ground (arith, sent, written c.secret_ref (credentials c.name s) w r sent))

  pub configure_client-Writes :
      (role : RoleInfo) (existing : List (String × ClientInfo)) (c : InitContainerClientConfig)
      → Writes c (configure_client codec admin write_secret role existing c)
  unfolding configure_client
  configure_client-Writes role existing c w h =
      elim (Bool-cases (c.secret_ref.name == "" || c.secret_ref.namespace == "")) [
        | inl empty ↦ ground (arith, empty, h)
        | inr given ↦ rw given (
            bind-Writes c (client_uuid codec admin write_secret existing c.name) _
              (client_uuid-Quiet codec admin write_secret laws existing c.name)
              (λ uuid.
                bind-Writes c
                  (context "failed to get client secret" (get_client_secret codec admin uuid)) _
                  (context-Quiet codec admin write_secret laws "failed to get client secret"
                    (get_client_secret codec admin uuid)
                    (get_client_secret-Quiet codec admin write_secret laws uuid))
                  (λ s.
                    bind-Writes c
                      (context "failed to get service account user"
                        (get_service_account_user codec admin uuid))
                      _
                      (context-Quiet codec admin write_secret laws
                        "failed to get service account user"
                        (get_service_account_user codec admin uuid)
                        (get_service_account_user-Quiet codec admin write_secret laws uuid))
                      (λ u.
                        bind-Writes c
                          (context "failed to assign admin role"
                            (assign_realm_role_to_user codec admin u.id role))
                          _
                          (context-Quiet codec admin write_secret laws "failed to assign admin role"
                            (assign_realm_role_to_user codec admin u.id role)
                            (assign_realm_role_to_user-Quiet codec admin write_secret laws u.id
                              role))
                          (λ _. write-Writes c s))))
              w (rw given at h))
      ]
