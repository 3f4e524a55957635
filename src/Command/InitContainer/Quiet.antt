-- ===== src/Command/InitContainer/Quiet.antt =====
-- The requests to Keycloak change no secret.
use security_operator.Prelude.{
  bind-Keeps, context-Keeps, String, Bool, List, [], ◌∷◌, Option, none, some, Exec, Result, ok, ◌≡◌,
  refl, arith, ◌==◌, ◌&&◌, ◌||◌, if◌then◌else◌, pure, context, ◌>>=◌, ◌>>◌, lift, ℕ, nat_eq,
}
use security_operator.Prelude.Text.{or_else}
use security_operator.Api.{SecretReference}
use security_operator.Http.{
  Request, Response, Method, method_get, method_post, Content, no_content, json_content,
}
use security_operator.Idp.{lookup}
use security_operator.Clientreg.Codec.{Codec, ClientInfo, ServiceAccountClientConfig, RoleInfo}
use security_operator.Clientreg.Admin.{
  AdminClient, request, send, expect, decode, realm_url, create_service_account_client,
  get_client_secret, get_service_account_user, assign_realm_role_to_user,
}
use security_operator.Command.InitContainer.{Secret, SecretWriter, service_account, client_uuid}

abbrev pub same_ref : SecretReference → SecretReference → Bool
same_ref r s = r.name == s.name && r.namespace == s.namespace

abbrev pub empty_secret : Secret
empty_secret = record { entries = []; secret_type = "" }

-- What is documented of CreateOrUpdate on secrets; requests to Keycloak change none.
pub record SecretLaws {W : Type 0} (admin : AdminClient W) (write_secret : SecretWriter W)
    : Type 0 where
  pub secrets : W → SecretReference → Option Secret
  pub written :
      (ref : SecretReference) (f : Secret → Secret) (w : W) (r : SecretReference)
      → (write_secret ref f w).0 ≡ ok tt
      → secrets (write_secret ref f w).1 r
        ≡ (if same_ref r ref then some (f (or_else (secrets w ref) empty_secret)) else secrets w r)
  pub untouched :
      (req : Request) (w : W) (r : SecretReference)
      → secrets (admin.http_client req w).1 r ≡ secrets w r

module _ {W : Type 0} (codec : Codec) (admin : AdminClient W) (write_secret : SecretWriter W)
    (laws : SecretLaws admin write_secret) where
  open laws use {secrets, written, untouched}

  abbrev pub Quiet : {A : Type 0} → Exec W A → Type 0
  Quiet m = (w : W) (r : SecretReference) → secrets (m w).1 r ≡ secrets w r

  pub bind-Quiet :
      {A B : Type 0} (m : Exec W A) (f : A → Exec W B)
      → Quiet m
      → ((a : A) → Quiet (f a))
      → Quiet (m >>= f)
  bind-Quiet m f quiet rest w r =
      bind-Keeps (λ v. secrets v r) m f (λ v. quiet v r) (λ a v. rest a v r) w

  pub context-Quiet : {A : Type 0} (s : String) (m : Exec W A) → Quiet m → Quiet (context s m)
  context-Quiet s m quiet w r = context-Keeps (λ v. secrets v r) s m (λ v. quiet v r) w

  lift-Quiet : {A : Type 0} (x : Result A) → Quiet (lift x)
  lift-Quiet x w r = refl

  pub send-Quiet :
      (no_request no_answer : String) (method : Method) (url : String) (content : Content)
      → Quiet (send codec admin no_request no_answer method url content)
  send-Quiet no_request no_answer method url content =
      bind-Quiet (context no_request (lift (codec.check_url url)))
        (λ _. context no_answer (admin.http_client (request codec admin method url content)))
        (context-Quiet no_request (lift (codec.check_url url)) (lift-Quiet (codec.check_url url)))
        (λ _.
          context-Quiet no_answer (admin.http_client (request codec admin method url content))
            (untouched (request codec admin method url content)))

  pub expect-Quiet :
      (good : ℕ → Bool) (operation : String) (resp : Response)
      → Quiet (expect codec admin good operation resp)
  expect-Quiet good operation resp w r = ground arith

  decode-Quiet :
      {A : Type 0} (failed : String) (read : String → Result A) (resp : Response)
      → Quiet (decode codec admin failed read resp)
  decode-Quiet failed read resp =
      context-Quiet failed (lift (read resp.body)) (lift-Quiet (read resp.body))

  -- A request that must have a status and whose answer is then decoded.
  pub call-Quiet :
      {A : Type 0} (no_request no_answer : String) (method : Method) (url : String)
      (content : Content) (good : ℕ → Bool) (operation failed : String) (read : String → Result A)
      → Quiet (do
        resp ← send codec admin no_request no_answer method url content
        expect codec admin good operation resp
        decode codec admin failed read resp)
  call-Quiet no_request no_answer method url content good operation failed read =
      bind-Quiet (send codec admin no_request no_answer method url content)
        (λ resp. expect codec admin good operation resp >> decode codec admin failed read resp)
        (send-Quiet no_request no_answer method url content)
        (λ resp.
          bind-Quiet (expect codec admin good operation resp)
            (λ _. decode codec admin failed read resp) (expect-Quiet good operation resp)
            (λ _. decode-Quiet failed read resp))

  pub get_client_secret-Quiet : (uuid : String) → Quiet (get_client_secret codec admin uuid)
  unfolding get_client_secret
  get_client_secret-Quiet uuid =
      call-Quiet "failed to create get client secret request" "failed to get client secret"
        method_get (realm_url codec admin ("/clients/" ∷ uuid ∷ "/client-secret" ∷ [])) no_content
        (λ s. nat_eq s 200) "get client secret" "failed to parse client secret response"
        codec.decode_value

  pub get_service_account_user-Quiet :
      (uuid : String) → Quiet (get_service_account_user codec admin uuid)
  unfolding get_service_account_user
  get_service_account_user-Quiet uuid =
      call-Quiet "failed to create get service account user request"
        "failed to get service account user" method_get
        (realm_url codec admin ("/clients/" ∷ uuid ∷ "/service-account-user" ∷ [])) no_content
        (λ s. nat_eq s 200) "get service account user"
        "failed to parse service account user response" codec.decode_user

  pub assign_realm_role_to_user-Quiet :
      (user_id : String) (role : RoleInfo)
      → Quiet (assign_realm_role_to_user codec admin user_id role)
  unfolding assign_realm_role_to_user
  assign_realm_role_to_user-Quiet user_id role =
      let url = realm_url codec admin ("/users/" ∷ user_id ∷ "/role-mappings/realm" ∷ []) in
      let call = λ (body : String).
        send codec admin "failed to create assign role request" "failed to assign role" method_post
          url (json_content body) in
      let check = expect codec admin (λ s. nat_eq s 204 || nat_eq s 200) "assign role to user" in
      bind-Quiet (context "failed to marshal role" (lift (codec.marshal_roles (role ∷ []))))
        (λ body. call body >>= check)
        (context-Quiet "failed to marshal role" (lift (codec.marshal_roles (role ∷ [])))
          (lift-Quiet (codec.marshal_roles (role ∷ []))))
        (λ body.
          bind-Quiet (call body) check
            (send-Quiet "failed to create assign role request" "failed to assign role" method_post
              url (json_content body))
            (expect-Quiet (λ s. nat_eq s 204 || nat_eq s 200) "assign role to user"))

  create_service_account_client-Quiet :
      (config : ServiceAccountClientConfig)
      → Quiet (create_service_account_client codec admin config)
  unfolding create_service_account_client
  create_service_account_client-Quiet config =
      let url = realm_url codec admin ("/clients" ∷ []) in
      let call = λ (body : String).
        send codec admin "failed to create client request" "failed to create client" method_post url
          (json_content body) in
      let check = expect codec admin (λ s. nat_eq s 201) "create client" in
      bind-Quiet (context "failed to marshal client config" (lift (codec.marshal_client config))) _
        (context-Quiet "failed to marshal client config" (lift (codec.marshal_client config))
          (lift-Quiet (codec.marshal_client config)))
        (λ body.
          bind-Quiet (call body) _
            (send-Quiet "failed to create client request" "failed to create client" method_post url
              (json_content body))
            (λ resp.
              bind-Quiet (check resp) _ (expect-Quiet (λ s. nat_eq s 201) "create client" resp)
                (λ _ w r. ground arith)))

  pub client_uuid-Quiet :
      (existing : List (String × ClientInfo)) (name : String)
      → Quiet (client_uuid codec admin write_secret existing name)
  client_uuid-Quiet existing name = find (lookup name existing)
    where
      make : Exec W String
      make =
          context "failed to create client"
            (create_service_account_client codec admin (service_account name))
          >>= λ made. pure made.id

      find :
          (found : Option ClientInfo)
          → Quiet (elim found [ some x ↦ pure {W = W} x.id | none ↦ make ])
      find (some x) = λ w r. refl
      find none =
          bind-Quiet
            (context "failed to create client"
              (create_service_account_client codec admin (service_account name)))
            (λ made. pure made.id)
            (context-Quiet "failed to create client"
              (create_service_account_client codec admin (service_account name))
              (create_service_account_client-Quiet (service_account name)))
            (λ made v s. refl)
