-- ===== src/Invite/Mail.antt =====
-- What the mail of an invite is sent after, and to whom.
use mathlib.Core.Path.{subst⁻¹}
use security_operator.Prelude.{
  String, List, [], ◌∷◌, none, some, Exec, Result, ok, ap, ◌∙◌, ◌≡◌, ◌≢◌, inl, inr, arith,
  bind-eq-ok, carry, Option-cases, Bool-cases, nat_eq, ◌>>=◌, ◌>>◌, pure, raise, fail, ℕ,
  if◌then◌else◌, refl,
}
use security_operator.Kube.{OidcInfo, Outcome, done, requeue}
use security_operator.Http.{Response}
use security_operator.Idp.{lookup, is_empty}
use security_operator.Invite.{
  Invite, Subroutine, KeycloakUser, mail_url, expect, query_users, query_clients, create_user,
  create_and_mail, invite_user, first,
}

module _ {W : Type 0} (s : Subroutine W) where
  -- The run ended in a world after these calls: Keycloak was asked for the users of the invite's
  -- address in the realm; it then answered 204 when it was asked to send the mail to the first of
  -- them, with the client; and the limiter forgot the invite.
  abbrev pub MailedTo : Invite → String → String → W → Type 0
  MailedTo invite realm client_id end =
      (user : KeycloakUser) × (users : List KeycloakUser) × (u : W) × (res : Response)
      × ((query_users s realm invite.email u).0 ≡ ok (user ∷ users))
      × ((s.keycloak.put (mail_url s realm user.id client_id) ""
            (query_users s realm invite.email u).1).0
          ≡ ok res)
      × (res.status ≡ 204)
      × (end
          ≡ (s.limiter.forget invite.name
              (s.keycloak.put (mail_url s realm user.id client_id) ""
                (query_users s realm invite.email u).1).1).1)

  expect_lem :
      (status : ℕ) (what : String) (call : Exec W Response) (w : W) (b : String)
      → (expect s status what call w).0 ≡ ok b
      → (res : Response) × ((call w).0 ≡ ok res)
        × (res.status ≡ status)
        × ((expect s status what call w).1 ≡ (call w).1)
  expect_lem status what call w b h =
      let (res, called, step) =
        bind-eq-ok call
          (λ res. if nat_eq res.status status then pure res.body else raise (fail what)) w h in
      elim (Bool-cases (nat_eq res.status status)) [
        | inl same ↦ (res, called, ground (arith, same), ground (arith, step, same))
        | inr other ↦ ground (arith, h, step, other)
      ]

  abbrev pub finish : Invite → Exec W Outcome
  finish invite = s.limiter.forget invite.name >> pure done

  pub finish_lem :
      (invite : Invite) (w : W)
      → (finish invite w).0 ≡ ok done
      → (finish invite w).1 ≡ (s.limiter.forget invite.name w).1
  finish_lem invite w h =
      let (x, forgot, step) = bind-eq-ok (s.limiter.forget invite.name) (λ x. pure done) w h in
      ap (λ r. r.1) step

  abbrev mail : String → String → KeycloakUser → Exec W String
  mail realm client_id user =
      expect s 204 "failed to send invite email"
        (s.keycloak.put (mail_url s realm user.id client_id) "")

  first-MailedTo :
      (invite : Invite) (realm client_id : String) (users : List KeycloakUser) (u : W)
      → (query_users s realm invite.email u).0 ≡ ok users
      → let run =
          (first s users >>= λ user. mail realm client_id user >> finish invite)
            (query_users s realm invite.email u).1 in
        run.0 ≡ ok done → MailedTo invite realm client_id run.1
  first-MailedTo invite realm client_id [] u found h = ground (arith, h)
  first-MailedTo invite realm client_id (user ∷ users) u found h =
      let w = (query_users s realm invite.email u).1 in
      let send = mail realm client_id user in
      let (b, mailed, step) = bind-eq-ok send (λ b. finish invite) w h in
      let (res, put, is_204, ends) =
        expect_lem 204 "failed to send invite email"
          (s.keycloak.put (mail_url s realm user.id client_id) "") w b mailed in
      (
        user,
        users,
        u,
        res,
        found,
        put,
        is_204,
        ap (λ r. r.1) step
            ∙ finish_lem invite (send w).1 (carry step h)
            ∙ ap (λ v. (s.limiter.forget invite.name v).1) ends,
      )

  create_and_mail-MailedTo :
      (invite : Invite) (realm client_id : String) (w : W)
      → (create_and_mail s invite realm client_id w).0 ≡ ok done
      → MailedTo invite realm client_id (create_and_mail s invite realm client_id w).1
  unfolding create_and_mail
  create_and_mail-MailedTo invite realm client_id w h =
      let create = create_user s realm invite.email in
      let query = query_users s realm invite.email in
      let last : List KeycloakUser → Exec W Outcome =
        λ us. first s us >>= λ u. mail realm client_id u >> finish invite in
      let (body, created, step₁) = bind-eq-ok create (λ b. query >>= last) w h in
      let w₁ = (create w).1 in
      let (users, found, step₂) = bind-eq-ok query last w₁ (carry step₁ h) in
      let whole = step₁ ∙ step₂ in
      subst⁻¹ (λ (r : Result Outcome × W). MailedTo invite realm client_id r.1) whole
        (first-MailedTo invite realm client_id users w₁ found (carry whole h))

  pub invite_user_without_oidc :
      {A : Type 0} (invite : Invite) (realm : String) (w : W)
      → (invite_user s invite realm none w).0 ≡ ok done
      → A
  unfolding invite_user
  invite_user_without_oidc invite realm w h = absurd (ground (arith, h))

  abbrev waiting : Invite → Exec W Outcome
  waiting invite = do
    delay ← s.limiter.when invite.name
    pure (requeue delay "client does not exist yet")

  waiting-ne-done : (invite : Invite) (w : W) → (waiting invite w).0 ≢ ok done
  waiting-ne-done invite w h =
      let (delay, asked, step) =
        bind-eq-ok (s.limiter.when invite.name)
          (λ delay. pure (requeue delay "client does not exist yet")) w h in
      let same : ◌≡◌ {A = Result Outcome} (ok (requeue delay "client does not exist yet"))
          (ok done) =
        carry step h in
      cc

  pub invite_user-MailedTo :
      (invite : Invite) (realm : String) (oidc : OidcInfo) (w : W)
      → (invite_user s invite realm (some oidc) w).0 ≡ ok done
      → (client_id : String) × (lookup realm oidc.clients ≡ some client_id)
        × MailedTo invite realm client_id (invite_user s invite realm (some oidc) w).1
  unfolding invite_user
  invite_user-MailedTo invite realm oidc w h = elim (Option-cases (lookup realm oidc.clients)) [
    | inl e ↦ ground (arith, e)
    | inr (client_id, e) ↦
        let run = invite_user s invite realm (some oidc) w in
        let clients_of = query_clients s realm client_id in
        let send : List String → Exec W Outcome = λ clients.
          if is_empty clients then waiting invite else create_and_mail s invite realm client_id in
        let start : run ≡ (clients_of >>= send) w = rw (invite_user, e) refl in
        let (clients, found, step) = bind-eq-ok clients_of send w (carry start h) in
        let reached = start ∙ step in
        elim (Bool-cases (is_empty clients)) [
          | inl n ↦
              let waits : run ≡ waiting invite (clients_of w).1 = reached ∙ rw n refl in
              absurd (waiting-ne-done invite (clients_of w).1 (carry waits h))
          | inr n ↦
              let whole : run ≡ create_and_mail s invite realm client_id (clients_of w).1 =
                reached ∙ rw n refl in
              (
                client_id,
                e,
                subst⁻¹ (λ (r : Result Outcome × W). MailedTo invite realm client_id r.1) whole
                    (create_and_mail-MailedTo invite realm client_id (clients_of w).1
                      (carry whole h)),
              )
        ]
  ]
