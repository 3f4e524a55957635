-- ===== src/Invite/Laws.antt =====
-- When an invite is done.
use mathlib.Core.Path.{subst⁻¹}
use security_operator.Prelude.{
  String, List, some, Exec, Result, ok, ap, ◌∙◌, ◌≡◌, ◌≢◌, ◌⊎◌, inl, inr, ◌==◌, arith, context,
  bind-eq-ok, carry, Option-cases, Bool-cases, false, ◌>>=◌, if◌then◌else◌, eq_iff, refl,
}
use security_operator.Kube.{AccountInfo, OidcInfo, Outcome, done}
use security_operator.Idp.{lookup, is_empty}
use security_operator.Invite.{
  Invite, Subroutine, KeycloakUser, query_users, invite_user, process, mail_or_skip,
}
use security_operator.Invite.Mail.{
  MailedTo, finish, finish_lem, invite_user_without_oidc, invite_user-MailedTo,
}

module _ {W : Type 0} (s : Subroutine W) where
  -- In the realm of the organisation, and with the client of the organisation's OIDC settings.
  abbrev pub Mailed : Invite → AccountInfo → W → Type 0
  Mailed invite info end =
      (oidc : OidcInfo) × (client_id : String) × (info.oidc ≡ some oidc)
      × (lookup (info.organization).name oidc.clients ≡ some client_id)
      × MailedTo s invite (info.organization).name client_id end

  -- The run ended in a world after these calls: Keycloak was asked for the users of the invite's
  -- address in the realm of the organisation, and answered with at least one; and the limiter forgot
  -- the invite.
  abbrev pub Found : Invite → AccountInfo → W → Type 0
  Found invite info end =
      let query = query_users s (info.organization).name invite.email in
      (u : W) × (users : List KeycloakUser) × ((query u).0 ≡ ok users)
      × (is_empty users ≡ false)
      × (end ≡ (s.limiter.forget invite.name (query u).1).1)

  invite_user-Mailed :
      (invite : Invite) (info : AccountInfo) (w : W)
      → (invite_user s invite (info.organization).name info.oidc w).0 ≡ ok done
      → Mailed invite info (invite_user s invite (info.organization).name info.oidc w).1
  invite_user-Mailed invite info w h = elim (Option-cases info.oidc) [
    | inl e ↦ invite_user_without_oidc s invite (info.organization).name w (rw e at h)
    | inr (oidc, e) ↦
        let (client_id, known, sent) =
          invite_user-MailedTo s invite (info.organization).name oidc w (rw e at h) in
        (oidc, client_id, e, known, rw e sent)
  ]

  mail_or_skip-done :
      (invite : Invite) (info : AccountInfo) (w : W)
      → (mail_or_skip s invite info w).0 ≡ ok done
      → ((info.organization).name ≢ "")
        × (Found invite info (mail_or_skip s invite info w).1
            ⊎ Mailed invite info (mail_or_skip s invite info w).1)
  mail_or_skip-done invite info w h =
      let realm = (info.organization).name in
      elim (Bool-cases (realm == "")) [
        | inl e ↦ ground (arith, e)
        | inr e ↦
            let run = mail_or_skip s invite info w in
            let query = query_users s realm invite.email in
            let rest : List KeycloakUser → Exec W Outcome = λ users.
              if is_empty users then invite_user s invite realm info.oidc else finish s invite in
            let start : run ≡ (query >>= rest) w = rw e refl in
            let (users, found, step) = bind-eq-ok query rest w (carry start h) in
            let reached = start ∙ step in
            let u = (query w).1 in
            (
              λ f. ground (arith, eq_iff realm "", e),
              elim (Bool-cases (is_empty users)) [
                | inl n ↦
                    let whole : run ≡ invite_user s invite realm info.oidc u =
                      reached ∙ rw n refl in
                    inr (
                      subst⁻¹ (λ (r : Result Outcome × W). Mailed invite info r.1) whole
                        (invite_user-Mailed invite info u (carry whole h)))
                | inr n ↦
                    let whole : run ≡ finish s invite u = reached ∙ rw n refl in
                    inl (
                      w,
                      users,
                      found,
                      n,
                      ap (λ r. r.1) whole ∙ finish_lem s invite u (carry whole h),
                    )
              ],
            )
      ]

  pub process-done :
      (name : String) (new_client : String → Exec W (Exec W AccountInfo)) (info : AccountInfo)
      (invite : Invite) (w : W)
      → ((get : Exec W AccountInfo) (u v : W) (i : AccountInfo)
          → (new_client name u).0 ≡ ok get
          → (get v).0 ≡ ok i
          → i ≡ info)
      → let run = process s (some name) new_client invite w in
        run.0 ≡ ok done
        → ((info.organization).name ≢ "") × (Found invite info run.1 ⊎ Mailed invite info run.1)
  unfolding process
  process-done name new_client info invite w reads h =
      let connect = context "failed to get client for cluster" (new_client name) in
      let (get, connected, step₁) = bind-eq-ok connect (λ get. get >>= mail_or_skip s invite) w h in
      let w₁ = (connect w).1 in
      let (i, read, step₂) = bind-eq-ok get (mail_or_skip s invite) w₁ (carry step₁ h) in
      let w₂ = (get w₁).1 in
      let whole =
        step₁
        ∙ step₂
        ∙ ap (λ a. mail_or_skip s invite a w₂)
            (reads get w w₁ i (ground (arith, connected)) read) in
      let (named, ends) = mail_or_skip-done invite info w₂ (carry whole h) in
      (
        named,
        subst⁻¹ (λ (r : Result Outcome × W). Found invite info r.1 ⊎ Mailed invite info r.1) whole
            ends,
      )
