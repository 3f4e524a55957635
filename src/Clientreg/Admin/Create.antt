-- ===== src/Clientreg/Admin/Create.antt =====
-- Creating a realm, and replacing one that is there.
use mathlib.Core.Path.{subst⁻¹}
use security_operator.Prelude.{
  String, Bool, [], none, some, Exec, Result, ok, ◌≡◌, ◌≢◌, ap, ◌∙◌, arith, ◌==◌, nat_eq,
  if◌then◌else◌, true, false, Bool-cases, bind-eq-ok, carry, pure, context, lift, ◌>>=◌, inl, inr,
}
use security_operator.Http.{Response, method_post, json_content}
use security_operator.Realm.{RealmConfig}
use security_operator.Clientreg.Codec.{Codec}
use security_operator.Clientreg.Admin.{
  AdminClient, admin_url, send, read_error_response, update_realm, create_or_update_realm,
}
use security_operator.Clientreg.Admin.Realms.{RealmApi, send_lem, update_realm_lem, send_realms}

module _ {W : Type 0} (codec : Codec) (c : AdminClient W) where
  module _ (api : RealmApi codec c) where
    open api use {realms}

    abbrev replace : RealmConfig → String → Exec W Bool
    replace config body = update_realm codec c config.realm body >>= λ _. pure false

    -- What is made of the answer to the request that creates the realm.
    abbrev decide : RealmConfig → String → Response → Exec W Bool
    decide config body resp =
        if nat_eq resp.status 201
        then pure true
        else if nat_eq resp.status 409
        then replace config body
        else read_error_response codec c resp "create realm"

    abbrev pub Settled : RealmConfig → String → Bool → W → W → Type 0
    Settled config body new w u =
        (new ≡ true → realms w config.realm ≡ none)
        × (new ≡ false → realms w config.realm ≢ none)
        × ((x : String) → realms u x ≡ (if x == config.realm then some body else realms w x))

    replace-Settled :
        (config : RealmConfig) (body : String) (resp : Response) (new : Bool) (w : W)
        → codec.marshal_realm config ≡ ok body
        → (send_realms codec c body w).0 ≡ ok resp
        → resp.status ≡ 409
        → (replace config body (send_realms codec c body w).1).0 ≡ ok new
        → Settled config body new w (replace config body (send_realms codec c body w).1).1
    replace-Settled config body resp new w text posted status h =
        let u = (send_realms codec c body w).1 in
        let (unit, replaced, step) =
          bind-eq-ok (update_realm codec c config.realm body) (λ _. pure false) u h in
        let (there, before) = api.conflict config body resp w text posted status in
        let after = update_realm_lem codec c api config.realm body u replaced in
        let old : new ≡ false = ground (arith, step, h) in
        (
          λ e. ground (arith, old, e),
          λ e. there,
          λ x.
              ap (λ (r : Result Bool × W). realms r.1 x) step
              ∙ after x
              ∙ ap (λ o. if x == config.realm then some body else o) (before x),
        )

    decide-Settled :
        (config : RealmConfig) (body : String) (resp : Response) (new : Bool) (w : W)
        → codec.marshal_realm config ≡ ok body
        → (send_realms codec c body w).0 ≡ ok resp
        → (decide config body resp (send_realms codec c body w).1).0 ≡ ok new
        → Settled config body new w (decide config body resp (send_realms codec c body w).1).1
    decide-Settled config body resp new w text posted h =
        elim (Bool-cases (nat_eq resp.status 201)) [
          | inl made ↦
              let (absent, after) =
                api.created config body resp w text posted (ground (arith, made)) in
              rw made ((λ e. absent), (λ e. ground (arith, made, h, e)), after)
          | inr other ↦ elim (Bool-cases (nat_eq resp.status 409)) [
            | inl there ↦
                rw (other, there)
                  (replace-Settled config body resp new w text posted (ground (arith, there))
                    (rw (other, there) at h))
            | inr failed ↦ ground (arith, other, failed, h)
          ]
        ]

    pub create_or_update_realm_lem :
        (config : RealmConfig) (new : Bool) (w : W)
        → (create_or_update_realm codec c config w).0 ≡ ok new
        → (body : String) × (codec.marshal_realm config ≡ ok body)
          × Settled config body new w (create_or_update_realm codec c config w).1
    unfolding create_or_update_realm
    create_or_update_realm_lem config new w h =
        let post = λ (body : String).
          send codec c "failed to create realm request" "failed to create realm" method_post
            (admin_url codec c []) (json_content body) in
        let (body, marshalled, s₁) =
          bind-eq-ok (context "failed to marshal realm config" (lift (codec.marshal_realm config)))
            (λ body. post body >>= decide config body) w h in
        let text : codec.marshal_realm config ≡ ok body = ground (arith, marshalled) in
        let start : create_or_update_realm codec c config w ≡ (post body >>= decide config body) w =
          ground (arith, text) in
        let (resp, got, s₂) = bind-eq-ok (post body) (decide config body) w (carry start h) in
        let same =
          send_lem codec c api "failed to create realm request" "failed to create realm" method_post
            (admin_url codec c []) (json_content body) resp w got in
        let steps : create_or_update_realm codec c config w
            ≡ decide config body resp (send_realms codec c body w).1 =
          start ∙ s₂ ∙ ap (λ (r : Result Response × W). decide config body resp r.1) same in
        (
          body,
          text,
          subst⁻¹ (λ (r : Result Bool × W). Settled config body new w r.1) steps
              (decide-Settled config body resp new w text (carry same got) (carry steps h)),
        )
