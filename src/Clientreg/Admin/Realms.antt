-- ===== src/Clientreg/Admin/Realms.antt =====
-- The realms of Keycloak as a map from names to representations.
use security_operator.Prelude.{
  ℕ, String, Bool, [], ◌∷◌, Option, none, some, Result, ok, ◌≡◌, ◌≢◌, ap, ◌∙◌, arith, ◌==◌, ◌||◌,
  nat_eq, if◌then◌else◌, true, false, bind-eq-ok, carry, pure, ◌>>=◌,
}
use security_operator.Http.{
  Method, Content, Response, method_get, method_post, method_put, method_delete, no_content,
  json_content,
}
use security_operator.Realm.{RealmConfig}
use security_operator.Clientreg.Codec.{Codec}
use security_operator.Clientreg.Admin.{
  AdminClient, request, admin_url, send, expect, read_error_response, realm_exists, update_realm,
  delete_realm,
}

module _ {W : Type 0} (codec : Codec) (c : AdminClient W) where
  abbrev pub send_realms : String → W → Result Response × W
  send_realms body =
      c.http_client (request codec c method_post (admin_url codec c []) (json_content body))

  abbrev realm_path : String → String
  realm_path r = admin_url codec c ("/" ∷ r ∷ [])

  abbrev get_realm : String → W → Result Response × W
  get_realm r = c.http_client (request codec c method_get (realm_path r) no_content)

  abbrev put_realm : String → String → W → Result Response × W
  put_realm r body = c.http_client (request codec c method_put (realm_path r) (json_content body))

  abbrev remove_realm : String → W → Result Response × W
  remove_realm r = c.http_client (request codec c method_delete (realm_path r) no_content)

  -- What is documented of the four requests, by the status of the answer. Nothing is said of a
  -- request that fails or that has another status.
  pub record RealmApi : Type 0 where
    pub realms : W → String → Option String
    pub created :
        (config : RealmConfig) (body : String) (resp : Response) (w : W)
        → codec.marshal_realm config ≡ ok body
        → (send_realms body w).0 ≡ ok resp
        → resp.status ≡ 201
        → (realms w config.realm ≡ none)
          × ((x : String)
              → realms (send_realms body w).1 x
                ≡ (if x == config.realm then some body else realms w x))
    pub conflict :
        (config : RealmConfig) (body : String) (resp : Response) (w : W)
        → codec.marshal_realm config ≡ ok body
        → (send_realms body w).0 ≡ ok resp
        → resp.status ≡ 409
        → (realms w config.realm ≢ none)
          × ((x : String) → realms (send_realms body w).1 x ≡ realms w x)
    pub replaced :
        (r body : String) (resp : Response) (w : W)
        → (put_realm r body w).0 ≡ ok resp
        → (nat_eq resp.status 204 || nat_eq resp.status 200) ≡ true
        → (x : String)
        → realms (put_realm r body w).1 x ≡ (if x == r then some body else realms w x)
    pub found :
        (r : String) (resp : Response) (w : W)
        → (get_realm r w).0 ≡ ok resp
        → (resp.status ≡ 200 → realms w r ≢ none)
          × (resp.status ≡ 404 → realms w r ≡ none)
          × ((x : String) → realms (get_realm r w).1 x ≡ realms w x)
    pub removed :
        (r : String) (resp : Response) (w : W)
        → (remove_realm r w).0 ≡ ok resp
        → (nat_eq resp.status 204 || nat_eq resp.status 200 || nat_eq resp.status 404) ≡ true
        → (x : String) → realms (remove_realm r w).1 x ≡ (if x == r then none else realms w x)

  module _ (api : RealmApi) where
    open api use {realms}

    -- An answer that was received is that of the server.
    pub send_lem :
        (no_request no_answer : String) (method : Method) (url : String) (content : Content)
        (resp : Response) (w : W)
        → (send codec c no_request no_answer method url content w).0 ≡ ok resp
        → send codec c no_request no_answer method url content w
          ≡ c.http_client (request codec c method url content) w
    send_lem no_request no_answer method url content resp w h = ground arith

    pub realm_exists_lem :
        (r : String) (b : Bool) (w : W)
        → (realm_exists codec c r w).0 ≡ ok b
        → (b ≡ true → realms w r ≢ none)
          × (b ≡ false → realms w r ≡ none)
          × ((x : String) → realms (realm_exists codec c r w).1 x ≡ realms w x)
    unfolding realm_exists
    realm_exists_lem r b w h =
        let call =
          send codec c "failed to create get realm request" "failed to get realm" method_get
            (realm_path r) no_content in
        let (resp, got, step) =
          bind-eq-ok call
            (λ resp.
              if nat_eq resp.status 200
              then pure true
              else if nat_eq resp.status 404
              then pure false
              else read_error_response codec c resp "get realm")
            w h in
        let same =
          send_lem "failed to create get realm request" "failed to get realm" method_get
            (realm_path r) no_content resp w got in
        let (there, absent, kept) = api.found r resp w (carry same got) in
        let end : (realm_exists codec c r w).1 ≡ (get_realm r w).1 = ground (arith, step, same) in
        (
          (λ e. ground (arith, there, step, e)),
          (λ e. ground (arith, absent, step, e)),
          λ x. ap (λ v. realms v x) end ∙ kept x,
        )

    -- A request that must have a status got an answer with it.
    expect_lem :
        (no_request no_answer : String) (method : Method) (url : String) (content : Content)
        (good : ℕ → Bool) (operation : String) (w : W)
        → ((send codec c no_request no_answer method url content >>= expect codec c good operation)
            w).0
          ≡ ok tt
        → (resp : Response) × ((c.http_client (request codec c method url content) w).0 ≡ ok resp)
          × (good resp.status ≡ true)
          × (((send codec c no_request no_answer method url content
                  >>= expect codec c good operation)
                w).1
              ≡ (c.http_client (request codec c method url content) w).1)
    expect_lem no_request no_answer method url content good operation w h =
        let call = send codec c no_request no_answer method url content in
        let (resp, got, step) = bind-eq-ok call (expect codec c good operation) w h in
        let same = send_lem no_request no_answer method url content resp w got in
        (resp, carry same got, ground (arith, step, h), ground (arith, step, h, same))

    pub update_realm_lem :
        (r body : String) (w : W)
        → (update_realm codec c r body w).0 ≡ ok tt
        → (x : String)
        → realms (update_realm codec c r body w).1 x ≡ (if x == r then some body else realms w x)
    unfolding update_realm
    update_realm_lem r body w h x =
        let (resp, got, status, end) =
          expect_lem "failed to create realm update request" "failed to update realm" method_put
            (realm_path r) (json_content body) (λ s. nat_eq s 204 || nat_eq s 200) "update realm" w
            h in
        ap (λ v. realms v x) end ∙ api.replaced r body resp w got status x

    pub delete_realm_lem :
        (r : String) (w : W)
        → (delete_realm codec c r w).0 ≡ ok tt
        → (x : String)
        → realms (delete_realm codec c r w).1 x ≡ (if x == r then none else realms w x)
    unfolding delete_realm
    delete_realm_lem r w h x =
        let (resp, got, status, end) =
          expect_lem "failed to create realm delete request" "failed to delete realm" method_delete
            (realm_path r) no_content (λ s. nat_eq s 204 || nat_eq s 200 || nat_eq s 404)
            "delete realm" w h in
        ap (λ v. realms v x) end ∙ api.removed r resp w got status x
