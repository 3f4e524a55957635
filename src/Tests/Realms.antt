-- ===== src/Tests/Realms.antt =====
-- pkg/clientreg/keycloak/admin.go at concrete inputs.
use security_operator.Prelude.{
  ℕ, String, List, [], ◌∷◌, Option, none, some, Exec, ok, ◌≡◌, ◌≢◌, refl, arith, ap, sym, ◌∙◌, ◌==◌,
  ◌||◌, nat_eq, Option-cases, inl, inr, if◌then◌else◌, true, false,
}
use text.Mathlib.TextLemmas.{append_assoc}
use security_operator.Prelude.Text.{concat, strip_prefix, strip_prefix-append, or_else}
use security_operator.Http.{
  Response, RoundTripper, method_get, method_post, method_put, method_delete, no_content,
  json_content,
}
use security_operator.Realm.{RealmConfig}
use security_operator.Clientreg.Admin.{
  AdminClient, request, admin_url, realm_exists, update_realm, create_or_update_realm, delete_realm,
}
use security_operator.Clientreg.Admin.Realms.{RealmApi}
use security_operator.Clientreg.Admin.Refinement.{
  RealmCall, create_or_update, remove, exists, Steps, perform_all, perform_all-Steps,
}
use security_operator.Webhook.{validate_create}
use security_operator.Webhook.Realms.{admit, admit-new}
use security_operator.Tests.Keycloak.{codec}

-- The world is the realms; the body of a request is the name of a realm.
abbrev World : Type 0
World = String → Option String

abbrev answer : ℕ → Response
answer status = record { status = status; body = ""; location = "" }

abbrev set : String → Option String → World → World
set r v w x = if x == r then v else w x

abbrev create : Option String → String → Exec World Response
create none r w = (ok (answer 201), set r (some r) w)
create (some old) r w = (ok (answer 409), w)

abbrev replace : Option String → String → String → Exec World Response
replace none r body w = (ok (answer 404), w)
replace (some old) r body w = (ok (answer 204), set r (some body) w)

abbrev find_status : Option String → ℕ
find_status none = 404
find_status (some old) = 200

abbrev drop_status : Option String → ℕ
drop_status none = 404
drop_status (some old) = 204

abbrev server : RoundTripper World
server req w =
    let r = or_else (strip_prefix req.url "k/admin/realms/") "" in
    let body = or_else req.body "" in
    elim req.method [
      | method_get ↦ (ok (answer (find_status (w r))), w)
      | method_post ↦ create (w body) body w
      | method_put ↦ replace (w r) r body w
      | method_delete ↦ (ok (answer (drop_status (w r))), set r none w)
    ]

abbrev admin : AdminClient World
admin = record { http_client = server; base_url = "k"; realm = "master" }

named :
    (r : String) → strip_prefix (admin_url codec admin ("/" ∷ r ∷ [])) "k/admin/realms/" ≡ some r
named r =
    ap (λ u. strip_prefix u "k/admin/realms/")
      (sym (append_assoc "k" "/admin/realms" (concat ("/" ∷ r ∷ [])))
        ∙ sym (append_assoc "k/admin/realms" "/" r))
    ∙ strip_prefix-append "k/admin/realms/" r

abbrev post : String → Exec World Response
post body = server (request codec admin method_post (admin_url codec admin []) (json_content body))

abbrev get : String → Exec World Response
get r = server (request codec admin method_get (admin_url codec admin ("/" ∷ r ∷ [])) no_content)

abbrev put : String → String → Exec World Response
put r body =
    server
      (request codec admin method_put (admin_url codec admin ("/" ∷ r ∷ [])) (json_content body))

abbrev remove_realm : String → Exec World Response
remove_realm r =
    server (request codec admin method_delete (admin_url codec admin ("/" ∷ r ∷ [])) no_content)

post_created :
    (config : RealmConfig) (body : String) (resp : Response) (w : World)
    → codec.marshal_realm config ≡ ok body
    → (post body w).0 ≡ ok resp
    → resp.status ≡ 201
    → (w config.realm ≡ none)
      × ((x : String) → (post body w).1 x ≡ (if x == config.realm then some body else w x))
post_created config body resp w text h status = elim (Option-cases (w body)) [
  | inl absent ↦ (ground (arith, absent, text), λ x. ground (arith, absent, text))
  | inr (old, present) ↦ ground (arith, present, h, status)
]

post_conflict :
    (config : RealmConfig) (body : String) (resp : Response) (w : World)
    → codec.marshal_realm config ≡ ok body
    → (post body w).0 ≡ ok resp
    → resp.status ≡ 409
    → (w config.realm ≢ none) × ((x : String) → (post body w).1 x ≡ w x)
post_conflict config body resp w text h status = elim (Option-cases (w body)) [
  | inl absent ↦ ground (arith, absent, h, status)
  | inr (old, present) ↦
      ((λ e. ground (arith, present, text, e)), λ x. ground (arith, present, text))
]

put_replaced :
    (r body : String) (resp : Response) (w : World)
    → (put r body w).0 ≡ ok resp
    → (nat_eq resp.status 204 || nat_eq resp.status 200) ≡ true
    → (x : String) → (put r body w).1 x ≡ (if x == r then some body else w x)
put_replaced r body resp w h good x = elim (Option-cases (w r)) [
  | inl absent ↦ ground (arith, named r, absent, h, good)
  | inr (old, present) ↦ ground (arith, named r, present)
]

get_found :
    (r : String) (resp : Response) (w : World)
    → (get r w).0 ≡ ok resp
    → (resp.status ≡ 200 → w r ≢ none)
      × (resp.status ≡ 404 → w r ≡ none)
      × ((x : String) → (get r w).1 x ≡ w x)
get_found r resp w h =
    ((λ e a. ground (arith, named r, h, e, a)), (λ e. ground (arith, named r, h, e)), λ x. refl)

removed :
    (r : String) (w : World) (x : String) → (remove_realm r w).1 x ≡ (if x == r then none else w x)
removed r w x = ground (arith, named r)

api : RealmApi codec admin
api = record {
  realms = λ w. w;
  created = post_created;
  conflict = post_conflict;
  replaced = put_replaced;
  found = get_found;
  removed = λ r resp w h good. removed r w;
}

abbrev config : RealmConfig
config = record {
  realm = "acme";
  display_name = "acme";
  enabled = true;
  login_with_email_allowed = true;
  registration_email_as_username = true;
  registration_allowed = false;
  sso_session_idle_timeout = 28800;
  access_token_lifespan = 28800;
  smtp_server = none;
}

abbrev calls : List RealmCall
calls =
    exists "acme"
    ∷ create_or_update config
    ∷ create_or_update config
    ∷ exists "acme"
    ∷ remove "acme"
    ∷ exists "acme"
    ∷ []

abbrev start : World
start x = none

perform_all-Steps_example :
    Steps codec calls
      (false ∷ true ∷ false ∷ true ∷ true ∷ false ∷ [])
      start
      (perform_all codec admin calls start).1
unfolding api perform_all realm_exists update_realm create_or_update_realm delete_realm strip_prefix
perform_all-Steps_example =
    perform_all-Steps codec admin api calls (false ∷ true ∷ false ∷ true ∷ true ∷ false ∷ []) start
      refl

abbrev trim : String → String
trim s = s

admitted : (admit codec admin api trim ("master" ∷ "internal" ∷ []) "acme" start).0 ≡ ok tt
unfolding validate_create realm_exists strip_prefix
admitted = refl

made :
    (create_or_update_realm codec admin config
      (admit codec admin api trim ("master" ∷ "internal" ∷ []) "acme" start).1).0
    ≡ ok true
unfolding validate_create realm_exists create_or_update_realm update_realm strip_prefix
made = refl

admit-new_example : (true ≡ true) × (api.realms start "acme" ≡ none)
admit-new_example =
    admit-new codec admin api trim ("master" ∷ "internal" ∷ []) "acme" config true start refl
      admitted made
