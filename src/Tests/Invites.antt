-- ===== src/Tests/Invites.antt =====
-- Invites against a Keycloak that answers the same every time.
use security_operator.Prelude.{
  ℕ, suc, String, Bool, List, [], ◌∷◌, some, ok, crash, pure, ◌≡◌, ◌≢◌, ◌⊎◌, refl, Exec, Result,
  err, ap, sym, ◌∙◌,
}
use security_operator.Kube.{AccountInfo, AccountLocation, org, done}
use security_operator.Idp.{is_empty}
use security_operator.Http.{Response, Transport}
use security_operator.Invite.{Invite, Subroutine, KeycloakUser, query_users, process}
use security_operator.Invite.Laws.{Found, Mailed, process-done}

abbrev user : KeycloakUser
user = record {
  id = "u1";
  email = "a@b";
  required_actions = [];
  enabled = Bool.true;
  credentials = [];
}

abbrev answer : ℕ → String → Response
answer status body = record { status = status; body = body; location = "" }

abbrev transport : Transport ℕ
transport = record {
  get = λ url. pure (answer 200 url);
  post = λ url body w. (ok (answer 201 ""), suc w);
  put = λ url body. pure (answer 204 "");
  delete = λ url. pure (answer 204 "");
}

-- What the users are decoded to.
abbrev service : List KeycloakUser → Subroutine ℕ
service users = record {
  keycloak_base_url = "kc";
  base_domain = "example.com";
  set_default_password = Bool.false;
  keycloak = transport;
  limiter = record { when = λ name. pure 5; forget = λ name. pure tt };
  codec = record {
    decode_users = λ body. ok users;
    decode_clients = λ body. ok ("c1" ∷ []);
    encode_user = λ u. ok "{}";
    encode_query = λ q. "";
  };
}

abbrev place : AccountLocation
place = record {
  name = "acme";
  account_type = org;
  origin_cluster_id = "oc";
  generated_cluster_id = "gc";
}

abbrev info : AccountInfo
info = record {
  account = place;
  organization = place;
  oidc = some (record { issuer_url = "i"; clients = ("acme", "c1") ∷ [] });
}

abbrev invite : Invite
invite = record { name = "inv"; email = "a@b" }

found :
    (process (service (user ∷ [])) (some "acme") (λ name. pure (pure info)) invite 0).0 ≡ ok done
unfolding process query_users is_empty
found = refl

reads_info :
    (get : Exec ℕ AccountInfo) (u v : ℕ) (i : AccountInfo)
    → ◌≡◌ {A = Result (Exec ℕ AccountInfo)} (ok (pure info)) (ok get)
    → (get v).0 ≡ ok i
    → i ≡ info
reads_info get u v i connected read =
    let same : pure info ≡ get = ap (λ r. value r (pure info)) connected in
    ap (λ r. value r i) (sym read) ∙ ap (λ g. value (g v).0 i) (sym same)
  where
    value : {A : Type 0} → Result A → A → A
    value (ok a) d = a
    value (err e) d = d
    value (crash e) d = d

process-done_example :
    let run = process (service (user ∷ [])) (some "acme") (λ name. pure (pure info)) invite 0 in
    (◌≢◌ {A = String} "acme" "")
    × (Found (service (user ∷ [])) invite info run.1
        ⊎ Mailed (service (user ∷ [])) invite info run.1)
process-done_example =
    process-done (service (user ∷ [])) "acme" (λ name. pure (pure info)) info invite 0 reads_info
      found
