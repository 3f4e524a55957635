-- ===== src/Tests/Keycloak.antt =====
-- pkg/clientreg at concrete inputs.
use security_operator.Prelude.{
  String, Bool, [], Option, none, some, Exec, ok, fail, err, ◌≡◌, ◌≢◌, refl, arith, ap, ◌∙◌, ◌==◌,
  eq_iff, true, false,
}
use security_operator.Prelude.Text.{strip_prefix, strip_prefix-append}
use security_operator.Http.{Request, Response, RoundTripper, bearer}
use security_operator.Realm.{ClientMetadata, ClientInformation, no_secret}
use security_operator.Clientreg.Codec.{Codec}
use security_operator.Clientreg.Client.{read, update, delete}
use security_operator.Clientreg.Retry.{round_trip}
use security_operator.Clientreg.Retry.Tokens.{TokenLaws, stale_token}

abbrev information : ClientInformation
information = record {
  client_id = "c1";
  client_secret = "";
  registration_access_token = "t3";
  registration_client_uri = "k/c1";
}

-- Names stand for what is encoded.
abbrev pub codec : Codec
codec = record {
  check_url = λ url. ok tt;
  read_limited = λ n text. text;
  print = λ n. "";
  marshal_realm = λ c. ok c.realm;
  marshal_client = λ c. ok c.client_id;
  marshal_roles = λ rs. ok "roles";
  marshal_metadata = λ m. ok m.client_name;
  decode_token = λ s. ok s;
  decode_registration_access_token = λ s. ok s;
  decode_value = λ s. ok s;
  decode_clients = λ s. ok [];
  decode_user = λ s. err (fail "no user");
  decode_role = λ s. err (fail "no role");
  decode_information = λ s. ok information;
}

abbrev allowed : Option String → String → Bool
allowed none w = false
allowed (some token) w = token == w

abbrev reply : Bool → Response
reply true = record { status = 200; body = ""; location = "" }
reply false = record { status = 401; body = ""; location = "" }

-- The world is the current token of the one client.
abbrev server : RoundTripper String
server req w = (ok (reply (allowed (strip_prefix req.header.authorization "Bearer ") w)), w)

abbrev refresh : String → Exec String String
refresh id w = (ok "t2", "t2")

refused :
    (req : Request) (id token w : String)
    → req.client_id ≡ some id
    → req.header.authorization ≡ bearer token
    → token ≢ w
    → (resp : Response) × (server req w ≡ (ok resp, w)) × (resp.status ≡ 401)
refused req id token w of_client sent stale =
    let read = ap (λ s. strip_prefix s "Bearer ") sent ∙ strip_prefix-append "Bearer " token in
    (reply false, ground (arith, read, eq_iff token w, stale), refl)

token_laws : TokenLaws server
token_laws = record { current = λ w id. w; rejected = refused }

abbrev metadata : ClientMetadata
metadata = record {
  client_id = "c1";
  client_name = "portal";
  redirect_uris = [];
  grant_types = [];
  token_endpoint_auth_method = no_secret;
  post_logout_redirect_uris = [];
}

stale_token_example :
    (read codec (round_trip server (some refresh)) "c1" "k/c1" "t0" "t1"
      ≡ read codec server "c1" "k/c1" "t2" "t2")
    × (update codec (round_trip server (some refresh)) "k/c1" "t0" metadata "t1"
        ≡ update codec server "k/c1" "t2" metadata "t2")
    × (delete codec (round_trip server (some refresh)) "c1" "k/c1" "t0" "t1"
        ≡ delete codec server "c1" "k/c1" "t2" "t2")
unfolding token_laws
stale_token_example =
    stale_token codec server refresh token_laws "c1" "k/c1" "t0" "t2" "portal" metadata "t1" "t2"
      (λ e. ground (arith, eq_iff "k/c1" "", e)) refl refl refl
      (λ e. ground (arith, eq_iff "t0" "t1", e)) (λ e. ground (arith, eq_iff "c1" "", e)) refl

read_again :
    (read codec (round_trip server (some refresh)) "c1" "k/c1" "t0" "t1").0 ≡ ok information
unfolding read round_trip strip_prefix
read_again = refl
