-- ===== src/Http.antt =====
-- HTTP as the code uses it: requests by their method, and answers with a status, a body and a
-- Location header.
use security_operator.Prelude.{ℕ, String, [], ◌∷◌, Option, none, some, Exec}
use security_operator.Prelude.Text.{concat}

pub record Response : Type 0 where
  pub status : ℕ
  pub body : String
  pub location : String

-- The requests of http.Client that go to Keycloak, with the URL and, for `post` and `put`, a body.
pub record Transport (W : Type 0) : Type 0 where
  pub get : String → Exec W Response
  pub post : String → String → Exec W Response
  pub put : String → String → Exec W Response
  pub delete : String → Exec W Response

pub data Method : Type 0 where
  method_get method_post method_put method_delete : Method

-- The headers that the code sets, empty where it does not.
pub record Header : Type 0 where
  pub content_type : String
  pub accept : String
  pub authorization : String

-- A request with its header and body, and the client ID of its context. A body of bytes or of a
-- string is one that `GetBody` gives again, from its beginning.
pub record Request : Type 0 where
  pub method : Method
  pub url : String
  pub header : Header
  pub body : Option String
  pub client_id : Option String

-- `Do` of an http.Client, and `RoundTrip` of its transport.
abbrev pub RoundTripper : Type 0 → Type 0
RoundTripper W = Request → Exec W Response

-- What is sent with a request.
pub record Content : Type 0 where
  pub header : Header
  pub body : Option String

abbrev pub no_content : Content
no_content = record {
  header = record { content_type = ""; accept = ""; authorization = "" };
  body = none;
}

abbrev pub json_content : String → Content
json_content body = record {
  header = record { content_type = "application/json"; accept = ""; authorization = "" };
  body = some body;
}

abbrev pub bearer : String → String
bearer token = concat ("Bearer " ∷ token ∷ [])
