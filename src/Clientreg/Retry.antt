-- ===== src/Clientreg/Retry.antt =====
-- pkg/clientreg/retry_transport.go: sending a request again with a new token.
pub mod Tokens
use security_operator.Prelude.{
  ℕ, String, Bool, Option, none, some, Exec, Result, ok, err, crash, pure, panic, attempt, ◌>>=◌,
  ◌++◌, ◌||◌, ◌==◌, nat_eq, not, if◌then◌else◌, true, false,
}
use security_operator.Prelude.Text.{or_else, concat}
use security_operator.Http.{Request, Response, RoundTripper, bearer}

abbrev pub with_client_id : String → Request → Request
with_client_id client_id req = record req { client_id = some client_id }

abbrev pub client_id_from_context : Request → String
client_id_from_context req = or_else req.client_id ""

abbrev pub with_authorization : String → Request → Request
with_authorization text req = record req { header = record (req.header) { authorization = text } }

module _ {W : Type 0} (base : RoundTripper W) where
  -- With the answer 401 at hand: a token that cannot be refreshed leaves that answer.
  abbrev retry : Request → Response → Result String → Exec W Response
  retry req resp (Result.ok token) = base (with_authorization (bearer token) req)
  retry req resp (Result.err e) = pure resp
  retry req resp (Result.crash s) = panic s

  abbrev refresh_and_retry : Request → Response → Option (String → Exec W String) → Exec W Response
  refresh_and_retry req resp none = pure resp
  refresh_and_retry req resp (some refresh_token) =
      if client_id_from_context req == ""
      then pure resp
      else (do token ← attempt (refresh_token (client_id_from_context req)); retry req resp token)

  unfoldable pub round_trip : Option (String → Exec W String) → RoundTripper W
  round_trip token_refresher req = do
    resp ← base req
    if not (nat_eq resp.status 401) then pure resp else refresh_and_retry req resp token_refresher
