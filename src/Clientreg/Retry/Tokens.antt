-- ===== src/Clientreg/Retry/Tokens.antt =====
-- What a client of the registration gets when its token is not the current one.
use security_operator.Prelude.{String, some, Exec, ok, ◌≡◌, ◌≢◌, refl, ap, arith, eq_iff}
use security_operator.Http.{Request, Response, RoundTripper, bearer}
use security_operator.Realm.{ClientMetadata}
use security_operator.Clientreg.Codec.{Codec}
use security_operator.Clientreg.Retry.{round_trip, with_authorization, with_client_id}
use security_operator.Clientreg.Client.{
  read, update, delete, read_request, update_request, delete_request,
}

-- What is documented of Keycloak: each client has one current token, and a request for a client with
-- another token is answered with 401 and changes nothing.
pub record TokenLaws {W : Type 0} (base : RoundTripper W) : Type 0 where
  pub current : W → String → String
  pub rejected :
      (req : Request) (id token : String) (w : W)
      → req.client_id ≡ some id
      → req.header.authorization ≡ bearer token
      → token ≢ current w id
      → (resp : Response) × (base req w ≡ (ok resp, w)) × (resp.status ≡ 401)

module _ {W : Type 0} (codec : Codec) (base : RoundTripper W)
    (refresh_token : String → Exec W String) (laws : TokenLaws base) where
  -- Such a request is sent again with the new token.
  round_trip_stale :
      (req : Request) (id token new : String) (w w' : W)
      → req.client_id ≡ some id
      → req.header.authorization ≡ bearer token
      → token ≢ laws.current w id
      → id ≢ ""
      → refresh_token id w ≡ (ok new, w')
      → round_trip base (some refresh_token) req w ≡ base (with_authorization (bearer new) req) w'
  unfolding round_trip
  round_trip_stale req id token new w w' of_client sent stale known refreshed =
      let (resp, answer, status) = laws.rejected req id token w of_client sent stale in
      ground (arith, answer, status, of_client, eq_iff id "", refreshed)

  -- With a token that is not the current one, `Read`, `Update` and `Delete` over the transport that
  -- retries do what they do, from where the refresh of the token ended, over the plain transport with the new token.
  pub stale_token :
      (id uri token new body : String) (metadata : ClientMetadata) (w w' : W)
      → uri ≢ ""
      → codec.check_url uri ≡ ok tt
      → codec.marshal_metadata metadata ≡ ok body
      → metadata.client_id ≡ id
      → token ≢ laws.current w id
      → id ≢ ""
      → refresh_token id w ≡ (ok new, w')
      → (read codec (round_trip base (some refresh_token)) id uri token w
          ≡ read codec base id uri new w')
        × (update codec (round_trip base (some refresh_token)) uri token metadata w
            ≡ update codec base uri new metadata w')
        × (delete codec (round_trip base (some refresh_token)) id uri token w
            ≡ delete codec base id uri new w')
  unfolding read update delete
  stale_token id uri token new body metadata w w' target valid encoded same stale known refreshed =
      let step =
        λ (req : Request) (of_client : req.client_id ≡ some id)
            (sent : req.header.authorization ≡ bearer token).
          round_trip_stale req id token new w w' of_client sent stale known refreshed in
      let unset = eq_iff uri "" in
      (
        ground (
          arith,
          target,
          unset,
          valid,
          step (with_client_id id (read_request codec base uri token)) refl refl,
        ),
        ground (
          arith,
          target,
          unset,
          valid,
          encoded,
          step (with_client_id metadata.client_id (update_request codec base uri token body))
              (ap (λ (x : String). some x) same) refl,
        ),
        ground (
          arith,
          target,
          unset,
          valid,
          step (with_client_id id (delete_request codec base uri token)) refl refl,
        ),
      )
