-- ===== src/Auth/Servers.antt =====
-- maubot/management/api/client_auth.py but its single sign-on: the request, register and the login
-- at a homeserver, which ends in the handlers for clients.
use maubot.Base.{
  ◌&&◌, if◌then◌else◌, String, ℕ, Option, none, some, [], ◌∷◌, Bool, true, false, not, truthy,
  default, is_empty,
}
use maubot.Base.Dict.{Dict, lookup}
use maubot.Base.Text.{append, mem}
use maubot.Base.Exec.{other_error, raise, Exec, pure, ◌>>=◌}
use maubot.World.{World}
use maubot.World.Env.{Env}
use maubot.Api.Clients.{ClientData, create_client, create_or_update_client}
use maubot.Api.Responses.{Response}
use maubot.Api.Responses

-- AuthRequestInfo, with the base URL of its `client`
pub record AuthRequestInfo : Type 0 where
  pub server_name : String
  pub base_url : String
  pub secret : Option String
  pub username : Option String
  pub password : Option String
  pub user_type : String
  pub device_name : String
  pub update_client : Bool
  pub sso : Bool

-- What the handlers read of a request: the server of its path, its query and its body, if that is
-- JSON. A missing parameter is the empty text.
pub record Body : Type 0 where
  pub username : Option String
  pub password : Option String
  pub user_type : Option String
  pub device_name : Option String

pub record Request : Type 0 where
  pub server : String
  pub sso : String
  pub update_client : String
  pub body : Option Body

pub data Read : Type 0 where
  read : AuthRequestInfo → Read
  refused : Response → Read

-- s.lower() in truthy_strings, with str.lower
unfoldable pub is_truthy : (String → String) → String → Bool
is_truthy lower s = mem (lower s) ("1" ∷ "true" ∷ "yes" ∷ [])

both : Option String → Option String → Bool
both (some _) (some _) = true
both _ _ = false

-- The end of read_client_auth_request, behind the body.
unfoldable pub read_body : (String → String) → Request → Dict String → Body → Read
unfolding is_truthy both
read_body lower r server body =
    let sso = is_truthy lower r.sso in
    let complete = both body.username body.password in
    if not complete && not sso
    then refused Responses.username_or_password_missing
    else elim (lookup "url" server) [
      | none ↦ refused Responses.invalid_server
      | some url ↦ read (record {
        server_name = r.server;
        base_url = url;
        secret = lookup "secret" server;
        username = if complete then body.username else none;
        password = if complete then body.password else none;
        user_type = default "bot" body.user_type;
        device_name = default "Maubot" body.device_name;
        update_client = is_truthy lower r.update_client;
        sso = sso;
      })
    ]

-- read_client_auth_request, with the dictionary of known_homeservers
unfoldable pub read_client_auth_request : (String → String) → Dict (Dict String) → Request → Read
unfolding read_body
read_client_auth_request lower servers r = elim (lookup r.server servers) [
  | none ↦ refused Responses.server_not_found
  | some server ↦ if is_empty server then refused Responses.server_not_found else elim r.body [
    | none ↦ refused Responses.body_not_json
    | some body ↦ read_body lower r server body
  ]
]

-- The text that generate_mac hashes.
unfoldable pub mac_text : String → String → String → Bool → Option String → String
mac_text nonce username password admin user_type =
    let start = append nonce (
      append "\0" (
        append username
          (append "\0" (append password (append "\0" (if admin then "admin" else "notadmin")))))) in
    elim user_type [ none ↦ start | some type ↦ append start (append "\0" type) ]

-- LoginResponse
pub record LoginResponse : Type 0 where
  pub user_id : String
  pub access_token : String
  pub device_id : String

-- A call of the homeserver: its result, or a MatrixRequestError with its HTTP status.
pub data Answer (A : Type 0) : Type 0 where
  success : A → Answer A
  matrix_error : ℕ → Answer A

-- The homeserver, as the Matrix library reaches it, and HMAC-SHA1 of a key and a text. `register`
-- is given the five fields of the request and the mac; a login is given a token or the password.
pub record Homeserver : Type 0 where
  pub nonce : AuthRequestInfo → Answer String
  pub register : AuthRequestInfo → String → String → Answer LoginResponse
  pub login_token : AuthRequestInfo → Option String → String → Answer LoginResponse
  pub login_password : AuthRequestInfo → String → Answer LoginResponse
  pub hmac_sha1 : String → String → String

-- What is sent: a response, the homeserver's login response, or the report of its error.
pub data Reply : Type 0 where
  response : Response → Reply
  logged_in : LoginResponse → Reply
  failed : ℕ → Reply

-- The client data of a login response.
unfoldable pub login_data : AuthRequestInfo → LoginResponse → ClientData
login_data req res = record {
  homeserver = some req.base_url;
  access_token = some res.access_token;
  device_id = some res.device_id;
  enabled = none;
  started = none;
  sync = none;
  autojoin = none;
  online = none;
  displayname = none;
  avatar_url = none;
}

module _ (env : Env) (server : Homeserver) where
  unfoldable pub finish_register : AuthRequestInfo → Answer LoginResponse → Exec World Reply
  unfolding login_data
  finish_register req (matrix_error n) = pure (failed 500)
  finish_register req (success res) =
      if req.update_client
      then (create_client env (some res.user_id) (login_data req res) >>= λ r. pure (response r))
      else pure (logged_in res)

  -- The second request of `register`, with the nonce of the first, whose error is not caught.
  unfoldable pub send_register : AuthRequestInfo → Answer String → Exec World Reply
  unfolding mac_text finish_register
  send_register req (matrix_error n) = raise other_error
  send_register req (success nonce) =
      let username = default "" req.username in
      let text = mac_text nonce username (default "" req.password) false (some req.user_type) in
      finish_register req
        (server.register req nonce (server.hmac_sha1 (default "" req.secret) text))

  -- `register`, behind read_client_auth_request
  unfoldable pub register : AuthRequestInfo → Exec World Reply
  unfolding send_register
  register req =
      if req.sso
      then pure (response Responses.registration_no_sso)
      else if not (truthy req.secret)
      then pure (response Responses.registration_secret_not_found)
      else send_register req (server.nonce req)

  unfoldable pub finish_login : AuthRequestInfo → Answer LoginResponse → Exec World Reply
  unfolding login_data
  finish_login req (matrix_error n) = pure (failed n)
  finish_login req (success res) =
      if req.update_client
      then (create_or_update_client env res.user_id (login_data req res) true >>= λ r.
          pure (response r))
      else pure (logged_in res)

  -- _do_login, with the random device id
  unfoldable pub do_login : AuthRequestInfo → Option String → String → Exec World Reply
  unfolding finish_login
  do_login req token device_id = finish_login req (
      if req.sso
      then server.login_token req token device_id
      else server.login_password req device_id)
