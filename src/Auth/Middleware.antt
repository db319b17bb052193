-- ===== src/Auth/Middleware.antt =====
-- The two middlewares of the API: maubot/management/api/middleware.py, in the order of `init` in
-- maubot/management/api/__init__.py.
use maubot.Base.{if◌then◌else◌, ℕ, String, ◌==◌, Option, none, some, Bool, ◌||◌, nat_eq}
use maubot.Base.Text.{begins_with, drop}
use maubot.Auth.{Crypto, Config, Request}
use maubot.Auth.Tokens.{check_token}
use maubot.Api.Responses.{Response, path_not_found, method_not_allowed, internal_server_error}

-- How a handler ends: with a response, with one of aiohttp's HTTPExceptions, or with any other.
pub data Ending : Type 0 where
  answered : Response → Ending
  http_exception : ℕ → Ending
  exception : Ending

-- What is sent: a response, or the report of an HTTPException under its own status.
pub data Reply : Type 0 where
  response : Response → Reply
  unhandled_http : ℕ → Reply

-- `error`
unfoldable pub error : Ending → Reply
error (answered r) = response r
error (http_exception n) =
    if nat_eq n 404
    then response path_not_found
    else if nat_eq n 405
    then response method_not_allowed
    else unhandled_http n
error exception = response internal_server_error

-- The paths that `auth` lets through without a token, behind "/_matrix/maubot/v1".
unfoldable pub is_open : String → Bool
is_open subpath =
    begins_with subpath "/auth/"
    || begins_with subpath "/client/auth_external_sso/complete/"
    || subpath == "/features"
    || subpath == "/logs"

-- `auth`: the refusal, or nothing where the handler runs.
unfoldable pub auth : Crypto → Config → Request → Option Response
unfolding is_open check_token
auth crypto cfg r = if is_open (drop 18 r.path) then none else check_token crypto cfg r

-- A request through both middlewares. The handler runs on a state, which a refused request leaves
-- as it is.
module _ {S : Type 0} where
  unfoldable pub serve : Crypto → Config → (Request → S → Ending × S) → Request → S → Reply × S
  unfolding auth error
  serve crypto cfg handler r s = elim (auth crypto cfg r) [
    | some refusal ↦ (response refusal, s)
    | none ↦ (let (ending, s') = handler r s in (error ending, s'))
  ]
