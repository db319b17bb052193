-- ===== src/Auth/Tokens.antt =====
-- maubot/management/api/auth.py and login.py.
use maubot.Base.{
  opt_eq, if◌then◌else◌, String, ◌==◌, Option, none, some, Bool, true, false, not, ◌&&◌, ◌||◌,
  truthy, or_else,
}
use maubot.Base.Text.{begins_with, drop}
use maubot.Auth.{Crypto, Config, Request}
use maubot.Auth.Admins.{is_admin, check_password}
use maubot.Api.Responses.{Response, no_token, invalid_token, logged_in, bad_auth, body_not_json}

-- is_valid_token, with the test of `ping`
unfoldable pub is_valid_token : Crypto → Config → String → Bool
unfolding is_admin
is_valid_token crypto cfg token = elim (crypto.verify_token cfg.unshared_secret token) [
  | none ↦ false
  | some claims ↦ is_admin cfg claims.user_id
]

unfoldable pub create_token : Crypto → Config → Option String → String
create_token crypto cfg user =
    crypto.sign_token cfg.unshared_secret (record { user_id = user; created_at = crypto.time })

unfoldable pub get_token : Request → String
get_token r =
    if r.authorization == "" || not (begins_with r.authorization "Bearer ")
    then r.access_token
    else drop 7 r.authorization

-- check_token, behind get_token
unfoldable pub check : Crypto → Config → String → Option Response
check crypto cfg token =
    if token == ""
    then some no_token
    else if not (is_valid_token crypto cfg token)
    then some invalid_token
    else none

unfoldable pub check_token : Crypto → Config → Request → Option Response
unfolding check get_token
check_token crypto cfg r = check crypto cfg (get_token r)

-- The body of a login request, where it is JSON.
pub record Body : Type 0 where
  pub secret : Option String
  pub user : Option String
  pub username : Option String
  pub password : Option String

-- The answer of `login` to a password; `none` is an exception.
unfoldable pub answer : Option Bool → String → Option Response
answer none token = none
answer (some true) token = some (logged_in token)
answer (some false) token = some bad_auth

unfoldable pub password_login : Crypto → Config → Body → Option Response
unfolding create_token check_password answer
password_login crypto cfg d =
    answer (check_password crypto cfg d.username d.password) (create_token crypto cfg d.username)

-- `login`
unfoldable pub login : Crypto → Config → Option Body → Option Response
unfolding create_token password_login
login crypto cfg none = some body_not_json
login crypto cfg (some d) =
    if truthy d.secret && opt_eq (some cfg.unshared_secret) d.secret
    then some (logged_in (create_token crypto cfg (or_else d.user (some "root"))))
    else password_login crypto cfg d
