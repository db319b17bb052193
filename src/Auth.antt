-- ===== src/Auth.antt =====
-- Who may use the management API: the tokens (maubot/management/api/auth.py), the middlewares
-- (maubot/management/api/middleware.py and __init__.py), the login (maubot/management/api/login.py)
-- and the accounts of the configuration (maubot/config.py).
pub mod Admins
pub mod Tokens
pub mod Middleware
pub mod Gate
pub mod Entry
pub mod Sso
pub mod Servers
use maubot.Base.{false, ◌==◌, true, some, ◌≡◌, ℕ, String, Option, Bool}
use maubot.Base.Dict.{Dict}

-- What a token says.
pub record Claims : Type 0 where
  pub user_id : Option String
  pub created_at : ℕ

-- What is not in this repository: sign_token and verify_token of mautrix, bcrypt and the regular
-- expression for its hashes, `random` and the clock. A text stands for its bytes.
pub record Crypto : Type 0 where
  pub sign_token : String → Claims → String
  pub verify_token : String → String → Option Claims
  pub checkpw : String → String → Bool
  pub hashpw : String → String
  pub is_bcrypt : String → Bool
  pub new_token : String
  pub time : ℕ

-- The parts of the configuration that count here: server.unshared_secret and admins, whose values
-- are password hashes, or missing.
pub record Config : Type 0 where
  pub unshared_secret : String
  pub admins : Dict (Option String)

-- A request, with the empty text for a missing header or parameter.
pub record Request : Type 0 where
  pub path : String
  pub authorization : String
  pub access_token : String

-- What the code relies on: a signed token is not empty and verifies under the same key, a password
-- fits its own hash, and a hash looks like one, as the empty text does not.
pub record IsLawful (crypto : Crypto) : Type 0 where
  pub verifies :
      (key : String) (c : Claims) → crypto.verify_token key (crypto.sign_token key c) ≡ some c
  pub fits : (password : String) → crypto.checkpw password (crypto.hashpw password) ≡ true
  pub hash_like : (password : String) → crypto.is_bcrypt (crypto.hashpw password) ≡ true
  pub nonempty : (key : String) (c : Claims) → (crypto.sign_token key c == "") ≡ false
  pub empty_unlike : crypto.is_bcrypt "" ≡ false
