-- ===== src/Auth/Admins.antt =====
-- The accounts of maubot/config.py: is_admin, check_password, and the part of do_update that hashes
-- the passwords and makes the secret.
use maubot.Base.{
  if◌then◌else◌, String, ◌==◌, Option, none, some, [], ◌∷◌, Bool, false, not, ◌||◌, truthy,
}
use maubot.Base.Dict.{Dict, lookup, contains}
use maubot.Auth.{Crypto, Config}

-- user == "root" or user in self["admins"]
unfoldable pub is_admin : Config → Option String → Bool
is_admin cfg none = false
is_admin cfg (some user) = user == "root" || contains user cfg.admins

-- self["admins"].get(user, None)
unfoldable pub password_hash : Config → String → Option String
password_hash cfg user = elim (lookup user cfg.admins) [ none ↦ none | some hash ↦ hash ]

-- Config.check_password; `none` is the AttributeError of a missing password.
unfoldable pub check_password : Crypto → Config → Option String → Option String → Option Bool
unfolding password_hash
check_password crypto cfg none password = some false
check_password crypto cfg (some user) password =
    if user == "root" || not (truthy (password_hash cfg user)) then some false else elim password [
      | none ↦ none
      | some given ↦ elim (password_hash cfg user) [
        | none ↦ some false
        | some hash ↦ some (crypto.checkpw given hash)
      ]
    ]

-- What do_update stores for a password.
unfoldable pub hashed : Crypto → Option String → Option String
hashed crypto none = none
hashed crypto (some password) =
    if password == "" || crypto.is_bcrypt password
    then some password
    else some (crypto.hashpw (if password == "password" then crypto.new_token else password))

-- The loop over base["admins"] in do_update
unfoldable pub hash_admins : Crypto → Dict (Option String) → Dict (Option String)
unfolding hashed
hash_admins crypto [] = []
hash_admins crypto ((user, password) ∷ rest) =
    (user, hashed crypto password) ∷ hash_admins crypto rest

-- server.unshared_secret in do_update
unfoldable pub update_secret : Crypto → Option String → String
update_secret crypto none = crypto.new_token
update_secret crypto (some secret) = if secret == "generate" then crypto.new_token else secret
