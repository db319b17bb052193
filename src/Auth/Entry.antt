-- ===== src/Auth/Entry.antt =====
-- Theorems on the login of an admin (maubot/config.py, maubot/management/api/login.py).
use maubot.Base.{
  arith, inl, inr, Bool-cases, String, ◌==◌, Option, none, some, ◌≡◌, refl, true, false, [], ◌∷◌,
  ap, ◌∙◌,
}
use maubot.Base.Rules.{eq_sound}
use maubot.Base.Text.{begins_with, append, drop}
use maubot.Base.Dict.{Dict, lookup}
use maubot.Auth.{Crypto, Config, Request, IsLawful}
use maubot.Auth.Admins.{is_admin, check_password, hash_admins, hashed, password_hash}
use maubot.Auth.Tokens.{
  check, answer, create_token, get_token, check_token, is_valid_token, login, password_login, Body,
}
use maubot.Auth.Middleware.{auth}
use maubot.Api.Responses.{logged_in}

begins_with-append : (t : String) → begins_with (append "Bearer " t) "Bearer " ≡ true
unfolding append begins_with
begins_with-append t = refl

filled : (t : String) → (append "Bearer " t == "") ≡ false
unfolding append
filled t = elim (Bool-cases (append "Bearer " t == "")) [ inl e ↦ cc (eq_sound _ _ e) | inr e ↦ e ]

drop-bearer : (t : String) → drop 7 (append "Bearer " t) ≡ t
unfolding append drop
drop-bearer t = refl

get_token-bearer :
    (r : Request) (t : String) → r.authorization ≡ append "Bearer " t → get_token r ≡ t
unfolding get_token
get_token-bearer r t e = rw (e) (ground (arith, filled t, begins_with-append t, drop-bearer t))

is_valid_token-create :
    (crypto : Crypto) (cfg : Config) (user : Option String)
    → IsLawful crypto
    → is_admin cfg user ≡ true
    → is_valid_token crypto cfg (create_token crypto cfg user) ≡ true
unfolding is_valid_token create_token
is_valid_token-create crypto cfg user lawful admin =
    rw
      (
        is_valid_token,
        lawful.verifies cfg.unshared_secret (record { user_id = user; created_at = crypto.time }),
      )
      admin

check-valid :
    (crypto : Crypto) (cfg : Config) (token : String)
    → (token == "") ≡ false
    → is_valid_token crypto cfg token ≡ true
    → check crypto cfg token ≡ none
unfolding check
check-valid crypto cfg token full valid = ground (arith, full, valid)

-- A token for an admin opens every path.
create_token-opens :
    (crypto : Crypto) (cfg : Config) (r : Request) (user : Option String)
    → IsLawful crypto
    → is_admin cfg user ≡ true
    → r.authorization ≡ append "Bearer " (create_token crypto cfg user)
    → auth crypto cfg r ≡ none
unfolding auth check_token create_token
create_token-opens crypto cfg r user lawful admin e =
    let checked =
      ap (check crypto cfg) (get_token-bearer r _ e)
      ∙ check-valid crypto cfg (create_token crypto cfg user)
          (lawful.nonempty cfg.unshared_secret
            (record { user_id = user; created_at = crypto.time }))
          (is_valid_token-create crypto cfg user lawful admin) in
    ground (arith, checked)

lookup-hash_admins :
    (crypto : Crypto) (user : String) (d : Dict (Option String)) (password : Option String)
    → lookup user d ≡ some password
    → lookup user (hash_admins crypto d) ≡ some (hashed crypto password)
unfolding lookup hash_admins
lookup-hash_admins crypto user [] password e = cc
lookup-hash_admins crypto user ((u, p) ∷ d) password e =
    ground (arith, lookup-hash_admins crypto user d password)

-- A plain password: not empty, not a hash, and not the word that is replaced.
unfoldable pub IsPlain : Crypto → String → Type 0
IsPlain crypto password =
    ((password == "") ≡ false)
    × ((password == "password") ≡ false)
    × (crypto.is_bcrypt password ≡ false)

hashpw-full :
    (crypto : Crypto) (password : String) → IsLawful crypto → (crypto.hashpw password == "") ≡ false
hashpw-full crypto password lawful = elim (Bool-cases (crypto.hashpw password == "")) [
  | inl e ↦
      cc (lawful.hash_like password, lawful.empty_unlike, ap crypto.is_bcrypt (eq_sound _ _ e))
  | inr e ↦ e
]

-- The configuration that do_update makes of the secret and the accounts of the file.
abbrev pub loaded : Crypto → String → Dict (Option String) → Config
loaded crypto secret d = record { unshared_secret = secret; admins = hash_admins crypto d }

abbrev pub given : String → String → Body
given user password = record {
  secret = none;
  user = none;
  username = some user;
  password = some password;
}

password_hash-loaded :
    (crypto : Crypto) (secret user password : String) (d : Dict (Option String))
    → lookup user d ≡ some (some password)
    → IsPlain crypto password
    → password_hash (loaded crypto secret d) user ≡ some (crypto.hashpw password)
unfolding password_hash hashed IsPlain
password_hash-loaded crypto secret user password d e (full, new, plain) =
    rw (password_hash, lookup-hash_admins crypto user d (some password) e)
      (ground (arith, full, plain, new))

loaded-is_admin :
    (crypto : Crypto) (secret user password : String) (d : Dict (Option String))
    → lookup user d ≡ some (some password)
    → is_admin (loaded crypto secret d) (some user) ≡ true
unfolding is_admin
loaded-is_admin crypto secret user password d e =
    ground (arith, lookup-hash_admins crypto user d (some password) e)

check_password-hash :
    (crypto : Crypto) (cfg : Config) (user password hash : String)
    → (user == "root") ≡ false
    → (hash == "") ≡ false
    → password_hash cfg user ≡ some hash
    → check_password crypto cfg (some user) (some password) ≡ some (crypto.checkpw password hash)
unfolding check_password
check_password-hash crypto cfg user password hash named full e = ground (arith, named, full, e)

-- An admin of the configuration file other than "root", with a plain password there, gets a token for
-- that password, once the passwords of the file are hashed, and the token opens every path.
pub password_lets_in :
    (crypto : Crypto) (secret user password : String) (d : Dict (Option String))
    → IsLawful crypto
    → (user == "root") ≡ false
    → lookup user d ≡ some (some password)
    → IsPlain crypto password
    → (token : String) × (login crypto (loaded crypto secret d) (some (given user password))
        ≡ some (logged_in token))
      × ((r : Request)
          → r.authorization ≡ append "Bearer " token
          → auth crypto (loaded crypto secret d) r ≡ none)
unfolding login password_login
password_lets_in crypto secret user password d lawful named e plain =
    let cfg = loaded crypto secret d in
    let checked =
      check_password-hash crypto cfg user password (crypto.hashpw password) named
        (hashpw-full crypto password lawful)
        (password_hash-loaded crypto secret user password d e plain)
      ∙ ap some (lawful.fits password) in
    (
      create_token crypto cfg (some user),
      ap (λ b. answer b (create_token crypto cfg (some user))) checked,
      λ r h.
          create_token-opens crypto cfg r (some user) lawful
            (loaded-is_admin crypto secret user password d e) h,
    )
