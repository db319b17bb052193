-- ===== src/Auth/Gate.antt =====
-- Theorems on what the middlewares of maubot/management/api/middleware.py let through.
use maubot.Base.{Bool-cases, arith, Option-cases, none, some, ◌≡◌, ◌≢◌, refl, true, ◌⊎◌, inl, inr}
use maubot.Base.Text.{drop}
use maubot.Api.Responses.{Response}
use maubot.Auth.{Claims, Crypto, Config, Request}
use maubot.Auth.Middleware.{is_open, Ending, auth, serve}
use maubot.Auth.Tokens.{check, check_token, is_valid_token, get_token}
use maubot.Auth.Admins.{is_admin}

-- The request has a token that names an admin.
unfoldable pub IsAuthorized : Crypto → Config → Request → Type 0
IsAuthorized crypto cfg r =
    (claims : Claims) × (crypto.verify_token cfg.unshared_secret (get_token r) ≡ some claims)
    × (is_admin cfg claims.user_id ≡ true)

is_valid_token-IsAuthorized :
    (crypto : Crypto) (cfg : Config) (r : Request)
    → is_valid_token crypto cfg (get_token r) ≡ true
    → IsAuthorized crypto cfg r
unfolding is_valid_token IsAuthorized
is_valid_token-IsAuthorized crypto cfg r h =
    elim (Option-cases (crypto.verify_token cfg.unshared_secret (get_token r))) [
      | inl e ↦ ground (arith, e)
      | inr (claims, e) ↦ (claims, e, ground (arith, e))
    ]

refused-state :
    {S : Type 0} (crypto : Crypto) (cfg : Config) (handler : Request → S → Ending × S) (r : Request)
    (s : S) (refusal : Response)
    → auth crypto cfg r ≡ some refusal
    → (serve crypto cfg handler r s).1 ≡ s
unfolding serve
refused-state crypto cfg handler r s refusal e = rw (serve, e) refl

auth-guards :
    (crypto : Crypto) (cfg : Config) (r : Request)
    → auth crypto cfg r ≡ none
    → (is_open (drop 18 r.path) ≡ true) ⊎ IsAuthorized crypto cfg r
unfolding auth check_token check
auth-guards crypto cfg r e = elim (Bool-cases (is_open (drop 18 r.path))) [
  | inl free ↦ inl free
  | inr guarded ↦ inr (is_valid_token-IsAuthorized crypto cfg r (ground (arith, e, guarded)))
]

-- A request through the middlewares that changes the state came with a token that is valid and names
-- an admin, or went to one of the paths that need none.
pub serve-guards :
    {S : Type 0} (crypto : Crypto) (cfg : Config) (handler : Request → S → Ending × S) (r : Request)
    (s : S)
    → (serve crypto cfg handler r s).1 ≢ s
    → (is_open (drop 18 r.path) ≡ true) ⊎ IsAuthorized crypto cfg r
serve-guards crypto cfg handler r s changed = elim (Option-cases (auth crypto cfg r)) [
  | inl e ↦ auth-guards crypto cfg r e
  | inr (refusal, e) ↦ elim (changed (refused-state crypto cfg handler r s refusal e)) [ ]
]
