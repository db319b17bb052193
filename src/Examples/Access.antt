-- ===== src/Examples/Access.antt =====
-- The theorems on logins and tokens, with one admin.
use Prim.Native.Char.{code}
use maubot.Base.{
  inl, inr, zero, ◌∙◌, nat_eq, eq_refl, ap, ◌++◌, Option-cases, ◌+◌, Bool-cases, suc, if◌then◌else◌,
  ℕ, String, ◌==◌, ◌≡◌, ◌≢◌, ◌⊎◌, refl, Bool, true, false, Option, none, some, List, [], ◌∷◌, ◌<◌,
  ◌≤◌, arith,
}
use maubot.Base.Rules.{eq_sound}
use maubot.Base.Text.{begins_with, append, drop}
use maubot.Base.Lists.{All}
use maubot.Base.Dict.{Dict, lookup, update}
use maubot.Api.Responses.{Response, updated}
use maubot.Api.Responses
use maubot.Auth.{Claims, Crypto, Config, Request, IsLawful}
use maubot.Auth.Tokens.{login, get_token}
use maubot.Auth.Middleware.{auth, is_open, serve, Ending, answered}
use maubot.Auth.Gate.{IsAuthorized, serve-guards}
use maubot.Auth.Entry.{IsPlain, loaded, given, password_lets_in}
use maubot.Auth.Servers.{AuthRequestInfo}
use maubot.Auth.Sso.{
  Sso, Waiting, Future, pending, result, idle, do_sso, open_session, wait_sso, complete_sso,
  already_received, ◌⟶*◌, ◌⟶◌, begins, waits, completes, resumes,
}
use maubot.Auth.Sso
use maubot.Auth.Sso.Delivery.{logins-IsDelivered}
use maubot.Auth.Sso.Progress.{complete_sso-delivers}

-- A token writes the time in strokes and the user behind them.
tally : ℕ → String → String
tally zero s = s
tally (suc n) s = String.◌∷◌ "i" (tally n s)

user_text : Option String → String
user_text none = "n"
user_text (some user) = String.◌∷◌ "u" user

write : Claims → String
write c = tally c.created_at (user_text c.user_id)

read : ℕ → String → Option Claims
read n String.[] = none
read n (String.◌∷◌ c s) =
    let more = read (suc n) s in
    if nat_eq (code c) b'i'
    then more
    else some (record { user_id = if nat_eq (code c) b'n' then none else some s; created_at = n })

read_token : String → Option Claims
read_token String.[] = none
read_token (String.◌∷◌ c s) = read 0 s

abbrev crypto : Crypto
crypto = record {
  sign_token = λ key c. String.◌∷◌ "s" (write c);
  verify_token = λ key token. read_token token;
  checkpw = λ password hash. hash == append "$" password;
  hashpw = λ password. append "$" password;
  is_bcrypt = λ s. begins_with s "$";
  new_token = "fresh";
  time = 7;
}

read-tally : (n k : ℕ) (s : String) → read n (tally k s) ≡ read (n + k) s
unfolding read tally
read-tally n zero s = ap (λ m. read m s) (omega arith)
read-tally n (suc k) s = read-tally (suc n) k s ∙ ap (λ m. read m s) (omega arith)

read-user_text :
    (n : ℕ) (user : Option String)
    → read n (user_text user) ≡ some (record { user_id = user; created_at = n })
unfolding read user_text
read-user_text n none = refl
read-user_text n (some user) = refl

read-write : (c : Claims) → read 0 (write c) ≡ some c
unfolding write
read-write c =
    read-tally 0 c.created_at (user_text c.user_id)
    ∙ (ap (λ n. read n (user_text c.user_id)) (omega arith) ∙ read-user_text c.created_at c.user_id)

cons_full : (s : String) → (String.◌∷◌ "s" s == "") ≡ false
cons_full s = elim (Bool-cases (String.◌∷◌ "s" s == "")) [
  | inl e ↦ cc (eq_sound (String.◌∷◌ "s" s) "" e)
  | inr e ↦ e
]

crypto-IsLawful : IsLawful crypto
unfolding append begins_with read_token
crypto-IsLawful = record {
  verifies = λ key c. read-write c;
  fits = λ password. eq_refl (append "$" password);
  hash_like = λ password. refl;
  nonempty = λ key c. cons_full (write c);
  empty_unlike = refl;
}

abbrev accounts : Dict (Option String)
accounts = ("me", some "hunter2") ∷ []

hunter2-IsPlain : IsPlain crypto "hunter2"
unfolding IsPlain begins_with
hunter2-IsPlain = (refl, refl, refl)

accounts_me : lookup "me" accounts ≡ some (some "hunter2")
unfolding lookup
accounts_me = refl

password_lets_in_example :
    (token : String) × (login crypto (loaded crypto "key" accounts) (some (given "me" "hunter2"))
      ≡ some (Responses.logged_in token))
    × ((r : Request)
        → r.authorization ≡ append "Bearer " token
        → auth crypto (loaded crypto "key" accounts) r ≡ none)
password_lets_in_example =
    password_lets_in crypto "key" "me" "hunter2" accounts crypto-IsLawful refl accounts_me
      hunter2-IsPlain

abbrev root_request : Request
root_request = record {
  path = "/_matrix/maubot/v1/clients";
  authorization = "Bearer siuroot";
  access_token = "";
}

abbrev counter : Request → ℕ → Ending × ℕ
counter r n = (answered Responses.deleted, suc n)

counted : (serve crypto (loaded crypto "key" accounts) counter root_request 0).1 ≡ 1
unfolding serve begins_with drop maubot.Auth.Tokens.is_valid_token read_token read
counted = refl

counter_changes : (serve crypto (loaded crypto "key" accounts) counter root_request 0).1 ≢ 0
counter_changes e = omega (arith, counted, e)

serve-guards_example :
    (is_open (drop 18 "/_matrix/maubot/v1/clients") ≡ true)
    ⊎ IsAuthorized crypto (loaded crypto "key" accounts) root_request
serve-guards_example =
    serve-guards crypto (loaded crypto "key" accounts) counter root_request 0 counter_changes

abbrev login_request : AuthRequestInfo
login_request = record {
  server_name = "hs";
  base_url = "https://hs";
  secret = none;
  username = none;
  password = none;
  user_type = "bot";
  device_name = "Maubot";
  update_client = true;
  sso = true;
}

abbrev waiter : Waiting
waiter = record { id = "abc"; req = login_request; fut = 0 }

abbrev opened : Sso
opened = (do_sso true "abc" login_request idle).1

abbrev awaited : Sso
awaited = record opened { waiting = waiter ∷ [] }

opened_waits : wait_sso "abc" opened ≡ some awaited
unfolding wait_sso do_sso lookup maubot.Base.Dict.insert
opened_waits = refl

abbrev completed : Sso
completed = (complete_sso "abc" (some "token") awaited).1

completed_result : completed.futures 0 ≡ result "token"
unfolding complete_sso do_sso lookup maubot.Base.Dict.insert
completed_result = refl

abbrev delivered : Sso
delivered = Sso.resume waiter [] "token" completed

delivered_steps : idle ⟶* delivered
unfolding complete_sso do_sso lookup maubot.Base.Dict.insert
delivered_steps = Sso.then (begins true "abc" login_request idle) (
    Sso.then (waits "abc" opened awaited opened_waits) (
      Sso.then (completes "abc" (some "token") awaited)
        (Sso.then (resumes waiter [] [] "token" completed refl completed_result) Sso.stay)))

logins-IsDelivered_example : All (λ p. delivered.futures p.0 ≡ result p.1) delivered.logins
logins-IsDelivered_example = logins-IsDelivered delivered delivered_steps

awaited_session : lookup "abc" awaited.sso_waiters ≡ some (login_request, 0)
unfolding do_sso lookup maubot.Base.Dict.insert
awaited_session = refl

awaited_pending : awaited.futures 0 ≡ pending
unfolding do_sso
awaited_pending = refl

awaited_waiting : awaited.waiting ≡ [] ++ (waiter ∷ [])
awaited_waiting = refl

complete_sso-delivers_example :
    (complete_sso "abc" none (complete_sso "abc" (some "token") awaited).1).0 ≡ already_received
    × ((t : Sso) × (awaited ⟶* t)
        × (t.logins ≡ (0, "token") ∷ awaited.logins)
        × (t.waiting ≡ [])
        × (lookup "abc" t.sso_waiters ≡ none))
complete_sso-delivers_example =
    complete_sso-delivers waiter [] [] login_request "token" none awaited awaited_waiting
      awaited_session awaited_pending
