-- ===== src/Auth/Sso.antt =====
-- Single sign-on of maubot/management/api/client_auth.py: _do_sso, wait_sso and complete_sso, and the
-- futures that they share. A step is what runs between two points where a handler waits.
pub mod Delivery
pub mod Progress
use maubot.Base.{
  if◌then◌else◌, ◌≢◌, Bool, String, ℕ, suc, Option, none, some, List, [], ◌∷◌, ◌++◌, ◌≡◌,
}
use maubot.Base.Dict.{Dict, lookup, insert, erase, update}
use maubot.Api.Responses.{Response, sso_not_supported}
use maubot.Auth.Servers.{response, AuthRequestInfo}

pub data Future : Type 0 where
  pending cancelled : Future
  result : String → Future

-- A handler wait_sso at `await fut`.
pub record Waiting : Type 0 where
  pub id : String
  pub req : AuthRequestInfo
  pub fut : ℕ

-- sso_waiters, the futures by address, the handlers that wait, and the calls of _do_login that have
-- been made, each with the future that gave its token.
pub record Sso : Type 0 where
  pub sso_waiters : Dict (AuthRequestInfo × ℕ)
  pub futures : ℕ → Future
  pub next : ℕ
  pub waiting : List Waiting
  pub logins : List (ℕ × String)

unfoldable pub open_session : String → AuthRequestInfo → Sso → Sso
open_session id req s = record s {
  sso_waiters = insert id (req, s.next) s.sso_waiters;
  futures = update s.futures s.next pending;
  next = suc s.next;
}

-- _do_sso, with whether the homeserver has such a login and the random id: its refusal, if any.
unfoldable pub do_sso : Bool → String → AuthRequestInfo → Sso → Option Response × Sso
unfolding open_session
do_sso supported id req s =
    if supported then (none, open_session id req s) else (some sso_not_supported, s)

-- wait_sso up to its `await`; `none` is the KeyError of an unknown id.
unfoldable pub wait_at : String → Option (AuthRequestInfo × ℕ) → Sso → Option Sso
wait_at id none s = none
wait_at id (some (req, fut)) s =
    some (record s { waiting = s.waiting ++ (record { id = id; req = req; fut = fut } ∷ []) })

unfoldable pub wait_sso : String → Sso → Option Sso
unfolding wait_at
wait_sso id s = wait_at id (lookup id s.sso_waiters) s

-- wait_sso behind its `await`, where the future has a result: `left` are the other waiting handlers.
unfoldable pub resume : Waiting → List Waiting → String → Sso → Sso
resume w left token s = record s {
  sso_waiters = erase w.id s.sso_waiters;
  waiting = left;
  logins = (w.fut, token) ∷ s.logins;
}

-- The same where the await raises: the future, or the handler that waits for it, was cancelled.
unfoldable pub abort : Waiting → List Waiting → Sso → Sso
abort w left s = record s { sso_waiters = erase w.id s.sso_waiters; waiting = left }

-- The request of a waiting handler is cancelled, and with it the future that it waits for.
unfoldable pub cancel : Waiting → Sso → Sso
cancel w s = record s { futures = update s.futures w.fut cancelled }

-- The answers of complete_sso, in the order of the source.
pub data Completion : Type 0 where
  invalid_session was_cancelled already_received missing_token received : Completion

-- complete_sso behind its lookup, with the query parameter loginToken
unfoldable pub complete_at : ℕ → Option String → Future → Sso → Completion × Sso
complete_at fut token cancelled s = (was_cancelled, s)
complete_at fut token (result t) s = (already_received, s)
complete_at fut none pending s = (missing_token, s)
complete_at fut (some token) pending s =
    (received, record s { futures = update s.futures fut (result token) })

-- complete_sso, with what its lookup finds
unfoldable pub complete_found :
    Option String → Option (AuthRequestInfo × ℕ) → Sso → Completion × Sso
unfolding complete_at
complete_found token none s = (invalid_session, s)
complete_found token (some (req, fut)) s = complete_at fut token (s.futures fut) s

unfoldable pub complete_sso : String → Option String → Sso → Completion × Sso
unfolding complete_found
complete_sso id token s = complete_found token (lookup id s.sso_waiters) s

infix 40 ◌⟶◌ ◌⟶*◌
pub data ◌⟶◌ : Sso → Sso → Type 0 where
  begins :
      (supported : Bool) (id : String) (req : AuthRequestInfo) (s : Sso)
      → s ⟶ (do_sso supported id req s).1
  waits : (id : String) (s s' : Sso) → wait_sso id s ≡ some s' → s ⟶ s'
  resumes :
      (w : Waiting) (before after : List Waiting) (token : String) (s : Sso)
      → s.waiting ≡ before ++ (w ∷ after)
      → s.futures w.fut ≡ result token
      → s ⟶ resume w (before ++ after) token s
  aborts :
      (w : Waiting) (before after : List Waiting) (s : Sso)
      → s.waiting ≡ before ++ (w ∷ after)
      → s.futures w.fut ≢ pending
      → s ⟶ abort w (before ++ after) s
  cancels :
      (w : Waiting) (before after : List Waiting) (s : Sso)
      → s.waiting ≡ before ++ (w ∷ after)
      → s.futures w.fut ≡ pending
      → s ⟶ cancel w s
  completes : (id : String) (token : Option String) (s : Sso) → s ⟶ (complete_sso id token s).1

pub data ◌⟶*◌ : Sso → Sso → Type 0 where
  stay : {s : Sso} → s ⟶* s
  then : {s t u : Sso} → s ⟶ t → t ⟶* u → s ⟶* u

-- No request has been made.
abbrev pub idle : Sso
idle = record { sso_waiters = []; futures = λ a. pending; next = 0; waiting = []; logins = [] }
