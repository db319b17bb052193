-- ===== src/Auth/Sso/Progress.antt =====
-- Theorems on a single sign-on that is completed (maubot/management/api/client_auth.py).
use maubot.Base.{
  eq_refl, subst, ◌∙◌, ap, String, ℕ, Option, none, some, List, ◌∷◌, ◌++◌, ◌≡◌, refl, arith,
}
use maubot.Base.Dict.{lookup, lookup-erase, update}
use maubot.Auth.Servers.{AuthRequestInfo}
use maubot.Auth.Sso.{
  Sso, Future, pending, result, Waiting, received, already_received, complete_sso, complete_found,
  complete_at, resume, ◌⟶◌, ◌⟶*◌, stay, then, completes, resumes,
}

update_self : (f : ℕ → Future) (a : ℕ) (x : Future) → update f a x a ≡ x
update_self f a x = ground arith

-- Where the session is open, the token is taken and written into its future.
complete_sso-pending :
    (id token : String) (req : AuthRequestInfo) (fut : ℕ) (s : Sso)
    → lookup id s.sso_waiters ≡ some (req, fut)
    → s.futures fut ≡ pending
    → complete_sso id (some token) s
      ≡ (received, record s { futures = update s.futures fut (result token) })
unfolding complete_sso complete_found complete_at
complete_sso-pending id token req fut s e open_fut =
    ap (λ r. complete_found (some token) r s) e
    ∙ ap (λ f. complete_at fut (some token) f s) open_fut

complete_sso-result :
    (id t : String) (token : Option String) (req : AuthRequestInfo) (fut : ℕ) (s : Sso)
    → lookup id s.sso_waiters ≡ some (req, fut)
    → s.futures fut ≡ result t
    → complete_sso id token s ≡ (already_received, s)
unfolding complete_sso complete_found complete_at
complete_sso-result id t token req fut s e done =
    ap (λ r. complete_found token r s) e ∙ ap (λ f. complete_at fut token f s) done

-- While a handler waits for a session whose future is pending, a completion with a token lets that
-- handler log in with the token and removes the session, and a completion that follows is told that
-- the token was already received.
pub complete_sso-delivers :
    (w : Waiting) (before after : List Waiting) (req : AuthRequestInfo) (token : String)
    (later : Option String) (s : Sso)
    → s.waiting ≡ before ++ (w ∷ after)
    → lookup w.id s.sso_waiters ≡ some (req, w.fut)
    → s.futures w.fut ≡ pending
    → (complete_sso w.id later (complete_sso w.id (some token) s).1).0 ≡ already_received
      × ((t : Sso) × (s ⟶* t)
          × (t.logins ≡ (w.fut, token) ∷ s.logins)
          × (t.waiting ≡ before ++ after)
          × (lookup w.id t.sso_waiters ≡ none))
unfolding resume
complete_sso-delivers w before after req token later s waits e alone =
    let s' : Sso = record s { futures = update s.futures w.fut (result token) } in
    let done = update_self s.futures w.fut (result token) in
    let first = ap (λ p. p.1) (complete_sso-pending w.id token req w.fut s e alone) in
    let end = resume w (before ++ after) token s' in
    let steps : s ⟶* end =
      then (subst (λ t. s ⟶ t) first (completes w.id (some token) s))
        (then (resumes w before after token s' waits done) stay) in
    (
      ap (λ t. (complete_sso w.id later t).0) first
          ∙ ap (λ p. p.0) (complete_sso-result w.id token later req w.fut s' e done),
      (end, steps, refl, refl, lookup-erase w.id w.id s.sso_waiters ∙ ground (arith, eq_refl w.id)),
    )
