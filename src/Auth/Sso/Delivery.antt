-- ===== src/Auth/Sso/Delivery.antt =====
-- Theorems on the tokens of the single sign-on (maubot/management/api/client_auth.py).
use maubot.Base.Rules.{some_injective, nat_eq_sound}
use maubot.Base.{
  All-append, subst, true, false, All-map, ◌==◌, All-split, ◌⊎◌, ap, inl, inr, nat_eq, Bool-cases,
  String, ℕ, ◌<◌, ◌≤◌, Option, none, some, List, [], ◌∷◌, ◌++◌, ◌≡◌, refl, All, arith,
}
use maubot.Base.Dict.{lookup-insert, lookup-erase, Dict, lookup, insert, erase, update}
use maubot.Auth.Sso.{
  begins, waits, resumes, aborts, cancels, completes, stay, then, ◌⟶◌, ◌⟶*◌, idle, complete_found,
  wait_at, ◌⟶◌, Sso, Future, result, pending, cancelled, open_session, do_sso, wait_sso, resume,
  abort, cancel, complete_sso, complete_at, Waiting,
}
use maubot.Auth.Servers.{AuthRequestInfo}

-- No future beyond the last one that was made has changed, and each login took the result of its
-- future.
pub record IsDelivered (s : Sso) : Type 0 where
  pub fresh : (a : ℕ) → s.next ≤ a → s.futures a ≡ pending
  pub known :
      (id : String) (req : AuthRequestInfo) (a : ℕ)
      → lookup id s.sso_waiters ≡ some (req, a)
      → a < s.next
  pub allocated : All (λ w. w.fut < s.next) s.waiting
  pub used : All (λ p. s.futures p.0 ≡ result p.1) s.logins

-- A result outlives a write to a future that is pending.
update-result :
    (f : ℕ → Future) (a b : ℕ) (x : Future) (t : String)
    → f a ≡ pending
    → f b ≡ result t
    → update f a x b ≡ result t
update-result f a b x t e h = elim (Bool-cases (nat_eq a b)) [
  | inl same ↦ cc (e, h, ap f (nat_eq_sound a b same))
  | inr other ↦ ground (arith, h, other)
]

update-used :
    (f : ℕ → Future) (a : ℕ) (x : Future) (l : List (ℕ × String))
    → f a ≡ pending
    → All (λ p. f p.0 ≡ result p.1) l
    → All (λ p. update f a x p.0 ≡ result p.1) l
update-used f a x [] e h = tt
update-used f a x ((b, t) ∷ l) e (h, hs) = (update-result f a b x t e h, update-used f a x l e hs)

lookup-insert_known :
    (id id' : String) (v v' : AuthRequestInfo × ℕ) (d : Dict (AuthRequestInfo × ℕ))
    → lookup id' (insert id v d) ≡ some v'
    → (v' ≡ v) ⊎ (lookup id' d ≡ some v')
lookup-insert_known id id' v v' d e = elim (Bool-cases (id == id')) [
  | inl same ↦ inl (grind (arith, lookup-insert id id' v d, e, same))
  | inr other ↦ inr (grind (arith, lookup-insert id id' v d, e, other))
]

open_session-IsDelivered :
    (id : String) (req : AuthRequestInfo) (s : Sso)
    → IsDelivered s
    → IsDelivered (open_session id req s)
unfolding open_session
open_session-IsDelivered id req s h = record {
  fresh = λ a le. ground (arith, h.fresh a (omega arith), le);
  known = λ id' req' a e.
      elim (lookup-insert_known id id' (req, s.next) (req', a) s.sso_waiters e) [
        | inl same ↦ omega (arith, ap (λ v. v.1) same)
        | inr old ↦ omega (arith, h.known id' req' a old)
      ];
  allocated = All-map s.waiting (λ w k. omega (arith, k)) h.allocated;
  used = update-used s.futures s.next pending s.logins (h.fresh s.next (omega arith)) h.used;
}

wait_at-IsDelivered :
    (id : String) (r : Option (AuthRequestInfo × ℕ)) (s s' : Sso)
    → IsDelivered s
    → lookup id s.sso_waiters ≡ r
    → wait_at id r s ≡ some s'
    → IsDelivered s'
unfolding wait_at
wait_at-IsDelivered id none s s' h r e = cc
wait_at-IsDelivered id (some (req, fut)) s s' h r e = subst IsDelivered (some_injective e) (record {
  fresh = h.fresh;
  known = h.known;
  allocated = All-append (λ w. w.fut < s.next) s.waiting _ h.allocated (h.known id req fut r, tt);
  used = h.used;
})

lookup-erase_known :
    (id id' : String) (v : AuthRequestInfo × ℕ) (d : Dict (AuthRequestInfo × ℕ))
    → lookup id' (erase id d) ≡ some v
    → lookup id' d ≡ some v
lookup-erase_known id id' v d e = grind (arith, lookup-erase id id' d, e)

-- The write of a future that is pending and was made.
settle-IsDelivered :
    (a : ℕ) (x : Future) (s : Sso)
    → IsDelivered s
    → a < s.next
    → s.futures a ≡ pending
    → IsDelivered (record s { futures = update s.futures a x })
settle-IsDelivered a x s h made e = record {
  fresh = λ b le. ground (arith, h.fresh b le, le, made);
  known = h.known;
  allocated = h.allocated;
  used = update-used s.futures a x s.logins e h.used;
}

waiting_made :
    (w : Waiting) (before after : List Waiting) (s : Sso)
    → s.waiting ≡ before ++ (w ∷ after)
    → IsDelivered s
    → w.fut < s.next
waiting_made w before after s e h =
    (All-split (λ v. v.fut < s.next) before w after
      (subst (λ l. All (λ v. v.fut < s.next) l) e h.allocated)).0

-- The handler stops waiting, and its session is gone.
leave-IsDelivered :
    (w : Waiting) (before after : List Waiting) (s : Sso) (logins : List (ℕ × String))
    → s.waiting ≡ before ++ (w ∷ after)
    → IsDelivered s
    → All (λ p. s.futures p.0 ≡ result p.1) logins
    → IsDelivered (record s {
      sso_waiters = erase w.id s.sso_waiters;
      waiting = before ++ after;
      logins = logins;
    })
leave-IsDelivered w before after s logins e h used = record {
  fresh = h.fresh;
  known = λ id req a k. h.known id req a (lookup-erase_known w.id id (req, a) s.sso_waiters k);
  allocated =
      (All-split (λ v. v.fut < s.next) before w after
        (subst (λ l. All (λ v. v.fut < s.next) l) e h.allocated)).1;
  used = used;
}

complete_at-IsDelivered :
    (a : ℕ) (token : Option String) (f : Future) (s : Sso)
    → IsDelivered s
    → a < s.next
    → s.futures a ≡ f
    → IsDelivered (complete_at a token f s).1
unfolding complete_at
complete_at-IsDelivered a token cancelled s h made e = h
complete_at-IsDelivered a token (result t) s h made e = h
complete_at-IsDelivered a none pending s h made e = h
complete_at-IsDelivered a (some t) pending s h made e = settle-IsDelivered a (result t) s h made e

complete_found-IsDelivered :
    (id : String) (token : Option String) (r : Option (AuthRequestInfo × ℕ)) (s : Sso)
    → IsDelivered s
    → lookup id s.sso_waiters ≡ r
    → IsDelivered (complete_found token r s).1
unfolding complete_found
complete_found-IsDelivered id token none s h e = h
complete_found-IsDelivered id token (some (req, fut)) s h e =
    complete_at-IsDelivered fut token (s.futures fut) s h (h.known id req fut e) refl

-- Every step keeps the state well formed.
step-IsDelivered : (s t : Sso) → s ⟶ t → IsDelivered s → IsDelivered t
unfolding do_sso open_session resume abort cancel complete_sso wait_sso
step-IsDelivered _ _ (begins true id req s) h = open_session-IsDelivered id req s h
step-IsDelivered _ _ (begins false id req s) h = h
step-IsDelivered _ _ (waits id s s' e) h =
    wait_at-IsDelivered id (lookup id s.sso_waiters) s s' h refl e
step-IsDelivered _ _ (resumes w before after token s e done) h =
    leave-IsDelivered w before after s ((w.fut, token) ∷ s.logins) e h (done, h.used)
step-IsDelivered _ _ (aborts w before after s e done) h =
    leave-IsDelivered w before after s s.logins e h h.used
step-IsDelivered _ _ (cancels w before after s e alone) h =
    settle-IsDelivered w.fut cancelled s h (waiting_made w before after s e h) alone
step-IsDelivered _ _ (completes id token s) h =
    complete_found-IsDelivered id token (lookup id s.sso_waiters) s h refl

steps-IsDelivered : (s t : Sso) → s ⟶* t → IsDelivered s → IsDelivered t
steps-IsDelivered s _ stay h = h
steps-IsDelivered s t (then {t = m} one rest) h =
    steps-IsDelivered m t rest (step-IsDelivered s m one h)

-- In every state that the requests can lead to, from the start of the program, each login of a single
-- sign-on took the token that is the result of its future.
pub logins-IsDelivered : (s : Sso) → idle ⟶* s → All (λ p. s.futures p.0 ≡ result p.1) s.logins
unfolding lookup
logins-IsDelivered s steps =
    (steps-IsDelivered idle s steps (record {
      fresh = λ a le. refl;
      known = λ id req a e. ground (arith, e);
      allocated = tt;
      used = tt;
    })).used
