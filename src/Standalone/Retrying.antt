-- ===== src/Standalone/Retrying.antt =====
-- Theorems on the loop that waits for the homeserver (maubot/standalone/__main__.py).
use maubot.Base.{
  ◌⊎◌, ⊤, ℕ, ◌+◌, ◌≡◌, ◌≢◌, ◌<◌, ◌≤◌, refl, arith, zero, suc, List, ◌∷◌, ap, ◌∙◌, inl, inr, ◌⊎◌,
}
use maubot.World.Env.{WhoAmI}
use maubot.Standalone.{
  Call, Failure, Outcome, Answer, gives, fails, raised, Settings, Machine, State, call, Main, ◌>>◌,
}
use maubot.Standalone.Start.{verdict, after_answer, connect}

-- The outcome of an answer that ends the loop.
abbrev settled : Settings → Machine → Answer WhoAmI → Outcome ⊤
settled c m (gives who) = verdict c m who
settled c m (fails e) = raised e

-- An exception that is caught.
abbrev IsCaught : Answer WhoAmI → Type 0
IsCaught answer = (answer ≡ fails Failure.runtime_error) ⊎ (answer ≡ fails Failure.other_error)

module _ (c : Settings) (m : Machine) where
  after_answer-settled :
      (answer : Answer WhoAmI) (again : Main ⊤) (s : State)
      → answer ≢ fails Failure.runtime_error
      → answer ≢ fails Failure.other_error
      → after_answer c m answer again s ≡ (settled c m answer, s)
  unfolding after_answer
  after_answer-settled (gives who) again s a b = refl
  after_answer-settled (fails Failure.interrupt) again s a b = refl
  after_answer-settled (fails Failure.runtime_error) again s a b = absurd (a refl)
  after_answer-settled (fails Failure.other_error) again s a b = absurd (b refl)

  after_answer-caught :
      (answer : Answer WhoAmI) (again : Main ⊤) (s : State)
      → IsCaught answer
      → after_answer c m answer again s ≡ again s
  unfolding after_answer
  after_answer-caught answer again s (inl e) = rw e
  after_answer-caught answer again s (inr e) = rw e

  module _ (sleeps : (trace : List Call) → m.works Call.sleep trace ≡ gives tt) where
    sleep_first :
        (s : State) (next : Main ⊤)
        → (call m Call.sleep >> next) s ≡ next (record s { trace = Call.sleep ∷ s.trace })
    unfolding call
    sleep_first s next = rw (sleeps s.trace)

    -- The loop ends with the first answer that is no caught exception: where it begins with the try `n`,
    -- the tries from `n` on that come before the try `i` raise an Exception, and the try `i` does not,
    -- the outcome is what that answer leads to, for any fuel above the number `k` of the tries between,
    -- if no sleep is interrupted.
    pub connect-settled :
        (k fuel n i : ℕ) (s : State)
        → n + k ≡ i
        → k < fuel
        → ((j : ℕ) → n ≤ j → j < i → IsCaught (m.whoami j))
        → m.whoami i ≢ fails Failure.runtime_error
        → m.whoami i ≢ fails Failure.other_error
        → (connect c m fuel n s).0 ≡ settled c m (m.whoami i)
    unfolding connect
    connect-settled k zero n i s there enough before a b = absurd (omega arith)
    connect-settled zero (suc fuel) n i s there enough before a b =
        let here : n ≡ i = omega arith in
        rw here (ap (λ (r : Outcome ⊤ × State). r.0) (after_answer-settled (m.whoami i) _ s a b))
    connect-settled (suc k) (suc fuel) n i s there enough before a b =
        ap (λ (r : Outcome ⊤ × State). r.0)
          (after_answer-caught (m.whoami n) _ s (before n (omega arith) (omega arith))
            ∙ sleep_first s _)
        ∙ connect-settled k fuel (n + 1) i _ (omega arith) (omega arith)
            (λ j le lt. before j (omega (arith, le)) lt) a b
