-- ===== src/Standalone/Identity.antt =====
-- Theorems on the account that the standalone program starts its plugin for
-- (maubot/standalone/__main__.py).
use maubot.Base.{◌∙◌, ⊤, ℕ, ◌+◌, true, ◌≡◌, ◌≢◌, refl, arith, truthy, opt_eq, eq_iff, zero, suc}
use maubot.World.Env.{WhoAmI}
use maubot.Standalone.{
  give, Call, Failure, Outcome, Answer, gives, fails, done, raised, exits, waiting, Settings,
  Machine, State, call, Main, ◌>>=◌, continue,
}
use maubot.Standalone.Start.{
  verdict, after_answer, connect, check_store, set_up_crypto, set_up_web, prepare, reach_server,
  finish, main,
}

-- The homeserver has answered a try with the configured user, and with the configured device where
-- both name one.
pub data IsConfirmed (c : Settings) (m : Machine) : Type 0 where
  confirmed :
      (n : ℕ) (who : WhoAmI)
      → m.whoami n ≡ gives who
      → who.user_id ≡ c.id
      → (truthy who.device_id ≡ true
          → truthy c.device_id ≡ true
          → opt_eq who.device_id c.device_id ≡ true)
      → IsConfirmed c m

-- An action leaves the plugin alone; where it returns, `P` holds.
pub record Leaves {A : Type 0} (P : Type 0) (action : Main A) : Type 0 where
  pub same : (s : State) → (action s).1.bot ≡ s.bot
  pub result : (s : State) (a : A) → (action s).0 ≡ done a → P

module _ {A B : Type 0} {P : Type 0} where
  Leaves-continue :
      (o : Outcome A) (next : A → Main B) (s : State)
      → ((a : A) → Leaves P (next a))
      → ((continue o next s).1.bot ≡ s.bot) × ((b : B) → (continue o next s).0 ≡ done b → P)
  Leaves-continue (done a) next s h = ((h a).same s, (h a).result s)
  Leaves-continue (raised e) next s h = (refl, λ b e. cc)
  Leaves-continue (exits n) next s h = (refl, λ b e. cc)
  Leaves-continue waiting next s h = (refl, λ b e. cc)

  Leaves-bind :
      {Q : Type 0} (first : Main A) (next : A → Main B)
      → Leaves Q first
      → ((a : A) → Leaves P (next a))
      → Leaves P (first >>= next)
  Leaves-bind first next h k = record {
    same = λ s. (Leaves-continue (first s).0 next (first s).1 k).0 ∙ h.same s;
    result = λ s. (Leaves-continue (first s).0 next (first s).1 k).1;
  }

module _ (c : Settings) (m : Machine) where
  prepare-Leaves : Leaves ⊤ (prepare c m)
  unfolding prepare set_up_crypto check_store set_up_web call
  prepare-Leaves = record { same = λ s. ground arith; result = λ s a e. tt }

  verdict-IsConfirmed :
      (n : ℕ) (who : WhoAmI) → m.whoami n ≡ gives who → verdict c m who ≡ done tt → IsConfirmed c m
  unfolding verdict
  verdict-IsConfirmed n who e h =
      confirmed n who e (ground (arith, eq_iff who.user_id c.id)) (λ a b. ground arith)

  give-Leaves : {P : Type 0} (o : Outcome ⊤) → (o ≡ done tt → P) → Leaves P (give o)
  give-Leaves o p = record { same = λ s. refl; result = λ s a e. p e }

  call-Leaves : (name : Call) → Leaves ⊤ (call m name)
  unfolding call
  call-Leaves name = record { same = λ s. refl; result = λ s a e. tt }

  after_answer-Leaves :
      (n : ℕ) (answer : Answer WhoAmI) (again : Main ⊤)
      → m.whoami n ≡ answer
      → Leaves (IsConfirmed c m) again
      → Leaves (IsConfirmed c m) (after_answer c m answer again)
  unfolding after_answer
  after_answer-Leaves n (gives who) again e h =
      give-Leaves (verdict c m who) (verdict-IsConfirmed n who e)
  after_answer-Leaves n (fails Failure.interrupt) again e h = give-Leaves _ (λ f. cc)
  after_answer-Leaves n (fails Failure.runtime_error) again e h = h
  after_answer-Leaves n (fails Failure.other_error) again e h = h

  connect-Leaves : (fuel n : ℕ) → Leaves (IsConfirmed c m) (connect c m fuel n)
  unfolding connect
  connect-Leaves zero n = give-Leaves waiting (λ f. cc)
  connect-Leaves (suc fuel) n = after_answer-Leaves n (m.whoami n) _ refl (
      Leaves-bind (call m Call.sleep) _ (call-Leaves Call.sleep) (λ _. connect-Leaves fuel (n + 1)))

  reach_server-Leaves : (fuel : ℕ) → Leaves (IsConfirmed c m) (reach_server c m fuel)
  unfolding reach_server
  reach_server-Leaves fuel = Leaves-bind (prepare c m) _ prepare-Leaves (λ _. connect-Leaves fuel 0)

  finish_after :
      (o : Outcome ⊤) (s s₀ : State)
      → s.bot ≡ s₀.bot
      → (o ≡ done tt → IsConfirmed c m)
      → (continue o (λ _. finish c m) s).1.bot ≢ s₀.bot
      → IsConfirmed c m
  finish_after (done _) s s₀ e h changed = h refl
  finish_after (raised f) s s₀ e h changed = absurd (changed e)
  finish_after (exits n) s s₀ e h changed = absurd (changed e)
  finish_after waiting s s₀ e h changed = absurd (changed e)

  -- main makes the plugin's object, and so starts it, only after the homeserver has answered that the
  -- access token belongs to the configured user, and to the configured device where the configuration
  -- and the answer both name one.
  pub main-IsConfirmed : (fuel : ℕ) (s : State) → (main c m fuel s).1.bot ≢ s.bot → IsConfirmed c m
  unfolding main
  main-IsConfirmed fuel s changed =
      let before = reach_server-Leaves fuel in
      let reached = reach_server c m fuel s in
      finish_after reached.0 reached.1 s (before.same s) (before.result s tt) changed
