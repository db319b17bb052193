-- ===== src/Standalone/Ending.antt =====
-- Theorems on the end of the standalone program (maubot/standalone/__main__.py).
use maubot.Base.{
  ◌⊎◌, inl, inr, List, ⊤, ℕ, Bool, true, false, Option, none, some, ◌≡◌, ◌≢◌, refl, arith,
}
use maubot.Base.Rules.{if_both}
use maubot.Standalone.{
  gives, fails, lift, Call, Answer, give, exit, continue, ◌>>◌, Failure, Outcome, done, raised,
  exits, waiting, Settings, Machine, State, call,
}
use maubot.Standalone.Start.{main}
use maubot.Standalone.Run.{
  logged, stop_client, stop_bot, stop_db, close_web, after_web, stop_web, stop, stop_and_exit,
  after_forever, run_forever, after_main, run, bot_after,
}

-- The plugin's internal_stop fails at some point.
abbrev pub StopFails : Machine → Type 0
StopFails m = (trace : List Call) × (m.works Call.internal_stop trace ≢ gives tt)

-- The plugin does not run, or could not be stopped.
abbrev pub IsQuiet : Machine → State → Type 0
IsQuiet m s = (s.bot ≢ some true) ⊎ StopFails m

-- What runs no more.
pub record IsStopped (m : Machine) (s : State) : Type 0 where
  pub closed : s.db_open ≡ false
  pub idle : s.client ≢ some true
  pub bot : IsQuiet m s

-- No exit code.
abbrev IsPlain : Outcome ⊤ → Type 0
IsPlain outcome = (n : ℕ) → outcome ≢ exits n

-- Where an action returns, all is stopped; it does not end the program.
abbrev Stops : Machine → Outcome ⊤ × State → Type 0
Stops m (outcome, s) = (outcome ≡ done tt → IsStopped m s) × IsPlain outcome

-- The client does not run, nor the plugin if it could be stopped; the database may be open.
abbrev IsIdle : Machine → State → Type 0
IsIdle m s = (s.client ≢ some true) × IsQuiet m s

module _ (m : Machine) where
  stop_db-Stops : (s : State) → IsIdle m s → Stops m (stop_db m s)
  unfolding stop_db call
  stop_db-Stops s (idle, bot) = (λ e. ground arith, λ n. ground arith)

  raised-Stops : (e : Failure) (s : State) → Stops m (raised e, s)
  raised-Stops e s = (λ returned. cc, λ n. cc)

  raise_after-Stops :
      (e : Failure) (o : Outcome ⊤) (s : State)
      → Stops m (o, s)
      → Stops m (continue o (λ _. give (raised e)) s)
  raise_after-Stops e (done _) s h = raised-Stops e s
  raise_after-Stops e (raised f) s h = raised-Stops f s
  raise_after-Stops e (exits n) s h = absurd (h.1 n refl)
  raise_after-Stops e waiting s h = h

  after_web-Stops :
      (suppress : Bool) (outcome : Outcome ⊤) (s : State)
      → IsPlain outcome
      → IsIdle m s
      → Stops m (after_web m suppress outcome s)
  unfolding after_web
  after_web-Stops suppress (done _) s plain h = stop_db-Stops s h
  after_web-Stops true (raised Failure.runtime_error) s plain h = stop_db-Stops s h
  after_web-Stops false (raised Failure.runtime_error) s plain h =
      raise_after-Stops Failure.runtime_error _ _ (stop_db-Stops s h)
  after_web-Stops suppress (raised Failure.other_error) s plain h = raised-Stops _ s
  after_web-Stops suppress (raised Failure.interrupt) s plain h = raised-Stops _ s
  after_web-Stops suppress (exits n) s plain h = absurd (plain n refl)
  after_web-Stops suppress waiting s plain h = (λ e. cc, λ n. cc)

  close_web-bot : (s : State) → (close_web m s).1.bot ≡ s.bot
  unfolding close_web call
  close_web-bot s = ground arith

  close_web-IsIdle :
      (s : State) → IsIdle m s → IsIdle m (close_web m s).1 × IsPlain (close_web m s).0
  unfolding close_web call
  close_web-IsIdle s (idle, bot) = ((ground arith, ground arith), λ n. ground arith)

  stop_web-Stops : (suppress : Bool) (s : State) → IsIdle m s → Stops m (stop_web m suppress s)
  unfolding stop_web
  stop_web-Stops suppress s h =
      let (idle, plain) = close_web-IsIdle s h in
      if_both (Stops m) s.web
        (after_web-Stops suppress (close_web m s).0 (close_web m s).1 plain idle)
        (stop_db-Stops s h)

  continue-Stops :
      (suppress : Bool) (answer : Answer ⊤) (s : State)
      → IsIdle m s
      → Stops m (continue (logged m (lift answer)) (λ _. stop_web m suppress) s)
  unfolding logged
  continue-Stops suppress (gives _) s h = stop_web-Stops suppress s h
  continue-Stops suppress (fails Failure.runtime_error) s h = stop_web-Stops suppress s h
  continue-Stops suppress (fails Failure.other_error) s h = stop_web-Stops suppress s h
  continue-Stops suppress (fails Failure.interrupt) s h = raised-Stops _ s

  bot_after-IsQuiet :
      (answer : Answer ⊤) (bot : Option Bool) (trace : List Call)
      → m.works Call.internal_stop trace ≡ answer
      → (bot_after m (lift answer) bot ≢ some true) ⊎ StopFails m
  unfolding bot_after
  bot_after-IsQuiet (gives _) bot trace e = inl cc
  bot_after-IsQuiet (fails f) bot trace e = inr (trace, λ works. cc)

  stop_bot-Stops :
      (suppress : Bool) (bot : Option Bool) (s : State)
      → s.client ≢ some true
      → s.bot ≡ bot
      → Stops m ((stop_bot m bot >> stop_web m suppress) s)
  unfolding stop_bot call
  stop_bot-Stops suppress none s idle e = stop_web-Stops suppress s (idle, inl cc)
  stop_bot-Stops suppress (some started) s idle e =
      continue-Stops suppress (m.works Call.internal_stop s.trace) _
        (idle, bot_after-IsQuiet (m.works Call.internal_stop s.trace) s.bot s.trace refl)

  stopped_client-ne-true :
      (o : Option Bool) → elim o [ none ↦ none | some _ ↦ some false ] ≢ some true
  stopped_client-ne-true none = cc
  stopped_client-ne-true (some b) = cc

  stop-Stops : (suppress : Bool) (s : State) → Stops m (stop m suppress s)
  unfolding stop stop_client
  stop-Stops suppress s = stop_bot-Stops suppress s.bot _ (stopped_client-ne-true s.client) refl

  -- If the program has ended, then with this code and with nothing left running.
  abbrev Ended : ℕ → Outcome ⊤ × State → Type 0
  Ended code (outcome, s) = (n : ℕ) → outcome ≡ exits n → (n ≡ code) × IsStopped m s

  exit-Ended :
      (code : ℕ) (o : Outcome ⊤) (s : State)
      → Stops m (o, s)
      → Ended code (continue o (λ _. exit code) s)
  exit-Ended code (done _) s h n e = (cc, h.0 refl)
  exit-Ended code (raised f) s h n e = cc
  exit-Ended code (exits k) s h n e = absurd (h.1 k refl)
  exit-Ended code waiting s h n e = cc

  stop_and_exit-Ended :
      (suppress : Bool) (code : ℕ) (s : State) → Ended code (stop_and_exit m suppress code s)
  unfolding stop_and_exit
  stop_and_exit-Ended suppress code s = exit-Ended code _ _ (stop-Stops suppress s)

  -- The code that main's outcome leads to.
  abbrev pub code_of : Outcome ⊤ → ℕ
  code_of (done _) = 0
  code_of (raised e) = 1
  code_of (exits n) = n
  code_of waiting = 0

  module _ (interrupted : (trace : List Call) → m.forever trace ≡ fails Failure.interrupt) where
    after_main-Ended : (o : Outcome ⊤) (s : State) → Ended (code_of o) (after_main m o s)
    unfolding after_main run_forever after_forever
    after_main-Ended (done _) s = rw (interrupted s.trace) (stop_and_exit-Ended false 0 s)
    after_main-Ended (raised e) s = stop_and_exit-Ended true 1 s
    after_main-Ended (exits n) s = stop_and_exit-Ended true n s
    after_main-Ended waiting s = λ n e. cc

    -- However far main comes, when the program ends by an exit code, the database is closed and the
    -- client does not run, nor the plugin, unless its internal_stop fails; the code is 0 where main
    -- returned, main's own where it called sys.exit, and 1 where it raised. This holds where the running
    -- loop is left by an interrupt.
    pub run-Ended :
        (c : Settings) (fuel n : ℕ) (s : State)
        → (run m c fuel s).0 ≡ exits n
        → (n ≡ code_of (main c m fuel s).0) × IsStopped m (run m c fuel s).1
    unfolding run
    run-Ended c fuel n s e = after_main-Ended (main c m fuel s).0 (main c m fuel s).1 n e
