-- ===== src/Standalone/Leaving.antt =====
-- The standalone program always comes to its end (maubot/standalone/__main__.py).
use maubot.Base.{⊤, ℕ, Bool, true, false, Option, none, some, ◌≡◌, ◌≢◌, refl, List, ◌∷◌}
use maubot.Base.Rules.{if_both}
use maubot.Standalone.{
  Call, Failure, Outcome, Answer, gives, fails, lift, done, raised, exits, waiting, Settings,
  Machine, State, call, continue,
}
use maubot.Standalone.Start.{main}
use maubot.Standalone.Run.{
  logged, stop_client, stop_bot, stop_db, close_web, after_web, stop_web, stop, stop_and_exit,
  after_forever, run_forever, after_main, run,
}
use maubot.Standalone.Ending.{IsStopped, code_of, run-Ended}

module _ (m : Machine)
    (interrupted : (trace : List Call) → m.forever trace ≡ fails Failure.interrupt)
    (plugin_stops : (trace : List Call)
      → m.works Call.internal_stop trace ≢ fails Failure.interrupt)
    (shuts_down : (trace : List Call) → m.works Call.web_shutdown trace ≡ gives tt)
    (cleans_up : (trace : List Call) → m.works Call.web_cleanup trace ≡ gives tt)
    (db_stops : (trace : List Call) → m.works Call.db_stop trace ≡ gives tt) where
  stop_db-returns : (s : State) → (stop_db m s).0 ≡ done tt
  unfolding stop_db call
  stop_db-returns s = rw (db_stops s.trace) refl

  close_web-returns : (s : State) → (close_web m s).0 ≡ done tt
  unfolding close_web call
  close_web-returns s = rw (shuts_down s.trace, cleans_up (Call.web_shutdown ∷ s.trace)) refl

  after_web-returns :
      (suppress : Bool) (outcome : Outcome ⊤) (s : State)
      → outcome ≡ done tt
      → (after_web m suppress outcome s).0 ≡ done tt
  unfolding after_web
  after_web-returns suppress outcome s e = rw e (stop_db-returns s)

  stop_web-returns : (suppress : Bool) (s : State) → (stop_web m suppress s).0 ≡ done tt
  unfolding stop_web
  stop_web-returns suppress s =
      if_both (λ (o : Outcome ⊤ × State). o.0 ≡ done tt) s.web
        (after_web-returns suppress (close_web m s).0 (close_web m s).1 (close_web-returns s))
        (stop_db-returns s)

  logged-returns :
      (answer : Answer ⊤) → answer ≢ fails Failure.interrupt → logged m (lift answer) ≡ done tt
  unfolding logged
  logged-returns (gives _) h = refl
  logged-returns (fails Failure.runtime_error) h = refl
  logged-returns (fails Failure.other_error) h = refl
  logged-returns (fails Failure.interrupt) h = absurd (h refl)

  stop_bot-returns : (bot : Option Bool) (s : State) → (stop_bot m bot s).0 ≡ done tt
  unfolding stop_bot call
  stop_bot-returns none s = refl
  stop_bot-returns (some started) s =
      logged-returns (m.works Call.internal_stop s.trace) (plugin_stops s.trace)

  then-returns :
      (o : Outcome ⊤) (s : State) (suppress : Bool)
      → o ≡ done tt
      → (continue o (λ _. stop_web m suppress) s).0 ≡ done tt
  then-returns o s suppress e = rw e (stop_web-returns suppress s)

  stop-returns : (suppress : Bool) (s : State) → (stop m suppress s).0 ≡ done tt
  unfolding stop stop_client
  stop-returns suppress s = then-returns _ _ suppress (stop_bot-returns s.bot _)

  stop_and_exit-exits :
      (suppress : Bool) (code : ℕ) (s : State) → (stop_and_exit m suppress code s).0 ≡ exits code
  unfolding stop_and_exit
  stop_and_exit-exits suppress code s = rw (stop-returns suppress s) refl

  after_main-exits :
      (o : Outcome ⊤) (s : State) → o ≢ waiting → (after_main m o s).0 ≡ exits (code_of m o)
  unfolding after_main run_forever after_forever
  after_main-exits (done _) s h = rw (interrupted s.trace) (stop_and_exit-exits false 0 s)
  after_main-exits (raised e) s h = stop_and_exit-exits true 1 s
  after_main-exits (exits n) s h = stop_and_exit-exits true n s
  after_main-exits waiting s h = absurd (h refl)

  run-after :
      (c : Settings) (fuel : ℕ) (s : State)
      → (main c m fuel s).0 ≢ waiting
      → (run m c fuel s).0 ≡ exits (code_of m (main c m fuel s).0)
  unfolding run
  run-after c fuel s h = after_main-exits (main c m fuel s).0 (main c m fuel s).1 h

  -- However far main comes, unless it still waits for the homeserver or is interrupted, the program
  -- ends by an exit code: 0 where main returned, main's own where it called sys.exit, and 1 where it
  -- raised an Exception; then the database is closed, and the client does not run, nor the plugin,
  -- unless its internal_stop fails. This holds where the running loop is left by an interrupt and no
  -- other interrupts the plugin's stop, and where the web server and the database can be stopped.
  pub run-exits :
      (c : Settings) (fuel : ℕ) (s : State)
      → (main c m fuel s).0 ≢ waiting
      → (main c m fuel s).0 ≢ raised Failure.interrupt
      → ((run m c fuel s).0 ≡ exits (code_of m (main c m fuel s).0))
        × IsStopped m (run m c fuel s).1
  run-exits c fuel s h _ =
      let e = run-after c fuel s h in (e, (run-Ended m interrupted c fuel _ s e).1)
