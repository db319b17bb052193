-- ===== src/Standalone/Run.antt =====
-- maubot/standalone/__main__.py: stop, and what the program does behind main.
use maubot.Base.{⊤, ℕ, Bool, true, false, Option, none, some, if◌then◌else◌}
use maubot.Standalone.{
  Failure, Outcome, Answer, gives, fails, done, raised, exits, waiting, Call, Settings, Machine,
  Main, ◌>>=◌, ◌>>◌, exit, modify, gets, give, call,
}
use maubot.Standalone.Start.{main}

module _ (m : Machine) where
  -- `except Exception:` around internal_stop, which logs it at most
  unfoldable pub logged : Outcome ⊤ → Outcome ⊤
  logged (raised Failure.runtime_error) = done tt
  logged (raised Failure.other_error) = done tt
  logged outcome = outcome

  unfoldable pub stop_client : Main ⊤
  stop_client s =
      (done tt, record s { client = elim s.client [ none ↦ none | some _ ↦ some false ] })

  -- The plugin counts as stopped where its internal_stop has returned.
  unfoldable pub bot_after : Outcome ⊤ → Option Bool → Option Bool
  bot_after (done _) bot = some false
  bot_after outcome bot = bot

  unfoldable pub stop_bot : Option Bool → Main ⊤
  unfolding call logged bot_after
  stop_bot none s = (done tt, s)
  stop_bot (some started) s =
      let (outcome, s') = call m Call.internal_stop s in
      (logged outcome, record s' { bot = bot_after outcome s'.bot })

  unfoldable pub stop_db : Main ⊤
  unfolding call
  stop_db = do call m Call.db_stop; modify (λ s. record s { db_open = false })

  unfoldable pub close_web : Main ⊤
  unfolding call
  close_web = do
    call m Call.web_shutdown
    call m Call.web_cleanup
    modify (λ s. record s { web = false })

  -- `except RuntimeError:`, and the database behind it; where the error is not suppressed, the
  -- database is stopped and the error raised again.
  unfoldable pub after_web : Bool → Outcome ⊤ → Main ⊤
  unfolding stop_db
  after_web suppress (done _) = stop_db
  after_web true (raised Failure.runtime_error) = stop_db
  after_web false (raised Failure.runtime_error) = do stop_db; give (raised Failure.runtime_error)
  after_web suppress (raised Failure.other_error) = give (raised Failure.other_error)
  after_web suppress (raised Failure.interrupt) = give (raised Failure.interrupt)
  after_web suppress (exits n) = give (exits n)
  after_web suppress waiting = give waiting

  -- `if web_runner and web_runner.server:`
  unfoldable pub stop_web : Bool → Main ⊤
  unfolding close_web after_web
  stop_web suppress s =
      if s.web
      then (let (outcome, s') = close_web s in after_web suppress outcome s')
      else stop_db s

  unfoldable pub stop : Bool → Main ⊤
  unfolding stop_client stop_bot stop_web
  stop suppress = do stop_client; bot ← gets (λ s. s.bot); stop_bot bot; stop_web suppress

  -- stop, then the exit code
  unfoldable pub stop_and_exit : Bool → ℕ → Main ⊤
  unfolding stop
  stop_and_exit suppress code = do stop suppress; exit code

  -- The `try` around run_forever; the loop is not left otherwise.
  unfoldable pub after_forever : Answer ⊤ → Main ⊤
  unfolding stop_and_exit
  after_forever (gives _) = exit 0
  after_forever (fails Failure.interrupt) = stop_and_exit false 0
  after_forever (fails e) = exit 1

  unfoldable pub run_forever : Main ⊤
  unfolding after_forever
  run_forever s = after_forever (m.forever s.trace) s

  -- The `try` around main. An interrupt of the event loop, which leaves main pending while stop runs,
  -- is none that main raises; only the latter is here.
  unfoldable pub after_main : Outcome ⊤ → Main ⊤
  unfolding run_forever stop_and_exit
  after_main (done _) = run_forever
  after_main (exits n) = stop_and_exit true n
  after_main (raised e) = stop_and_exit true 1
  after_main waiting = give waiting

  unfoldable pub run : Settings → ℕ → Main ⊤
  unfolding main after_main
  run c fuel s = let (outcome, s') = main c m fuel s in after_main outcome s'
