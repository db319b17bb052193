-- ===== src/Examples/Alone.antt =====
-- The theorems on the standalone program, at a homeserver that answers at the second try.
use maubot.Base.{◌⊎◌, ℕ, ◌≡◌, ◌<◌, refl, arith, true, false, none, some, [], ◌∷◌, zero, suc, inr}
use maubot.World.{DatabaseType}
use maubot.World.Env.{WhoAmI}
use maubot.Standalone.{exits, Failure, Answer, gives, fails, done, Settings, Machine, State}
use maubot.Standalone.Start.{main, connect, verdict}
use maubot.Standalone.Run.{run}
use maubot.Standalone.Identity.{IsConfirmed, main-IsConfirmed}
use maubot.Standalone.Retrying.{connect-settled}
use maubot.Standalone.Ending.{IsStopped}
use maubot.Standalone.Leaving.{run-exits}
use maubot.Standalone.Batches.{load}
use maubot.Standalone.Resuming.{filter, batch, put_all, load-put_all}

abbrev settings : Settings
settings = record {
  id = "@bot:hs";
  device_id = some "DEV";
  appservice = false;
  crypto_store = true;
  web_runner = true;
  sync = true;
  autojoin = true;
  displayname = "Bot";
  avatar_url = "disable";
  database = true;
  database_type = DatabaseType.asyncpg;
  has_upgrade_table = true;
}

abbrev answer : ℕ → Answer WhoAmI
answer zero = fails Failure.other_error
answer (suc n) = gives (record { user_id = "@bot:hs"; device_id = some "DEV" })

abbrev machine : Machine
machine = record {
  works = λ c trace. gives tt;
  crypto_device = λ trace. gives none;
  stored_filter = λ trace. gives "";
  create_filter = λ trace. gives "1";
  whoami = answer;
  shared = λ trace. false;
  forever = λ trace. fails Failure.interrupt;
}

abbrev loaded : State
loaded = record {
  db_open = false;
  client = none;
  has_crypto = false;
  autojoins = false;
  bot = none;
  web = false;
  filter_id = "";
  trace = [];
}

main-IsConfirmed_example : IsConfirmed settings machine
unfolding main
main-IsConfirmed_example = main-IsConfirmed settings machine 2 loaded (λ e. cc e)

only_first :
    (j : ℕ)
    → j < 1
    → (answer j ≡ fails Failure.runtime_error) ⊎ (answer j ≡ fails Failure.other_error)
only_first zero h = inr refl
only_first (suc j) h = absurd (omega arith)

connect-settled_example : (connect settings machine 2 0 loaded).0 ≡ done tt
unfolding verdict
connect-settled_example =
    connect-settled settings machine (λ trace. refl) 1 2 0 1 loaded refl (omega arith)
      (λ j le. only_first j) (λ e. cc e) (λ e. cc e)

run-exits_example :
    ((run machine settings 2 loaded).0 ≡ exits 0)
    × IsStopped machine (run machine settings 2 loaded).1
unfolding main
run-exits_example =
    run-exits machine (λ trace. refl) (λ trace e. cc e) (λ trace. refl) (λ trace. refl)
      (λ trace. refl) settings 2 loaded (λ e. cc e) (λ e. cc e)

load-put_all_example :
    let (nb, rows) = put_all (filter "1" ∷ batch "s2" ∷ []) (load "@bot:hs" []) in
    load "@bot:hs" rows ≡ (nb, rows)
load-put_all_example = load-put_all "@bot:hs" [] (filter "1" ∷ batch "s2" ∷ [])
