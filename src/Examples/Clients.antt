-- ===== src/Examples/Clients.antt =====
-- The theorems on clients, at a client of the example state.
use maubot.Base.{ℕ, ◌≡◌, ◌≢◌, refl, true, false, none, some, [], ◌∷◌}
use maubot.Base.Exec.{ok, err, connection_error, invalid_token}
use maubot.Base.Dict.{lookup}
use maubot.World.{World}
use maubot.World.Env.{Env, WhoAmI}
use maubot.World.Refs.{member}
use maubot.Client.Lifecycle.{
  start, stop, ask_whoami, device_differs, start_inner, check_whoami, start_confirmed,
  start_plugins,
}
use maubot.World.Gather.{gather}
use maubot.Client.{update_remote_profile}
use maubot.Client.Failures.{IsDisabled, start_refused, start_confirms}
use maubot.Client.Retries.{run_tasks, gives_up_from, Unreachable}
use maubot.Client.Stopping.{stop_stops}
use maubot.Examples.{env, world, client, loader, instance_with, confirmed}

-- A client that waits for its start, and one that runs the only instance.
abbrev waiting : World
waiting = world (client false []) (instance_with none none false) (loader [])

abbrev running : World
running =
    world (client true ((1, 0) ∷ [])) (instance_with (some 0) (some 0) true) (loader ((1, 0) ∷ []))

abbrev offline : Env
offline = env (err connection_error)

abbrev refusing : Env
refusing = env (err invalid_token)

abbrev online : Env
online = env (ok confirmed)

connection_error-other : connection_error ≢ invalid_token
connection_error-other e = cc

offline-Unreachable : Unreachable offline 0
unfolding ask_whoami
offline-Unreachable w = (connection_error, connection_error-other, refl)

gives_up_from_example : IsDisabled 0 waiting (run_tasks offline 8 (start offline 0 0 waiting).1)
unfolding lookup
gives_up_from_example =
    gives_up_from offline 8 0 0 waiting refl offline-Unreachable (refl, refl, refl)

start_refused_example : IsDisabled 0 waiting (start refusing 0 3 waiting).1
unfolding lookup ask_whoami
start_refused_example = start_refused refusing 0 3 waiting refl refl refl refl

start_confirms_example :
    (who : WhoAmI) × ((ask_whoami online 0 waiting).0 ≡ ok who)
    × (who.user_id ≡ "@bot:hs")
    × (device_differs who (waiting.clients 0) ≡ false)
unfolding start start_inner check_whoami ask_whoami start_confirmed update_remote_profile
    start_plugins gather
start_confirms_example = start_confirms online 0 0 waiting refl refl refl

stop_stops_example :
    let w' = (stop online 0 running).1 in
    ((w'.clients 0).started ≡ false)
    × ((w'.clients 0).client.syncing ≡ false)
    × ((i : ℕ) → member i ((1, 0) ∷ []) ≡ true → (w'.instances i).started ≡ false)
stop_stops_example = stop_stops online 0 running refl

-- The server says that the token is another user's.
abbrev other : WhoAmI
other = record { user_id = "@other:hs"; device_id = some "DEV" }
