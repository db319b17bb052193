-- ===== src/Examples/Instances.antt =====
-- The theorems on plugin instances, at the instance of the example state.
use maubot.Base.{ℕ, arith, eq_iff, ◌≡◌, ◌≢◌, refl, String, true, false, none, some, [], ◌∷◌}
use maubot.Base.Exec.{ok, err, key_error}
use maubot.Base.Dict.{lookup}
use maubot.World.{World}
use maubot.World.Env.{Env}
use maubot.World.Refs.{member, remove, holds}
use maubot.Api.Databases
use maubot.Api.Databases.{Database, get_table}
use maubot.World.{engine, proxy_postgres}
use maubot.Client
use maubot.Instance.{load}
use maubot.Instance.Stores.{delete}
use maubot.Instance.Lifecycle.{start}
use maubot.Instance.Update.{update_id, update_primary_user}
use maubot.Instance.Deletion.{delete_linked}
use maubot.Instance.Switching.{update_primary_user_moves}
use maubot.Base.{nat_eq, if◌then◌else◌}
use maubot.Instance.Running.{IsSound, start-IsSound}
use maubot.Instance.Links.{delete_stuck}
use maubot.Instance.Renaming.{update_id-delete}
use maubot.Base.Text.{append}
use maubot.Plugin.WebApp.{handle_plugin_path}
use maubot.Server.{get_instance_subapp}
use maubot.Server.Routing.{slashless, request, handle-get_instance_subapp}
use maubot.Examples.{env, world, client, loader, instance_with, confirmed}

abbrev online : Env
online = env (ok confirmed)

-- An instance that was never loaded, one that runs, and one whose client is gone.
abbrev pub idle : World
idle = world (client true []) (instance_with none none false) (loader [])

abbrev running : World
running =
    world (client true ((1, 0) ∷ [])) (instance_with (some 0) (some 0) true) (loader ((1, 0) ∷ []))

abbrev orphan : World
orphan = record idle { client_cache = []; client_table = [] }

start-IsSound_example : IsSound ((start online 0 idle).1.instances 0)
start-IsSound_example = start-IsSound online 0 idle (λ on. cc on)

delete_stuck_example :
    let w₁ = (load online 0 orphan).1 in
    ((load online 0 orphan).0 ≡ ok false) × (delete online 0 w₁ ≡ (err key_error, w₁))
unfolding lookup holds
delete_stuck_example = delete_stuck online 0 0 orphan refl refl refl (refl, refl) refl

two-one : ◌≢◌ {A = String} "two" "one"
two-one = ground (arith, eq_iff "two" "one")

update_id-delete_example :
    let w = (update_id online 0 (some "two") running).1 in delete online 0 w ≡ (err key_error, w)
unfolding lookup holds
update_id-delete_example =
    update_id-delete online 0 "two" running (running.instances 0).row two-one refl refl 0 refl refl

-- A second client, which nothing uses.
abbrev two_clients : World
two_clients = record running {
  clients = λ b. if nat_eq b 0 then running.clients 0 else client true [];
  client_cache = ("@bot:hs", 0) ∷ ("@two:hs", 1) ∷ [];
}

one-zero : ◌≢◌ {A = ℕ} 1 0
one-zero e = absurd (omega (arith, e))

two-bot : ◌≢◌ {A = String} "@two:hs" "@bot:hs"
two-bot = ground (arith, eq_iff "@two:hs" "@bot:hs")

only_one : (b : ℕ) → member b ((1, 0) ∷ []) ≡ true → ◌≡◌ {A = String} "one" "one" → b ≡ 0
unfolding member
only_one b there _ = ground (arith, there)

no_other : (b : ℕ) → member b [] ≡ true → ◌≡◌ {A = String} "one" "one" → b ≡ 0
unfolding member
no_other b there _ = cc

update_primary_user_moves_example :
    let w' = (update_primary_user online 0 (some "@two:hs") two_clients).1 in
    ((w'.clients 0).references ≡ []) × (member 0 (w'.clients 1).references ≡ true)
unfolding lookup remove holds
update_primary_user_moves_example =
    update_primary_user_moves online 0 1 0 0 [] two_clients refl refl one-zero refl only_one
      no_other "@two:hs" two-bot refl

delete_linked_example :
    let (r, w') = delete online 0 running in
    (r ≡ ok tt)
    × (lookup "one" w'.instance_cache ≡ none)
    × (lookup "one" w'.instance_table ≡ none)
    × ((w'.loaders 0).references ≡ [])
    × ((w'.clients 0).references ≡ [])
unfolding lookup remove holds maubot.World.Access.equal_to
delete_linked_example = delete_linked online 0 0 0 [] [] running refl refl refl refl refl refl

abbrev with_postgres : World
with_postgres =
    world (client false [])
      (record (instance_with none none false) { inst_db = some proxy_postgres }) (loader [])

abbrev tables : Database
tables = record {
  tables = λ a. ("events", "id" ∷ []) ∷ [];
  select = λ a table order limit. Databases.other;
  execute = λ a statement rows_as_dict. Databases.other;
}

postgres-engine : proxy_postgres ≢ engine
postgres-engine e = cc

-- The instance of the example state, and the path of its web app.
handle-get_instance_subapp_example :
    handle_plugin_path
      (get_instance_subapp online "one" idle).1.plugin_routes
      (request online.plugin_base_path "one" "index.html")
    ≡ some ([], append "/" "index.html")
unfolding slashless lookup
handle-get_instance_subapp_example =
    (handle-get_instance_subapp online "one" idle refl tt).2 "index.html"
