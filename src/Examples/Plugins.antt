-- ===== src/Examples/Plugins.antt =====
-- The theorems on plugin archives and their API, at the plugin of the example state.
use maubot.Base.{
  ◌==◌, if◌then◌else◌, ◌⊎◌, arith, eq_iff, ◌≡◌, ◌≢◌, refl, String, true, false, none, some, [], ◌∷◌,
}
use maubot.Base.Exec.{ok, err, zip_meta}
use maubot.Base.Dict.{lookup, insert}
use maubot.World.{World}
use maubot.World.Env.{Env}
use maubot.Loader
use maubot.Loader.Steady.{id_of}
use maubot.Loader.Runs.{id_cache_agrees, path_cache_agrees, got, nothing}
use maubot.Instance.Homes.{IsHome}
use maubot.Api.Replacing.{uploaded, upload_rolls_back}
use maubot.Api.Responses
use maubot.Api.Clients.{delete_client}
use maubot.Api.Plugins.{delete_plugin, upload_replacement_plugin}
use maubot.Api.Deletion.{delete_client_outcome, delete_plugin_outcome}
use maubot.Api.Responses.{status, errcode}
use maubot.Examples.{env, world, client, loader, instance_with, confirmed, meta}

abbrev online : Env
online = env (ok confirmed)

-- One plugin that nothing uses, one that is in use, and no plugin at all.
abbrev unused : World
unused = world (client true []) (instance_with none none false) (loader [])

abbrev used : World
used =
    world (client true ((1, 0) ∷ [])) (instance_with (some 0) (some 0) true) (loader ((1, 0) ∷ []))

abbrev fresh : World
fresh = record unused { id_cache = []; path_cache = [] }

-- The state behind the lookup of one archive.
abbrev one : World
one = (Loader.get online "plugins/echo.mbp" fresh).1

id_cache_agrees_example :
    (id_of (one.loaders 1).meta ≡ some "echo") × ◌≡◌ {A = String} "echo" "echo"
unfolding lookup insert Loader.get Loader.init Loader.load_meta Loader.get_importer
    Loader.run_preload_checks
id_cache_agrees_example =
    id_cache_agrees online fresh one (refl, refl) (got "plugins/echo.mbp" nothing) "echo" "echo" 1
      refl refl

new-old : ◌≢◌ {A = String} "plugins/new.mbp" "plugins/echo.mbp"
new-old = ground (arith, eq_iff "plugins/new.mbp" "plugins/echo.mbp")

trash-old : ◌≢◌ {A = String} "trash/old.mbp" "plugins/echo.mbp"
trash-old = ground (arith, eq_iff "trash/old.mbp" "plugins/echo.mbp")

path_cache_agrees_example :
    ((one.loaders 1).path ≡ some "plugins/echo.mbp")
    × ◌≡◌ {A = String} "plugins/echo.mbp" "plugins/echo.mbp"
unfolding lookup insert Loader.get Loader.init Loader.load_meta Loader.get_importer
    Loader.run_preload_checks
path_cache_agrees_example =
    path_cache_agrees online fresh one (refl, refl) (got "plugins/echo.mbp" nothing)
      "plugins/echo.mbp" "plugins/echo.mbp" 1 refl refl

-- An archive that has no definition.
abbrev broken : Env
broken = record online {
  maubot_yaml = λ s. if s == "broken" then none else some (some "maubot.yaml");
}

trash-new : ◌≢◌ {A = String} "trash/old.mbp" "plugins/new.mbp"
trash-new = ground (arith, eq_iff "trash/old.mbp" "plugins/new.mbp")

upload_fails :
    (Loader.reload broken 0
      (some "plugins/new.mbp")
      (uploaded broken 0 "broken" "plugins/new.mbp" used)).0
    ≡ err zip_meta
unfolding lookup insert Loader.reload Loader.unload Loader.move_to Loader.load Loader.load_again
    Loader.load_meta Loader.read_meta maubot.Api.Plugins.stop_instances maubot.World.Gather.gather
    maubot.World.Gather.select maubot.Instance.Lifecycle.stop
upload_fails = refl

upload_rolls_back_example :
    let w' = (upload_replacement_plugin broken 0 "broken" "plugins/new.mbp" used).1 in
    IsHome 0 "plugins/echo.mbp" "plugins/new.mbp" w' × (lookup "plugins/new.mbp" w'.files ≡ none)
unfolding lookup
upload_rolls_back_example =
    upload_rolls_back broken 0 "broken" "plugins/echo.mbp" "plugins/new.mbp" used zip_meta
      (refl, refl, refl) new-old upload_fails refl (λ t. trash-new) (λ t. refl)

delete_client_outcome_example :
    let (r, w') = delete_client online "@bot:hs" unused in
    ((true ≡ false) × (r ≡ ok Responses.client_in_use) × (w' ≡ unused))
    ⊎ ((true ≡ true)
        × (r ≡ ok Responses.deleted)
        × (lookup "@bot:hs" w'.client_cache ≡ none)
        × (lookup "@bot:hs" w'.client_table ≡ none))
unfolding lookup
delete_client_outcome_example =
    delete_client_outcome online "@bot:hs" 0 unused (λ t. refl) refl refl

delete_plugin_outcome_example :
    let (r, w') = delete_plugin online "echo" used in
    ((false ≡ false) × (r ≡ ok Responses.plugin_in_use) × (w' ≡ used))
    ⊎ ((false ≡ true)
        × (r ≡ ok Responses.deleted)
        × (lookup "echo" w'.id_cache ≡ none)
        × (lookup "plugins/echo.mbp" w'.path_cache ≡ none)
        × (lookup "plugins/echo.mbp" w'.files ≡ none))
unfolding lookup
delete_plugin_outcome_example =
    delete_plugin_outcome online "echo" "plugins/echo.mbp" 0 used meta refl refl refl refl
      (λ t. trash-old) (λ t. refl)
