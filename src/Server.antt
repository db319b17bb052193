-- ===== src/Server.antt =====
-- maubot/server.py: the web apps of the plugin instances, by the path that they are served under.
pub mod Routing
use maubot.Base.{⊤, String, none, some, []}
use maubot.Base.Dict.{lookup, insert, erase}
use maubot.Base.Exec.{Exec, gets, modify, skip, ◌>>=◌}
use maubot.Base.Text.{append}
use maubot.World.{World}
use maubot.World.Env.{Env}

module _ (env : Env) where
  -- config["server.plugin_base_path"] + instance_id + "/"
  abbrev pub subpath : String → String
  subpath instance_id = append env.plugin_base_path (append instance_id "/")

  -- `get_instance_subapp`: an app is its routes; a new one has none.
  unfoldable pub get_instance_subapp : String → Exec World ⊤
  get_instance_subapp instance_id = do
    hit ← gets (λ w. lookup (subpath instance_id) w.plugin_routes)
    elim hit [
      | some _ ↦ skip
      | none ↦
          modify (λ w. record w { plugin_routes = insert (subpath instance_id) [] w.plugin_routes })
    ]

  -- `remove_instance_webapp`
  unfoldable pub remove_instance_webapp : String → Exec World ⊤
  remove_instance_webapp instance_id =
      modify (λ w. record w { plugin_routes = erase (subpath instance_id) w.plugin_routes })
