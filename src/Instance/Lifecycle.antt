-- ===== src/Instance/Lifecycle.antt =====
-- `start` and `stop` of maubot/instance.py.
use maubot.Base.{⊤, ℕ, Bool, true, false, ◌&&◌, not, Option, none, some, if◌then◌else◌, is_some}
use maubot.Base.Exec.{
  Exec, Result, ok, err, other_error, pure, raise, gets, attempt, skip, when, ◌>>=◌, ◌>>◌,
}
use maubot.World.{World, Instance, Loader, PluginMeta, PluginClass}
use maubot.World
use maubot.World.Env.{Env, ask}
use maubot.Loader
use maubot.Instance.{
  instance_at, modify_instance, update_enabled, load, enable_webapp, disable_webapp, meta_of,
}
use maubot.Instance.Stores.{start_database, stop_database}

module _ (env : Env) where
  -- The web app follows what the plugin's definition says now.
  unfoldable pub sync_webapp : ℕ → PluginMeta → Exec World ⊤
  sync_webapp a meta = do
    i ← instance_at a
    if meta.webapp && not i.inst_webapp
        then enable_webapp env a
        else when (not meta.webapp && i.inst_webapp) (disable_webapp env a)

  -- The database, if the plugin has one; on failure the instance is disabled.
  abbrev opened : ℕ → Result ⊤ → Exec World Bool
  opened a (ok _) = pure true
  opened a (err _) = do update_enabled a (some false); pure false

  unfoldable pub open_database : ℕ → PluginMeta → Exec World Bool
  open_database a meta =
      if not meta.database
      then pure true
      else (do r ← attempt (start_database env a true); opened a r)

  -- The base config of the archive, `none` where there is none.
  unfoldable pub read_base_config : ℕ → Option ℕ → PluginClass → Exec World ⊤
  read_base_config a none cls = raise other_error
  read_base_config a (some l) cls = do
    text ←
        gets (λ w. elim (w.loaders l).file [ none ↦ none | some content ↦ env.base_config content ])
    when cls.has_config_class (modify_instance a (λ o. record o { base_cfg = text }))

  -- What `start` does with the outcome of the plugin's own start.
  abbrev settle : ℕ → Result ⊤ → Exec World ⊤
  settle a (ok _) = modify_instance a (λ o. record o { started = true; inst_db_tables = none })
  settle a (err _) = update_enabled a (some false)

  unfoldable pub run_plugin : ℕ → PluginClass → Exec World ⊤
  run_plugin a cls = do
    ask (World.plugin_init a) (env.plugin_init a)
    modify_instance a (λ o. record o { plugin = some cls })
    r ← attempt (ask (World.plugin_start a) (env.plugin_start a))
    settle a r

  abbrev pub load_class : Option ℕ → Exec World PluginClass
  load_class none = raise other_error
  load_class (some l) = Loader.load env l false

  -- `start`, once the plugin's class is there
  unfoldable pub start_plugin : ℕ → Option ℕ → PluginClass → PluginMeta → Exec World ⊤
  start_plugin a l cls meta = do
    sync_webapp a meta
    is_open ← open_database a meta
    if not is_open then skip else do read_base_config a l cls; run_plugin a cls

  -- `start`, once the dependencies are there
  unfoldable pub start_loaded : ℕ → Exec World ⊤
  start_loaded a = do
    i ← instance_at a
    cls ← load_class i.loader
    meta ← meta_of env i.loader
    start_plugin a i.loader cls meta

  -- `start`
  unfoldable pub start : ℕ → Exec World ⊤
  start a = do
    i ← instance_at a
    if i.started then skip else if not i.enabled then skip else do
      ready ← if is_some i.client && is_some i.loader then pure true else load env a
      if not ready then skip else start_loaded a

  -- `stop`; what fails is logged
  unfoldable pub stop : ℕ → Exec World ⊤
  stop a = do
    i ← instance_at a
    if not i.started then skip else do
      modify_instance a (λ o. record o { started = false })
      _ ← attempt (ask (World.plugin_stop a) (env.plugin_stop a))
      modify_instance a (λ o. record o { plugin = none })
      j ← instance_at a
      _ ← if is_some j.inst_db then attempt (stop_database env a) else pure (ok tt)
      modify_instance a (λ o. record o { inst_db_tables = none })
