-- ===== src/Instance/Starting.antt =====
-- `start` of an instance that has its loader and its client leaves the clients alone.
use maubot.Base.{
  ℕ, ◌≡◌, refl, ◌∙◌, Bool, true, false, ◌&&◌, not, Option, none, some, arith, is_some,
  if◌then◌else◌, inl, inr, Bool-cases,
}
use maubot.Base.Exec.{skip, ◌>>=◌, ◌>>◌}
use maubot.Base.Rules.{Leads, Leads-bind}
use maubot.World.{World, Client, PluginClass, PluginMeta}
use maubot.World.Env.{Env}
use maubot.Loader.Frame.{load-Kept}
use maubot.Instance.{enable_webapp, disable_webapp, update_enabled, update_db_engine, meta_of}
use maubot.Instance.Stores.{start_database}
use maubot.Server.{get_instance_subapp, remove_instance_webapp}
use maubot.Instance.Lifecycle.{
  start, start_loaded, sync_webapp, open_database, read_base_config, run_plugin, load_class,
  start_plugin,
}

module _ (env : Env) (a : ℕ) (cs : ℕ → Client) where
  abbrev pub Has : World → Type 0
  Has v = v.clients ≡ cs

  module _ (v : World) (h : Has v) where
    sync_webapp-Has : (meta : PluginMeta) → Has (sync_webapp env a meta v).1
    unfolding sync_webapp enable_webapp disable_webapp get_instance_subapp remove_instance_webapp
    sync_webapp-Has meta = ground arith

    start_database-clients : (start_database env a true v).1.clients ≡ cs
    unfolding start_database update_db_engine
    start_database-clients = ground arith

    update_enabled-clients : (b : Option Bool) → (update_enabled a b v).1.clients ≡ cs
    unfolding update_enabled
    update_enabled-clients b = ground arith

    read_base_config-Has :
        (l : Option ℕ) (cls : PluginClass) → Has (read_base_config env a l cls v).1
    unfolding read_base_config
    read_base_config-Has l cls = ground arith

    run_plugin-Has : (cls : PluginClass) → Has (run_plugin env a cls v).1
    unfolding run_plugin update_enabled
    run_plugin-Has cls = ground arith

    load_class-Has : (l : Option ℕ) → Has (load_class env l v).1
    load_class-Has none = h
    load_class-Has (some l) =
        let (_, same, _, _) = load-Kept env v l false v (refl, refl, refl, refl) in same ∙ h

  open_database-Has : (v : World) → Has v → (meta : PluginMeta) → Has (open_database env a meta v).1
  unfolding open_database
  open_database-Has v h meta = ground (
    arith,
    start_database-clients v h,
    update_enabled-clients (start_database env a true v).1 (start_database-clients v h)
        (some false),
  )

  configured-Has :
      (l : Option ℕ) (cls : PluginClass) (is_open : Bool)
      → Leads Has Has
          (if not is_open then skip else do read_base_config env a l cls; run_plugin env a cls)
  configured-Has l cls false = record { at = λ v h. h }
  configured-Has l cls true =
      Leads-bind (read_base_config env a l cls) _ (λ v h. h)
        (record { at = λ v h. read_base_config-Has v h l cls })
        λ _. record { at = λ v h. run_plugin-Has v h cls }

  start_with-Has :
      (l : Option ℕ)
      → Leads Has Has
          (do cls ← load_class env l; meta ← meta_of env l; start_plugin env a l cls meta)
  unfolding start_plugin
  start_with-Has l =
      Leads-bind (load_class env l) _ (λ v h. h) (record { at = λ v h. load_class-Has v h l })
        λ cls.
          Leads-bind (meta_of env l) _ (λ v h. h) (record { at = λ v h. ground arith })
            λ meta.
              Leads-bind (sync_webapp env a meta) _ (λ v h. h)
                (record { at = λ v h. sync_webapp-Has v h meta })
                λ _.
                  Leads-bind (open_database env a meta) _ (λ v h. h)
                    (record { at = λ v h. open_database-Has v h meta })
                    λ is_open. configured-Has l cls is_open

  start_loaded-Has : (v : World) → Has v → Has (start_loaded env a v).1
  unfolding start_loaded
  start_loaded-Has v h = (start_with-Has (v.instances a).loader).at v h

  -- `start` of an instance that has its dependencies leaves the clients alone.
  pub start-Has :
      (v : World)
      → (is_some (v.instances a).client && is_some (v.instances a).loader) ≡ true
      → Has v
      → Has (start env a v).1
  unfolding start
  start-Has v both h = elim (Bool-cases (v.instances a).started) [
    | inl on ↦ rw on h
    | inr idle ↦ rw idle (elim (Bool-cases (v.instances a).enabled) [
      | inr off ↦ rw off h
      | inl able ↦ rw (able, both) (start_loaded-Has v h)
    ])
  ]
