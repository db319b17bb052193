-- ===== src/Instance/Running.antt =====
-- An instance that runs has its plugin, its loader and its client.
use maubot.Base.{
  ◌&&◌, ℕ, ◌≡◌, refl, Bool, true, false, Option, none, some, arith, is_some, if◌then◌else◌, inl,
  inr, Bool-cases,
}
use maubot.Base.Exec.{Result, ok, err}
use maubot.World.{World, Instance, PluginMeta, PluginClass}
use maubot.World.Env.{Env}
use maubot.Instance.{enable_webapp, disable_webapp, update_enabled, update_db_engine, load}
use maubot.Instance.Stores.{start_database}
use maubot.Server.{get_instance_subapp, remove_instance_webapp}
use maubot.Instance.Lifecycle.{
  start, start_loaded, stop, sync_webapp, open_database, read_base_config, run_plugin, load_class,
}
use maubot.Base.Rules.{Leads, Leads-bind}
use maubot.Base.Exec.{◌>>=◌, ◌>>◌, skip}
use maubot.Base.{not}
use maubot.Instance.Lifecycle.{start_plugin}
use maubot.Instance.Links.{load-IsLinked, load-started}
use maubot.Instance.Stopping.{stop-stopped}
use maubot.Base.{◌∙◌}
use maubot.Base.Exec.{continue}
use maubot.Loader.Frame.{load-Kept}
use maubot.Instance.{meta_of}

abbrev pub IsSound : Instance → Type 0
IsSound i =
    i.started ≡ true
    → (is_some i.plugin ≡ true) × (is_some i.loader ≡ true) × (is_some i.client ≡ true)

-- The part of an instance that the steps of `start` leave alone, and which stays idle.
pub record Prepared (i : Instance) : Type 0 where
  pub idle : i.started ≡ false
  pub has_loader : is_some i.loader ≡ true
  pub has_client : is_some i.client ≡ true

module _ (env : Env) (a : ℕ) where
  abbrev Ready : World → Type 0
  Ready w = Prepared (w.instances a)

  module _ (w : World) (h : Ready w) where
    update_enabled-Ready : (b : Option Bool) → Ready (update_enabled a b w).1
    unfolding update_enabled
    update_enabled-Ready b = ground arith

    sync_webapp-Ready : (meta : PluginMeta) → Ready (sync_webapp env a meta w).1
    unfolding sync_webapp enable_webapp disable_webapp get_instance_subapp remove_instance_webapp
    sync_webapp-Ready meta = ground arith

    start_database-Ready : Ready (start_database env a true w).1
    unfolding start_database update_db_engine
    start_database-Ready = ground arith

    read_base_config-Ready :
        (l : Option ℕ) (cls : PluginClass) → Ready (read_base_config env a l cls w).1
    unfolding read_base_config
    read_base_config-Ready l cls = ground arith

    run_plugin-IsSound : (cls : PluginClass) → IsSound ((run_plugin env a cls w).1.instances a)
    unfolding run_plugin update_enabled
    run_plugin-IsSound cls = ground arith

  open_database-Ready :
      (w : World) → Ready w → (meta : PluginMeta) → Ready (open_database env a meta w).1
  unfolding open_database
  open_database-Ready w h meta = ground (
    arith,
    start_database-Ready w h,
    update_enabled-Ready (start_database env a true w).1 (start_database-Ready w h) (some false),
  )

  Ready-IsSound : (w : World) → Ready w → IsSound (w.instances a)
  Ready-IsSound w h on = cc (h.idle)

  load_class-Ready : (l : Option ℕ) → Leads Ready Ready (load_class env l)
  load_class-Ready none = record { at = λ w h. h }
  load_class-Ready (some l) = record {
    at = λ w h.
        let (same, _, _, _) = load-Kept env w l false w (refl, refl, refl, refl) in rw same h;
  }

  abbrev Sound : World → Type 0
  Sound w = IsSound (w.instances a)

  configured-IsSound :
      (l : Option ℕ) (cls : PluginClass) (is_open : Bool)
      → Leads Ready Sound
          (if not is_open then skip else do read_base_config env a l cls; run_plugin env a cls)
  configured-IsSound l cls false = record { at = Ready-IsSound }
  configured-IsSound l cls true =
      Leads-bind (read_base_config env a l cls) _ Ready-IsSound
        (record { at = λ w h. read_base_config-Ready w h l cls })
        λ _. record { at = λ w h. run_plugin-IsSound w h cls }

  start_plugin-IsSound :
      (l : Option ℕ) (cls : PluginClass) (meta : PluginMeta)
      → Leads Ready Sound (start_plugin env a l cls meta)
  unfolding start_plugin
  start_plugin-IsSound l cls meta =
      Leads-bind (sync_webapp env a meta) _ Ready-IsSound
        (record { at = λ w h. sync_webapp-Ready w h meta })
        λ _.
          Leads-bind (open_database env a meta) _ Ready-IsSound
            (record { at = λ w h. open_database-Ready w h meta })
            λ is_open. configured-IsSound l cls is_open

  start_with-IsSound :
      (l : Option ℕ)
      → Leads Ready Sound
          (do cls ← load_class env l; meta ← meta_of env l; start_plugin env a l cls meta)
  start_with-IsSound l = Leads-bind (load_class env l) _ Ready-IsSound (load_class-Ready l) λ cls.
      Leads-bind (meta_of env l) _ Ready-IsSound (record { at = λ w h. ground arith })
        λ meta. start_plugin-IsSound l cls meta

  -- The start of an instance that has its dependencies.
  start_loaded-IsSound : Leads Ready (λ w. IsSound (w.instances a)) (start_loaded env a)
  unfolding start_loaded
  start_loaded-IsSound = record { at = λ w h. (start_with-IsSound (w.instances a).loader).at w h }

  idle-Sound : (w : World) → (w.instances a).started ≡ false → Sound w
  idle-Sound w idle on = cc idle

  load-Ready :
      (w : World)
      → (w.instances a).started ≡ false
      → (load env a w).0 ≡ ok true
      → Ready (load env a w).1
  load-Ready w idle done =
      let (c, l, hc, hl, _, _) = load-IsLinked env a w done in
      record { idle = load-started env a w ∙ idle; has_loader = rw hl; has_client = rw hc }

  loaded-Ready :
      (w : World)
      → (w.instances a).started ≡ false
      → (is_some (w.instances a).client && is_some (w.instances a).loader) ≡ true
      → Ready w
  loaded-Ready w off both = record {
    idle = off;
    has_loader = ground arith;
    has_client = ground arith;
  }

  -- `start` behind a `load` that was needed
  start_after_load :
      (w : World)
      → (w.instances a).started ≡ false
      → Sound ((do ready ← load env a; if not ready then skip else start_loaded env a) w).1
  start_after_load w idle = go (load env a w).0 refl
    where
      go :
          (r : Result Bool)
          → (load env a w).0 ≡ r
          → Sound
              (continue r
                (λ ready. if not ready then skip else start_loaded env a)
                (load env a w).1).1
      go (ok true) e = start_loaded-IsSound.at (load env a w).1 (load-Ready w idle e)
      go (ok false) e = idle-Sound (load env a w).1 (load-started env a w ∙ idle)
      go (err x) e = idle-Sound (load env a w).1 (load-started env a w ∙ idle)

  -- `start` keeps an instance sound: if it counts as started, it has its plugin object, its loader and
  -- its client. This holds also where `start` raises.
  pub start-IsSound : (w : World) → Sound w → Sound (start env a w).1
  unfolding start
  start-IsSound w h = elim (Bool-cases (w.instances a).started) [
    | inl on ↦ rw on h
    | inr idle ↦ rw idle (elim (Bool-cases (w.instances a).enabled) [
      | inr off ↦ rw off h
      | inl able ↦
          rw able
            (elim (Bool-cases (is_some (w.instances a).client && is_some (w.instances a).loader)) [
              | inr absent ↦ rw absent (start_after_load w idle)
              | inl both ↦ rw both (start_loaded-IsSound.at w (loaded-Ready w idle both))
            ])
    ])
  ]

  pub stop-IsSound : (w : World) → Sound (stop env a w).1
  stop-IsSound w = idle-Sound (stop env a w).1 (stop-stopped env a w)
