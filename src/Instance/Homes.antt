-- ===== src/Instance/Homes.antt =====
-- Where a loader reads its archive, while instances stop and start.
use maubot.Base.{
  subst, sym, ◌∙◌, ap, ⊤, ℕ, ◌≡◌, refl, String, Bool, true, false, ◌&&◌, not, Option, none, some,
  [], ◌∷◌, arith, is_some, if◌then◌else◌, inl, inr, Bool-cases, nat_eq,
}
use maubot.Base.Dict.{lookup}
use maubot.Base.Exec.{Exec, pure, skip, ◌>>=◌, ◌>>◌}
use maubot.Base.Rules.{Leads, Leads-bind, nat_eq_sound}
use maubot.World.{World, PluginClass, PluginMeta}
use maubot.World.Env.{Env}
use maubot.World.Refs.{RefSet}
use maubot.World.Gather.{gather}
use maubot.Client
use maubot.Loader
use maubot.Loader.Steady.{load-Same}
use maubot.Server.{get_instance_subapp, remove_instance_webapp}
use maubot.Instance.{
  enable_webapp, disable_webapp, update_enabled, update_db_engine, meta_of, find_loader,
  find_client, link, load,
}
use maubot.Instance.Stores.{start_database, stop_database}
use maubot.Instance.Lifecycle.{
  start, start_loaded, stop, sync_webapp, open_database, read_base_config, run_plugin, load_class,
  start_plugin,
}

-- The loader reads from one path, where the cache has it, and the cache has nothing at another.
abbrev pub IsHome : ℕ → String → String → World → Type 0
IsHome a old p w =
    ((w.loaders a).path ≡ some old)
    × (lookup old w.path_cache ≡ some a)
    × (lookup p w.path_cache ≡ none)

module _ (env : Env) (a : ℕ) (old p : String) where
  abbrev Home : World → Type 0
  Home = IsHome a old p

  module _ (i : ℕ) where
    module _ (v : World) (h : Home v) where
      sync_webapp-Home : (meta : PluginMeta) → Home (sync_webapp env i meta v).1
      unfolding sync_webapp enable_webapp disable_webapp get_instance_subapp remove_instance_webapp
      sync_webapp-Home meta = ground arith

      start_database-Home : Home (start_database env i true v).1
      unfolding start_database update_db_engine
      start_database-Home = ground arith

      update_enabled-Home : (b : Option Bool) → Home (update_enabled i b v).1
      unfolding update_enabled
      update_enabled-Home b = ground arith

      read_base_config-Home :
          (l : Option ℕ) (cls : PluginClass) → Home (read_base_config env i l cls v).1
      unfolding read_base_config
      read_base_config-Home l cls = ground arith

      run_plugin-Home : (cls : PluginClass) → Home (run_plugin env i cls v).1
      unfolding run_plugin update_enabled
      run_plugin-Home cls = ground arith

      load_class-Home : (l : Option ℕ) → Home (load_class env l v).1
      load_class-Home none = h
      load_class-Home (some l) =
          let s = load-Same env l v false in
          let (here, hit, away) = h in
          (kept (nat_eq a l) refl, ap (lookup old) s.paths ∙ hit, ap (lookup p) s.paths ∙ away)
        where
          kept :
              (b : Bool)
              → nat_eq a l ≡ b
              → ((Loader.load env l false v).1.loaders a).path ≡ some old
          kept true same =
              subst (λ k. ((Loader.load env l false v).1.loaders k).path ≡ (v.loaders k).path)
                (sym (nat_eq_sound a l same)) (load-Same env l v false).path
              ∙ h.0
          kept false other =
              ap (λ o. o.path) ((load-Same env l v false).others a (λ e. ground (arith, e, other)))
              ∙ h.0

      find_loader-Home : Home (find_loader env i v).1
      unfolding find_loader update_enabled
      find_loader-Home = ground arith

      find_client-Home : Home (find_client env i v).1
      unfolding find_client update_enabled Client.get Client.postinit
      find_client-Home = ground arith

      link-Home : Home (link env i v).1
      unfolding link enable_webapp get_instance_subapp
      link-Home = ground arith

    open_database-Home :
        (v : World) → Home v → (meta : PluginMeta) → Home (open_database env i meta v).1
    unfolding open_database
    open_database-Home v h meta = ground (
      arith,
      start_database-Home v h,
      update_enabled-Home (start_database env i true v).1 (start_database-Home v h) (some false),
    )

    configured-Home :
        (l : Option ℕ) (cls : PluginClass) (is_open : Bool)
        → Leads Home Home
            (if not is_open then skip else do read_base_config env i l cls; run_plugin env i cls)
    configured-Home l cls false = record { at = λ v h. h }
    configured-Home l cls true =
        Leads-bind (read_base_config env i l cls) _ (λ v h. h)
          (record { at = λ v h. read_base_config-Home v h l cls })
          λ _. record { at = λ v h. run_plugin-Home v h cls }

    start_with-Home :
        (l : Option ℕ)
        → Leads Home Home
            (do cls ← load_class env l; meta ← meta_of env l; start_plugin env i l cls meta)
    unfolding start_plugin
    start_with-Home l =
        Leads-bind (load_class env l) _ (λ v h. h) (record { at = λ v h. load_class-Home v h l })
          λ cls.
            Leads-bind (meta_of env l) _ (λ v h. h) (record { at = λ v h. ground arith })
              λ meta.
                Leads-bind (sync_webapp env i meta) _ (λ v h. h)
                  (record { at = λ v h. sync_webapp-Home v h meta })
                  λ _.
                    Leads-bind (open_database env i meta) _ (λ v h. h)
                      (record { at = λ v h. open_database-Home v h meta })
                      λ is_open. configured-Home l cls is_open

    start_loaded-Home : Leads Home Home (start_loaded env i)
    unfolding start_loaded
    start_loaded-Home = record { at = λ v h. (start_with-Home (v.instances i).loader).at v h }

    found-Home :
        (has_client : Bool)
        → Leads Home Home (if not has_client then pure false else (do link env i; pure true))
    found-Home false = record { at = λ v h. h }
    found-Home true =
        Leads-bind (link env i) _ (λ v h. h) (record { at = link-Home })
          λ _. record { at = λ v h. h }

    looked-Home :
        (has_loader : Bool)
        → Leads Home Home (
            if not has_loader then pure false else do
              has_client ← find_client env i
              if not has_client then pure false else do link env i; pure true)
    looked-Home false = record { at = λ v h. h }
    looked-Home true =
        Leads-bind (find_client env i) _ (λ v h. h) (record { at = find_client-Home }) found-Home

    load-Home : Leads Home Home (load env i)
    unfolding load
    load-Home =
        Leads-bind (find_loader env i) _ (λ v h. h) (record { at = find_loader-Home }) looked-Home

    started-Home : (ready : Bool) → Leads Home Home (if not ready then skip else start_loaded env i)
    started-Home false = record { at = λ v h. h }
    started-Home true = start_loaded-Home

    start-Home : (v : World) → Home v → Home (start env i v).1
    unfolding start
    start-Home v h = elim (Bool-cases (v.instances i).started) [
      | inl on ↦ rw on h
      | inr idle ↦ rw idle (elim (Bool-cases (v.instances i).enabled) [
        | inr off ↦ rw off h
        | inl able ↦
            rw able
              (elim (Bool-cases
                (is_some (v.instances i).client && is_some (v.instances i).loader)) [
                  | inl both ↦ rw both (start_loaded-Home.at v h)
                  | inr absent ↦
                      rw absent
                        ((Leads-bind (load env i) _ (λ v h. h) load-Home started-Home).at v h)
                ])
      ])
    ]

    stop-Home : (v : World) → Home v → Home (stop env i v).1
    unfolding stop stop_database
    stop-Home v h = ground arith

  -- All instances of a set.
  module _ (f : ℕ → Exec World ⊤) (keeps : (i : ℕ) (v : World) → Home v → Home (f i v).1) where
    gather-Home : (refs : RefSet) (v : World) → Home v → Home (gather f refs v).1
    unfolding gather
    gather-Home [] v h = h
    gather-Home ((_, i) ∷ refs) v h = gather-Home refs (f i v).1 (keeps i v h)

  pub gather-start-Home : (refs : RefSet) (v : World) → Home v → Home (gather (start env) refs v).1
  gather-start-Home = gather-Home (start env) start-Home

  pub gather-stop-Home : (refs : RefSet) (v : World) → Home v → Home (gather (stop env) refs v).1
  gather-stop-Home = gather-Home (stop env) stop-Home
