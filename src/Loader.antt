-- ===== src/Loader.antt =====
-- maubot/loader/zip.py and the id cache of maubot/loader/abc.py: the loaders of plugin archives.
-- Archives are read by the library `zipfile` and by lib/zipimport.py, a copy of CPython's
-- zipimport; their answers are those of the environment.
pub mod Files
pub mod Preload
pub mod Trashing
pub mod Steady
pub mod Caches
pub mod Runs
pub mod Rollback
pub mod Frame
use maubot.Base.{
  ⊤, ℕ, ◌+◌, String, Bool, true, false, ◌&&◌, ◌||◌, not, Option, none, some, List, [], ◌∷◌, ◌==◌,
  if◌then◌else◌, opt_eq, is_some, default,
}
use maubot.Base.Dict.{lookup, insert, erase, update, contains}
use maubot.Base.Exec.{
  Exec, Result, ok, err, zip_meta, zip_preload, zip_load, id_conflict, key_error, other_error, pure,
  raise, gets, attempt, reraise, modify, skip, when, ◌>>=◌, ◌>>◌,
}
use maubot.Base.Text.{before, after, mem, last, dots_to_slashes}
use maubot.World.{World, Loader, PluginMeta, PluginClass, Call}
use maubot.World.{open_importer, reset_cache, remove_cache, unload_modules}
use maubot.World.{get_code, find_module, main_class, load_module}
use maubot.World
use maubot.World.Env.{Env, ask, ask_value, tell}
use maubot.World.Access.{set_loader}
use maubot.Loader.Files.{trash}

abbrev pub loader_at : ℕ → Exec World Loader
loader_at a = gets (λ w. w.loaders a)

abbrev pub modify_loader : ℕ → (Loader → Loader) → Exec World ⊤
modify_loader a f = modify (λ w. set_loader a (f (w.loaders a)) w)

-- `PluginLoader.find`
unfoldable pub find : String → Exec World ℕ
find plugin_id = do
  hit ← gets (λ w. lookup plugin_id w.id_cache)
  elim hit [ none ↦ raise key_error | some a ↦ pure a ]

module _ (env : Env) where
  -- `_read_meta` of an archive with this content; `none` is a file that is not there.
  unfoldable pub read_meta : Option String → Result PluginMeta
  read_meta none = err zip_meta
  read_meta (some content) = elim (env.maubot_yaml content) [
    | none ↦ err zip_meta
    | some none ↦ err zip_meta
    | some (some definition) ↦ elim (env.yaml_load definition) [
      | none ↦ err zip_meta
      | some document ↦ elim (env.deserialize document) [
        | none ↦ err zip_meta
        | some meta ↦ if env.newer_than_maubot meta.maubot_version then err zip_meta else ok meta
      ]
    ]
  ]

  -- The main module and class that a definition names.
  abbrev split_main : PluginMeta → Option (String × String)
  split_main meta = elim (after b'/' meta.main_class) [
    | some rest ↦ some (before b'/' meta.main_class, before b'/' rest)
    | none ↦ elim (last meta.modules) [
      | some module_name ↦ some (module_name, meta.main_class)
      | none ↦ none
    ]
  ]

  abbrev set_main : ℕ → Option (String × String) → Exec World ⊤
  set_main a (some (module_name, class_name)) =
      modify_loader a
        (λ l. record l { main_module = some module_name; main_class = some class_name })
  set_main a none = raise other_error

  abbrev other_id : Option PluginMeta → PluginMeta → Bool
  other_id none meta = false
  other_id (some old) meta = not (meta.id == old.id)

  abbrev content_of : Option String → World → Option String
  content_of none w = none
  content_of (some path) w = lookup path w.files

  -- `_load_meta`
  unfoldable pub load_meta : ℕ → Exec World ⊤
  unfolding read_meta before after last
  load_meta a = do
    l ← loader_at a
    content ← gets (content_of l.path)
    meta ← reraise (read_meta content)
    if other_id l.meta meta then raise zip_meta else do
      modify_loader a (λ o. record o { meta = some meta })
      set_main a (split_main meta)
      modify_loader a (λ o. record o { file = content })

  -- `_get_importer`: the path of the archive that the importer reads
  unfoldable pub get_importer : ℕ → Bool → Exec World String
  get_importer a reset = do
    l ← loader_at a
    let path = default "" l.path
    let current = default "" l.importer
    opened ←
        if is_some l.importer && current == path
        then pure true
        else ask_value (open_importer path) (env.open_importer path)
    if not opened then raise zip_meta else do
      modify_loader a (λ o. record o { importer = some path })
      again ← if reset then ask_value (reset_cache path) (env.reset_cache path) else pure true
      if again then pure path else raise zip_meta

  -- The loop over `self.meta.modules`.
  unfoldable pub find_modules : String → List String → Exec World ⊤
  find_modules path [] = skip
  find_modules path (m ∷ ms) = do
    there ← ask_value (find_module m) (env.has_module path m)
    if there then find_modules path ms else (do tell (remove_cache path); raise zip_preload)

  abbrev fail_preload : String → Exec World ⊤
  fail_preload path = do tell (remove_cache path); raise zip_preload

  -- `_run_preload_checks`
  unfoldable pub run_preload_checks : ℕ → String → Exec World ⊤
  unfolding find_modules dots_to_slashes mem
  run_preload_checks a path = do
    l ← loader_at a
    let module_name = dots_to_slashes (default "" l.main_module)
    code ← ask_value (get_code module_name) (env.get_code path module_name)
    elim code [
      | none ↦ fail_preload path
      | some names ↦
          if not (mem (default "" l.main_class) names)
          then fail_preload path
          else elim l.meta [ none ↦ raise other_error | some meta ↦ find_modules path meta.modules ]
    ]

  abbrev new_loader : String → Loader
  new_loader path = record {
    path = some path;
    meta = none;
    main_class = none;
    main_module = none;
    loaded = none;
    importer = none;
    file = none;
    references = [];
  }

  -- The registration that ends `ZippedPluginLoader.__init__`.
  abbrev register : ℕ → String → String → Exec World ⊤
  register a path plugin_id = do
    existing ← gets (λ w. lookup plugin_id w.id_cache)
    elim existing [
      | some _ ↦ raise id_conflict
      | none ↦ modify (λ w. record w {
        path_cache = insert path a w.path_cache;
        id_cache = insert plugin_id a w.id_cache;
      })
    ]

  -- `ZippedPluginLoader.__init__`, of the object at a fresh address
  unfoldable pub init : String → Exec World ℕ
  init path = do
    a ← gets (λ w. w.next_loader)
    modify (λ w. record w {
      loaders = update w.loaders a (new_loader path);
      next_loader = w.next_loader + 1;
    })
    load_meta a
    importer ← get_importer a false
    run_preload_checks a importer
    l ← loader_at a
    elim l.meta [ none ↦ raise other_error | some meta ↦ register a path meta.id ]
    pure a

  -- `ZippedPluginLoader.get`
  unfoldable pub get : String → Exec World ℕ
  get given = do
    let path = env.abspath given
    hit ← gets (λ w. lookup path w.path_cache)
    elim hit [ some a ↦ pure a | none ↦ init path ]

  -- The loop of `_load` over the modules: whatever goes wrong, the load fails.
  unfoldable pub load_modules : String → List String → Exec World ⊤
  load_modules path [] = skip
  load_modules path (m ∷ ms) = do
    r ← attempt (ask (load_module m) (env.load_module path m))
    elim r [ ok _ ↦ load_modules path ms | err _ ↦ (do tell (remove_cache path); raise zip_load) ]

  -- `_load`; `env.main_class` raises unless the class is there and extends `Plugin`
  unfoldable pub import_main : ℕ → String → Exec World PluginClass
  import_main a path = do
    l ← loader_at a
    let name = default "" l.main_class
    r ← attempt (ask (main_class name) (env.main_class path name))
    elim r [
      | err _ ↦ (do tell (remove_cache path); raise zip_load)
      | ok plugin ↦ (do modify_loader a (λ o. record o { loaded = some plugin }); pure plugin)
    ]

  abbrev import_modules : String → Option PluginMeta → Exec World ⊤
  import_modules path none = raise other_error
  import_modules path (some meta) = load_modules path meta.modules

  unfoldable pub load_again : ℕ → Bool → Exec World PluginClass
  unfolding import_main
  load_again a reset = do
    load_meta a
    importer ← get_importer a reset
    run_preload_checks a importer
    l ← loader_at a
    import_modules importer l.meta
    import_main a importer

  unfoldable pub load : ℕ → Bool → Exec World PluginClass
  load a reset = do
    l ← loader_at a
    elim l.loaded [
      | none ↦ load_again a reset
      | some plugin ↦ if reset then load_again a true else pure plugin
    ]

  -- `_unload`; its last line logs the id, which `None` does not have
  unfoldable pub unload : ℕ → Exec World ⊤
  unload a = do
    l ← loader_at a
    tell (unload_modules (default "" l.path))
    modify_loader a (λ o. record o { loaded = none })
    when (not (is_some l.meta)) (raise other_error)

  -- The move of `reload` to another archive.
  unfoldable pub move_to : ℕ → Option String → Exec World ⊤
  move_to a none = skip
  move_to a (some new_path) = do
    l ← loader_at a
    if opt_eq (some new_path) l.path then skip else do
      modify (λ w. record w {
        path_cache = insert new_path a (erase (default "" l.path) w.path_cache);
      })
      modify_loader a (λ o. record o { path = some new_path })

  -- `reload`
  unfoldable pub reload : ℕ → Option String → Exec World PluginClass
  reload a new_path = do unload a; move_to a new_path; load a true

  -- `delete`, behind `_unload`
  unfoldable pub forget : ℕ → Exec World ⊤
  forget a = do
    l ← loader_at a
    modify (λ w. record w { path_cache = erase (default "" l.path) w.path_cache })
    elim l.meta [
      | none ↦ raise other_error
      | some meta ↦ modify (λ w. record w { id_cache = erase meta.id w.id_cache })
    ]
    when (is_some l.importer) (tell (remove_cache (default "" l.importer)))
    modify_loader a (λ o. record o { importer = none; loaded = none })
    trash env (default "" l.path) "delete"
    modify_loader a (λ o. record o { meta = none; path = none })

  -- `delete`
  unfoldable pub delete : ℕ → Exec World ⊤
  delete a = do unload a; forget a
