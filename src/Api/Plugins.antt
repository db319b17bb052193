-- ===== src/Api/Plugins.antt =====
-- maubot/management/api/plugin.py and plugin_upload.py: the handlers for plugins, and the upload
-- of new and replacement archives.
use maubot.Base.{
  ⊤, ℕ, String, Bool, true, false, not, Option, none, some, if◌then◌else◌, is_empty, default,
}
use maubot.Base.Dict.{lookup, insert}
use maubot.Base.Exec.{
  Exc, Exec, Result, ok, err, zip_meta, zip_preload, zip_load, pure, raise, gets, attempt, modify,
  ◌>>=◌, ◌>>◌,
}
use maubot.World.{World}
use maubot.World.Env.{Env}
use maubot.World.Gather.{gather, select}
use maubot.Loader
use maubot.Loader.{loader_at, read_meta, reload}
use maubot.Loader.Files.{trash}
use maubot.Instance.Lifecycle.{start, stop}
use maubot.Api.Responses.{Response}
use maubot.Api.Responses

-- `except MaubotZipImportError`
abbrev pub is_zip_error : Exc → Bool
is_zip_error zip_meta = true
is_zip_error zip_preload = true
is_zip_error zip_load = true
is_zip_error _ = false

module _ (env : Env) where
  -- `stop_instances`, `start_instances` of loader/abc.py
  unfoldable pub stop_instances : ℕ → Exec World ⊤
  stop_instances a = do
    refs ← gets (λ w. select (λ i. (w.instances i).started) (w.loaders a).references)
    gather (stop env) refs

  unfoldable pub start_instances : ℕ → Exec World ⊤
  start_instances a = do
    refs ← gets (λ w. select (λ i. (w.instances i).enabled) (w.loaders a).references)
    gather (start env) refs

  -- `delete_plugin`
  unfoldable pub delete_plugin : String → Exec World Response
  delete_plugin plugin_id = do
    hit ← gets (λ w. lookup plugin_id w.id_cache)
    elim hit [
      | none ↦ pure Responses.plugin_not_found
      | some a ↦ (do
        l ← loader_at a
        if not (is_empty l.references)
            then pure Responses.plugin_in_use
            else do Loader.delete env a; pure Responses.deleted)
    ]

  abbrev reloaded : {A : Type 0} → ℕ → Result A → Exec World Response
  reloaded a (ok _) = do start_instances a; pure Responses.ok_response
  reloaded a (err e) = if is_zip_error e then pure Responses.plugin_reload_error else raise e

  -- `reload_plugin`
  unfoldable pub reload_plugin : String → Exec World Response
  reload_plugin plugin_id = do
    hit ← gets (λ w. lookup plugin_id w.id_cache)
    elim hit [
      | none ↦ pure Responses.plugin_not_found
      | some a ↦ (do stop_instances a; r ← attempt (reload env a none); reloaded a r)
    ]

  abbrev registered : String → Result ℕ → Exec World Response
  registered path (ok _) = pure Responses.created
  registered path (err e) =
      if is_zip_error e
      then (do trash env path "error"; pure Responses.plugin_import_error)
      else raise e

  -- `upload_new_plugin`, to the path that the id and the version make
  unfoldable pub upload_new_plugin : String → String → Exec World Response
  upload_new_plugin content path = do
    modify (λ w. record w { files = insert path content w.files })
    r ← attempt (Loader.get env path)
    registered path r

  -- The first roll back of `upload_replacement_plugin`: the new archive would not load.
  abbrev pub roll_back_load : ℕ → Option String → Exec World ⊤
  roll_back_load a old_path = do _ ← reload env a old_path; start_instances a

  -- What is not caught comes out behind the `finally`.
  abbrev pub rolled_back : Result ⊤ → Exec World Response
  rolled_back (ok _) = pure Responses.plugin_import_error
  rolled_back (err e) = if is_zip_error e then pure Responses.plugin_import_error else raise e

  abbrev pub after_load_failure : ℕ → String → Option String → Exec World Response
  after_load_failure a path old_path = do
    r ← attempt (roll_back_load a old_path)
    trash env path "failed_update"
    rolled_back r

  -- The second one: the instances would not start.
  abbrev roll_back_start : ℕ → Option String → Exec World ⊤
  roll_back_start a old_path = do stop_instances a; _ ← reload env a old_path; start_instances a

  abbrev after_start_failure : ℕ → String → Option String → Exec World Response
  after_start_failure a path old_path = do
    _ ← attempt (roll_back_start a old_path)
    trash env path "failed_update"
    pure Responses.plugin_reload_error

  abbrev after_start : ℕ → String → Option String → Result ⊤ → Exec World Response
  after_start a path old_path (ok _) = do
    trash env (default "" old_path) "update"
    pure (Responses.updated false)
  after_start a path old_path (err e) = after_start_failure a path old_path

  abbrev pub after_reload :
      {A : Type 0} → ℕ → String → Option String → Result A → Exec World Response
  after_reload a path old_path (ok _) = do
    r ← attempt (start_instances a)
    after_start a path old_path r
  after_reload a path old_path (err e) =
      if is_zip_error e then after_load_failure a path old_path else raise e

  -- `upload_replacement_plugin`, to the path that the old name and the new version make
  unfoldable pub upload_replacement_plugin : ℕ → String → String → Exec World Response
  upload_replacement_plugin a content path = do
    modify (λ w. record w { files = insert path content w.files })
    l ← loader_at a
    stop_instances a
    r ← attempt (reload env a (some path))
    after_reload a path l.path r
