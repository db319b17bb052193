-- ===== src/Loader/Preload.antt =====
-- `load_all` of maubot/loader/zip.py: the archives that are there when the program starts.
use maubot.Base.{⊤, ℕ, String, Bool, true, false, List, [], ◌∷◌, not, if◌then◌else◌}
use maubot.Base.Exec.{
  Exec, Result, Exc, ok, err, zip_meta, zip_preload, zip_load, id_conflict, raise, attempt, skip,
  ◌>>=◌, ◌>>◌,
}
use maubot.Base.Text.{append, ends_with}
use maubot.Base.{◌≡◌, ◌≢◌, none}
use maubot.Base.Dict.{lookup}
use maubot.World.{Call}
use maubot.Loader.Trashing.{trash_gone}
use maubot.World.{World}
use maubot.World
use maubot.World.Env.{Env, ask_value}
use maubot.Loader
use maubot.Loader.Files.{trash}

-- `except MaubotZipImportError`, `except IDConflictError`
abbrev pub is_trashed : Exc → Bool
is_trashed zip_meta = true
is_trashed zip_preload = true
is_trashed zip_load = true
is_trashed id_conflict = true
is_trashed _ = false

module _ (env : Env) where
  abbrev preloaded : String → Result ℕ → Exec World ⊤
  preloaded path (ok _) = skip
  preloaded path (err e) = if is_trashed e then trash env path "error" else raise e

  -- One file of a directory; the name of a directory ends in a slash.
  unfoldable pub load_file : String → String → Exec World ⊤
  unfolding append ends_with
  load_file directory file = if not (ends_with file ".mbp") then skip else (do
    r ← attempt (Loader.get env (env.abspath (append directory file)))
    preloaded (env.abspath (append directory file)) r)

  unfoldable pub load_files : String → List String → Exec World ⊤
  load_files directory [] = skip
  load_files directory (file ∷ files) = do load_file directory file; load_files directory files

  -- `load_all`
  unfoldable pub load_all : List String → Exec World ⊤
  load_all [] = skip
  load_all (directory ∷ directories) = do
    files ← ask_value (World.list_directory directory) (env.list_directory directory)
    load_files directory files
    load_all directories

-- An archive that cannot be read, does not load, or has the id of another plugin does not stop the
-- start of the program: the file is trashed and gone from its path, and the caches are those that
-- the failed lookup left. This is where the trash does not keep the file at its path, and
-- the file can be removed.
pub load_file_trashes :
    (env : Env) (directory file : String) (w : World) (e : Exc)
    → let path = env.abspath (append directory file) in
      let w₁ = (Loader.get env path w).1 in
      let w' = (load_file env directory file w).1 in
      ends_with file ".mbp" ≡ true
      → (Loader.get env path w).0 ≡ err e
      → is_trashed e ≡ true
      → ((t : List Call) → env.trash_name path "error" t ≢ path)
      → ((t : List Call) → env.remove_works path t ≡ true)
      → ((load_file env directory file w).0 ≡ ok tt)
        × (lookup path w'.files ≡ none)
        × (w'.id_cache ≡ w₁.id_cache)
        × (w'.path_cache ≡ w₁.path_cache)
unfolding load_file
load_file_trashes env directory file w e is_archive failed broken moved removable =
    let path = env.abspath (append directory file) in
    let w₁ : World = (Loader.get env path w).1 in
    rw (is_archive, failed, broken) (trash_gone env path "error" w₁ (moved w₁.trace) removable)
