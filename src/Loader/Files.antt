-- ===== src/Loader/Files.antt =====
-- `ZippedPluginLoader.trash` of maubot/loader/zip.py: removing or moving away a file.
use maubot.Base.{⊤, String, ◌==◌, Option, none, some, if◌then◌else◌}
use maubot.Base.Dict.{lookup, insert, erase}
use maubot.Base.Exec.{Exec, other_error, gets, modify, raise, skip, ◌>>=◌}
use maubot.World.{World, rename}
use maubot.World.Env.{Env, ask_value}

module _ (env : Env) where
  -- os.remove: a file that is not there is passed over, any other error comes out.
  abbrev remove_present : String → Option String → Exec World ⊤
  remove_present path none = skip
  remove_present path (some content) = do
    works ← gets (λ w. env.remove_works path w.trace)
    if works then modify (λ w. record w { files = erase path w.files }) else raise other_error

  abbrev remove_file : String → Exec World ⊤
  remove_file path = do content ← gets (λ w. lookup path w.files); remove_present path content

  -- os.rename; it fails on a missing file, and where the environment says so
  abbrev move_file : String → String → Option String → Exec World ⊤
  move_file path target none = remove_file path
  move_file path target (some content) = do
    works ← ask_value (rename path) env.rename_works
    if works
        then modify (λ w. record w { files = insert target content (erase path w.files) })
        else remove_file path

  unfoldable pub trash : String → String → Exec World ⊤
  trash path reason = if env.trash_path == "delete" then remove_file path else (do
    target ← gets (λ w. env.trash_name path reason w.trace)
    content ← gets (λ w. lookup path w.files)
    move_file path target content)
