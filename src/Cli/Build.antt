-- ===== src/Cli/Build.antt =====
-- maubot/cli/commands/build.py: what goes into an archive, where it is written, and what is removed
-- for it.
use maubot.Base.{
  true, false, String, Bool, not, ◌&&◌, ◌||◌, Option, none, some, List, [], ◌∷◌, ◌++◌,
  if◌then◌else◌, truthy, default,
}
use maubot.Base.Text.{append}
use maubot.World.{PluginMeta}

-- The file system from a working directory at some moment, the user, and what is not in this
-- repository: os.path and glob.
pub record Disk : Type 0 where
  pub exists : String → Bool
  pub is_file : String → Bool
  pub is_dir : String → Bool
  pub walk : String → List String
  pub glob : String → List String
  pub join : String → String → String
  pub abspath : String → String
  pub cwd : String
  -- the answer to "… exists, override?", or none where the question is broken off
  pub override : String → Option Bool
  -- whether os.remove works
  pub removable : String → Bool

-- The three ways in which read_meta can fail, or the metadata.
pub data MetaFile : Type 0 where
  missing not_yaml not_valid : MetaFile
  valid : PluginMeta → MetaFile

unfoldable pub read_meta : MetaFile → Option PluginMeta
read_meta (valid meta) = some meta
read_meta _ = none

-- The members of an archive.
pub data Entry : Type 0 where
  maubot_yaml : PluginMeta → Entry
  file : String → Entry

unfoldable pub as_files : List String → List Entry
as_files [] = []
as_files (p ∷ ps) = file p ∷ as_files ps

-- The path to write to and the file that was removed for it; or the user does not want it written, or
-- an exception ends the command.
pub data Output : Type 0 where
  to : String → (removed : Option String) → Output
  declined failed : Output

-- What the command has done.
pub data Outcome : Type 0 where
  stopped broken_off : Outcome
  to_file : String → List Entry → (removed : Option String) → (uploaded : Bool) → Outcome
  to_memory : List Entry → Outcome

-- `extra_files` is the field of the metadata that names patterns of other files.
module _ (d : Disk) (extra_files : PluginMeta → List String) where
  unfoldable pub file_name : PluginMeta → String
  file_name meta = append meta.id (append "-v" (append meta.version ".mbp"))

  -- The question, and os.remove.
  unfoldable pub replace : Option Bool → String → Output
  replace none path = failed
  replace (some false) path = declined
  replace (some true) path = if d.removable path then to (d.abspath path) (some path) else failed

  unfoldable pub read_output_path : Option String → PluginMeta → Output
  unfolding file_name replace
  read_output_path output meta =
      let path = default "" output in
      if not (truthy output)
      then to (d.abspath (d.join d.cwd (file_name meta))) none
      else if d.is_dir path
      then to (d.abspath (d.join path (file_name meta))) none
      else if d.exists path
      then replace (d.override path) path
      else to (d.abspath path) none

  -- zipdir, and one round of the loop over the modules
  unfoldable pub module_entries : String → List Entry
  unfolding as_files
  module_entries m =
      if d.is_file (append m ".py")
      then file (append m ".py") ∷ []
      else if d.is_dir m && d.is_file (append m "/__init__.py")
      then as_files (d.walk m)
      else []

  unfoldable pub all_modules : List String → List Entry
  unfolding module_entries
  all_modules [] = []
  all_modules (m ∷ ms) = module_entries m ++ all_modules ms

  unfoldable pub all_extra : List String → List Entry
  unfolding as_files
  all_extra [] = []
  all_extra (pattern ∷ patterns) = as_files (d.glob pattern) ++ all_extra patterns

  unfoldable pub write_plugin : PluginMeta → List Entry
  unfolding all_modules all_extra
  write_plugin meta = maubot_yaml meta ∷ (all_modules meta.modules ++ all_extra (extra_files meta))

-- `view` is the file system from a working directory, once a file was removed and one was opened to be
-- written, `cwd` the directory that the command starts in, and `path` the root of the plugin, which it
-- goes to before it writes.
module _ (view : String → (removed written : Option String) → Disk) (cwd path : String)
    (extra_files : PluginMeta → List String) where
  unfoldable pub write_to : Output → PluginMeta → Bool → Outcome
  unfolding write_plugin
  write_to declined meta upload = stopped
  write_to failed meta upload = broken_off
  write_to (to output removed) meta upload =
      to_file output (write_plugin (view path removed (some output)) extra_files meta) removed
        upload

  unfoldable pub build_plugin : Option PluginMeta → Option String → Bool → Outcome
  unfolding read_output_path write_to write_plugin
  build_plugin none output upload = stopped
  build_plugin (some meta) output upload =
      if truthy output || not upload
      then write_to (read_output_path (view cwd none none) extra_files output meta) meta upload
      else to_memory (write_plugin (view path none none) extra_files meta)

  unfoldable pub build : MetaFile → Option String → Bool → Outcome
  unfolding read_meta build_plugin
  build meta_file = build_plugin (read_meta meta_file)
