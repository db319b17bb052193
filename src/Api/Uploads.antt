-- ===== src/Api/Uploads.antt =====
-- maubot/management/api/plugin_upload.py: the handlers of uploads, in front of `upload_new_plugin`
-- and `upload_replacement_plugin`. Every loader is a `ZippedPluginLoader`.
use maubot.Base.{String, Bool, true, false, ◌&&◌, not, none, some, ◌==◌, if◌then◌else◌}
use maubot.Base.Dict.{lookup}
use maubot.Base.Exec.{Exec, Result, ok, err, pure, raise, gets, ◌>>=◌}
use maubot.Base.Text.{append}
use maubot.World.{World, PluginMeta, DatabaseType, sqlalchemy}
use maubot.World.Env.{Env}
use maubot.Loader.{read_meta}
use maubot.Api.Responses.{Response}
use maubot.Api.Responses
use maubot.Api.Plugins.{is_zip_error, upload_new_plugin, upload_replacement_plugin}

abbrev is_sqlalchemy : DatabaseType → Bool
is_sqlalchemy sqlalchemy = true
is_sqlalchemy _ = false

-- The configuration and the request, as far as the handlers read them.
pub record Upload : Type 0 where
  -- `plugin_directories.upload`, with a slash at its end
  pub directory : String
  pub content : String
  -- whether the query has a value for allow_override
  pub allow_override : Bool
  -- whether sqlalchemy can be imported
  pub has_alchemy : Bool
  -- the path that the name of the old archive and the new version make
  pub replacement_path : String

module _ (env : Env) where
  -- the path of a new archive: {id}-v{version}.mbp in the upload directory
  unfoldable pub new_path : Upload → PluginMeta → String
  unfolding append
  new_path u meta = append u.directory (append meta.id (append "-v" (append meta.version ".mbp")))

  abbrev pub lacks_alchemy : Upload → PluginMeta → Bool
  lacks_alchemy u meta = meta.database && is_sqlalchemy meta.database_type && not u.has_alchemy

  -- the part of `put_plugin` behind `verify_meta`
  abbrev put_checked : String → Upload → PluginMeta → Exec World Response
  put_checked plugin_id u meta =
      if lacks_alchemy u meta
      then pure Responses.sqlalchemy_not_installed
      else if not (meta.id == plugin_id)
      then pure Responses.pid_mismatch
      else (do
        hit ← gets (λ w. lookup plugin_id w.id_cache)
        elim hit [
          | none ↦ upload_new_plugin env u.content (new_path u meta)
          | some a ↦ upload_replacement_plugin env a u.content u.replacement_path
        ])

  -- What a definition that cannot be read answers.
  abbrev verified : Result PluginMeta → (PluginMeta → Exec World Response) → Exec World Response
  verified (ok meta) k = k meta
  verified (err e) k = if is_zip_error e then pure Responses.plugin_import_error else raise e

  -- `put_plugin`
  unfoldable pub put_plugin : String → Upload → Exec World Response
  put_plugin plugin_id u = verified (read_meta env (some u.content)) (put_checked plugin_id u)

  abbrev upload_checked : Upload → PluginMeta → Exec World Response
  upload_checked u meta =
      if lacks_alchemy u meta then pure Responses.sqlalchemy_not_installed else (do
        hit ← gets (λ w. lookup meta.id w.id_cache)
        elim hit [
          | none ↦ upload_new_plugin env u.content (new_path u meta)
          | some a ↦
              if not u.allow_override
              then pure Responses.plugin_exists
              else upload_replacement_plugin env a u.content u.replacement_path
        ])

  -- `upload_plugin`
  unfoldable pub upload_plugin : Upload → Exec World Response
  upload_plugin u = verified (read_meta env (some u.content)) (upload_checked u)
