-- ===== src/Api/Refusals.antt =====
-- Uploads that are refused.
use maubot.Base.{◌≡◌, ◌≢◌, ◌⊎◌, String, true, false, some, arith, eq_iff}
use maubot.Base.Exec.{ok}
use maubot.Base.Dict.{contains}
use maubot.World.{World, PluginMeta}
use maubot.World.Env.{Env}
use maubot.Loader.{read_meta}
use maubot.Api.Responses
use maubot.Api.Uploads.{Upload, put_plugin, upload_plugin, lacks_alchemy}

module _ (env : Env) (u : Upload) (meta : PluginMeta) (w : World)
    (read : read_meta env (some u.content) ≡ ok meta) where
  -- An upload of an archive whose definition can be read, without the leave to replace a plugin,
  -- changes nothing if a plugin with its id is there; and an upload to the path of one id changes
  -- nothing if the archive has another id. The answer names the reason, or that the archive needs
  -- SQLAlchemy where it is not installed.
  pub upload_refuses :
      (id : String)
      → contains meta.id w.id_cache ≡ true
      → u.allow_override ≡ false
      → meta.id ≢ id
      → let (r, w₁) = upload_plugin env u w in
        let (s, w₂) = put_plugin env id u w in
        (w₁ ≡ w)
        × (w₂ ≡ w)
        × (((lacks_alchemy env u meta ≡ true)
              × (r ≡ ok Responses.sqlalchemy_not_installed)
              × (s ≡ ok Responses.sqlalchemy_not_installed))
            ⊎ ((lacks_alchemy env u meta ≡ false)
                × (r ≡ ok Responses.plugin_exists)
                × (s ≡ ok Responses.pid_mismatch)))
  unfolding upload_plugin put_plugin
  upload_refuses id there kept other = ground (arith, eq_iff meta.id id)
