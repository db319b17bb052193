-- ===== src/Api/Instances.antt =====
-- maubot/management/api/instance.py: the handlers for plugin instances. The id of the path is
-- taken in lower case.
use maubot.Base.{
  ℕ, String, Bool, true, false, not, Option, none, some, if◌then◌else◌, truthy, default, is_some,
}
use maubot.Base.Dict.{contains}
use maubot.Base.Exec.{Exec, other_error, pure, raise, gets, when, ◌>>=◌, ◌>>◌}
use maubot.World.{World}
use maubot.World.Env.{Env}
use maubot.Client
use maubot.Instance
use maubot.Instance.Stores
use maubot.Instance.{instance_at, modify_instance, save, with_row, update_enabled, load}
use maubot.Instance.Lifecycle.{start, stop}
use maubot.Instance.Update.{
  update_id, update_config, update_primary_user, update_type, update_started,
}
use maubot.Api.Responses.{Response}
use maubot.Api.Responses

-- The fields of the request body that the handlers read.
pub record InstanceData : Type 0 where
  pub id : Option String
  pub type : Option String
  pub enabled : Option Bool
  pub started : Option Bool
  pub primary_user : Option String
  pub config : Option String

module _ (env : Env) where
  -- The end of `_create_instance`.
  unfoldable pub set_up : ℕ → InstanceData → Exec World Response
  set_up a d = do
    modify_instance a (
        with_row
          (λ r. record r { enabled = default true d.enabled; config_str = default "" d.config }))
    save a
    _ ← load env a
    start env a
    pure Responses.created

  -- `_create_instance`
  unfoldable pub create_instance : String → InstanceData → Exec World Response
  create_instance instance_id d =
      if not (truthy d.type)
      then pure Responses.plugin_type_required
      else if not (truthy d.primary_user)
      then pure Responses.primary_user_required
      else (do
        user ← Client.get env (default "" d.primary_user) none none none
        known ← gets (λ w. contains (default "" d.type) w.id_cache)
        if not (is_some user)
            then pure Responses.primary_user_not_found
            else if not known
            then pure Responses.plugin_type_not_found
            else do
              hit ← Instance.get instance_id d.type d.primary_user
              elim hit [ none ↦ raise other_error | some a ↦ set_up a d ])

  -- `_update_instance`
  unfoldable pub update_instance_with : ℕ → InstanceData → Exec World Response
  update_instance_with a d = do
    found ← update_primary_user env a d.primary_user
    if not found then pure Responses.primary_user_not_found else do
      update_id env a d.id
      update_enabled a d.enabled
      update_config env a d.config
      update_started env a d.started
      _ ← update_type env a d.type
      pure (Responses.updated false)

  -- `update_instance`; no data is a body that is not JSON
  unfoldable pub update_instance : String → Option InstanceData → Exec World Response
  update_instance path_id body = do
    hit ← Instance.get (env.lower path_id) none none
    elim body [
      | none ↦ pure Responses.body_not_json
      | some d ↦ elim hit [
        | none ↦ create_instance (env.lower path_id) d
        | some a ↦ update_instance_with a d
      ]
    ]

  -- `delete_instance`
  unfoldable pub delete_instance : String → Exec World Response
  delete_instance path_id = do
    hit ← Instance.get (env.lower path_id) none none
    elim hit [
      | none ↦ pure Responses.instance_not_found
      | some a ↦ (do
        i ← instance_at a
        when i.started (stop env a)
        Stores.delete env a
        pure Responses.deleted)
    ]
