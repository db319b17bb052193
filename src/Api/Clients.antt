-- ===== src/Api/Clients.antt =====
-- maubot/management/api/client.py: the handlers for clients.
use maubot.Base.{
  ⊤, ℕ, String, Bool, true, false, ◌&&◌, not, Option, none, some, [], ◌==◌, if◌then◌else◌, truthy,
  opt_eq, is_empty, default, is_some,
}
use maubot.Base.Exec.{
  Exec, Result, ok, err, invalid_token, request_error, connection_error, mxid_mismatch,
  device_id_mismatch, other_error, pure, raise, attempt, when, ◌>>=◌, ◌>>◌,
}
use maubot.World.{World, Client, MatrixClient}
use maubot.World
use maubot.World.Env.{Env, WhoAmI, ask}
use maubot.Client
use maubot.Client.{client_at, modify_client, save, clear_cache}
use maubot.Client.Update.{
  update_enabled, update_autojoin, update_online, update_sync, update_displayname,
  update_avatar_url, update_access_details,
}
use maubot.Client.Lifecycle.{start, stop, update_started}
use maubot.Api.Responses.{Response}
use maubot.Api.Responses

-- The fields of the request body that the handlers read.
pub record ClientData : Type 0 where
  pub homeserver : Option String
  pub access_token : Option String
  pub device_id : Option String
  pub enabled : Option Bool
  pub started : Option Bool
  pub sync : Option Bool
  pub autojoin : Option Bool
  pub online : Option Bool
  pub displayname : Option String
  pub avatar_url : Option String

module _ (env : Env) where
  -- `MatrixClient(mxid=…, base_url=homeserver, token=access_token)`
  abbrev probe : ClientData → MatrixClient
  probe d = record {
    base_url = d.homeserver;
    token = d.access_token;
    device_id = none;
    event_handlers = [];
    event_middleware = [];
    presence_online = env.default_presence;
    ignore_initial_sync = false;
    ignore_first_sync = false;
    syncing = false;
    has_crypto = false;
  }

  -- The last part of `_create_client`: the settings, and the first start.
  unfoldable pub set_up : ℕ → ClientData → Exec World Response
  set_up a d = do
    modify_client a (λ c. record c {
      row = record (c.row) { enabled = default true d.enabled; sync = default true d.sync };
    })
    update_autojoin a (some (default true d.autojoin)) false
    update_online a (some (default true d.online)) false
    modify_client a (λ c. record c {
      row = record (c.row) {
        displayname = default "disable" d.displayname;
        avatar_url = default "disable" d.avatar_url;
      };
    })
    save a
    start env a 0
    pure Responses.created

  abbrev get_or_create : WhoAmI → ClientData → Exec World Response
  get_or_create who d = do
    hit ← Client.get env who.user_id d.homeserver d.access_token d.device_id
    elim hit [ none ↦ raise other_error | some a ↦ set_up a d ]

  -- `_create_client`, behind the answer to `whoami`
  abbrev create_as : Option String → ClientData → WhoAmI → Exec World Response
  create_as none d who = do
    existing ← Client.get env who.user_id none none none
    if is_some existing then pure Responses.user_exists else get_or_create who d
  create_as (some user_id) d who =
      if not (who.user_id == user_id)
      then pure (Responses.mxid_mismatch who.user_id)
      else if truthy who.device_id && truthy d.device_id && not (opt_eq who.device_id d.device_id)
      then pure (Responses.device_id_mismatch (default "" who.device_id))
      else get_or_create who d

  -- What a failed `whoami` of a client that is not known yet answers.
  abbrev create_checked : Option String → ClientData → Result WhoAmI → Exec World Response
  create_checked user_id d (ok who) = create_as user_id d who
  create_checked user_id d (err invalid_token) = pure Responses.bad_client_access_token
  create_checked user_id d (err request_error) = pure Responses.bad_client_access_details
  create_checked user_id d (err connection_error) = pure Responses.bad_client_connection_details
  create_checked user_id d (err e) = raise e

  -- `_create_client`
  unfoldable pub create_client : Option String → ClientData → Exec World Response
  create_client user_id d = do
    who ← attempt (ask World.whoami (env.whoami (probe d)))
    create_checked user_id d who

  -- The settings of `_update_client`.
  unfoldable pub apply_settings : ℕ → ClientData → Bool → Exec World Response
  apply_settings a d is_login = do
    update_avatar_url env a d.avatar_url false
    update_displayname env a d.displayname false
    update_started env a d.started
    update_enabled a d.enabled false
    update_autojoin a d.autojoin false
    update_online a d.online false
    update_sync a d.sync false
    save a
    pure (Responses.updated is_login)

  -- What follows `update_access_details`.
  abbrev update_checked : ℕ → ClientData → Bool → Result ⊤ → Exec World Response
  update_checked a d is_login (ok _) = apply_settings a d is_login
  update_checked a d is_login (err invalid_token) = pure Responses.bad_client_access_token
  update_checked a d is_login (err request_error) = pure Responses.bad_client_access_details
  update_checked a d is_login (err connection_error) = pure Responses.bad_client_connection_details
  update_checked a d is_login (err (mxid_mismatch found)) = pure (Responses.mxid_mismatch found)
  update_checked a d is_login (err (device_id_mismatch found)) =
      pure (Responses.device_id_mismatch found)
  update_checked a d is_login (err e) = raise e

  -- `_update_client`
  unfoldable pub update_client : ℕ → ClientData → Bool → Exec World Response
  update_client a d is_login = do
    r ← attempt (update_access_details env a d.access_token d.homeserver d.device_id)
    update_checked a d is_login r

  -- `_create_or_update_client`
  unfoldable pub create_or_update_client : String → ClientData → Bool → Exec World Response
  create_or_update_client user_id d is_login = do
    hit ← Client.get env user_id none none none
    elim hit [ none ↦ create_client (some user_id) d | some a ↦ update_client a d is_login ]

  -- `delete_client`
  unfoldable pub delete_client : String → Exec World Response
  delete_client user_id = do
    hit ← Client.get env user_id none none none
    elim hit [
      | none ↦ pure Responses.client_not_found
      | some a ↦ (do
        c ← client_at a
        if not (is_empty c.references)
            then pure Responses.client_in_use
            else do when c.started (stop env a); Client.delete env a; pure Responses.deleted)
    ]

  -- `clear_client_cache`
  unfoldable pub clear_client_cache : String → Exec World Response
  clear_client_cache user_id = do
    hit ← Client.get env user_id none none none
    elim hit [
      | none ↦ pure Responses.client_not_found
      | some a ↦ (do clear_cache a; pure Responses.ok_response)
    ]
