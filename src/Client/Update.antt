-- ===== src/Client/Update.antt =====
-- The `update_*` methods of maubot/client.py that change one setting. `save` says whether the row
-- is written back at once.
use maubot.Base.{
  ⊤, ℕ, String, Bool, true, false, ◌&&◌, not, Option, none, some, List, [], ◌∷◌, ◌++◌, ◌==◌,
  if◌then◌else◌, bool_eq, truthy, opt_eq,
}
use maubot.Base.Exec.{Exec, mxid_mismatch, device_id_mismatch, raise, skip, when, ◌>>=◌, ◌>>◌}
use maubot.World.{World, Client, MatrixClient, Handler}
use maubot.World.{otk_count, device_lists, to_device_encrypted, room_key_request, crypto_member}
use maubot.World.{invite, set_displayname, set_avatar_url}
use maubot.World
use maubot.World.Env.{Env, WhoAmI, ask}
use maubot.Client.{
  client_at, modify_client, modify_matrix, save, start_sync, stop_sync, update_remote_profile,
  make_client, enable_crypto, prepare_crypto, start_crypto,
}

abbrev pub set_enabled : Bool → Client → Client
set_enabled b c = record c { row = record (c.row) { enabled = b } }

-- `update_enabled`
unfoldable pub update_enabled : ℕ → Option Bool → Bool → Exec World ⊤
update_enabled a none keep = skip
update_enabled a (some b) keep = do
  c ← client_at a
  if bool_eq b c.enabled then skip else do modify_client a (set_enabled b); when keep (save a)

unfoldable pub is_invite : Handler → Bool
is_invite invite = true
is_invite _ = false

-- `_remove_crypto_event_handlers` removes these.
is_crypto_handler : Handler → Bool
is_crypto_handler otk_count = true
is_crypto_handler device_lists = true
is_crypto_handler to_device_encrypted = true
is_crypto_handler room_key_request = true
is_crypto_handler crypto_member = true
is_crypto_handler _ = false

-- The handlers that stay when those that pass the test are removed.
unfoldable pub without : (Handler → Bool) → List Handler → List Handler
without p [] = []
without p (h ∷ hs) = let rest = without p hs in if p h then rest else h ∷ rest

-- `update_autojoin`
unfoldable pub update_autojoin : ℕ → Option Bool → Bool → Exec World ⊤
unfolding is_invite without
update_autojoin a none keep = skip
update_autojoin a (some b) keep = do
  c ← client_at a
  if bool_eq b c.autojoin then skip else do
    modify_matrix a (λ m. record m {
      event_handlers =
          if b then m.event_handlers ++ invite ∷ [] else without is_invite m.event_handlers;
    })
    modify_client a (λ o. record o { row = record (o.row) { autojoin = b } })
    when keep (save a)

-- `update_online`
unfoldable pub update_online : ℕ → Option Bool → Bool → Exec World ⊤
update_online a none keep = skip
update_online a (some b) keep = do
  c ← client_at a
  if bool_eq b c.online then skip else do
    modify_matrix a (λ m. record m { presence_online = b })
    modify_client a (λ o. record o { row = record (o.row) { online = b } })
    when keep (save a)

-- `update_sync`
unfoldable pub update_sync : ℕ → Option Bool → Bool → Exec World ⊤
update_sync a none keep = skip
update_sync a (some b) keep = do
  c ← client_at a
  if bool_eq c.sync b then skip else do
    modify_client a (λ o. record o { row = record (o.row) { sync = b } })
    when c.started (if b then start_sync a else stop_sync a)
    when keep (save a)

module _ (env : Env) where
  -- `update_displayname`
  unfoldable pub update_displayname : ℕ → Option String → Bool → Exec World ⊤
  update_displayname a none keep = skip
  update_displayname a (some name) keep = do
    c ← client_at a
    if name == c.displayname then skip else do
      modify_client a (λ o. record o { row = record (o.row) { displayname = name } })
      m ← client_at a
      if not (name == "disable")
          then ask (World.set_displayname name) (env.set_displayname m.client name)
          else update_remote_profile env a
      when keep (save a)

  -- `update_avatar_url`
  unfoldable pub update_avatar_url : ℕ → Option String → Bool → Exec World ⊤
  update_avatar_url a none keep = skip
  update_avatar_url a (some url) keep = do
    c ← client_at a
    if url == c.avatar_url then skip else do
      modify_client a (λ o. record o { row = record (o.row) { avatar_url = url } })
      m ← client_at a
      if not (url == "disable")
          then ask (World.set_avatar_url url) (env.set_avatar_url m.client url)
          else update_remote_profile env a
      when keep (save a)

  -- The test of `whoami` against the client in `update_access_details`.
  check_identity : Client → Option String → WhoAmI → Exec World ⊤
  check_identity c device_id w =
      if not (w.user_id == c.id) then raise (mxid_mismatch w.user_id) else elim w.device_id [
        | none ↦ skip
        | some d ↦
            if truthy (some d) && truthy device_id && not (opt_eq (some d) device_id)
            then raise (device_id_mismatch d)
            else skip
      ]

  -- `_remove_crypto_event_handlers`
  abbrev remove_crypto_event_handlers : Client → Client
  remove_crypto_event_handlers c = if not c.crypto then c else record c {
    client = record (c.client) {
      event_handlers = without is_crypto_handler c.client.event_handlers;
    };
  }

  -- The switch to the new Matrix client, once the server has confirmed who it is.
  abbrev switch_client :
      MatrixClient → Option String → Option String → Option String → Client → Client
  switch_client m access_token homeserver device_id c = record c {
    client = record m { event_handlers = (remove_crypto_event_handlers c).client.event_handlers };
    row = record (c.row) {
      homeserver = homeserver;
      access_token = access_token;
      device_id = device_id;
    };
  }

  -- `update_access_details`
  unfoldable pub update_access_details :
      ℕ → Option String → Option String → Option String → Exec World ⊤
  unfolding is_crypto_handler without check_identity
  update_access_details a access_token homeserver device_id = do
    c ← client_at a
    let device : Option String = elim device_id [ none ↦ c.device_id | some d ↦ some d ]
    if not (truthy access_token) && not (truthy homeserver)
        then skip
        else if opt_eq access_token c.access_token
            && opt_eq homeserver c.homeserver
            && opt_eq device c.device_id
        then skip
        else do
          let m = make_client env c homeserver access_token device
          who ← ask World.whoami (env.whoami m)
          check_identity c device who
          stop_sync a
          modify_client a (switch_client m access_token homeserver device)
          n ← client_at a
          if enable_crypto env n
              then (do modify_client a (prepare_crypto env); start_crypto env a)
              else modify_client a (λ o. record o { crypto = false })
          start_sync a
